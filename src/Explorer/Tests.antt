-- ===== src/Explorer/Tests.antt =====
-- A folder with a picture, a text and a hidden link.
use imageboard.Base.{◌≡◌, refl, List, [], ◌∷◌, true, false, some}
use imageboard.Text.{All, codes, split, join, bytes_eq, any_byte, runes}
use imageboard.Password.{contains_control}
use imageboard.Paths.{canonical_path}
use imageboard.Explorer.{DirEntry, regular, link, folder, Entry, Place, opened, listing, explore}
use imageboard.Explorer.Entries.{IsListed, explore_lists}

abbrev in_folder : List DirEntry
in_folder =
    (record { name = codes "a.png"; kind = regular; size = some 3 })
    ∷ (record { name = codes "b.txt"; kind = regular; size = some 1 })
    ∷ (record { name = codes "c.png"; kind = link; size = some 1 })
    ∷ (record { name = codes "d"; kind = folder; size = some 0 })
    ∷ []

abbrev place : Place
place = record {
  existing = λ path. opened in_folder;
  query_fails = false;
  answered = λ path. bytes_eq path (codes "x$a.png");
  media_url = codes "/media";
  lower = λ s. s;
  sort = λ less entries. entries;
}

x_canonical : canonical_path (codes "x") true ≡ some (codes "x")
unfolding canonical_path split bytes_eq any_byte contains_control runes join
x_canonical = refl

explore_lists_example :
    (entries : List Entry) × (explore place (codes "x") ≡ listing (codes "x") entries)
    × All (IsListed place.answered) entries
explore_lists_example =
    explore_lists place (codes "x") (codes "x") in_folder (λ P less entries h. h) x_canonical refl
      refl
