-- ===== src/Explorer/Entries.antt =====
-- The entries of a listing, go_api/cmd/api/handlers.go `explore`.
use imageboard.Base.{
  ℕ, ◌≡◌, refl, subst, ap, ◌∙◌, sym, ◌∷◌, [], List, Bool, true, false, ◌&&◌, not, Option, none,
  some, if◌then◌else◌, arith, Bool-cases, inl, inr,
}
use imageboard.Text.{Bytes, All, All-mono, bytes_eq_refl}
use imageboard.Accounts.{is_none}
use imageboard.Paths.{safe_component, canonical_path, join_canonical}
use imageboard.Paths.Kinds.{supported_media, supported_document}
use imageboard.Gallery.Context.{has_name}
use imageboard.Explorer.{
  Kind, folder, regular, link, special, DirEntry, Entry, entry_at, file_entry, entries_of, add_path,
  add_entry, media_paths, mark, Place, opened, Reply, refused, no_paths, listing, list_entries,
  explore_found, explore_path, explore, is_less,
}
use imageboard.Explorer.Joined.{join_canonical-canonical_path}

-- An entry, if there is one, has this path.
abbrev AtPath : Bytes → Option Entry → Type 0
AtPath path none = Unit
AtPath path (some e) = e.path ≡ path

file_entry-AtPath :
    (lower : Bytes → Bytes) (media_url name path : Bytes) (size : ℕ)
    → AtPath path (file_entry lower media_url name path size)
file_entry-AtPath lower media_url name path size =
    elim (Bool-cases (supported_document lower name)) [
      | inl q ↦ rw q refl
      | inr q ↦
          rw q
            (elim (Bool-cases (supported_media lower name)) [ inl p ↦ rw p refl | inr p ↦ rw p tt ])
    ]

entry_at-AtPath :
    (lower : Bytes → Bytes) (media_url name path : Bytes) (kind : Kind) (size : Option ℕ)
    → AtPath path (entry_at lower media_url name path kind size)
entry_at-AtPath lower media_url name path link size = tt
entry_at-AtPath lower media_url name path folder none = tt
entry_at-AtPath lower media_url name path folder (some size) = refl
entry_at-AtPath lower media_url name path regular none = tt
entry_at-AtPath lower media_url name path regular (some size) =
    file_entry-AtPath lower media_url name path size
entry_at-AtPath lower media_url name path special none = tt
entry_at-AtPath lower media_url name path special (some size) = tt

abbrev HasCanonical : Entry → Type 0
HasCanonical e = canonical_path e.path false ≡ some e.path

add_entry-All :
    (path : Bytes) (o : Option Entry) (others : List Entry)
    → AtPath path o
    → canonical_path path false ≡ some path
    → All HasCanonical others
    → All HasCanonical (add_entry o others)
add_entry-All path none others a c h = h
add_entry-All path (some e) others a c h =
    (subst (λ p. canonical_path p false ≡ some p) (sym a) c, h)

entries_of-All :
    (lower : Bytes → Bytes) (media_url requested canonical : Bytes) (found : List DirEntry)
    → canonical_path requested true ≡ some canonical
    → All HasCanonical (entries_of lower media_url canonical found)
unfolding entries_of
entries_of-All lower media_url requested canonical [] c = tt
entries_of-All lower media_url requested canonical (d ∷ found) c =
    let rest = entries_of-All lower media_url requested canonical found c in
    let path = join_canonical canonical d.name in
    elim (Bool-cases (safe_component d.name)) [
      | inr q ↦ rw (q, entries_of) rest
      | inl q ↦
          rw (q, entries_of)
            (add_entry-All path (entry_at lower media_url d.name path d.kind d.size)
              (entries_of lower media_url canonical found)
              (entry_at-AtPath lower media_url d.name path d.kind d.size)
              (join_canonical-canonical_path requested canonical d.name c q) rest)
    ]

-- An entry with a link to its media is among the media paths.
abbrev IsAsked : List Bytes → Entry → Type 0
IsAsked paths e = is_none e.media_url ≡ false → has_name e.path paths ≡ true

add_path_asked :
    (o : Option Bytes) (path : Bytes) (paths : List Bytes)
    → is_none o ≡ false
    → has_name path (add_path o path paths) ≡ true
unfolding has_name
add_path_asked none path paths h = absurd (ground (arith, h))
add_path_asked (some url) path paths h = rw (bytes_eq_refl path) refl

add_path_keeps :
    (o : Option Bytes) (path asked : Bytes) (paths : List Bytes)
    → has_name asked paths ≡ true
    → has_name asked (add_path o path paths) ≡ true
unfolding has_name
add_path_keeps none path asked paths h = h
add_path_keeps (some url) path asked paths h = ground (arith, h)

media_paths-IsAsked : (entries : List Entry) → All (IsAsked (media_paths entries)) entries
unfolding media_paths
media_paths-IsAsked [] = tt
media_paths-IsAsked (e ∷ entries) = (
  add_path_asked e.media_url e.path (media_paths entries),
  All-mono (IsAsked (media_paths entries)) (IsAsked (media_paths (e ∷ entries))) entries
      (λ f asked m. add_path_keeps e.media_url e.path f.path (media_paths entries) (asked m))
      (media_paths-IsAsked entries),
)

-- What holds of each entry that is given out.
abbrev pub IsListed : (Bytes → Bool) → Entry → Type 0
IsListed answered e =
    (canonical_path e.path false ≡ some e.path)
    × (is_none e.media_url ≡ false → e.indexed ≡ answered e.path)

mark-IsListed :
    (answered : Bytes → Bool) (paths : List Bytes) (entries : List Entry)
    → All HasCanonical entries
    → All (IsAsked paths) entries
    → All (IsListed answered) (mark answered paths entries)
unfolding mark
mark-IsListed answered paths [] c a = tt
mark-IsListed answered paths (e ∷ entries) c a =
    ((c.0, λ m. rw (a.0 m) refl), mark-IsListed answered paths entries c.1 a.1)

list_entries_works :
    (p : Place) (canonical : Bytes) (entries : List Entry)
    → p.query_fails ≡ false
    → list_entries p canonical entries
      ≡ listing canonical (p.sort (is_less p.lower) (mark p.answered (media_paths entries) entries))
list_entries_works p canonical entries q =
    let out : Reply =
      listing canonical
        (p.sort (is_less p.lower) (mark p.answered (media_paths entries) entries)) in
    ap (λ b. if not (no_paths (media_paths entries)) && b then refused 500 else out) q
    ∙ elim (Bool-cases (no_paths (media_paths entries))) [ inl n ↦ rw n refl | inr n ↦ rw n refl ]

-- A folder that is asked for by its canonical path and can be read, while the query for its media
-- works: a listing is given out, in which every entry has a canonical path, and an entry with a link
-- to its media is marked as indexed exactly if the index has its path. What sorts the entries adds
-- none.
pub explore_lists :
    (p : Place) (requested canonical : Bytes) (found : List DirEntry)
    → ((P : Entry → Type 0) (less : Entry → Entry → Bool) (entries : List Entry)
        → All P entries
        → All P (p.sort less entries))
    → canonical_path requested true ≡ some canonical
    → p.existing canonical ≡ opened found
    → p.query_fails ≡ false
    → (entries : List Entry) × (explore p requested ≡ listing canonical entries)
      × All (IsListed p.answered) entries
unfolding explore
explore_lists p requested canonical found sorts c e q =
    let entries = entries_of p.lower p.media_url canonical found in
    let marked = mark p.answered (media_paths entries) entries in
    (
      p.sort (is_less p.lower) marked,
      ap (explore_path p) c
          ∙ ap (explore_found p canonical) e
          ∙ list_entries_works p canonical entries q,
      sorts (IsListed p.answered) (is_less p.lower) marked (
          mark-IsListed p.answered (media_paths entries) entries
            (entries_of-All p.lower p.media_url requested canonical found c)
            (media_paths-IsAsked entries)),
    )
