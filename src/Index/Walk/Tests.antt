-- ===== src/Index/Walk/Tests.antt =====
-- Jobs of the index worker on a small media tree.
use imageboard.Base.{
  ℕ, ◌≡◌, refl, arith, ◌∷◌, [], List, true, false, ◌++◌, Option, none, some, length,
}
use imageboard.Text.{Bytes, codes, split, bytes_eq, any_byte, join, runes}
use imageboard.Password.{contains_control}
use imageboard.Paths.{encoded_path, safe_component, authorize_media}
use imageboard.Paths.Kinds.{supported_media}
use imageboard.Index.Jobs.{Counters, succeed}
use imageboard.Index.Images.{Image, find_image}
use imageboard.Index.Images.Reconcile.Rows.{UniquePaths, path_taken, listed}
use imageboard.Index.Walk.{
  folder, regular, link, Nodes, nil, cons, Scanner, saved, not_written, Flush, safe_parts,
}
use imageboard.Index.Walk.Process.{World, made, directory, finished, root_parts, process}
use imageboard.Index.Walk.Lists.{media_files_all, unreadable_all}
use imageboard.Index.Walk.Refines.{indexed, reindexed, Undisturbed, process_reconciles}
use imageboard.Index.Walk.Linked.{process_links}
use imageboard.Index.Walk.Keeps.{process_keeps}

abbrev worker : (ℕ → Flush) → Scanner
worker flushes = record {
  job = 7;
  requested_by = some 1;
  max_depth = none;
  batch_size = 2;
  lower = λ s. s;
  flushes = flushes;
}

abbrev good_world : World
good_world = record { located = true; cancelled = false; deletes = made }

abbrev holidays : Option ℕ → Nodes
holidays size =
    cons (folder (codes "d") true (cons (regular (codes "a.png") size) nil))
      (cons (regular (codes "b.txt") (some 1)) (cons (link (codes "c.png")) nil))

abbrev row : Bytes → Image
row path = record {
  path = path;
  name = path;
  size = some 3;
  hits = 2;
  uploader = none;
  last_job = some 6;
}

abbrev rows : List Image
rows = row (codes "r$old.png") ∷ row (codes "q.png") ∷ []

abbrev saves : Scanner
saves = worker (λ n. saved)

saves-Undisturbed : Undisturbed saves good_world
saves-Undisturbed = record {
  always = λ n. refl;
  unlimited = refl;
  located = refl;
  not_cancelled = refl;
  deletes = refl;
}

safe_r : safe_parts (root_parts (codes "r")) ≡ true
unfolding safe_parts root_parts safe_component split bytes_eq any_byte contains_control runes
safe_r = refl

readable_r : unreadable_all saves (root_parts (codes "r")) 0 (holidays (some 3)) ≡ 0
unfolding unreadable_all root_parts safe_parts safe_component supported_media split bytes_eq
    any_byte contains_control runes
readable_r = refl

rows-UniquePaths : UniquePaths rows
unfolding path_taken bytes_eq
rows-UniquePaths = (refl, (refl, tt))

listed_d :
    listed
      (codes "r$d$a.png")
      (media_files_all saves (root_parts (codes "r")) 0 (holidays (some 3)))
    ≡ true
unfolding listed media_files_all root_parts safe_parts safe_component supported_media split bytes_eq
    any_byte contains_control runes join
listed_d = refl

process_reconciles_example :
    let files = media_files_all saves (root_parts (codes "r")) 0 (holidays (some 3)) in
    let result = process saves good_world (codes "r") (directory true (holidays (some 3))) rows in
    (counts : Counters) × (result.0 ≡ finished succeed none counts)
    × (counts.discovered ≡ length files)
    × (counts.errors ≡ 0)
    × ((path : Bytes) → indexed result.1 path ≡ reindexed (codes "r") files (indexed rows) path)
unfolding any_byte
process_reconciles_example =
    process_reconciles saves good_world (codes "r") (holidays (some 3)) rows saves-Undisturbed
      safe_r readable_r refl rows-UniquePaths (refl, (refl, tt))

process_links_example :
    authorize_media
      (indexed (process saves good_world (codes "r") (directory true (holidays (some 3))) rows).1)
      false
      (codes "/media/" ++ encoded_path (codes "r$d$a.png"))
    ≡ 204
unfolding any_byte
process_links_example =
    process_links saves good_world (codes "r") (holidays (some 3)) rows saves-Undisturbed safe_r
      readable_r refl rows-UniquePaths (refl, (refl, tt)) (codes "r$d$a.png") (ground arith)
      listed_d

process_keeps_example :
    indexed
      (process
        (worker (λ n. not_written))
        good_world
        (codes "r")
        (directory true (holidays none))
        rows).1
      (codes "r$old.png")
    ≡ true
unfolding unreadable_all root_parts safe_parts safe_component supported_media indexed find_image
    split bytes_eq any_byte contains_control runes
process_keeps_example =
    process_keeps (worker (λ n. not_written)) good_world (codes "r") (holidays none) rows
      (codes "r$old.png") refl refl
