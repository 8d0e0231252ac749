-- ===== src/Index/Requests/Tests.antt =====
-- A request for an image whose file is gone.
use imageboard.Base.{◌≡◌, refl, [], ◌∷◌, ◌++◌, map, true, false, none, some}
use imageboard.Text.{Bytes, codes, parse_int, split, join, bytes_eq, any_byte, runes}
use imageboard.Password.{contains_control}
use imageboard.Paths.{canonical_path}
use imageboard.Gallery.{path_id}
use imageboard.Index.Jobs.{Counters, active_job, new_job, succeed}
use imageboard.Index.Walk.{Scanner, saved}
use imageboard.Index.Walk.Process.{World, made, missing, finished, process}
use imageboard.Index.Walk.Refines.{indexed}
use imageboard.Index.Requests.{Trouble, refused, Library, path_at, get_image_file}
use imageboard.Index.Requests.Gone.{get_image_file-process}

abbrev no_trouble : Trouble
no_trouble = record {
  insert_fails = false;
  select_fails = false;
  update_fails = false;
  hit_fails = false;
  id = 8;
}

abbrev gone : Bytes
gone = codes "a$b.png"

abbrev library : Library
library = record {
  rows =
      (record {
        id = 3;
        image = record {
          path = gone;
          name = codes "b.png";
          size = some 9;
          hits = 0;
          uploader = none;
          last_job = some 1;
        };
      })
      ∷ [];
  jobs = [];
  hits = [];
}

abbrev worker : Scanner
worker = record {
  job = 8;
  requested_by = some 4;
  max_depth = some 0;
  batch_size = 2;
  lower = λ s. s;
  flushes = λ n. saved;
}

abbrev world : World
world = record { located = true; cancelled = false; deletes = made }

id_3 : path_id (codes "3") ≡ some 3
unfolding path_id parse_int
id_3 = refl

gone_canonical : canonical_path gone true ≡ some gone
unfolding canonical_path split bytes_eq any_byte contains_control runes join
gone_canonical = refl

get_image_file-process_example :
    let (reply, l') =
      get_image_file (λ path. false) (codes "/media/") no_trouble 4 (codes "3") library in
    let (ending, images') = process worker world gone missing (map (λ r. r.image) l'.rows) in
    (reply ≡ refused 404)
    × (l'.jobs ≡ [] ++ new_job 8 gone (some 0) 4 ∷ [])
    × ((counts : Counters) × (ending ≡ finished succeed none counts))
    × (indexed images' gone ≡ false)
unfolding path_at active_job
get_image_file-process_example =
    get_image_file-process (λ path. false) (codes "/media/") no_trouble 4 3 (codes "3") gone library
      worker world id_3 refl refl refl gone_canonical refl refl refl refl refl
