-- ===== src/Index/Images.antt =====
-- The image table and what a scan does to it, index_worker/cmd/index-worker/main.go:
-- `upsertBatch`, `staleDeleteQuery`, `deindexStale`, `deindexMissingScope`.
-- A path is the list of its characters.
pub mod Like
pub mod Reconcile
pub mod Count
use imageboard.Base.{
  ℕ, suc, ◌+◌, ◌∷◌, [], ◌++◌, List, Bool, true, false, ◌&&◌, ◌||◌, not, Option, none, some, ◌==◌,
  if◌then◌else◌, length,
}
use imageboard.Text.{Bytes, bytes_eq, is_nil}
use imageboard.Index.Jobs.{Counters}

pub record Image : Type 0 where
  pub path : Bytes
  pub name : Bytes
  pub size : Option ℕ
  pub hits : ℕ
  pub uploader : Option ℕ
  pub last_job : Option ℕ

-- `mediaFile`, without what only the thumbnails use.
pub record File : Type 0 where
  pub path : Bytes
  pub name : Bytes
  pub size : ℕ

unfoldable pub find_image : Bytes → List Image → Option Image
find_image path [] = none
find_image path (i ∷ rest) = if bytes_eq i.path path then some i else find_image path rest

-- The row that INSERT … ON CONFLICT (image_path) DO UPDATE leaves.
unfoldable pub stamp : ℕ → Option ℕ → File → Option Image → Image
stamp job requested_by f none = record {
  path = f.path;
  name = f.name;
  size = some f.size;
  hits = 0;
  uploader = requested_by;
  last_job = some job;
}
stamp job requested_by f (some old) = record old { size = some f.size; last_job = some job }

unfoldable pub upsert : ℕ → Option ℕ → File → List Image → List Image
unfolding stamp
upsert job requested_by f [] = stamp job requested_by f none ∷ []
upsert job requested_by f (i ∷ rest) =
    if bytes_eq i.path f.path
    then stamp job requested_by f (some i) ∷ rest
    else i ∷ upsert job requested_by f rest

unfoldable pub upsert_all : ℕ → Option ℕ → List File → List Image → List Image
upsert_all job requested_by [] images = images
upsert_all job requested_by (f ∷ files) images =
    upsert_all job requested_by files (upsert job requested_by f images)

-- The switch of `upsertBatch`, on the rows as they were before the batch.
abbrev is_size : Option ℕ → ℕ → Bool
is_size none n = false
is_size (some m) n = m == n

unfoldable pub count_file : File → Option Image → Counters → Counters
count_file f none c = record c { indexed = c.indexed + 1 }
count_file f (some old) c =
    if is_size old.size f.size
    then record c { skipped = c.skipped + 1 }
    else record c { updated = c.updated + 1 }

unfoldable pub count_files : List Image → List File → Counters → Counters
count_files images [] c = c
count_files images (f ∷ files) c =
    count_files images files (count_file f (find_image f.path images) c)

-- `upsertBatch` up to its commit: the counters and the table after a batch.
unfoldable pub upsert_batch :
    ℕ → Option ℕ → List File → Counters × List Image → Counters × List Image
upsert_batch job requested_by files (c, images) =
    let c' = count_files images files c in
    (
      record c' { processed = c'.processed + length files },
      upsert_all job requested_by files images,
    )

-- SQL's LIKE: `%` is any text, `_` any character, `\` makes the next character plain.
any_suffix : (Bytes → Bool) → Bytes → Bool
any_suffix k [] = k []
any_suffix k (c ∷ t) = k (c ∷ t) || any_suffix k t

one_then : (ℕ → Bool) → (Bytes → Bool) → Bytes → Bool
one_then p k [] = false
one_then p k (c ∷ t) = p c && k t

unfoldable pub like : Bytes → Bytes → Bool
unfolding any_suffix one_then
like [] t = is_nil t
like (p ∷ []) t =
    if p == b'%'
    then true
    else if p == b'_'
    then one_then (λ c. true) is_nil t
    else if p == 0x5C
    then false
    else one_then (λ c. c == p) is_nil t
like (p ∷ q ∷ ps) t =
    if p == b'%'
    then any_suffix (like (q ∷ ps)) t
    else if p == b'_'
    then one_then (λ c. true) (like (q ∷ ps)) t
    else if p == 0x5C
    then one_then (λ c. c == q) (like ps) t
    else one_then (λ c. c == p) (like (q ∷ ps)) t

-- The scope of `staleDeleteQuery`: `image_path = $1 OR image_path LIKE $1 || '$%'`.
unfoldable pub in_scope : Bytes → Bytes → Bool
in_scope root path = is_nil root || bytes_eq path root || like (root ++ b'$' ∷ b'%' ∷ []) path

-- `last_index_job IS DISTINCT FROM …`
abbrev pub is_stale : ℕ → Option ℕ → Bool
is_stale job none = true
is_stale job (some j) = not (j == job)

unfoldable pub delete_if : (Image → Bool) → List Image → List Image
delete_if p [] = []
delete_if p (i ∷ rest) = let kept = delete_if p rest in if p i then kept else i ∷ kept

unfoldable pub deindex_stale : ℕ → Bytes → List Image → List Image
deindex_stale job root = delete_if (λ i. is_stale job i.last_job && in_scope root i.path)

unfoldable pub deindex_missing_scope : Bytes → List Image → List Image
deindex_missing_scope root = delete_if (λ i. in_scope root i.path)
