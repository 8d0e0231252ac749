-- ===== src/Index/Walk/Linked.antt =====
-- The files that a job of the index worker indexes, and the API's links to them.
use imageboard.Base.{
  ◌≡◌, refl, ◌∷◌, [], ◌++◌, List, true, false, arith, Bool-cases, inl, inr, sym, ◌∙◌, ap,
}
use imageboard.Text.{Bytes, codes, AreBytes, bytes_eq, bytes_eq_iff, All}
use imageboard.Paths.{canonical_path, encoded_path, authorize_media}
use imageboard.Paths.Links.{authorize_media-encoded_path}
use imageboard.Index.Images.{Image, File}
use imageboard.Index.Images.Like.{IsPlain, is_under}
use imageboard.Index.Images.Reconcile.Rows.{UniquePaths, IsFresh, listed}
use imageboard.Index.Walk.{Nodes, Scanner, safe_parts}
use imageboard.Index.Walk.Process.{World, directory, root_parts, process}
use imageboard.Index.Walk.Lists.{media_files_all, unreadable_all}
use imageboard.Index.Walk.Beneath.{
  GoesOn, GoesOn-is_under, GoesOn-canonical_path, media_files_all-GoesOn,
}
use imageboard.Index.Walk.Refines.{indexed, reindexed, Undisturbed, process_reconciles}

-- A path that is listed is that of one of the files.
listed-All :
    (P : File → Type 0) (path : Bytes) (files : List File)
    → All P files
    → listed path files ≡ true
    → (f : File) × (f.path ≡ path) × P f
unfolding listed
listed-All P path [] h l = absurd (ground (arith, l))
listed-All P path (f ∷ files) h l = elim (Bool-cases (bytes_eq f.path path)) [
  | inl e ↦ (f, (bytes_eq_iff f.path path).0 e, h.0)
  | inr e ↦ listed-All P path files h.1 (ground (arith, l, e))
]

-- A job on a folder with a root of plain characters and safe parts that is found to lie below the
-- media root, without a limit on depth, where everything can be read, every batch is saved, nobody
-- cancels and the deletion is made, on a table with unique paths and no row that bears the job's
-- mark: afterwards, the link of each media file that the job has listed, of a path of bytes, is let
-- through to users who are no administrators.
pub process_links :
    (w : Scanner) (world : World) (root : Bytes) (entries : Nodes) (images : List Image)
    → Undisturbed w world
    → safe_parts (root_parts root) ≡ true
    → unreadable_all w (root_parts root) 0 entries ≡ 0
    → IsPlain root
    → UniquePaths images
    → IsFresh w.job images
    → (path : Bytes) → AreBytes path
    → listed path (media_files_all w (root_parts root) 0 entries) ≡ true
    → authorize_media
        (indexed (process w world root (directory true entries) images).1)
        false
        (codes "/media/" ++ encoded_path path)
      ≡ 204
unfolding reindexed
process_links w world root entries images u safe readable plain unique fresh path bytes l =
    let files = media_files_all w (root_parts root) 0 entries in
    let (f, e, g) =
      listed-All (GoesOn (root_parts root)) path files
        (media_files_all-GoesOn w (root_parts root) 0 entries) l in
    let under : is_under root path ≡ true = ap (is_under root) (sym e) ∙ GoesOn-is_under root f g in
    let canonical =
      sym (ap (λ p. canonical_path p false) e) ∙ GoesOn-canonical_path (root_parts root) f g in
    let after = (process w world root (directory true entries) images).1 in
    let (_, _, _, _, paths) =
      process_reconciles w world root entries images u safe readable plain unique fresh in
    let found : indexed after path ≡ true = paths path ∙ rw (under, l) refl in
    authorize_media-encoded_path (indexed after) false path bytes canonical ∙ rw found refl
