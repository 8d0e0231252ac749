-- ===== src/Paths/Tests.antt =====
-- Links at concrete paths.
use imageboard.Base.{◌≡◌, refl, ◌++◌, false, ◌||◌, if◌then◌else◌, some, arith}
use imageboard.Text.{Bytes, codes, bytes_eq, split, join, any_byte, runes}
use imageboard.Password.{contains_control}
use imageboard.Paths.{canonical_path, encoded_path, authorize_media}
use imageboard.Paths.Links.{authorize_media-encoded_path}

abbrev picture : Bytes
picture = codes "my cats$a?.jpg"

picture_canonical : canonical_path picture false ≡ some picture
unfolding canonical_path split bytes_eq any_byte contains_control runes join
picture_canonical = refl

encoded_picture : encoded_path picture ≡ codes "my%20cats/a%3F.jpg"
unfolding encoded_path join split any_byte
encoded_picture = refl

authorize_media-encoded_path_example :
    authorize_media (bytes_eq picture) false (codes "/media/" ++ encoded_path picture)
    ≡ (if false || bytes_eq picture picture then 204 else 403)
authorize_media-encoded_path_example =
    authorize_media-encoded_path (bytes_eq picture) false picture (ground arith) picture_canonical
