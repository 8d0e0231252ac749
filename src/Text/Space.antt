-- ===== src/Text/Space.antt =====
-- `strings.TrimSpace`, `strings.Fields` and `strings.ReplaceAll` of one byte.
use imageboard.Base.{
  ℕ, ◌≡◌, refl, Bool, true, false, ◌&&◌, List, [], ◌∷◌, ◌++◌, ◌==◌, if◌then◌else◌, take, drop,
}
use imageboard.Text.Compare.{Bytes, is_nil}
use imageboard.Text.Parts.{join}
use imageboard.Text.Utf8.{Decoded, decode, is_space}

-- A rune and the bytes that it was read from.
abbrev Chunk : Type 0
Chunk = ℕ × Bytes

chunks_of : List Decoded → Bytes → List Chunk
chunks_of [] s = []
chunks_of ((r, width) ∷ ds) s = (r, take width s) ∷ chunks_of ds (drop width s)

chunks : Bytes → List Chunk
unfolding chunks_of decode
chunks s = chunks_of (decode s) s

bytes_of : List Chunk → Bytes
bytes_of [] = []
bytes_of ((_, bytes) ∷ cs) = bytes ++ bytes_of cs

trim_left : List Chunk → List Chunk
trim_left [] = []
trim_left ((r, bytes) ∷ cs) =
    let rest = trim_left cs in if is_space r then rest else (r, bytes) ∷ cs

no_chunks : List Chunk → Bool
no_chunks [] = true
no_chunks (_ ∷ _) = false

trim_right : List Chunk → List Chunk
unfolding no_chunks
trim_right [] = []
trim_right ((r, bytes) ∷ cs) =
    let rest = trim_right cs in if is_space r && no_chunks rest then [] else (r, bytes) ∷ rest

unfoldable pub trim_space : Bytes → Bytes
unfolding chunks bytes_of trim_left trim_right
trim_space s = bytes_of (trim_right (trim_left (chunks s)))

add_field : Bytes → List Bytes → List Bytes
add_field field rest = if is_nil field then rest else field ∷ rest

fields_of : Bytes → List Chunk → List Bytes
unfolding add_field
fields_of field [] = add_field field []
fields_of field ((r, bytes) ∷ cs) = elim (is_space r) [
  | true ↦ add_field field (fields_of [] cs)
  | false ↦ fields_of (field ++ bytes) cs
]

-- `strings.Join(strings.Fields(s), " ")`
unfoldable pub join_fields : Bytes → Bytes
unfolding chunks fields_of
join_fields s = join b' ' (fields_of [] (chunks s))

unfoldable pub replace_byte : ℕ → ℕ → Bytes → Bytes
replace_byte old new [] = []
replace_byte old new (c ∷ s) = (if c == old then new else c) ∷ replace_byte old new s

trim_space_example :
    trim_space (b' ' ∷ b'a' ∷ b' ' ∷ b'b' ∷ 0xC2 ∷ 0xA0 ∷ b'\n' ∷ []) ≡ b'a' ∷ b' ' ∷ b'b' ∷ []
unfolding trim_space
trim_space_example = refl

join_fields_example :
    join_fields (b' ' ∷ b'a' ∷ b' ' ∷ 0xC2 ∷ 0xA0 ∷ b'b' ∷ b' ' ∷ []) ≡ b'a' ∷ b' ' ∷ b'b' ∷ []
unfolding join_fields join
join_fields_example = refl
