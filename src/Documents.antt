-- ===== src/Documents.antt =====
-- The text of a document, go_api/cmd/api/handlers.go `readDocument`.
pub mod Shown
pub mod Cut
mod Tests
use imageboard.Base.{
  suc, ℕ, Bool, true, false, ◌||◌, not, Option, none, some, ltb, if◌then◌else◌, length, take,
}
use imageboard.Text.{Bytes, valid_utf8}
use imageboard.Paths.{canonical_path}
use imageboard.Paths.Kinds.{supported_document}

-- What `existingPath` finds: its name, whether it is a regular file, and its bytes, if it can be
-- opened and read.
pub record Document : Type 0 where
  pub name : Bytes
  pub regular : Bool
  pub opens : Bool
  pub content : Option Bytes

pub data Reply : Type 0 where
  refused : ℕ → Reply
  shown : Bytes → Bytes → Bool → Reply

abbrev pub max_document_bytes : ℕ
max_document_bytes = 1048576

-- What is read is the content as far as the limit and one byte more.
abbrev pub show_read : ℕ → Bytes → Bytes → Reply
show_read limit path read =
    let truncated = ltb limit (length read) in
    let content = if truncated then take limit read else read in
    if not (valid_utf8 content) then refused 422 else shown path content truncated

abbrev pub show_content : ℕ → Bytes → Option Bytes → Reply
show_content limit path none = refused 500
show_content limit path (some content) = show_read limit path (take (suc limit) content)

abbrev pub show_document : (Bytes → Bytes) → Bytes → Option Document → Reply
show_document lower path none = refused 404
show_document lower path (some d) =
    if not d.regular || not (supported_document lower d.name)
    then refused 404
    else if not d.opens
    then refused 404
    else show_content max_document_bytes path d.content

abbrev pub show_path : (Bytes → Bytes) → (Bytes → Option Document) → Option Bytes → Reply
show_path lower existing none = refused 422
show_path lower existing (some path) = show_document lower path (existing path)

-- `readDocument`, for the path that the query gives.
unfoldable pub read_document : (Bytes → Bytes) → (Bytes → Option Document) → Bytes → Reply
read_document lower existing requested =
    if ltb 4096 (length requested)
    then refused 422
    else show_path lower existing (canonical_path requested false)
