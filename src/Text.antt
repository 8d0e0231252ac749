-- ===== src/Text.antt =====
-- Go strings as byte lists, and the parts of `strings`, `strconv`, `encoding/hex` and
-- `unicode/utf8` that the program calls.
mod Compare
mod Parts
mod Numbers
mod Utf8
mod Space
unfoldable pub use Compare.*
unfoldable pub use Parts.*
unfoldable pub use Numbers.*
unfoldable pub use Utf8.*
unfoldable pub use Space.*
