-- ===== src/Accounts/Guard.antt =====
-- `accountWrite` of go_api/cmd/api/users.go: what a request must show before a write of the account
-- administration runs. What `mime.ParseMediaType`, `url.Parse` and `strings.EqualFold` make of their
-- arguments are parameters.
use imageboard.Base.{Bool, false, ◌&&◌, not, Option, none, some, if◌then◌else◌}
use imageboard.Text.{Bytes, codes, bytes_eq, is_nil}
use imageboard.Accounts.{Db, Ended, error}

pub record Url : Type 0 where
  pub scheme : Bytes
  pub host : Bytes
  pub has_user : Bool
  pub path : Bytes
  pub raw_query : Bytes
  pub fragment : Bytes

-- What the packages of the Go library make of a header; `none` is an error.
pub record Web : Type 0 where
  pub media_type : Bytes → Option Bytes
  pub parse_url : Bytes → Option Url
  pub equal_fold : Bytes → Bytes → Bool

-- The headers that are read, empty where they are absent, and the connection.
pub record Headers : Type 0 where
  pub content_type : Bytes
  pub request_marker : Bytes
  pub fetch_site : Bytes
  pub origin : Bytes
  pub forwarded_proto : Bytes
  pub tls : Bool
  pub host : Bytes

abbrev pub is_text : Option Bytes → Bytes → Bool
is_text none text = false
is_text (some read) text = bytes_eq read text

unfoldable pub is_json_request : Web → Headers → Bool
is_json_request web r =
    is_text (web.media_type r.content_type) (codes "application/json")
    && bytes_eq r.request_marker (codes "account")

unfoldable pub is_other_site : Bytes → Bool
is_other_site site =
    not (is_nil site)
    && not (bytes_eq site (codes "same-origin"))
    && not (bytes_eq site (codes "none"))

unfoldable pub scheme_of : Headers → Bytes
scheme_of r =
    if is_nil r.forwarded_proto
    then (if r.tls then codes "https" else codes "http")
    else r.forwarded_proto

unfoldable pub is_own_origin : Web → Headers → Option Url → Bool
is_own_origin web r none = false
is_own_origin web r (some u) =
    bytes_eq u.scheme (scheme_of r)
    && web.equal_fold u.host r.host
    && not u.has_user
    && is_nil u.path
    && is_nil u.raw_query
    && is_nil u.fragment

-- `accountWrite`, before the handler that it lets through to.
unfoldable pub account_write : Web → Headers → (Db → Ended) → Db → Ended
unfolding is_json_request is_other_site is_own_origin scheme_of
account_write web r next db =
    if not (is_json_request web r)
    then (error 403 "Same-origin JSON request required", db)
    else if is_other_site r.fetch_site
    then (error 403 "Cross-origin request rejected", db)
    else if not (is_nil r.origin) && not (is_own_origin web r (web.parse_url r.origin))
    then (error 403 "Cross-origin request rejected", db)
    else next db
