-- ===== src/Search/Listing.antt =====
-- The queries of `listImages`, go_api/cmd/api/handlers.go, up to the calls of the database.
use imageboard.Base.{
  ℕ, zero, suc, ◌+◌, ◌-◌, ◌*◌, ◌%◌, ◌^◌, ◌≤◌, ◌<◌, ◌≡◌, refl, ◌∷◌, [], ◌++◌, List, Bool, true,
  false, Option, none, some, ltb, length, arith, min, if◌then◌else◌, length-append,
}
use imageboard.Text.{Bytes, codes, is_nil, itoa, parse_int, positive, int64_bound, Signed}
use imageboard.Search.{
  Node, Search, exhausted, invalid, everything, root, normalize_search_term, parse_image_search,
}
use imageboard.Search.Compile.{
  Argument, word, number, add_argument, compile_image_search, reword, compile_image_search-reword,
}

-- `positiveInt`
unfoldable pub positive_int : Bytes → ℕ → ℕ
positive_int value fallback = elim (positive (parse_int int64_bound value)) [
  | none ↦ fallback
  | some n ↦ n
]

-- A number that is not negative, as an `int` of 64 bits holds it.
unfoldable pub wrap_int : ℕ → Signed
wrap_int n = let m = n % 2 ^ 64 in if ltb m (2 ^ 63) then (false, m) else (true, 2 ^ 64 - m)

-- The query's parameters, and the user who asks.
pub record ListRequest : Type 0 where
  pub q : Bytes
  pub tag : Bytes
  pub page : Bytes
  pub limit : Bytes
  pub untagged : Bool
  pub favorite : Bool
  pub user_id : ℕ

-- The text of the filters, joined with AND, and the arguments.
abbrev Filters : Type 0
Filters = Bytes × List Argument

abbrev and_filter : Filters → Bytes → List Argument → Filters
and_filter filters sql arguments = (filters.0 ++ codes " AND " ++ sql, arguments)

unfoldable pub add_search : Option Node → Filters → Filters
add_search none filters = filters
add_search (some node) filters =
    let compiled = compile_image_search node filters.1 in and_filter filters compiled.0 compiled.1

unfoldable pub add_tag : (Bytes → Bytes) → Bytes → Filters → Filters
add_tag lower name filters =
    if is_nil name
    then filters
    else (let added = add_argument (word (normalize_search_term lower name)) filters.1 in
        and_filter filters
          (codes
              "EXISTS (SELECT 1 FROM tag_image ti JOIN tag t ON t.id = ti.tag WHERE ti.image = i.id AND translate(lower(t.name), '_', ' ') = "
            ++ added.0
            ++ codes ")")
          added.1)

unfoldable pub add_untagged : Bool → Filters → Filters
add_untagged untagged filters =
    if untagged
    then and_filter filters (codes "NOT EXISTS (SELECT 1 FROM tag_image ti WHERE ti.image = i.id)")
        filters.1
    else filters

unfoldable pub add_favorite : Bool → ℕ → Filters → Filters
add_favorite favorite user_id filters =
    if favorite
    then (let added = add_argument (number (false, user_id)) filters.1 in
        and_filter filters
          (codes
              "EXISTS (SELECT 1 FROM image_favorite favorite WHERE favorite.image_id = i.id AND favorite.user_id = "
            ++ added.0
            ++ codes ")")
          added.1)
    else filters

unfoldable pub filters_of : (Bytes → Bytes) → ListRequest → Option Node → Filters
filters_of lower r node =
    add_favorite r.favorite r.user_id
      (add_untagged r.untagged (add_tag lower r.tag (add_search node (codes "TRUE", []))))

-- The reply 422, or the two queries: the count's, with its arguments, and the rows', with theirs.
pub data Listing : Type 0 where
  unprocessable : Listing
  queries : Bytes → List Argument → Bytes → List Argument → Listing

unfoldable pub limit_of : ListRequest → ℕ
limit_of r = min (positive_int r.limit 30) 100000

-- The arguments of the rows' query end with the limit and the offset.
unfoldable pub rows_arguments : ListRequest → List Argument → List Argument
rows_arguments r arguments =
    arguments
    ++ number (false, limit_of r)
      ∷ number (wrap_int ((positive_int r.page 1 - 1) * limit_of r))
      ∷ []

unfoldable pub select_images : ListRequest → Filters → Listing
select_images r filters =
    let arguments = rows_arguments r filters.1 in
    queries (codes "SELECT count(*) FROM image i WHERE " ++ filters.0) filters.1
      (codes
          "SELECT i.id, i.name, i.image_path, i.created_date, i.file_size, i.hits, u.name\nFROM image i LEFT JOIN \"user\" u ON u.id = i.uploader WHERE "
        ++ filters.0
        ++ codes " ORDER BY i.created_date DESC, i.id DESC LIMIT $"
        ++ itoa (length arguments - 1)
        ++ codes " OFFSET $"
        ++ itoa (length arguments))
      arguments

unfoldable pub list_search : (Bytes → Bytes) → ListRequest → Search → Listing
list_search lower r exhausted = unprocessable
list_search lower r invalid = unprocessable
list_search lower r everything = select_images r (filters_of lower r none)
list_search lower r (root node) = select_images r (filters_of lower r (some node))

unfoldable pub list_images : (Bytes → Bytes) → ListRequest → Listing
list_images lower r =
    if ltb 100 (length r.tag)
    then unprocessable
    else list_search lower r (parse_image_search lower r.q)

-- The texts of the queries.
abbrev pub texts : Listing → Bytes × Bytes
texts unprocessable = ([], [])
texts (queries count_sql count_arguments rows_sql rows_arguments) = (count_sql, rows_sql)

-- Filters with the same text and the same number of arguments.
record Alike (one other : Filters) : Type 0 where
  text : one.0 ≡ other.0
  size : length one.1 ≡ length other.1

module _ {one other : Filters} (alike : Alike one other) where
  add_tag-Alike :
      (lower : Bytes → Bytes) (name name' : Bytes)
      → is_nil name ≡ is_nil name'
      → Alike (add_tag lower name one) (add_tag lower name' other)
  unfolding add_tag add_argument
  add_tag-Alike lower [] [] h = record { text = alike.text; size = alike.size }
  add_tag-Alike lower [] (_ ∷ _) h = absurd (ground arith)
  add_tag-Alike lower (_ ∷ _) [] h = absurd (ground arith)
  add_tag-Alike lower (c ∷ name) (d ∷ name') h = record {
    text = rw (alike.text, alike.size) refl;
    size = omega (
      arith,
      alike.size,
      length-append one.1 (word (normalize_search_term lower (c ∷ name)) ∷ []),
      length-append other.1 (word (normalize_search_term lower (d ∷ name')) ∷ []),
    );
  }

  add_untagged-Alike : (b : Bool) → Alike (add_untagged b one) (add_untagged b other)
  unfolding add_untagged
  add_untagged-Alike false = alike
  add_untagged-Alike true = record { text = rw alike.text refl; size = alike.size }

  add_favorite-Alike :
      (b : Bool) (user user' : ℕ) → Alike (add_favorite b user one) (add_favorite b user' other)
  unfolding add_favorite add_argument
  add_favorite-Alike false user user' = alike
  add_favorite-Alike true user user' = record {
    text = rw (alike.text, alike.size) refl;
    size = omega (
      arith,
      alike.size,
      length-append one.1 (number (false, user) ∷ []),
      length-append other.1 (number (false, user') ∷ []),
    );
  }

  add_search-Alike :
      (f : Bytes → Bytes) (node : Node)
      → Alike (add_search (some (reword f node)) one) (add_search (some node) other)
  unfolding add_search
  add_search-Alike f node =
      let compiled = compile_image_search-reword f node one.1 other.1 alike.size in
      record { text = rw (alike.text, compiled.0) refl; size = compiled.1 }

filters_of-Alike :
    (lower f : Bytes → Bytes) (r r' : ListRequest) (node : Node)
    → is_nil r.tag ≡ is_nil r'.tag
    → r.untagged ≡ r'.untagged
    → r.favorite ≡ r'.favorite
    → Alike (filters_of lower r (some (reword f node))) (filters_of lower r' (some node))
unfolding filters_of
filters_of-Alike lower f r r' node t u v =
    rw (u, v)
      (add_favorite-Alike
        (add_untagged-Alike
          (add_tag-Alike (add_search-Alike record { text = refl; size = refl } f node) lower r.tag
            r'.tag t)
          r'.untagged)
        r'.favorite r.user_id r'.user_id)

length-rows_arguments :
    (r : ListRequest) (arguments : List Argument)
    → length (rows_arguments r arguments) ≡ length arguments + 2
unfolding rows_arguments
length-rows_arguments r arguments = omega (
  arith,
  length-append arguments (
      number (false, limit_of r)
      ∷ number (wrap_int ((positive_int r.page 1 - 1) * limit_of r))
      ∷ []),
)

short_tag : (name : Bytes) → length name ≤ 100 → ltb 100 (length name) ≡ false
short_tag name h = ground arith

select_images-Alike :
    (r r' : ListRequest) (one other : Filters)
    → Alike one other
    → texts (select_images r one) ≡ texts (select_images r' other)
unfolding select_images
select_images-Alike r r' one other alike =
    rw (length-rows_arguments r one.1, length-rows_arguments r' other.1, alike.text, alike.size)
      refl

-- Two requests with the same settings, whose searches differ in their words alone, are given the
-- same SQL: no word of a user stands in it.
pub list_images-reword :
    (lower f : Bytes → Bytes) (r r' : ListRequest) (node : Node)
    → parse_image_search lower r.q ≡ root (reword f node)
    → parse_image_search lower r'.q ≡ root node
    → length r.tag ≤ 100
    → length r'.tag ≤ 100
    → is_nil r.tag ≡ is_nil r'.tag
    → r.untagged ≡ r'.untagged
    → r.favorite ≡ r'.favorite
    → texts (list_images lower r) ≡ texts (list_images lower r')
unfolding list_images list_search
list_images-reword lower f r r' node p p' l l' t u v =
    rw (short_tag r.tag l, short_tag r'.tag l', p, p')
      (select_images-Alike r r' _ _ (filters_of-Alike lower f r r' node t u v))

wrap_int_lem : (n : ℕ) → n < 2 ^ 63 → wrap_int n ≡ (false, n)
unfolding wrap_int
wrap_int_lem n h = ground arith

limit_of-le : (r : ListRequest) → limit_of r ≤ 100000
unfolding limit_of
limit_of-le r = omega arith

times_le : (m page : ℕ) → page ≤ m → (limit : ℕ) → page * limit ≤ m * limit
times_le m page h zero = omega arith
times_le m page h (suc limit) = omega (arith, times_le m page h limit, h)

times_limit : (page limit : ℕ) → page ≤ 2 ^ 46 → limit ≤ 100000 → page * limit < 2 ^ 63
times_limit page limit h l = omega (arith, times_le (2 ^ 46) page h limit, l)

-- The page's first row does not wrap around: for a page up to 2 ^ 46 the offset is the number of
-- rows before it.
pub rows_arguments_offset :
    (r : ListRequest) (arguments : List Argument)
    → positive_int r.page 1 ≤ 2 ^ 46
    → rows_arguments r arguments
      ≡ arguments
        ++ number (false, limit_of r)
          ∷ number (false, (positive_int r.page 1 - 1) * limit_of r)
          ∷ []
unfolding rows_arguments
rows_arguments_offset r arguments h =
    rw
      (wrap_int_lem ((positive_int r.page 1 - 1) * limit_of r)
        (times_limit (positive_int r.page 1 - 1) (limit_of r) (omega (arith, h)) (limit_of-le r)))
      refl
