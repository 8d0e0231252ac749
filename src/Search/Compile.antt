-- ===== src/Search/Compile.antt =====
-- The SQL of a search, go_api/cmd/api/handlers.go: `compileImageSearch` and the filters of
-- `listImages`. `arguments` are the values that go to the database beside the text.
use imageboard.Base.{
  suc, ◌≡◌, refl, ◌∷◌, [], ◌++◌, List, length, arith, append_assoc, length-append,
}
use imageboard.Text.{Bytes, codes, itoa, Signed}
use imageboard.Search.{Kind, text, tag, path, comment, Node, term, and_node, or_node, not_node}

-- `any`, of which the code uses texts and numbers.
pub data Argument : Type 0 where
  word : Bytes → Argument
  number : Signed → Argument

-- `addArgument` of `listImages`: the placeholder, and the arguments with one more.
unfoldable pub add_argument : Argument → List Argument → Bytes × List Argument
add_argument value arguments = (b'$' ∷ itoa (suc (length arguments)), arguments ++ value ∷ [])

unfoldable pub term_sql : Kind → Bytes → Bytes
term_sql text placeholder =
    codes "(translate(lower(i.name), '_', ' ') LIKE '%' || "
    ++ placeholder
    ++ codes " || '%' OR translate(lower(i.image_path), '_', ' ') LIKE '%' || "
    ++ placeholder
    ++ codes " || '%')"
term_sql tag placeholder =
    codes
      "EXISTS (SELECT 1 FROM tag_image ti JOIN tag t ON t.id = ti.tag WHERE ti.image = i.id AND translate(lower(t.name), '_', ' ') = "
    ++ placeholder
    ++ codes ")"
term_sql path placeholder =
    codes "translate(lower(i.image_path), '_', ' ') LIKE '%' || " ++ placeholder ++ codes " || '%'"
term_sql comment placeholder =
    codes
      "EXISTS (SELECT 1 FROM message m WHERE m.image = i.id AND translate(lower(m.text), '_', ' ') LIKE '%' || "
    ++ placeholder
    ++ codes " || '%')"

abbrev bracket : Bytes → Bytes → Bytes → Bytes
bracket left operator right = codes "(" ++ left ++ operator ++ right ++ codes ")"

unfoldable pub compile_image_search : Node → List Argument → Bytes × List Argument
unfolding add_argument
compile_image_search (term kind value) arguments =
    let added = add_argument (word value) arguments in (term_sql kind added.0, added.1)
compile_image_search (not_node node) arguments =
    let inner = compile_image_search node arguments in
    (codes "NOT (" ++ inner.0 ++ codes ")", inner.1)
compile_image_search (and_node left right) arguments =
    let first = compile_image_search left arguments in
    let second = compile_image_search right first.1 in
    (bracket first.0 (codes " AND ") second.0, second.1)
compile_image_search (or_node left right) arguments =
    let first = compile_image_search left arguments in
    let second = compile_image_search right first.1 in
    (bracket first.0 (codes " OR ") second.0, second.1)

-- The values of the terms, from left to right.
unfoldable pub values_of : Node → List Argument
values_of (term kind value) = word value ∷ []
values_of (not_node node) = values_of node
values_of (and_node left right) = values_of left ++ values_of right
values_of (or_node left right) = values_of left ++ values_of right

-- The same search with other words.
unfoldable pub reword : (Bytes → Bytes) → Node → Node
reword f (term kind value) = term kind (f value)
reword f (not_node node) = not_node (reword f node)
reword f (and_node left right) = and_node (reword f left) (reword f right)
reword f (or_node left right) = or_node (reword f left) (reword f right)

-- The arguments of a search are those there were and then the values of its terms, in order.
pub compile_image_search_arguments :
    (node : Node) (arguments : List Argument)
    → (compile_image_search node arguments).1 ≡ arguments ++ values_of node
unfolding compile_image_search values_of add_argument
compile_image_search_arguments (term kind value) arguments = refl
compile_image_search_arguments (not_node node) arguments =
    compile_image_search_arguments node arguments
compile_image_search_arguments (and_node left right) arguments =
    rw
      (
        compile_image_search_arguments right (compile_image_search left arguments).1,
        compile_image_search_arguments left arguments,
      )
      (append_assoc arguments (values_of left) (values_of right))
compile_image_search_arguments (or_node left right) arguments =
    rw
      (
        compile_image_search_arguments right (compile_image_search left arguments).1,
        compile_image_search_arguments left arguments,
      )
      (append_assoc arguments (values_of left) (values_of right))

-- The text of the SQL is the same whatever the words of the search are: they reach the database as
-- arguments alone.
pub compile_image_search-reword :
    (f : Bytes → Bytes) (node : Node) (one other : List Argument)
    → length one ≡ length other
    → ((compile_image_search (reword f node) one).0 ≡ (compile_image_search node other).0)
      × (length (compile_image_search (reword f node) one).1
          ≡ length (compile_image_search node other).1)
unfolding compile_image_search reword add_argument
compile_image_search-reword f (term kind value) one other h = (
  rw h refl,
  omega (arith, h, length-append one (word (f value) ∷ []), length-append other (word value ∷ [])),
)
compile_image_search-reword f (not_node node) one other h =
    let inner = compile_image_search-reword f node one other h in (rw (inner.0) refl, inner.1)
compile_image_search-reword f (and_node left right) one other h =
    let first = compile_image_search-reword f left one other h in
    let second = compile_image_search-reword f right _ _ first.1 in
    (rw (first.0, second.0) refl, second.1)
compile_image_search-reword f (or_node left right) one other h =
    let first = compile_image_search-reword f left one other h in
    let second = compile_image_search-reword f right _ _ first.1 in
    (rw (first.0, second.0) refl, second.1)
