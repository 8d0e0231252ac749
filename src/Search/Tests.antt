-- ===== src/Search/Tests.antt =====
-- Runs of the parser of searches, and its theorems at concrete texts.
use imageboard.Base.{◌≡◌, ◌≢◌, ◌≤◌, refl, true, false, [], ◌∷◌, ◌++◌, arith}
use imageboard.Text.{
  Bytes, codes, trim_space, join_fields, replace_byte, any_byte, parse_int, join, runes, decode,
}
use imageboard.Search.{
  Node, term, and_node, or_node, not_node, text, tag, path, comment, root, exhausted, invalid,
  parse_image_search, parse_or, and_then, consume, parse_term, normalize_search_term, scan,
  ends_and, skip_plus, clean_tag, until, checked_term, close, close_with, count_term, delimiter,
  is_bad_tag, negate, quoted_term, skip_space, tag_term, whole,
}
use imageboard.Password.{contains_control}
use imageboard.Search.Bounds.{parse_image_search_total, parse_image_search-IsWellFormed}
use imageboard.Search.Bounds.Terms.{terms_of, IsWellFormed}
use imageboard.Search.Compile.{
  word, number, compile_image_search, reword, values_of, compile_image_search_arguments,
}
use imageboard.Search.Listing.{
  ListRequest, list_images, list_images-reword, texts, rows_arguments, rows_arguments_offset,
  limit_of, positive_int,
}

abbrev same : Bytes → Bytes
same s = s

-- Two groups, one of them negated within.
abbrev query : Bytes
query = codes "cat_food #dog | (!'a$b' + [nice one])"

abbrev tree : Node
tree =
    or_node (and_node (term text (codes "cat")) (term tag (codes "dog")))
      (and_node (not_node (term path (codes "a$b"))) (term comment (codes "nice one")))

parse_query : parse_image_search same (codes "cat #dog | (!'a$b' + [nice_one])") ≡ root tree
unfolding parse_image_search parse_or and_then consume parse_term normalize_search_term trim_space
    replace_byte scan ends_and skip_plus clean_tag join_fields join any_byte contains_control runes
    until checked_term close close_with count_term delimiter is_bad_tag negate quoted_term
    skip_space tag_term whole decode
parse_query = refl

-- A text may not be negated, and a group must be closed.
parse_negated_text : parse_image_search same (codes "!cat") ≡ invalid
unfolding parse_image_search parse_or and_then consume parse_term normalize_search_term trim_space
    replace_byte scan ends_and skip_plus clean_tag join_fields join any_byte contains_control runes
    until checked_term close close_with count_term delimiter is_bad_tag negate quoted_term
    skip_space tag_term whole decode
parse_negated_text = refl

parse_open_group : parse_image_search same (codes "(cat") ≡ invalid
unfolding parse_image_search parse_or and_then consume parse_term normalize_search_term trim_space
    replace_byte scan ends_and skip_plus clean_tag join_fields join any_byte contains_control runes
    until checked_term close close_with count_term delimiter is_bad_tag negate quoted_term
    skip_space tag_term whole decode
parse_open_group = refl

parse_image_search_total_example : parse_image_search same query ≢ exhausted
parse_image_search_total_example = parse_image_search_total same query refl

parse_image_search-IsWellFormed_example : (terms_of tree ≤ 20) × IsWellFormed tree
parse_image_search-IsWellFormed_example =
    parse_image_search-IsWellFormed same (codes "cat #dog | (!'a$b' + [nice_one])") refl parse_query

compile_image_search_arguments_example :
    (compile_image_search tree (word (codes "x") ∷ [])).1
    ≡ (word (codes "x") ∷ []) ++ values_of tree
compile_image_search_arguments_example = compile_image_search_arguments tree (word (codes "x") ∷ [])

abbrev ask : Bytes → Bytes → ListRequest
ask q name = record {
  q = q;
  tag = name;
  page = codes "2";
  limit = [];
  untagged = false;
  favorite = true;
  user_id = 4;
}

parse_dog : parse_image_search same (codes "#dog") ≡ root (term tag (codes "dog"))
unfolding parse_image_search parse_or and_then consume parse_term normalize_search_term trim_space
    replace_byte scan ends_and skip_plus clean_tag join_fields join any_byte contains_control runes
    until checked_term close close_with count_term delimiter is_bad_tag negate quoted_term
    skip_space tag_term whole decode
parse_dog = refl

parse_cow : parse_image_search same (codes " # Cow ") ≡ invalid
unfolding parse_image_search parse_or and_then consume parse_term normalize_search_term trim_space
    replace_byte scan ends_and skip_plus clean_tag join_fields join any_byte contains_control runes
    until checked_term close close_with count_term delimiter is_bad_tag negate quoted_term
    skip_space tag_term whole decode
parse_cow = refl

parse_bison : parse_image_search same (codes " #bison ") ≡ root (term tag (codes "bison"))
unfolding parse_image_search parse_or and_then consume parse_term normalize_search_term trim_space
    replace_byte scan ends_and skip_plus clean_tag join_fields join any_byte contains_control runes
    until checked_term close close_with count_term delimiter is_bad_tag negate quoted_term
    skip_space tag_term whole decode
parse_bison = refl

list_images-reword_example :
    texts (list_images same (ask (codes " #bison ") (codes "big")))
    ≡ texts (list_images same (ask (codes "#dog") (codes "small")))
unfolding reword
list_images-reword_example =
    list_images-reword same (λ _. codes "bison") (ask (codes " #bison ") (codes "big"))
      (ask (codes "#dog") (codes "small")) (term tag (codes "dog")) parse_bison parse_dog
      (ground arith) (ground arith) refl refl refl

rows_arguments_offset_example :
    rows_arguments (ask [] []) [] ≡ number (false, 30) ∷ number (false, 30) ∷ []
unfolding limit_of positive_int parse_int
rows_arguments_offset_example = rows_arguments_offset (ask [] []) [] (ground arith)

-- The second byte of à is read as a space, so half of the letter is the term.
parse_accent : parse_image_search same (0xC3 ∷ 0xA0 ∷ []) ≡ root (term text (0xC3 ∷ []))
unfolding parse_image_search parse_or and_then consume parse_term normalize_search_term trim_space
    replace_byte scan ends_and skip_plus clean_tag join_fields join any_byte contains_control runes
    until checked_term close close_with count_term delimiter is_bad_tag negate quoted_term
    skip_space tag_term whole decode
parse_accent = refl
