-- ===== src/Tests/Documents.antt =====
-- JSON texts.
use opsh_actual.Base.{
  ◌≡◌, refl, true, Option, some, List, [], ◌∷◌, codes, Bytes, str_eq, starts_with,
}
use opsh_actual.Base.Decimal.{print_nat, print_int, strtoll, read_digits}
use opsh_actual.Base.Int.{negsuc}
use opsh_actual.Base.Run.{ok}
use opsh_actual.Foundation.Json.Escape.{mangle, mangle_all}
use opsh_actual.Foundation.Json.Object.{
  write_pairs, object, read_back, assoc, json_get_string-object, json_get_string-plain,
}
use opsh_actual.Foundation.Json.Ends.{json_find_key-returns}
use opsh_actual.Foundation.Json.{
  json_maybe_comma, escape, escape_all, json_write_string, json_begin_object, json_end_object,
  json_begin_array, json_end_array, json_key_string, json_key_int, json_key_bool, json_key_null,
  json_skip_ws, raw_string, skip_nested, skip_scalar, skip_from, json_skip_value,
  json_decode_escape, at_entry, find_loop, json_find_key, decode_string, json_get_string,
  json_get_int, json_has_key, find_text, json_find_nested_string,
}

program : Unit {0}
unfolding json_maybe_comma escape escape_all json_write_string json_begin_object json_end_object
    json_begin_array json_end_array json_key_string json_key_int json_key_bool json_key_null
    json_skip_ws raw_string skip_nested skip_scalar skip_from json_skip_value json_decode_escape
    at_entry find_loop json_find_key decode_string json_get_string json_get_int json_has_key
    find_text json_find_nested_string str_eq starts_with print_nat print_int strtoll read_digits
    write_pairs object mangle mangle_all
program = tt

-- A nested object and an array are skipped, with the brackets in their strings.
abbrev nested : Bytes
nested = codes "{ \"a\" : {\"x\":\"}\"}, \"b\":[1,\"]\",{}], \"n\":-17, \"c\":\"d\\ne\"}"

nested_string : json_get_string nested (codes "c") ≡ ok (some (codes "d\ne"))
unfolding program
nested_string = refl

nested_int : json_get_int nested (codes "n") ≡ ok (negsuc 16)
unfolding program
nested_int = refl

missing_int : json_get_int nested (codes "zz") ≡ ok (negsuc 0)
unfolding program
missing_int = refl

inner_string : json_find_nested_string nested (codes "x") ≡ some (codes "}")
unfolding program
inner_string = refl

mixed :
    json_end_object (
      json_key_null
        (json_key_bool
          (json_key_int (json_begin_object []) (codes "i") (negsuc 4))
          (codes "t")
          true)
        (codes "z"))
    ≡ codes "{\"i\":-5,\"t\":true,\"z\":null}"
unfolding program
mixed = refl

abbrev headers : List (Bytes × Bytes)
headers = (codes "k", codes "a\"b\\") ∷ (codes "cr", 13 ∷ []) ∷ []

-- A carriage return comes back as a letter.
carriage_return : json_get_string (object headers) (codes "cr") ≡ ok (some (codes "r"))
unfolding program
carriage_return = refl

json_get_string-object_example :
    json_get_string (object headers) (codes "cr") ≡ ok (read_back (codes "cr") headers)
json_get_string-object_example = json_get_string-object (codes "cr") headers

json_get_string-plain_example :
    json_get_string (object ((codes "k", codes "a\tb") ∷ [])) (codes "k")
    ≡ ok (assoc (codes "k") ((codes "k", codes "a\tb") ∷ []))
json_get_string-plain_example =
    json_get_string-plain (codes "k") ((codes "k", codes "a\tb") ∷ []) refl

json_find_key-returns_example :
    (found : Option Bytes) × (json_find_key (codes "{\"a\":\"") (codes "b") ≡ ok found)
json_find_key-returns_example = json_find_key-returns (codes "{\"a\":\"") (codes "b")
