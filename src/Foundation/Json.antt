-- ===== src/Foundation/Json.antt =====
-- src/foundation/json.c: the JSON writer and the readers of flat objects.
-- The buffer is its bytes (Foundation.Strbuf says what appending does to the memory behind them), a
-- pointer into a text is what is left of the text. A quoted string is read by one loop with a flag:
-- whether the byte before was a backslash that escapes this one.
pub mod Escape
pub mod Object
pub mod Ends
use opsh_actual.Base.{
  ℕ, zero, suc, ◌+◌, ◌-◌, ◌/◌, ◌%◌, Bool, true, false, not, ◌&&◌, ◌||◌, leb, ltb, ◌==◌,
  if◌then◌else◌, Option, none, some, List, [], ◌∷◌, ◌++◌, length, Bytes, codes, str_eq, starts_with,
}
use opsh_actual.Base.Decimal.{print_int, strtoll}
use opsh_actual.Base.Int.{ℤ, pos, negsuc}
use opsh_actual.Base.Run.{Run, ok, stop, out_of_fuel, ◌>>=◌}

abbrev pub last_byte : Bytes → Option ℕ
last_byte [] = none
last_byte (c ∷ []) = some c
last_byte (c ∷ d ∷ s) = last_byte (d ∷ s)

-- A comma, but not at the start and not behind `{`, `[` or `:`.
unfoldable pub json_maybe_comma : Bytes → Bytes
json_maybe_comma buf = elim (last_byte buf) [
  | none ↦ buf
  | some c ↦ if c == b'{' || c == b'[' || c == b':' then buf else buf ++ b',' ∷ []
]

-- `%x` of one digit.
abbrev pub hex_digit : ℕ → ℕ
hex_digit d = if ltb d 10 then b'0' + d else b'a' + (d - 10)

-- The bytes that a byte of a string is written as; `%04x` of a byte below 0x20.
unfoldable pub escape : ℕ → Bytes
escape c =
    if c == b'"'
    then b'\\' ∷ b'"' ∷ []
    else if c == b'\\'
    then b'\\' ∷ b'\\' ∷ []
    else if c == 8
    then b'\\' ∷ b'b' ∷ []
    else if c == 12
    then b'\\' ∷ b'f' ∷ []
    else if c == 10
    then b'\\' ∷ b'n' ∷ []
    else if c == 13
    then b'\\' ∷ b'r' ∷ []
    else if c == 9
    then b'\\' ∷ b't' ∷ []
    else if ltb c 0x20
    then b'\\' ∷ b'u' ∷ b'0' ∷ b'0' ∷ hex_digit (c / 16) ∷ hex_digit (c % 16) ∷ []
    else c ∷ []

unfoldable pub escape_all : Bytes → Bytes
escape_all [] = []
escape_all (c ∷ s) = escape c ++ escape_all s

unfoldable pub json_write_string : Bytes → Bytes → Bytes
json_write_string buf s = buf ++ b'"' ∷ (escape_all s ++ b'"' ∷ [])

unfoldable pub json_begin_object : Bytes → Bytes
json_begin_object buf = json_maybe_comma buf ++ b'{' ∷ []

unfoldable pub json_end_object : Bytes → Bytes
json_end_object buf = buf ++ b'}' ∷ []

unfoldable pub json_begin_array : Bytes → Bytes
json_begin_array buf = json_maybe_comma buf ++ b'[' ∷ []

unfoldable pub json_end_array : Bytes → Bytes
json_end_array buf = buf ++ b']' ∷ []

unfoldable pub json_key_string : Bytes → Bytes → Bytes → Bytes
json_key_string buf key value =
    json_write_string (json_write_string (json_maybe_comma buf) key ++ b':' ∷ []) value

unfoldable pub json_key_int : Bytes → Bytes → ℤ → Bytes
json_key_int buf key value = json_write_string (json_maybe_comma buf) key ++ b':' ∷ print_int value

unfoldable pub json_key_bool : Bytes → Bytes → Bool → Bytes
json_key_bool buf key value =
    json_write_string (json_maybe_comma buf) key
    ++ (if value then codes ":true" else codes ":false")

unfoldable pub json_key_null : Bytes → Bytes → Bytes
json_key_null buf key = json_write_string (json_maybe_comma buf) key ++ codes ":null"

abbrev pub is_ws : ℕ → Bool
is_ws c = c == b' ' || c == 9 || c == 10 || c == 13

unfoldable pub json_skip_ws : Bytes → Bytes
json_skip_ws [] = []
json_skip_ws (c ∷ s) = let rest = json_skip_ws s in if is_ws c then rest else c ∷ s

-- The bytes up to the closing quote, as they stand, and the text behind the quote.
unfoldable pub raw_string : Bool → Bytes → Bytes × Bytes
raw_string escaped [] = ([], [])
raw_string escaped (c ∷ s) =
    let rest = raw_string (not escaped && c == b'\\') s in
    if not escaped && c == b'"' then ([], s) else (c ∷ rest.0, rest.1)

-- Where the skipping of a bracketed value stands: between strings, in one, or behind a backslash.
pub data Place : Type 0 where
  outside quoted escaped_byte : Place

abbrev pub next_place : Place → ℕ → Place
next_place outside c = if c == b'"' then quoted else outside
next_place quoted c = if c == b'"' then outside else if c == b'\\' then escaped_byte else quoted
next_place escaped_byte c = quoted

abbrev pub next_depth : Place → ℕ → ℕ → ℕ → ℕ → ℕ
next_depth outside opening closing c depth =
    if c == opening
    then suc depth
    else if c == closing
    then (elim depth [ zero ↦ zero | suc d ↦ d ])
    else depth
next_depth quoted opening closing c depth = depth
next_depth escaped_byte opening closing c depth = depth

-- The loops over an object and over an array, with the recursive call at a quote.
unfoldable pub skip_nested : ℕ → ℕ → Place → ℕ → Bytes → Bytes
skip_nested opening closing place zero s = s
skip_nested opening closing place (suc depth) [] = []
skip_nested opening closing place (suc depth) (c ∷ s) =
    skip_nested opening closing (next_place place c)
      (next_depth place opening closing c (suc depth)) s

unfoldable pub skip_scalar : Bytes → Bytes
skip_scalar [] = []
skip_scalar (c ∷ s) =
    let rest = skip_scalar s in if c == b',' || c == b'}' || c == b']' then c ∷ s else rest

unfoldable pub skip_from : Bytes → Bytes
skip_from [] = []
skip_from (c ∷ s) =
    if c == b'"'
    then (raw_string false s).1
    else if c == b'{'
    then skip_nested b'{' b'}' outside 1 s
    else if c == b'['
    then skip_nested b'[' b']' outside 1 s
    else skip_scalar (c ∷ s)

unfoldable pub json_skip_value : Bytes → Bytes
json_skip_value p = skip_from (json_skip_ws p)

unfoldable pub json_decode_escape : ℕ → ℕ
json_decode_escape c = if c == b'n' then 10 else if c == b't' then 9 else c

abbrev pub skip_colon : Bytes → Bytes
skip_colon [] = []
skip_colon (c ∷ s) = if c == b':' then s else c ∷ s

-- One round of the loop of `json_find_key`: its result, or where it goes on.
pub data Round : Type 0 where
  leave : Option Bytes → Round
  again : Bytes → Round

unfoldable pub at_entry : Bytes → Bytes → Round
at_entry key [] = leave none
at_entry key (c ∷ s) =
    if c == b'}'
    then leave none
    else if c == b','
    then again s
    else if c == b'"'
    then (let (name, rest) = raw_string false s in
        let p = json_skip_ws (skip_colon (json_skip_ws rest)) in
        if str_eq name key then leave (some p) else again (json_skip_value p))
    else leave none

unfoldable pub find_loop : ℕ → Bytes → Bytes → Run (Option Bytes)
find_loop zero key p = stop out_of_fuel
find_loop (suc fuel) key [] = ok none
find_loop (suc fuel) key (c ∷ s) = elim (at_entry key (json_skip_ws (c ∷ s))) [
  | leave found ↦ ok found
  | again p ↦ find_loop fuel key p
]

abbrev pub find_in : Bytes → Bytes → Run (Option Bytes)
find_in key [] = ok none
find_in key (c ∷ s) = if c == b'{' then find_loop (suc (length s)) key s else ok none

unfoldable pub json_find_key : Bytes → Bytes → Run (Option Bytes)
json_find_key json key = find_in key (json_skip_ws json)

-- The loop of `json_get_string`; a backslash that ends the text stands for itself.
unfoldable pub decode_string : Bool → Bytes → Bytes
decode_string true [] = b'\\' ∷ []
decode_string false [] = []
decode_string true (c ∷ s) = json_decode_escape c ∷ decode_string false s
decode_string false (c ∷ s) =
    let rest = decode_string (c == b'\\') s in
    if c == b'"' then [] else if c == b'\\' then rest else c ∷ rest

abbrev pub string_at : Option Bytes → Option Bytes
string_at none = none
string_at (some []) = none
string_at (some (c ∷ s)) = if c == b'"' then some (decode_string false s) else none

unfoldable pub json_get_string : Bytes → Bytes → Run (Option Bytes)
json_get_string json key = json_find_key json key >>= λ found. ok (string_at found)

abbrev pub int_at : Option Bytes → ℤ
int_at none = negsuc 0
int_at (some []) = negsuc 0
int_at (some (c ∷ s)) = if c == b'-' || leb b'0' c && leb c b'9' then strtoll (c ∷ s) else negsuc 0

unfoldable pub json_get_int : Bytes → Bytes → Run ℤ
json_get_int json key = json_find_key json key >>= λ found. ok (int_at found)

abbrev pub is_some : Option Bytes → Bool
is_some none = false
is_some (some p) = true

unfoldable pub json_has_key : Bytes → Bytes → Run Bool
json_has_key json key = json_find_key json key >>= λ found. ok (is_some found)

abbrev take : ℕ → Bytes → Bytes
take zero s = []
take (suc n) [] = []
take (suc n) (c ∷ s) = c ∷ take n s

abbrev drop : ℕ → Bytes → Bytes
drop zero s = s
drop (suc n) [] = []
drop (suc n) (c ∷ s) = drop n s

-- `strstr(json, search)`
unfoldable pub find_text : Bytes → Bytes → Option Bytes
find_text needle [] = if starts_with needle [] then some [] else none
find_text needle (c ∷ s) =
    let rest = find_text needle s in if starts_with needle (c ∷ s) then some (c ∷ s) else rest

-- The quoted key is cut off at 127 bytes.
unfoldable pub json_find_nested_string : Bytes → Bytes → Option Bytes
json_find_nested_string json key =
    let search = take 127 (b'"' ∷ (key ++ b'"' ∷ [])) in
    elim (find_text search json) [
      | none ↦ none
      | some at ↦
          string_at (some (json_skip_ws (skip_colon (json_skip_ws (drop (length search) at)))))
    ]
