-- ===== src/Foundation/Json/Object.antt =====
-- Objects of strings: what the readers find in what the writer wrote.
use opsh_actual.Base.{
  ℕ, zero, suc, ◌+◌, ◌≤◌, ◌<◌, ◌≡◌, refl, sym, ap, ◌∙◌, Bool, true, false, not, ◌&&◌, ◌||◌, leb,
  ◌==◌, if◌then◌else◌, Option, none, some, List, [], ◌∷◌, ◌++◌, length, length-append, Bytes,
  str_eq, arith, Bool-cases, inl, inr,
}
use opsh_actual.Base.Run.{ok}
use opsh_actual.Foundation.Json.{
  json_maybe_comma, last_byte, escape, escape_all, json_write_string, json_begin_object,
  json_end_object, json_key_string, json_skip_ws, json_skip_value, skip_from, at_entry, leave,
  again, find_loop, json_find_key, string_at, json_get_string,
}
use opsh_actual.Foundation.Json.Escape.{
  mangle, mangle_all, raw_string-escape_all, decode_string-escape_all,
}

-- The calls that write an object, one `json_key_string` for each pair.
unfoldable pub write_pairs : Bytes → List (Bytes × Bytes) → Bytes
write_pairs buf [] = buf
write_pairs buf ((key, value) ∷ ps) = write_pairs (json_key_string buf key value) ps

unfoldable pub object : List (Bytes × Bytes) → Bytes
object ps = json_end_object (write_pairs (json_begin_object []) ps)

-- The text of a pair, and of all pairs behind the first.
abbrev entry : Bytes → Bytes → Bytes → Bytes
entry key value rest =
    b'"' ∷ (escape_all key ++ b'"' ∷ b':' ∷ b'"' ∷ (escape_all value ++ b'"' ∷ rest))

abbrev others : List (Bytes × Bytes) → Bytes
others [] = b'}' ∷ []
others ((key, value) ∷ ps) = b',' ∷ entry key value (others ps)

append_assoc : (xs ys zs : Bytes) → (xs ++ ys) ++ zs ≡ xs ++ (ys ++ zs)
append_assoc [] ys zs = refl
append_assoc (x ∷ xs) ys zs = ap (λ l. x ∷ l) (append_assoc xs ys zs)

last_byte-append : (buf : Bytes) (c : ℕ) → last_byte (buf ++ c ∷ []) ≡ some c
last_byte-append [] c = refl
last_byte-append (b ∷ []) c = refl
last_byte-append (b ∷ d ∷ buf) c = last_byte-append (d ∷ buf) c

-- Behind a quote there is a comma.
maybe_comma-quote :
    (buf : Bytes) → last_byte buf ≡ some b'"' → json_maybe_comma buf ≡ buf ++ b',' ∷ []
unfolding json_maybe_comma
maybe_comma-quote buf e = rw (json_maybe_comma, e) refl

written :
    (buf key value rest : Bytes)
    → json_write_string (json_write_string buf key ++ b':' ∷ []) value ++ rest
      ≡ buf ++ entry key value rest
unfolding json_write_string
written buf key value rest = simp append_assoc

-- A written string ends with a quote.
last_byte-json_write_string : (buf s : Bytes) → last_byte (json_write_string buf s) ≡ some b'"'
unfolding json_write_string
last_byte-json_write_string buf s =
    ap last_byte (sym (append_assoc buf (b'"' ∷ escape_all s) (b'"' ∷ [])))
    ∙ last_byte-append (buf ++ b'"' ∷ escape_all s) b'"'

end-write_pairs :
    (buf : Bytes) (ps : List (Bytes × Bytes))
    → last_byte buf ≡ some b'"'
    → json_end_object (write_pairs buf ps) ≡ buf ++ others ps
unfolding write_pairs json_end_object json_key_string
end-write_pairs buf [] e = refl
end-write_pairs buf ((key, value) ∷ ps) e =
    end-write_pairs (json_key_string buf key value) ps (
      last_byte-json_write_string (json_write_string (json_maybe_comma buf) key ++ b':' ∷ []) value)
    ∙ written (json_maybe_comma buf) key value (others ps)
    ∙ ap (λ b. b ++ entry key value (others ps)) (maybe_comma-quote buf e)
    ∙ append_assoc buf (b',' ∷ []) (entry key value (others ps))

-- The whole text.
abbrev text : List (Bytes × Bytes) → Bytes
text [] = b'{' ∷ b'}' ∷ []
text ((key, value) ∷ ps) = b'{' ∷ entry key value (others ps)

object-text : (ps : List (Bytes × Bytes)) → object ps ≡ text ps
unfolding object write_pairs json_begin_object json_end_object json_key_string json_maybe_comma
object-text [] = refl
object-text ((key, value) ∷ ps) =
    end-write_pairs (json_key_string (b'{' ∷ []) key value) ps
      (last_byte-json_write_string (json_write_string (b'{' ∷ []) key ++ b':' ∷ []) value)
    ∙ written (b'{' ∷ []) key value (others ps)

-- The value text of the first pair whose key is written as `key`.
abbrev found_text : Bytes → List (Bytes × Bytes) → Option Bytes
found_text key [] = none
found_text key ((k, v) ∷ ps) =
    if str_eq (escape_all k) key
    then some (b'"' ∷ (escape_all v ++ b'"' ∷ others ps))
    else found_text key ps

-- One round at a pair.
at_entry-entry :
    (key k v rest : Bytes)
    → at_entry key (entry k v rest) ≡ (
        if str_eq (escape_all k) key
        then leave (some (b'"' ∷ (escape_all v ++ b'"' ∷ rest)))
        else again rest)
unfolding at_entry json_skip_ws json_skip_value skip_from
at_entry-entry key k v rest =
    let name = raw_string-escape_all k (b':' ∷ b'"' ∷ (escape_all v ++ b'"' ∷ rest)) in
    let value = raw_string-escape_all v rest in
    rw (at_entry, name, json_skip_value, skip_from, value) refl

-- Each text is longer than what follows the pair.
entry-length : (k v rest : Bytes) → length rest + 5 ≤ length (entry k v rest)
entry-length k v rest = omega (
  arith,
  length-append (escape_all k) (b'"' ∷ b':' ∷ b'"' ∷ (escape_all v ++ b'"' ∷ rest)),
  length-append (escape_all v) (b'"' ∷ rest),
)

-- One round, with what the rounds behind it find.
find_loop-entry :
    (fuel : ℕ) (key k v rest : Bytes) {out : Option Bytes}
    → find_loop fuel key rest ≡ ok out
    → find_loop (suc fuel) key (entry k v rest)
      ≡ ok (if str_eq (escape_all k) key then some (b'"' ∷ (escape_all v ++ b'"' ∷ rest)) else out)
unfolding find_loop json_skip_ws
find_loop-entry fuel key k v rest later = elim (Bool-cases (str_eq (escape_all k) key)) [
  | inl same ↦ rw (find_loop, at_entry-entry key k v rest, same) refl
  | inr other ↦ rw (find_loop, at_entry-entry key k v rest, other) later
]

find_loop-others :
    (fuel : ℕ) (key : Bytes) (ps : List (Bytes × Bytes))
    → length (others ps) < fuel
    → find_loop fuel key (others ps) ≡ ok (found_text key ps)
unfolding find_loop json_skip_ws at_entry
find_loop-others zero key ps h = absurd (omega arith)
find_loop-others (suc fuel) key [] h = refl
find_loop-others (suc zero) key ((k, v) ∷ ps) h = absurd (omega arith)
find_loop-others (suc (suc fuel)) key ((k, v) ∷ ps) h =
    find_loop-entry fuel key k v (others ps)
      (find_loop-others fuel key ps (omega (arith, entry-length k v (others ps))))

find_key-object :
    (key : Bytes) (ps : List (Bytes × Bytes))
    → json_find_key (object ps) key ≡ ok (found_text key ps)
unfolding json_find_key find_loop json_skip_ws at_entry
find_key-object key [] = rw (object-text []) refl
find_key-object key ((k, v) ∷ ps) = rw (object-text ((k, v) ∷ ps)) (
    find_loop-entry (length (entry k v (others ps))) key k v (others ps) (
      find_loop-others (length (entry k v (others ps))) key ps
        (omega (arith, entry-length k v (others ps)))))

-- The first pair whose key is spelled so in the text; its value as it is read back.
abbrev pub read_back : Bytes → List (Bytes × Bytes) → Option Bytes
read_back key [] = none
read_back key ((k, v) ∷ ps) =
    if str_eq (escape_all k) key then some (mangle_all v) else read_back key ps

string_at-found_text :
    (key : Bytes) (ps : List (Bytes × Bytes)) → string_at (found_text key ps) ≡ read_back key ps
string_at-found_text key [] = refl
string_at-found_text key ((k, v) ∷ ps) = elim (Bool-cases (str_eq (escape_all k) key)) [
  | inl same ↦ rw same (ap some (decode_string-escape_all v (others ps)))
  | inr other ↦ rw other (string_at-found_text key ps)
]

-- For every list of pairs and every key: in the object that the pairs are written to, the lookup ends
-- and returns the value of the first pair whose key is written as the given text, each byte of the value
-- as it is mangled: \b, \f and \r become letters, and the other control bytes but tab and
-- newline five letters and digits.
pub json_get_string-object :
    (key : Bytes) (ps : List (Bytes × Bytes))
    → json_get_string (object ps) key ≡ ok (read_back key ps)
unfolding json_get_string
json_get_string-object key ps = rw (find_key-object key ps) (ap ok (string_at-found_text key ps))

-- A key of which no byte is escaped, and a value of which every byte is read back as itself.
abbrev plain_key : ℕ → Bool
plain_key c = leb 0x20 c && not (c == b'"') && not (c == b'\\')

abbrev plain_value : ℕ → Bool
plain_value c = leb 0x20 c || c == 9 || c == 10

abbrev every : (ℕ → Bool) → Bytes → Bool
every p [] = true
every p (c ∷ s) = p c && every p s

abbrev pub is_plain : List (Bytes × Bytes) → Bool
is_plain [] = true
is_plain ((k, v) ∷ ps) = every plain_key k && every plain_value v && is_plain ps

escape-plain : (c : ℕ) → plain_key c ≡ true → escape c ≡ c ∷ []
unfolding escape
escape-plain c h = ground arith

mangle-plain : (c : ℕ) → plain_value c ≡ true → mangle c ≡ c ∷ []
unfolding mangle
mangle-plain c h = ground arith

both : (a b : Bool) → (a && b) ≡ true → (a ≡ true) × (b ≡ true)
both true true h = (refl, refl)
both true false h = absurd (cc)
both false b h = absurd (cc)

escape_all-plain : (s : Bytes) → every plain_key s ≡ true → escape_all s ≡ s
unfolding escape_all
escape_all-plain [] h = refl
escape_all-plain (c ∷ s) h =
    let (here, later) = both (plain_key c) (every plain_key s) h in
    rw (escape-plain c here, escape_all-plain s later)

mangle_all-plain : (s : Bytes) → every plain_value s ≡ true → mangle_all s ≡ s
unfolding mangle_all
mangle_all-plain [] h = refl
mangle_all-plain (c ∷ s) h =
    let (here, later) = both (plain_value c) (every plain_value s) h in
    rw (mangle-plain c here, mangle_all-plain s later)

-- The value of the first pair with the key.
abbrev pub assoc : Bytes → List (Bytes × Bytes) → Option Bytes
assoc key [] = none
assoc key ((k, v) ∷ ps) = if str_eq k key then some v else assoc key ps

read_back-plain :
    (key : Bytes) (ps : List (Bytes × Bytes)) → is_plain ps ≡ true → read_back key ps ≡ assoc key ps
read_back-plain key [] h = refl
read_back-plain key ((k, v) ∷ ps) h =
    let (pair, later) = both (every plain_key k && every plain_value v) (is_plain ps) h in
    let (name, value) = both (every plain_key k) (every plain_value v) pair in
    rw (escape_all-plain k name, mangle_all-plain v value, read_back-plain key ps later)

-- The round trip: where no byte of a key is escaped, and every value's bytes are tabs, newlines or
-- from the space up, the lookup of a key in the written object returns the value of the first pair
-- with the key.
pub json_get_string-plain :
    (key : Bytes) (ps : List (Bytes × Bytes))
    → is_plain ps ≡ true
    → json_get_string (object ps) key ≡ ok (assoc key ps)
json_get_string-plain key ps h = json_get_string-object key ps ∙ ap ok (read_back-plain key ps h)
