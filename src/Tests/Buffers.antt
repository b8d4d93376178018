-- ===== src/Tests/Buffers.antt =====
-- Buffers, pointer arrays and values.
use opsh_actual.Base.{ℕ, ◌+◌, ◌*◌, ◌≤◌, ◌≡◌, refl, List, [], ◌∷◌, ◌++◌, length, codes, ltb, arith}
use opsh_actual.Base.Decimal.{print_int, print_nat, strtoll, read_digits}
use opsh_actual.Base.Int.{negsuc}
use opsh_actual.Base.Run.{ok, Returns, ◌>>=◌}
use opsh_actual.Foundation.Plist.{
  Plist, plist_init, plist_grow, store_last, plist_add, take_out, plist_remove, plist_clear,
}
use opsh_actual.Foundation.Plist.Sequence.{
  plist_init-IsValid, plist_add-appends, plist_remove-parts,
}
use opsh_actual.Foundation.Plist.Sequence
use opsh_actual.Foundation.Strbuf.Append.{Appends, strbuf_init-IsValid, strbuf_append_bytes-Appends}
use opsh_actual.Foundation.Strbuf.{
  strbuf_init, strbuf_init_with_capacity, grow, strbuf_ensure_capacity, put_bytes,
  strbuf_append_bytes, strbuf_append_byte, strbuf_append_str, strbuf_clear, utf8_strlen,
  strbuf_utf8_len,
}
use opsh_actual.Foundation.Util.{checked_add, checked_mul, size_max}
use opsh_actual.Vm.Value.{Value, value_to_string, value_to_integer, value_clone}
use opsh_actual.Vm.Value.Printed.{value_to_integer-value_to_string}

program : Unit {0}
unfolding strbuf_init strbuf_init_with_capacity grow strbuf_ensure_capacity put_bytes
    strbuf_append_bytes strbuf_append_byte strbuf_append_str strbuf_clear utf8_strlen
    strbuf_utf8_len checked_add checked_mul plist_init plist_grow store_last plist_add take_out
    plist_remove plist_clear value_to_string value_to_integer value_clone print_int print_nat
    strtoll read_digits
program = tt

-- A capacity of 16 that doubles twice.
grown :
    (strbuf_append_str (strbuf_init_with_capacity 3) (codes "a text of more than thirty-two bytes")
      >>= λ buf. ok buf.capacity)
    ≡ ok 64
unfolding program
grown = refl

-- Two letters, the first of two bytes.
two_letters : utf8_strlen (0xC3 ∷ 0xA9 ∷ b'a' ∷ []) ≡ 2
unfolding program
two_letters = refl

abbrev empty : Plist ℕ
empty = record { contents = []; capacity = 16 }

abbrev three : Plist ℕ
three = record { contents = (1 ∷ []) ++ 2 ∷ 3 ∷ []; capacity = 16 }

abbrev two : Plist ℕ
two = record { contents = (1 ∷ []) ++ 3 ∷ []; capacity = 16 }

abbrev first : List ℕ
first = 1 ∷ []

removed :
    (plist_add empty 7 >>= λ l.
    plist_add l 8 >>= λ l. plist_remove l 0 >>= λ r. ok (r.0 ∷ r.1.contents))
    ≡ ok (7 ∷ 8 ∷ [])
unfolding program
removed = refl

-- strtoll stops at the first byte that is no digit, and saturates.
text_value : value_to_integer (Value.string (codes " -12ab")) ≡ negsuc 11
unfolding program
text_value = refl

strbuf_append_bytes-Appends_example :
    Appends strbuf_init
      (codes "ls -l")
      (ltb size_max (length strbuf_init.contents + length (codes "ls -l") + 1))
strbuf_append_bytes-Appends_example =
    strbuf_append_bytes-Appends strbuf_init (codes "ls -l") strbuf_init-IsValid (omega arith)

empty-IsValid : Sequence.IsValid empty
unfolding plist_init
empty-IsValid = plist_init-IsValid

plist_add-appends_example :
    Returns
      (plist_add empty 7)
      λ list'. Sequence.IsValid list' × (list'.contents ≡ [] ++ 7 ∷ []) × (list'.capacity ≤ 16 * 2)
plist_add-appends_example = plist_add-appends empty 7 empty-IsValid (omega arith)

taken_out : plist_remove three (length first) ≡ ok (2, two)
unfolding program
taken_out = refl

value_to_integer-value_to_string_example :
    value_to_integer (Value.string (value_to_string (Value.integer (negsuc 41))))
    ≡ value_to_integer (Value.integer (negsuc 41))
value_to_integer-value_to_string_example =
    value_to_integer-value_to_string (Value.integer (negsuc 41)) (omega arith)
