-- ===== src/Foundation/Strbuf.antt =====
-- src/foundation/strbuf.c: a growing byte buffer.
-- `contents` are the bytes before the terminator, so their number is the field `length`; every write
-- is tested against the capacity. A failed allocation ends the program and is not modelled.
pub mod Append
use Prim.Native.Nat.{bit_and}
use opsh_actual.Base.{
  ℕ, zero, suc, ◌+◌, ◌*◌, Bool, not, leb, ltb, ◌==◌, if◌then◌else◌, Option, none, some, List, [],
  ◌∷◌, ◌++◌, length, Bytes,
}
use opsh_actual.Base.Run.{Run, ok, stop, aborted, out_of_bounds, out_of_fuel, ◌>>=◌}
use opsh_actual.Foundation.Util.{checked_add, checked_mul}

abbrev pub strbuf_initial_cap : ℕ
strbuf_initial_cap = 64

pub record Strbuf : Type 0 where
  pub contents : Bytes
  pub capacity : ℕ

unfoldable pub strbuf_init_with_capacity : ℕ → Strbuf
strbuf_init_with_capacity cap = record { contents = []; capacity = if ltb cap 16 then 16 else cap }

unfoldable pub strbuf_init : Strbuf
unfolding strbuf_init_with_capacity
strbuf_init = strbuf_init_with_capacity strbuf_initial_cap

-- The doubling loop.
unfoldable pub grow : ℕ → ℕ → ℕ → Run ℕ
grow zero new_cap needed = stop out_of_fuel
grow (suc fuel) new_cap needed =
    if ltb new_cap needed
    then elim (checked_mul new_cap 2) [ none ↦ ok needed | some doubled ↦ grow fuel doubled needed ]
    else ok new_cap

-- A size_t doubles at most 64 times.
abbrev pub enlarge : Strbuf → ℕ → Run Strbuf
enlarge buf needed =
    if leb needed buf.capacity
    then ok buf
    else (grow 65 buf.capacity needed >>= λ cap. ok (record buf { capacity = cap }))

unfoldable pub strbuf_ensure_capacity : Strbuf → ℕ → Run Strbuf
strbuf_ensure_capacity buf additional = elim (checked_add (length buf.contents) additional) [
  | none ↦ stop aborted
  | some sum ↦ elim (checked_add sum 1) [ none ↦ stop aborted | some needed ↦ enlarge buf needed ]
]

-- The copy and the new terminator.
unfoldable pub put_bytes : Bytes → Strbuf → Run Strbuf
put_bytes s buf =
    if ltb (length buf.contents + length s) buf.capacity
    then ok (record buf { contents = buf.contents ++ s })
    else stop out_of_bounds

unfoldable pub strbuf_append_bytes : Strbuf → Bytes → Run Strbuf
strbuf_append_bytes buf s = strbuf_ensure_capacity buf (length s) >>= put_bytes s

unfoldable pub strbuf_append_byte : Strbuf → ℕ → Run Strbuf
strbuf_append_byte buf c = strbuf_ensure_capacity buf 1 >>= put_bytes (c ∷ [])

unfoldable pub strbuf_append_str : Strbuf → Bytes → Run Strbuf
strbuf_append_str buf s = strbuf_append_bytes buf s

unfoldable pub strbuf_clear : Strbuf → Strbuf
strbuf_clear buf = record buf { contents = [] }

-- The bytes that do not continue a character.
unfoldable pub utf8_strlen : Bytes → ℕ
utf8_strlen [] = 0
utf8_strlen (c ∷ s) =
    let rest = utf8_strlen s in if not (bit_and c 0xC0 == 0x80) then suc rest else rest

unfoldable pub strbuf_utf8_len : Strbuf → ℕ
strbuf_utf8_len buf = utf8_strlen buf.contents
