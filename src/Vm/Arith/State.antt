-- ===== src/Vm/Arith/State.antt =====
-- The state of src/vm/arith.c, its monad, and the small helpers.
use opsh_actual.Base.{
  ℕ, zero, suc, ◌+◌, Bool, true, false, ◌&&◌, ◌||◌, Option, none, some, List, [], ◌∷◌, not, str_eq,
  Bytes, get_or, leb, ◌==◌, if◌then◌else◌,
}
use opsh_actual.Base.Decimal.{print_int, read_literal, saturate}
use opsh_actual.Base.Int.{ℤ, pos}
use opsh_actual.Base.Run
use opsh_actual.Base.Run.{Run, ok, stop, undefined}
use opsh_actual.Exec.Variable.{Environ, Variable, environ_get, environ_assign}
use opsh_actual.Vm.Value.{Value}

pub data ArithError : Type 0 where
  arith_ok syntax div_zero depth_exceeded : ArithError

-- `reading` has the names of the variables whose own strings the evaluation stands in, since `pos`
-- points into such a string and not into a copy of it.
pub record ArithState : Type 0 where
  pub text : Bytes
  pub reading : List Bytes
  pub env : Environ
  pub err : ArithError
  pub depth : ℕ
  pub noexec : Bool

abbrev pub arith_max_depth : ℕ
arith_max_depth = 32

abbrev pub M : Type 0 → Type 0
M A = ArithState → Run (A × ArithState)

infixl 5 ◌>>=◌ ◌>>◌
abbrev pub ◌>>=◌ : {A B : Type 0} → M A → (A → M B) → M B
◌>>=◌ m f s = Run.◌>>=◌ (m s) (λ r. f r.0 r.1)

abbrev pub ◌>>◌ : {A B : Type 0} → M A → M B → M B
◌>>◌ m k = m >>= λ _. k

abbrev pub pure : {A : Type 0} → A → M A
pure a s = ok (a, s)

-- `s->pos[i]`, read within the text or at its final NUL.
abbrev pub at : Bytes → ℕ → ℕ
at text i = get_or text i 0

abbrev pub peek : {A : Type 0} → (Bytes → M A) → M A
peek f s = f s.text s

abbrev pub drop : ℕ → Bytes → Bytes
drop zero text = text
drop (suc n) [] = []
drop (suc n) (c ∷ text) = drop n text

-- `s->pos += n`
unfoldable pub advance : ℕ → M (Unit {0})
advance n s = ok (tt, record s { text = drop n s.text })

abbrev pub is_blank : ℕ → Bool
is_blank c = c == b' ' || c == 9 || c == 10

unfoldable pub skip_blanks : Bytes → Bytes
skip_blanks [] = []
skip_blanks (c ∷ text) = if is_blank c then skip_blanks text else c ∷ text

unfoldable pub skip_ws : M (Unit {0})
skip_ws s = ok (tt, record s { text = skip_blanks s.text })

abbrev pub is_ident_start : ℕ → Bool
is_ident_start c = leb b'a' c && leb c b'z' || leb b'A' c && leb c b'Z' || c == b'_'

abbrev pub is_ident_char : ℕ → Bool
is_ident_char c = is_ident_start c || leb b'0' c && leb c b'9'

abbrev pub is_failed : ArithError → Bool
is_failed arith_ok = false
is_failed _ = true

-- `s->err = e`
unfoldable pub fail : ArithError → M (Unit {0})
fail e s = ok (tt, record s { err = e })

-- `if (s->err != ARITH_OK)`
abbrev pub if_failed : {A : Type 0} → M A → M A → M A
if_failed yes' no' s = if is_failed s.err then yes' s else no' s

-- `if (!s->noexec) { s->err = ARITH_ERR_DIV_ZERO; }`
unfoldable pub fail_division : M (Unit {0})
fail_division s = ok (tt, if s.noexec then s else record s { err = div_zero })

-- A value, or an overflow that C leaves undefined.
abbrev pub defined : Option ℤ → M ℤ
defined none s = stop undefined
defined (some n) s = ok (n, s)

unfoldable pub take_ident : Bytes → Bytes × Bytes
take_ident [] = ([], [])
take_ident (c ∷ text) =
    let rest = take_ident text in if is_ident_char c then (c ∷ rest.0, rest.1) else ([], c ∷ text)

-- The name, or none where no identifier begins.
unfoldable pub parse_ident : M (Option Bytes)
unfolding take_ident skip_ws
parse_ident = skip_ws >> λ s.
    if is_ident_start (at s.text 0)
    then ok (some ((take_ident s.text).0), record s { text = (take_ident s.text).1 })
    else ok (none, s)

-- `strtoll(s->pos, &endp, 0); s->pos = endp;`
unfoldable pub literal : M ℤ
literal s = let r = read_literal s.text in ok (saturate false r.0, record s { text = r.1 })

abbrev pub is_among : Bytes → List Bytes → Bool
is_among name [] = false
is_among name (other ∷ names) = str_eq name other || is_among name names

-- `set_var`. The assignment releases the old string of a variable that is not readonly; where an
-- evaluation stands in that string, its next read is undefined (that something else on the machine
-- holds the string too is not followed).
unfoldable pub set_var : Bytes → ℤ → M (Unit {0})
set_var name value s =
    if s.noexec
    then ok (tt, s)
    else Run.◌>>=◌ (environ_assign s.env name (Value.string (print_int value))) (λ r.
      if not r.1 && is_among name s.reading
      then stop undefined
      else ok (tt, record s { env = r.0 }))

abbrev pub text_of : Option Variable → Bytes
text_of none = []
text_of (some v) = elim v.value [ Value.string text ↦ text | _ ↦ [] ]

-- `resolve_var` with the `parse_expr` that it calls on the variable's text.
unfoldable pub resolve_var : M ℤ → Bytes → M ℤ
resolve_var parse_expr name s =
    if leb arith_max_depth s.depth
    then ok (pos 0, record s { err = depth_exceeded })
    else Run.◌>>=◌ (environ_get s.env name) λ found. elim (text_of found) [
      | [] ↦ ok (pos 0, s)
      | c ∷ text ↦
          Run.◌>>=◌
            (parse_expr (record s {
              text = c ∷ text;
              reading = name ∷ s.reading;
              err = arith_ok;
              depth = s.depth + 1;
            }))
            λ r.
              ok (
                r.0,
                record s { env = r.1.env; err = if is_failed r.1.err then r.1.err else s.err },
              )
    ]

-- A parse whose side effects are suppressed: `noexec` is set for it and put back.
unfoldable pub without_exec : {A : Type 0} → M A → M A
without_exec m s =
    Run.◌>>=◌ (m (record s { noexec = true })) (λ r. ok (r.0, record (r.1) { noexec = s.noexec }))
