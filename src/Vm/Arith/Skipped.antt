-- ===== src/Vm/Arith/Skipped.antt =====
-- The operands of `&&`, `||` and `?:` that are not evaluated.
use opsh_actual.Base.{
  ℕ, ◌≡◌, ◌⊎◌, inl, inr, refl, Bool, true, false, ◌&&◌, Option, none, some, Bytes, ◌==◌,
  if◌then◌else◌, get_or,
}
use opsh_actual.Base.Int.{ℤ, pos}
use opsh_actual.Base.Run
use opsh_actual.Base.Run.{Run, ok, stop}
use opsh_actual.Vm.Arith.Frame.{Post, Frame}
use opsh_actual.Vm.Arith.Int64.{is_zero}
use opsh_actual.Vm.Arith.Levels.{Frame-parse_bit_or, Frame-parse_log_and}
use opsh_actual.Vm.Arith.Operators.{is_at, log_and_op, log_or_op, goes_on}
use opsh_actual.Vm.Arith.Quiet.{Frame-parse}
use opsh_actual.Vm.Arith.State.{
  ArithState, M, ◌>>◌, pure, advance, skip_ws, drop, fail, syntax, skip_blanks, without_exec,
}
use opsh_actual.Vm.Arith.Steps.{without_exec-env}
use opsh_actual.Vm.Arith.{
  take_second, take_first, arms, parse_bit_or, parse_log_and, unary, assign, parse,
}

-- No variable has changed, and the mode and the depth are what they were.
pub record Untouched (s s' : ArithState) : Type 0 where
  pub env : s'.env ≡ s.env
  pub noexec : s'.noexec ≡ s.noexec
  pub depth : s'.depth ≡ s.depth

skips-Untouched :
    {A B : Type 0} {m : M A} (n : ℕ) (b : B)
    → Frame m
    → (s : ArithState) → Post (λ r. Untouched s r.1) ((advance n >> without_exec m >> pure b) s)
unfolding advance
skips-Untouched {A} {B} {m} n b fm s =
    let t = record s { text = drop n s.text } in after (without_exec m t) (without_exec-env m fm t)
  where
    after :
        (r : Run (A × ArithState))
        → Post (λ r. (r.1.env ≡ s.env) × (r.1.noexec ≡ s.noexec) × (r.1.depth ≡ s.depth)) r
        → Post {A = B} (λ r. Untouched s r.1) (Run.◌>>=◌ r (λ r. ok (b, r.1)))
    after (ok r) (same, mode, deep) = record { env = same; noexec = mode; depth = deep }
    after (stop e) p = tt

-- What an operator does where it stands in the text; elsewhere its level ends and nothing is done.
abbrev pub act_of : ℤ → Option (M (ℤ × Bool)) → M (ℤ × Bool)
act_of left none = pure (left, true)
act_of left (some act) = act

standing-Untouched :
    (left : ℤ) (b : Bool) (act : M (ℤ × Bool)) (s : ArithState)
    → Post (λ r. Untouched s r.1) (act s)
    → Post (λ r. Untouched s r.1) (act_of left (if b then some act else none) s)
standing-Untouched left true act s p = p
standing-Untouched left false act s p = record { env = refl; noexec = refl; depth = refl }

log_and_op-Untouched :
    {operand : M ℤ} (text : Bytes)
    → Frame operand
    → (s : ArithState)
    → Post (λ r. Untouched s r.1) (act_of (pos 0) (log_and_op operand (pos 0) text) s)
unfolding log_and_op
log_and_op-Untouched {operand} text fm s =
    standing-Untouched (pos 0) (is_at text 0 b'&' && is_at text 1 b'&')
      (advance 2 >> without_exec operand >> goes_on (pos 0)) s
      (skips-Untouched 2 (pos 0, false) fm s)

log_or_op-Untouched :
    {operand : M ℤ} (left : ℤ) (text : Bytes)
    → is_zero left ≡ false
    → Frame operand
    → (s : ArithState) → Post (λ r. Untouched s r.1) (act_of left (log_or_op operand left text) s)
unfolding log_or_op
log_or_op-Untouched {operand} left text other fm s = rw other (
    standing-Untouched left (is_at text 0 b'|' && is_at text 1 b'|')
      (advance 2 >> without_exec operand >> goes_on (pos 1)) s
      (skips-Untouched 2 (pos 1, false) fm s))

-- The first arm is skipped: the second one runs from a state whose variables are untouched, or there
-- is none, and that is an error.
abbrev pub SecondArm : M ℤ → ArithState → ℤ × ArithState → Type 0
SecondArm arm s r =
    (t : ArithState) × Untouched s t × ((arm t ≡ ok r) ⊎ (r ≡ (pos 0, record t { err = syntax })))

-- The second arm is skipped: what is left are the value and the variables of the first one.
abbrev pub FirstArm : M ℤ → ArithState → ℤ × ArithState → Type 0
FirstArm arm s r = (t : ArithState) × (arm s ≡ ok (r.0, t)) × Untouched t r.1

take_second-SecondArm :
    {arm : M ℤ} → Frame arm → (s : ArithState) → Post (SecondArm arm s) (take_second arm s)
unfolding take_second skip_ws advance fail
take_second-SecondArm {arm} fm s = after (without_exec arm s) (without_exec-env arm fm s)
  where
    ran :
        (t : ArithState)
        → Untouched s t
        → (r : Run (ℤ × ArithState)) → arm t ≡ r
        → Post (SecondArm arm s) r
    ran t same (ok r) e = (t, same, inl e)
    ran t same (stop x) e = tt

    by_colon :
        (b : Bool) (u : ArithState)
        → Untouched s u
        → Post (SecondArm arm s) ((if b then advance 1 >> arm else fail syntax >> pure (pos 0)) u)
    by_colon true u same =
        let t = record u { text = drop 1 u.text } in
        ran t (record { env = same.env; noexec = same.noexec; depth = same.depth }) (arm t) refl
    by_colon false u same = (u, same, inr refl)

    after :
        (r : Run (ℤ × ArithState))
        → Post (λ r. (r.1.env ≡ s.env) × (r.1.noexec ≡ s.noexec) × (r.1.depth ≡ s.depth)) r
        → Post (SecondArm arm s) (
            Run.◌>>=◌ r (λ r.
              (if get_or (skip_blanks r.1.text) 0 0 == b':'
                  then advance 1 >> arm
                  else fail syntax >> pure (pos 0))
                (record (r.1) { text = skip_blanks r.1.text })))
    after (ok r) (same, mode, deep) =
        by_colon (get_or (skip_blanks r.1.text) 0 0 == b':')
          (record (r.1) { text = skip_blanks r.1.text })
          (record { env = same; noexec = mode; depth = deep })
    after (stop x) p = tt

take_first-FirstArm :
    {arm : M ℤ} → Frame arm → (s : ArithState) → Post (FirstArm arm s) (take_first arm s)
unfolding take_first skip_ws advance fail
take_first-FirstArm {arm} fm s = after (arm s) refl
  where
    skipped :
        (val : ℤ) (t : ArithState) (r : Run (ℤ × ArithState))
        → arm s ≡ ok (val, t)
        → Post (λ r. (r.1.env ≡ t.env) × (r.1.noexec ≡ t.noexec) × (r.1.depth ≡ t.depth)) r
        → Post (FirstArm arm s) (Run.◌>>=◌ r (λ r. ok (val, r.1)))
    skipped val t (ok r) e (same, mode, deep) =
        (t, e, record { env = same; noexec = mode; depth = deep })
    skipped val t (stop x) e p = tt

    by_colon :
        (b : Bool) (val : ℤ) (t : ArithState)
        → arm s ≡ ok (val, t)
        → Post (FirstArm arm s) (
            (if b then advance 1 >> without_exec arm >> pure val else fail syntax >> pure val)
              (record t { text = skip_blanks t.text }))
    by_colon true val t e =
        let u = record t { text = drop 1 (skip_blanks t.text) } in
        skipped val t (without_exec arm u) e (without_exec-env arm fm u)
    by_colon false val t e = (t, e, record { env = refl; noexec = refl; depth = refl })

    after :
        (r : Run (ℤ × ArithState))
        → arm s ≡ r
        → Post (FirstArm arm s) (
            Run.◌>>=◌ r (λ r.
              (if get_or (skip_blanks r.1.text) 0 0 == b':'
                  then advance 1 >> without_exec arm >> pure r.0
                  else fail syntax >> pure r.0)
                (record (r.1) { text = skip_blanks r.1.text })))
    after (ok (val, t)) e = by_colon (get_or (skip_blanks t.text) 0 0 == b':') val t e
    after (stop x) e = tt

-- The four operands that are not evaluated, with the parsers of the fuel given: behind `&&` and 0,
-- behind `||` and what is not 0, and the first arm behind 0 and the second behind what is not.
pub record Skips (fuel : ℕ) (left : ℤ) (text : Bytes) (s : ArithState) : Type 0 where
  pub behind_and :
      Post
        (λ r. Untouched s r.1)
        (act_of (pos 0) (log_and_op (parse_bit_or (parse fuel unary)) (pos 0) text) s)
  pub behind_or :
      Post
        (λ r. Untouched s r.1)
        (act_of left (log_or_op (parse_log_and (parse fuel unary)) left text) s)
  pub first_arm : Post (SecondArm (parse fuel assign) s) (arms (pos 0) (parse fuel assign) s)
  pub second_arm : Post (FirstArm (parse fuel assign) s) (arms left (parse fuel assign) s)

-- For a value that is not 0, whatever the text, the state and the fuel are, of the operands that are
-- not evaluated, where the code returns: the one behind `0 &&`, and the one behind the value and `||`,
-- change no variable, nor the mode, nor the depth; behind 0 and `?` the first arm changes none of
-- them before the second arm runs or is found missing, and behind the value and `?` the second arm
-- changes none of them after the first arm has run.
pub without_exec-Skips :
    (fuel : ℕ) (left : ℤ) (text : Bytes) (s : ArithState)
    → is_zero left ≡ false
    → Skips fuel left text s
without_exec-Skips fuel left text s other = record {
  behind_and = log_and_op-Untouched text (Frame-parse_bit_or (Frame-parse fuel unary)) s;
  behind_or = log_or_op-Untouched left text other (Frame-parse_log_and (Frame-parse fuel unary)) s;
  first_arm = take_second-SecondArm (Frame-parse fuel assign) s;
  second_arm = rw other (take_first-FirstArm (Frame-parse fuel assign) s);
}
