-- ===== src/Vm/Arith/Values.antt =====
-- What the parsers of src/vm/arith.c give: the monad and the small steps.
use opsh_actual.Base.{
  ℕ, zero, suc, length, ◌+◌, ◌≡◌, refl, Bool, true, false, ltb, leb, Option, none, some, [], ◌∷◌,
  Bytes, arith, if◌then◌else◌,
}
use opsh_actual.Base.Decimal.{saturate, read_literal, int64_max}
use opsh_actual.Base.Int.{ℤ, pos}
use opsh_actual.Base.Run
use opsh_actual.Base.Run.{Run, ok, stop}
use opsh_actual.Exec.Variable.{Variable, environ_get}
use opsh_actual.Vm.Arith.Frame.{Post}
use opsh_actual.Vm.Arith.Int64.{IsInt64}
use opsh_actual.Vm.Arith.Operators.{Op, loop, left_loop}
use opsh_actual.Vm.Arith.State.{
  skip_ws, ArithState, M, ◌>>=◌, pure, peek, if_failed, is_failed, defined, literal, resolve_var,
  without_exec, text_of, arith_max_depth, arith_ok, depth_exceeded,
}

-- Where the code returns, the predicate holds of the value.
pub record Gives {A : Type 0} (P : A → Type 0) (m : M A) : Type 0 where
  pub gives : (s : ArithState) → Post (λ r. P r.0) (m s)

pub Gives-pure : {A : Type 0} {P : A → Type 0} (a : A) → P a → Gives P (pure a)
Gives-pure a h = record { gives = λ s. h }

pub Gives-bind :
    {A B : Type 0} {P : A → Type 0} {Q : B → Type 0} {m : M A} {f : A → M B}
    → Gives P m
    → ((a : A) → P a → Gives Q (f a))
    → Gives Q (m >>= f)
Gives-bind {A} {B} {P} {Q} {m} {f} gm gf = record { gives = λ s. after (m s) (gm.gives s) }
  where
    after :
        (r : Run (A × ArithState))
        → Post (λ r. P r.0) r
        → Post (λ r. Q r.0) (Run.◌>>=◌ r (λ r. f r.0 r.1))
    after (ok (a, t)) p = (gf a p).gives t
    after (stop e) p = tt

-- Nothing is asked of the first value.
pub Gives-after :
    {A B : Type 0} {Q : B → Type 0} (m : M A) {f : A → M B}
    → ((a : A) → Gives Q (f a))
    → Gives Q (m >>= f)
Gives-after {A} {B} {Q} m {f} gf = record { gives = λ s. after (m s) }
  where
    after : (r : Run (A × ArithState)) → Post (λ r. Q r.0) (Run.◌>>=◌ r (λ r. f r.0 r.1))
    after (ok (a, t)) = (gf a).gives t
    after (stop e) = tt

pub Gives-if :
    {A : Type 0} {P : A → Type 0} (b : Bool) {m k : M A}
    → Gives P m
    → Gives P k
    → Gives P (if b then m else k)
Gives-if true gm gk = gm
Gives-if false gm gk = gk

pub Gives-peek :
    {A : Type 0} {P : A → Type 0} {f : Bytes → M A}
    → ((t : Bytes) → Gives P (f t))
    → Gives P (peek f)
Gives-peek gf = record { gives = λ s. (gf s.text).gives s }

pub Gives-if_failed :
    {A : Type 0} {P : A → Type 0} {m k : M A} → Gives P m → Gives P k → Gives P (if_failed m k)
Gives-if_failed {A} {P} {m} {k} gm gk = record { gives = λ s. pick s (is_failed s.err) }
  where
    pick : (s : ArithState) (b : Bool) → Post (λ r. P r.0) (if b then m s else k s)
    pick s true = gm.gives s
    pick s false = gk.gives s

pub Gives-without_exec :
    {A : Type 0} {P : A → Type 0} {m : M A} → Gives P m → Gives P (without_exec m)
unfolding without_exec
Gives-without_exec {A} {P} {m} gm = record {
  gives = λ s. after s (m (record s { noexec = true })) (gm.gives (record s { noexec = true }));
}
  where
    after :
        (s : ArithState) (r : Run (A × ArithState))
        → Post (λ r. P r.0) r
        → Post (λ r. P r.0) (Run.◌>>=◌ r (λ r. ok (r.0, record (r.1) { noexec = s.noexec })))
    after s (ok r) p = p
    after s (stop e) p = tt

-- A parser whose values are 64-bit integers.
abbrev pub Ranged : M ℤ → Type 0
Ranged m = Gives IsInt64 m

pub Ranged-defined : (o : Option ℤ) → ((v : ℤ) → o ≡ some v → IsInt64 v) → Ranged (defined o)
Ranged-defined none h = record { gives = λ s. tt }
Ranged-defined (some v) h = record { gives = λ s. h v refl }

pub Ranged-literal : Ranged literal
unfolding literal
Ranged-literal = record { gives = λ s. saturated (read_literal s.text).0 }
  where
    saturated : (n : ℕ) → IsInt64 (saturate false n)
    saturated n = pick n (ltb int64_max n) refl
      where
        pick :
            (n : ℕ) (b : Bool) → ltb int64_max n ≡ b → IsInt64 (if b then pos int64_max else pos n)
        pick n true e = omega arith
        pick n false e = ground arith

pub Ranged-resolve_var :
    {parse_expr : M ℤ} (name : Bytes) → Ranged parse_expr → Ranged (resolve_var parse_expr name)
unfolding resolve_var
Ranged-resolve_var {parse_expr} name re = record {
  gives = λ s. pick s (leb arith_max_depth s.depth);
}
  where
    inside : ArithState → Bytes → ArithState
    inside s text = record s {
      text = text;
      reading = name ∷ s.reading;
      err = arith_ok;
      depth = s.depth + 1;
    }

    back :
        (s : ArithState) (r : Run (ℤ × ArithState))
        → Post (λ r. IsInt64 r.0) r
        → Post {A = ℤ}
            (λ r. IsInt64 r.0)
            (Run.◌>>=◌ r (λ r. ok (
              r.0,
              record s { env = r.1.env; err = if is_failed r.1.err then r.1.err else s.err },
            )))
    back s (ok r) p = p
    back s (stop e) p = tt

    evaluated :
        (s : ArithState) (text : Bytes)
        → Post {A = ℤ}
            (λ r. IsInt64 r.0)
            (elim text [
              | [] ↦ ok (pos 0, s)
              | c ∷ text ↦ Run.◌>>=◌ (parse_expr (inside s (c ∷ text))) (λ r. ok (
                r.0,
                record s { env = r.1.env; err = if is_failed r.1.err then r.1.err else s.err },
              ))
            ])
    evaluated s [] = omega arith
    evaluated s (c ∷ text) =
        back s (parse_expr (inside s (c ∷ text))) (re.gives (inside s (c ∷ text)))

    looked_up :
        (s : ArithState) (found : Run (Option Variable))
        → Post {A = ℤ}
            (λ r. IsInt64 r.0)
            (Run.◌>>=◌ found (λ found. elim (text_of found) [
              | [] ↦ ok (pos 0, s)
              | c ∷ text ↦ Run.◌>>=◌ (parse_expr (inside s (c ∷ text))) (λ r. ok (
                r.0,
                record s { env = r.1.env; err = if is_failed r.1.err then r.1.err else s.err },
              ))
            ]))
    looked_up s (ok found) = evaluated s (text_of found)
    looked_up s (stop e) = tt

    pick :
        (s : ArithState) (b : Bool)
        → Post {A = ℤ}
            (λ r. IsInt64 r.0)
            (if b
              then ok (pos 0, record s { err = depth_exceeded })
              else Run.◌>>=◌ (environ_get s.env name) (λ found. elim (text_of found) [
                | [] ↦ ok (pos 0, s)
                | c ∷ text ↦ Run.◌>>=◌ (parse_expr (inside s (c ∷ text))) (λ r. ok (
                  r.0,
                  record s { env = r.1.env; err = if is_failed r.1.err then r.1.err else s.err },
                ))
              ]))
    pick s true = omega arith
    pick s false = looked_up s (environ_get s.env name)

-- The operators of a level, and the loop over them.
abbrev ActRanged : Option (M (ℤ × Bool)) → Type 0
ActRanged none = Unit {0}
ActRanged (some act) = Gives (λ r. IsInt64 r.0) act

pub record RangedAct (o : Option (M (ℤ × Bool))) : Type 0 where
  pub acts : ActRanged o

pub RangedAct-none : RangedAct none
RangedAct-none = record { acts = tt }

pub RangedAct-some : {act : M (ℤ × Bool)} → Gives (λ r. IsInt64 r.0) act → RangedAct (some act)
RangedAct-some ga = record { acts = ga }

pub RangedAct-if :
    (b : Bool) {x y : Option (M (ℤ × Bool))}
    → RangedAct x
    → RangedAct y
    → RangedAct (if b then x else y)
RangedAct-if true gx gy = gx
RangedAct-if false gx gy = gy

abbrev pub RangedOp : Op → Type 0
RangedOp op = (left : ℤ) (text : Bytes) → IsInt64 left → RangedAct (op left text)

Ranged-loop :
    (fuel : ℕ) (op : Op) (left : ℤ) → RangedOp op → IsInt64 left → Ranged (loop fuel op left)
unfolding loop
Ranged-loop zero op left go h = record { gives = λ s. tt }
Ranged-loop (suc fuel) op left go h = Gives-after skip_ws (λ a.
    Gives-if_failed (Gives-pure left h) (
      Gives-peek
        (λ text. by_act (op left text) ((go left text h).acts) (λ v. Ranged-loop fuel op v go))))
  where
    by_act :
        (o : Option (M (ℤ × Bool)))
        → ActRanged o
        → ((v : ℤ) → IsInt64 v → Ranged (loop fuel op v))
        → Ranged (elim o [
          | none ↦ pure left
          | some act ↦ act >>= λ r. elim r.1 [ true ↦ pure r.0 | false ↦ loop fuel op r.0 ]
        ])
    by_act none ga later = Gives-pure left h
    by_act (some act) ga later = Gives-bind ga (λ r p. next r.0 r.1 p)
      where
        next :
            (v : ℤ) (b : Bool)
            → IsInt64 v
            → Ranged (elim b [ true ↦ pure v | false ↦ loop fuel op v ])
        next v true p = Gives-pure v p
        next v false p = later v p

pub Ranged-left_loop :
    {operand : M ℤ} {op : Op} → Ranged operand → RangedOp op → Ranged (left_loop operand op)
unfolding left_loop
Ranged-left_loop {operand} {op} gm go =
    Gives-bind gm (λ left h. Gives-peek (λ text. Ranged-loop (suc (length text)) op left go h))
