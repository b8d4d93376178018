-- ===== src/Vm/Arith/Frame.antt =====
-- What no parser changes: the depth and the noexec flag, and in noexec mode the variables.
use opsh_actual.Base.{◌≡◌, refl, ◌∙◌, Bool, true, false, Bytes, if◌then◌else◌}
use opsh_actual.Base.Run
use opsh_actual.Base.Run.{Run, ok, stop}
use opsh_actual.Vm.Arith.State.{ArithState, M, ◌>>=◌, pure, peek, if_failed, is_failed}

pub record Same (s s' : ArithState) : Type 0 where
  pub depth : s'.depth ≡ s.depth
  pub noexec : s'.noexec ≡ s.noexec
  pub env : s.noexec ≡ true → s'.env ≡ s.env

-- Of every result there may be.
abbrev pub Post : {A : Type 0} → (A × ArithState → Type 0) → Run (A × ArithState) → Type 0
Post P (ok r) = P r
Post P (stop e) = Unit {0}

pub record Frame {A : Type 0} (m : M A) : Type 0 where
  pub keeps : (s : ArithState) → Post (λ r. Same s r.1) (m s)

pub Same-refl : (s : ArithState) → Same s s
Same-refl s = record { depth = refl; noexec = refl; env = λ h. refl }

Same-trans : (s t u : ArithState) → Same s t → Same t u → Same s u
Same-trans s t u p q = record {
  depth = q.depth ∙ p.depth;
  noexec = q.noexec ∙ p.noexec;
  env = λ h. q.env (p.noexec ∙ h) ∙ p.env h;
}

pub Frame-pure : {A : Type 0} (a : A) → Frame (pure a)
Frame-pure a = record { keeps = Same-refl }

pub Frame-bind :
    {A B : Type 0} {m : M A} {f : A → M B} → Frame m → ((a : A) → Frame (f a)) → Frame (m >>= f)
Frame-bind {A} {B} {m} {f} fm ff = record { keeps = λ s. after s (m s) (fm.keeps s) }
  where
    later :
        (s t : ArithState)
        → Same s t
        → (r : Run (B × ArithState)) → Post (λ r. Same t r.1) r
        → Post (λ r. Same s r.1) r
    later s t p (ok (b, u)) q = Same-trans s t u p q
    later s t p (stop e) q = tt

    after :
        (s : ArithState) (r : Run (A × ArithState))
        → Post (λ r. Same s r.1) r
        → Post (λ r. Same s r.1) (Run.◌>>=◌ r (λ r. f r.0 r.1))
    after s (ok (a, t)) p = later s t p (f a t) ((ff a).keeps t)
    after s (stop e) p = tt

pub Frame-if : {A : Type 0} (b : Bool) {m k : M A} → Frame m → Frame k → Frame (if b then m else k)
Frame-if true fm fk = fm
Frame-if false fm fk = fk

pub Frame-peek : {A : Type 0} {f : Bytes → M A} → ((t : Bytes) → Frame (f t)) → Frame (peek f)
Frame-peek ff = record { keeps = λ s. (ff s.text).keeps s }

pub Frame-if_failed : {A : Type 0} {m k : M A} → Frame m → Frame k → Frame (if_failed m k)
Frame-if_failed {A} {m} {k} fm fk = record { keeps = λ s. pick s (is_failed s.err) }
  where
    pick : (s : ArithState) (b : Bool) → Post (λ r. Same s r.1) (if b then m s else k s)
    pick s true = fm.keeps s
    pick s false = fk.keeps s
