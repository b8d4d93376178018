-- ===== src/Vm/Arith/Steps.antt =====
-- The small steps of src/vm/arith.c, and the variables: what each keeps of the state.
use opsh_actual.Base.{
  ℕ, ◌+◌, ◌≡◌, refl, sym, ◌∙◌, Bool, true, false, Option, none, some, [], ◌∷◌, Bytes, leb, not,
  ◌&&◌, if◌then◌else◌,
}
use opsh_actual.Base.Decimal.{print_int}
use opsh_actual.Base.Int.{ℤ, pos}
use opsh_actual.Base.Run
use opsh_actual.Base.Run.{Run, ok, stop, undefined}
use opsh_actual.Exec.Variable.{Environ, Variable, environ_get, environ_assign}
use opsh_actual.Vm.Arith.State.{
  ArithError, ArithState, M, advance, skip_ws, fail, is_failed, fail_division, defined, take_ident,
  parse_ident, literal, set_var, resolve_var, without_exec, text_of, is_ident_start, at,
  arith_max_depth, arith_ok, depth_exceeded, is_among,
}
use opsh_actual.Vm.Value.{Value}
use opsh_actual.Vm.Arith.Frame.{Same, Same-refl, Post, Frame, Frame-bind}

pub Frame-advance : (n : ℕ) → Frame (advance n)
unfolding advance
Frame-advance n = record { keeps = λ s. record { depth = refl; noexec = refl; env = λ h. refl } }

pub Frame-skip_ws : Frame skip_ws
unfolding skip_ws
Frame-skip_ws = record { keeps = λ s. record { depth = refl; noexec = refl; env = λ h. refl } }

pub Frame-fail : (e : ArithError) → Frame (fail e)
unfolding fail
Frame-fail e = record { keeps = λ s. record { depth = refl; noexec = refl; env = λ h. refl } }

pub Frame-fail_division : Frame fail_division
unfolding fail_division
Frame-fail_division = record { keeps = λ s. pick s s.noexec }
  where
    pick :
        (s : ArithState) (b : Bool)
        → Same s (if b then s else record s { err = ArithError.div_zero })
    pick s true = Same-refl s
    pick s false = record { depth = refl; noexec = refl; env = λ h. refl }

pub Frame-defined : (o : Option ℤ) → Frame (defined o)
Frame-defined none = record { keeps = λ s. tt }
Frame-defined (some n) = record { keeps = Same-refl }

pub Frame-literal : Frame literal
unfolding literal
Frame-literal = record { keeps = λ s. record { depth = refl; noexec = refl; env = λ h. refl } }

pub Frame-parse_ident : Frame parse_ident
unfolding parse_ident
Frame-parse_ident =
    Frame-bind Frame-skip_ws (λ a. record { keeps = λ s. pick s (is_ident_start (at s.text 0)) })
  where
    pick :
        (s : ArithState) (b : Bool)
        → Post {A = Option Bytes}
            (λ r. Same s r.1)
            (if b
              then ok (some ((take_ident s.text).0), record s { text = (take_ident s.text).1 })
              else ok (none, s))
    pick s true = record { depth = refl; noexec = refl; env = λ h. refl }
    pick s false = Same-refl s

-- The one write of a variable, which noexec suppresses.
pub Frame-set_var : (name : Bytes) (value : ℤ) → Frame (set_var name value)
unfolding set_var
Frame-set_var name value = record { keeps = λ s. pick s s.noexec refl }
  where
    written :
        (s : ArithState) (r : Run (Environ × Bool))
        → s.noexec ≡ false
        → Post {A = Unit {0}}
            (λ r. Same s r.1)
            (Run.◌>>=◌ r (λ r.
              if not r.1 && is_among name s.reading
              then stop undefined
              else ok (tt, record s { env = r.0 })))
    written s (stop e) off = tt
    written s (ok r) off = either (not r.1 && is_among name s.reading)
      where
        either :
            (b : Bool)
            → Post {A = Unit {0}}
                (λ r. Same s r.1)
                (if b then stop undefined else ok (tt, record s { env = r.0 }))
        either true = tt
        either false = record {
          depth = refl;
          noexec = refl;
          env = λ h. let never : true ≡ false = sym h ∙ off in cc;
        }

    pick :
        (s : ArithState) (b : Bool)
        → s.noexec ≡ b
        → Post
            (λ r. Same s r.1)
            (if b
              then ok (tt, s)
              else Run.◌>>=◌ (environ_assign s.env name (Value.string (print_int value))) (λ r.
                if not r.1 && is_among name s.reading
                then stop undefined
                else ok (tt, record s { env = r.0 })))
    pick s true on = Same-refl s
    pick s false off = written s (environ_assign s.env name (Value.string (print_int value))) off

-- A variable's text is evaluated one level deeper, and the depth is that of the caller afterwards.
pub Frame-resolve_var :
    {parse_expr : M ℤ} (name : Bytes) → Frame parse_expr → Frame (resolve_var parse_expr name)
unfolding resolve_var
Frame-resolve_var {parse_expr} name fp = record {
  keeps = λ s. pick s (leb arith_max_depth s.depth);
}
  where
    back :
        (s t : ArithState) (r : Run (ℤ × ArithState))
        → t.env ≡ s.env
        → t.noexec ≡ s.noexec
        → Post (λ r. Same t r.1) r
        → Post {A = ℤ}
            (λ r. Same s r.1)
            (Run.◌>>=◌ r (λ r. ok (
              r.0,
              record s { env = r.1.env; err = if is_failed r.1.err then r.1.err else s.err },
            )))
    back s t (ok (v, u)) e e' p = record {
      depth = refl;
      noexec = refl;
      env = λ h. p.env (e' ∙ h) ∙ e;
    }
    back s t (stop e') e e'' p = tt

    inner :
        (s : ArithState) (text : Bytes)
        → Post {A = ℤ}
            (λ r. Same s r.1)
            (elim text [
              | [] ↦ ok (pos 0, s)
              | c ∷ text ↦
                  Run.◌>>=◌
                    (parse_expr (record s {
                      text = c ∷ text;
                      reading = name ∷ s.reading;
                      err = arith_ok;
                      depth = s.depth + 1;
                    }))
                    (λ r. ok (
                      r.0,
                      record s {
                        env = r.1.env;
                        err = if is_failed r.1.err then r.1.err else s.err;
                      },
                    ))
            ])
    inner s [] = Same-refl s
    inner s (c ∷ text) =
        let t = record s {
          text = c ∷ text;
          reading = name ∷ s.reading;
          err = arith_ok;
          depth = s.depth + 1;
        } in
        back s t (parse_expr t) refl refl (fp.keeps t)

    looked_up :
        (s : ArithState) (found : Run (Option Variable))
        → Post {A = ℤ}
            (λ r. Same s r.1)
            (Run.◌>>=◌ found (λ found. elim (text_of found) [
              | [] ↦ ok (pos 0, s)
              | c ∷ text ↦
                  Run.◌>>=◌
                    (parse_expr (record s {
                      text = c ∷ text;
                      reading = name ∷ s.reading;
                      err = arith_ok;
                      depth = s.depth + 1;
                    }))
                    (λ r. ok (
                      r.0,
                      record s {
                        env = r.1.env;
                        err = if is_failed r.1.err then r.1.err else s.err;
                      },
                    ))
            ]))
    looked_up s (ok found) = inner s (text_of found)
    looked_up s (stop e) = tt

    pick :
        (s : ArithState) (b : Bool)
        → Post {A = ℤ}
            (λ r. Same s r.1)
            (if b
              then ok (pos 0, record s { err = depth_exceeded })
              else Run.◌>>=◌ (environ_get s.env name) (λ found. elim (text_of found) [
                | [] ↦ ok (pos 0, s)
                | c ∷ text ↦
                    Run.◌>>=◌
                      (parse_expr (record s {
                        text = c ∷ text;
                        reading = name ∷ s.reading;
                        err = arith_ok;
                        depth = s.depth + 1;
                      }))
                      (λ r. ok (
                        r.0,
                        record s {
                          env = r.1.env;
                          err = if is_failed r.1.err then r.1.err else s.err;
                        },
                      ))
              ]))
    pick s true = record { depth = refl; noexec = refl; env = λ h. refl }
    pick s false = looked_up s (environ_get s.env name)

-- A parse without effects leaves the variables, whatever the mode is.
pub without_exec-env :
    {A : Type 0} (m : M A)
    → Frame m
    → (s : ArithState)
    → Post
        (λ r. (r.1.env ≡ s.env) × (r.1.noexec ≡ s.noexec) × (r.1.depth ≡ s.depth))
        (without_exec m s)
unfolding without_exec
without_exec-env {A} m fm s =
    after (m (record s { noexec = true })) (fm.keeps (record s { noexec = true }))
  where
    after :
        (r : Run (A × ArithState))
        → Post (λ r. Same (record s { noexec = true }) r.1) r
        → Post
            (λ r. (r.1.env ≡ s.env) × (r.1.noexec ≡ s.noexec) × (r.1.depth ≡ s.depth))
            (Run.◌>>=◌ r (λ r. ok (r.0, record (r.1) { noexec = s.noexec })))
    after (ok (a, t)) p = (p.env refl, refl, p.depth)
    after (stop e) p = tt

pub Frame-without_exec : {A : Type 0} {m : M A} → Frame m → Frame (without_exec m)
Frame-without_exec {A} {m} fm = record {
  keeps = λ s. weaken s (without_exec m s) (without_exec-env m fm s);
}
  where
    weaken :
        (s : ArithState) (r : Run (A × ArithState))
        → Post (λ r. (r.1.env ≡ s.env) × (r.1.noexec ≡ s.noexec) × (r.1.depth ≡ s.depth)) r
        → Post (λ r. Same s r.1) r
    weaken s (ok (a, t)) (same, mode, deep) = record {
      depth = deep;
      noexec = mode;
      env = λ h. same;
    }
    weaken s (stop e) p = tt
