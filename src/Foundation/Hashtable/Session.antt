-- ===== src/Foundation/Hashtable/Session.antt =====
-- Any run of operations on a new table, against a function from keys to values.
use opsh_actual.Base.{
  ℕ, ◌+◌, ◌*◌, ◌^◌, ◌≤◌, ◌<◌, ◌≡◌, refl, ◌∙◌, ap, Option, none, some, List, [], ◌∷◌, length, Bytes,
  arith, str_eq, if◌then◌else◌,
}
use opsh_actual.Base.Run.{Run, ok, Returns, ◌>>=◌}
use opsh_actual.Foundation.Hashtable.{Hashtable, ht_init, ht_get, ht_set, ht_remove}
use opsh_actual.Foundation.Hashtable.Grow.{ht_init-IsValid, ht_set-Stored}
use opsh_actual.Foundation.Hashtable.Remove.{ht_remove-Removed}
use opsh_actual.Foundation.Hashtable.Valid.{IsValid, ht_get-view}
use opsh_actual.Foundation.Hashtable.View.{view}

-- A call of the table, as a value.
pub data Call {ℓ} (V : Type ℓ) : Type ℓ where
  get : Bytes → Call V
  store : Bytes → V → Call V
  remove : Bytes → Call V

module _ {ℓ} {V : Type ℓ} where
  -- The table's answer.
  pub call : Call V → Hashtable V → Run (Option V × Hashtable V)
  call (get key) t = ht_get t key >>= λ v. ok (v, t)
  call (store key v) t = ht_set t key v
  call (remove key) t = ht_remove t key

  unfoldable pub calls : List (Call V) → Hashtable V → Run (List (Option V))
  unfolding call
  calls [] t = ok []
  calls (c ∷ cs) t = call c t >>= λ r. calls cs r.1 >>= λ out. ok (r.0 ∷ out)

  -- The specification: a map is a function, an answer is the old value under the key.
  abbrev pub key_of : Call V → Bytes
  key_of (get key) = key
  key_of (store key v) = key
  key_of (remove key) = key

  abbrev pub effect : Call V → (Bytes → Option V) → Bytes → Option V
  effect (get key) m q = m q
  effect (store key v) m q = if str_eq key q then some v else m q
  effect (remove key) m q = if str_eq key q then none else m q

  unfoldable pub answers : List (Call V) → (Bytes → Option V) → List (Option V)
  answers [] m = []
  answers (c ∷ cs) m = m (key_of c) ∷ answers cs (effect c m)

  -- One call: the table may grow, but not past what its calls have stored.
  record Follows (c : Call V) (m : Bytes → Option V) (bound : ℕ) (t : Hashtable V)
      (r : Option V × Hashtable V) : Type ℓ where
    answer : r.0 ≡ m (key_of c)
    valid : IsValid r.1
    models : (q : Bytes) → view r.1.entries q ≡ effect c m q
    count : r.1.count ≤ t.count + 1
    small : r.1.capacity * 3 ≤ 48 + bound * 8

  call-Follows :
      (c : Call V) (m : Bytes → Option V) (bound : ℕ) (t : Hashtable V)
      → IsValid t
      → ((q : Bytes) → view t.entries q ≡ m q)
      → t.count ≤ bound
      → bound < 2 ^ 59
      → t.capacity * 3 ≤ 48 + bound * 8
      → Returns (call c t) (Follows c m bound t)
  unfolding call
  call-Follows (get key) m bound t valid models few le small = (
    (view t.entries key, t),
    rw (ht_get-view valid key),
    record {
      answer = models key;
      valid = valid;
      models = models;
      count = omega arith;
      small = small;
    },
  )
  call-Follows (store key v) m bound t valid models few le small =
      let (r, run, (done, more, wide)) = ht_set-Stored t key v valid (omega arith) in
      (
        r,
        run,
        record {
          answer = done.old ∙ models key;
          valid = done.valid;
          models = λ q. done.reads q ∙ ap (λ w. if str_eq key q then some v else w) (models q);
          count = more;
          small = omega (arith, wide);
        },
      )
  call-Follows (remove key) m bound t valid models few le small =
      let (r, run, (done, wide, less)) = ht_remove-Removed valid key in
      (
        r,
        run,
        record {
          answer = done.old ∙ models key;
          valid = done.valid;
          models = λ q. done.reads q ∙ ap (λ w. if str_eq key q then none else w) (models q);
          count = omega (arith, less);
          small = omega (arith, wide);
        },
      )

  calls-answers :
      (cs : List (Call V)) (m : Bytes → Option V) (bound : ℕ) (t : Hashtable V)
      → IsValid t
      → ((q : Bytes) → view t.entries q ≡ m q)
      → t.count + length cs ≤ bound
      → bound < 2 ^ 59
      → t.capacity * 3 ≤ 48 + bound * 8
      → calls cs t ≡ ok (answers cs m)
  unfolding calls answers
  calls-answers [] m bound t valid models few le small = refl
  calls-answers (c ∷ cs) m bound t valid models few le small =
      let (r, run, done) = call-Follows c m bound t valid models (omega arith) le small in
      let later =
        calls-answers cs (effect c m) bound r.1 done.valid done.models (omega (arith, done.count))
          le done.small in
      rw (run, later) (ap (λ v. ok (v ∷ answers cs (effect c m))) done.answer)

  -- Whatever is done to a new table, in whatever order, it returns the answers of the map: no call
  -- aborts, runs on or leaves the array.
  pub calls-refine :
      (cs : List (Call V)) → length cs < 2 ^ 59 → calls cs ht_init ≡ ok (answers cs (λ _. none))
  unfolding ht_init
  calls-refine cs few =
      let (valid, empty) = ht_init-IsValid {V = V} in
      calls-answers cs (λ _. none) (length cs) ht_init valid empty (omega arith) few (omega arith)
