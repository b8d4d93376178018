-- ===== src/Exec/Job/Reap.antt =====
-- `job_reap_done` is the filter of the table.
use opsh_actual.Base.{
  ℕ, zero, suc, ◌≤◌, ◌<◌, ◌≡◌, refl, sym, ap, ◌∙◌, subst, false, ◌==◌, ◌||◌, if◌then◌else◌, none,
  some, List, [], ◌∷◌, ◌++◌, length, length-append, get_elem?, arith, Bool-cases, inl, inr,
}
use opsh_actual.Base.Run.{ok, Returns}
use opsh_actual.Exec.Job.{
  Job, JobTable, remove_first, job_remove, is_reapable, reap_from, job_reap_done,
}
use opsh_actual.Exec.Job.Order.{ids, Ascending, is_in, ids-append}
use opsh_actual.Exec.Job.Valid.{IsValid, job_remove-IsValid}

-- The jobs that stay.
abbrev pub unreaped : List Job → List Job
unreaped [] = []
unreaped (j ∷ js) = if is_reapable j then unreaped js else j ∷ unreaped js

get_elem?-append :
    {A : Type 0} (pre rest : List A) → get_elem? (pre ++ rest) (length pre) ≡ get_elem? rest 0
get_elem?-append [] rest = refl
get_elem?-append (p ∷ pre) rest = get_elem?-append pre rest

append_assoc : {A : Type 0} (xs ys zs : List A) → (xs ++ ys) ++ zs ≡ xs ++ (ys ++ zs)
append_assoc [] ys zs = refl
append_assoc (x ∷ xs) ys zs = ap (λ l. x ∷ l) (append_assoc xs ys zs)

Ascending-once :
    (low high q : ℕ) (is ks : List ℕ) → Ascending low high (is ++ q ∷ ks) → is_in q is ≡ false
Ascending-once low high q [] ks h = refl
Ascending-once low high q (i ∷ is) ks (le, h) =
    ground (arith, Ascending-once (suc i) high q is ks h, beyond (suc i) is h)
  where
    beyond : (low : ℕ) (is : List ℕ) → Ascending low high (is ++ q ∷ ks) → low ≤ q
    beyond low [] (le, h) = le
    beyond low (k ∷ is) (le, h) = omega (arith, beyond (suc k) is h)

remove_first-append :
    (j : Job) (pre rest : List Job)
    → is_in j.id (ids pre) ≡ false
    → remove_first j.id (pre ++ j ∷ rest) ≡ some (pre ++ rest)
unfolding remove_first
remove_first-append j [] rest h = ground arith
remove_first-append j (p ∷ pre) rest h =
    let (other, absent) = apart h in rw (other, remove_first-append j pre rest absent)
  where
    apart :
        (p.id == j.id || is_in j.id (ids pre)) ≡ false
        → ((p.id == j.id) ≡ false) × (is_in j.id (ids pre) ≡ false)
    apart h = ground arith

-- One removal of the loop, at its place.
job_remove-jobs :
    (t : JobTable) (j : Job) (pre rest : List Job)
    → t.jobs ≡ pre ++ j ∷ rest
    → is_in j.id (ids pre) ≡ false
    → ((job_remove t j.id).jobs ≡ pre ++ rest) × ((job_remove t j.id).next_id ≡ t.next_id)
unfolding job_remove
job_remove-jobs t j pre rest e fresh =
    let run : remove_first j.id t.jobs ≡ some (pre ++ rest) =
      ap (remove_first j.id) e ∙ remove_first-append j pre rest fresh in
    rw (job_remove, run) (refl, refl)

-- The table that reaping leaves.
pub record Reaped (t : JobTable) (left : List Job) (t' : JobTable) : Type 0 where
  pub valid : IsValid t'
  pub jobs : t'.jobs ≡ left
  pub next_id : t'.next_id ≡ t.next_id

reap_from-Reaped :
    (fuel : ℕ) (t : JobTable) (pre rest : List Job)
    → IsValid t
    → t.jobs ≡ pre ++ rest
    → length rest < fuel
    → Returns (reap_from fuel (length pre) t) (Reaped t (pre ++ unreaped rest))
unfolding reap_from
reap_from-Reaped zero t pre rest v e lt = absurd (omega arith)
reap_from-Reaped (suc fuel) t pre [] v e lt =
    let end : get_elem? t.jobs (length pre) ≡ none =
      ap (λ js. get_elem? js (length pre)) e ∙ get_elem?-append pre [] in
    (t, rw (reap_from, end), record { valid = v; jobs = e; next_id = refl })
reap_from-Reaped (suc fuel) t pre (j ∷ rest) v e lt = elim (Bool-cases (is_reapable j)) [
  | inl dead ↦
      let order : Ascending 1 t.next_id (ids pre ++ j.id ∷ ids rest) =
        subst (Ascending 1 t.next_id) (ap ids e ∙ ids-append pre (j ∷ rest)) v.ordered in
      let fresh : is_in j.id (ids pre) ≡ false =
        Ascending-once 1 t.next_id j.id (ids pre) (ids rest) order in
      let (jobs, next) = job_remove-jobs t j pre rest e fresh in
      let (t', run, r) =
        reap_from-Reaped fuel (job_remove t j.id) pre rest (job_remove-IsValid t j.id v) jobs
          (omega arith) in
      (
        t',
        rw (reap_from, here, dead) run,
        record { valid = r.valid; jobs = rw dead r.jobs; next_id = r.next_id ∙ next },
      )
  | inr live ↦
      let e' : t.jobs ≡ (pre ++ j ∷ []) ++ rest = e ∙ sym (append_assoc pre (j ∷ []) rest) in
      let longer : length (pre ++ j ∷ []) ≡ suc (length pre) =
        omega (arith, length-append pre (j ∷ [])) in
      let (t', run, r) = reap_from-Reaped fuel t (pre ++ j ∷ []) rest v e' (omega arith) in
      (
        t',
        rw (reap_from, here, live) (subst (λ n. reap_from fuel n t ≡ ok t') longer run),
        record {
          valid = r.valid;
          jobs = rw live (r.jobs ∙ append_assoc pre (j ∷ []) (unreaped rest));
          next_id = r.next_id;
        },
      )
]
  where
    here : get_elem? t.jobs (length pre) ≡ some j
    here = ap (λ js. get_elem? js (length pre)) e ∙ get_elem?-append pre (j ∷ rest)

-- In a valid table the reaping ends; it leaves a valid table with exactly the jobs that are not both
-- done and notified, in their order.
pub job_reap_done-Reaped :
    (t : JobTable) → IsValid t → Returns (job_reap_done t) (Reaped t (unreaped t.jobs))
unfolding job_reap_done
job_reap_done-Reaped t v = reap_from-Reaped (suc (length t.jobs)) t [] t.jobs v refl (omega arith)
