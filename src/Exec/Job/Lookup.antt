-- ===== src/Exec/Job/Lookup.antt =====
-- What is found by a number after a job was added or removed.
use opsh_actual.Base.{
  ℕ, suc, ◌+◌, ◌<◌, ◌≡◌, refl, sym, Bool, true, false, ◌==◌, ◌||◌, leb, if◌then◌else◌, ==_iff,
  Option, none, some, List, [], ◌∷◌, ◌++◌, length, Bytes, arith, Bool-cases, Option-cases, inl, inr,
}
use opsh_actual.Base.Run.{ok}
use opsh_actual.Exec.Job.{
  Job, JobTable, job_table_max, int_max, new_job, job_add, find_job, job_find_by_id, remove_first,
  job_remove,
}
use opsh_actual.Exec.Job.Order.{ids, Ascending, is_in, is_in-above, is_in-below, find-is_in}
use opsh_actual.Exec.Job.Valid.{IsValid}

abbrev by_id : ℕ → List Job → Option Job
by_id q js = find_job (λ j. j.id == q) js

-- Behind the others, where none of them has the number.
find-append :
    (q : ℕ) (js : List Job) (new : Job)
    → is_in new.id (ids js) ≡ false
    → by_id q (js ++ new ∷ []) ≡ (if new.id == q then some new else by_id q js)
unfolding find_job
find-append q [] new fresh = refl
find-append q (j ∷ js) new fresh = elim (Bool-cases (j.id == q)) [
  | inl here ↦ let other : (new.id == q) ≡ false = apart here fresh in rw (here, other)
  | inr other ↦ rw other (find-append q js new (later fresh))
]
  where
    apart :
        (j.id == q) ≡ true
        → (j.id == new.id || is_in new.id (ids js)) ≡ false
        → (new.id == q) ≡ false
    apart here fresh = ground arith

    later : (j.id == new.id || is_in new.id (ids js)) ≡ false → is_in new.id (ids js) ≡ false
    later fresh = ground arith

-- What adding a job does, by whether the table is full.
abbrev pub Adds : JobTable → ℕ → List ℕ → Bytes → Bool → Type 0
Adds t pgid pids command true = job_add t pgid pids command ≡ ok (none, t)
Adds t pgid pids command false =
    (t' : JobTable) × (job_add t pgid pids command ≡ ok (some t.next_id, t'))
    × (t'.current ≡ t.next_id)
    × (t'.previous ≡ t.current)
    × ((q : ℕ)
        → job_find_by_id t' q ≡ (
            if t.next_id == q
            then some (new_job t.next_id pgid pids command)
            else job_find_by_id t q))

-- In a valid table whose next number is below the largest int: a full table refuses the job and
-- stays; otherwise the job gets the next number and becomes the current one, the old current job
-- becomes the previous one, the job is found under its number, and every other lookup by a number is
-- as before.
pub job_add-Adds :
    (t : JobTable) (pgid : ℕ) (pids : List ℕ) (command : Bytes)
    → IsValid t
    → t.next_id < int_max
    → Adds t pgid pids command (leb job_table_max (length t.jobs))
unfolding job_add job_find_by_id
job_add-Adds t pgid pids command v few = by_room (leb job_table_max (length t.jobs)) refl
  where
    by_room :
        (full : Bool) → leb job_table_max (length t.jobs) ≡ full → Adds t pgid pids command full
    by_room true full = rw (job_add, full) refl
    by_room false free =
        let low : leb int_max t.next_id ≡ false = ground arith in
        let fresh = is_in-above 1 t.next_id t.next_id (ids t.jobs) (omega arith) v.ordered in
        let new = new_job t.next_id pgid pids command in
        (
          record {
            jobs = t.jobs ++ new ∷ [];
            next_id = t.next_id + 1;
            current = t.next_id;
            previous = t.current;
          },
          rw (job_add, free, low) refl,
          refl,
          refl,
          λ q. find-append q t.jobs new fresh,
        )

find-remove_first :
    (low high id : ℕ) (js : List Job) {js' : List Job} (q : ℕ)
    → Ascending low high (ids js)
    → remove_first id js ≡ some js'
    → by_id q js' ≡ (if id == q then none else by_id q js)
unfolding find_job remove_first
find-remove_first low high id [] q h e = absurd (cc)
find-remove_first low high id (j ∷ js) {js'} q (le, h) e = elim (Bool-cases (j.id == id)) [
  | inl here ↦ rw (sym (taken here e)) (elim (Bool-cases (id == q)) [
    | inl same ↦
        rw same (find-is_in q js (is_in-below (suc j.id) high q (ids js) (low_id here same) h))
    | inr other ↦ let other' : (j.id == q) ≡ false = apart here other in rw (other, other')
  ])
  | inr other ↦ elim (Option-cases (remove_first id js)) [
    | inl gone ↦ absurd (none_left other gone e)
    | inr (js'', run) ↦
        let deeper = find-remove_first (suc j.id) high id js q h run in
        rw (sym (kept other run e)) (elim (Bool-cases (j.id == q)) [
          | inl same ↦ let ne : (id == q) ≡ false = split other same in rw (same, ne)
          | inr different ↦ rw different deeper
        ])
  ]
]
  where
    taken :
        (j.id == id) ≡ true
        → (if j.id == id
            then some js
            else elim (remove_first id js) [ none ↦ none | some js' ↦ some (j ∷ js') ])
          ≡ some js'
        → js ≡ js'
    taken here e = some_eq (rw here at e)
      where
        some_eq : {a b : List Job} → some a ≡ some b → a ≡ b
        some_eq h = cc

    none_left :
        (j.id == id) ≡ false
        → remove_first id js ≡ none
        → (if j.id == id
            then some js
            else elim (remove_first id js) [ none ↦ none | some js' ↦ some (j ∷ js') ])
          ≡ some js'
        → ⊥
    none_left other gone e = none_some (rw (other, gone) at e)
      where
        none_some : {a : List Job} → none ≡ some a → ⊥
        none_some h = cc

    kept :
        {js'' : List Job}
        → (j.id == id) ≡ false
        → remove_first id js ≡ some js''
        → (if j.id == id
            then some js
            else elim (remove_first id js) [ none ↦ none | some js' ↦ some (j ∷ js') ])
          ≡ some js'
        → (j ∷ js'') ≡ js'
    kept other run e = some_eq (rw (other, run) at e)
      where
        some_eq : {a b : List Job} → some a ≡ some b → a ≡ b
        some_eq h = cc

    low_id : (j.id == id) ≡ true → (id == q) ≡ true → q < suc j.id
    low_id here same = ground arith

    apart : (j.id == id) ≡ true → (id == q) ≡ false → (j.id == q) ≡ false
    apart here other = ground arith

    split : (j.id == id) ≡ false → (j.id == q) ≡ true → (id == q) ≡ false
    split other same = ground arith

find-missing : (id : ℕ) (js : List Job) → remove_first id js ≡ none → by_id id js ≡ none
unfolding find_job remove_first
find-missing id [] e = refl
find-missing id (j ∷ js) e = elim (Option-cases (remove_first id js)) [
  | inl gone ↦ let deeper = find-missing id js gone in rw (skipped e, deeper)
  | inr (js', run) ↦ absurd (taken run e)
]
  where
    skipped :
        (if j.id == id
            then some js
            else elim (remove_first id js) [ none ↦ none | some js' ↦ some (j ∷ js') ])
          ≡ none
        → (j.id == id) ≡ false
    skipped e = ground arith

    taken :
        {js' : List Job}
        → remove_first id js ≡ some js'
        → (if j.id == id
            then some js
            else elim (remove_first id js) [ none ↦ none | some js' ↦ some (j ∷ js') ])
          ≡ none
        → ⊥
    taken run e = ground arith

-- In a valid table, after a removal the number finds nothing and every other number finds what it
-- found before.
pub job_remove-lookup :
    (t : JobTable) (id q : ℕ)
    → IsValid t
    → job_find_by_id (job_remove t id) q ≡ (if id == q then none else job_find_by_id t q)
unfolding job_remove job_find_by_id
job_remove-lookup t id q v = elim (Option-cases (remove_first id t.jobs)) [
  | inr (js, run) ↦ rw (job_remove, run) (find-remove_first 1 t.next_id id t.jobs q v.ordered run)
  | inl gone ↦
      rw (job_remove, gone)
        (elim (Bool-cases (id == q)) [
          | inl same ↦ rw same (rw (sym ((==_iff id q).0 same)) (find-missing id t.jobs gone))
          | inr other ↦ rw other
        ])
]
