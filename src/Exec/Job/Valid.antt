-- ===== src/Exec/Job/Valid.antt =====
-- The invariant of the job table, kept by adding, removing, reaping and updating.
use opsh_actual.Base.{
  ℕ, suc, ◌+◌, ◌≤◌, ◌<◌, ◌≡◌, ◌≢◌, refl, sym, ap, ◌∙◌, Bool, true, false, ◌==◌, ◌||◌, leb,
  if◌then◌else◌, none, some, List, [], ◌∷◌, ◌++◌, length, length-append, arith, Bool-cases,
  Option-cases, inl, inr, ◌⊎◌, subst,
}
use opsh_actual.Base.Run.{Returns}
use opsh_actual.Base.{Bytes}
use opsh_actual.Exec.Job.{
  Job, JobTable, job_table_init, job_table_max, int_max, new_job, job_add, remove_first, job_remove,
}
use opsh_actual.Exec.Job.Order.{
  ids, Ascending, is_in, Ascending-push, Ascending-le, ids-append, is_in-append, is_in-above,
  is_in-below, without, Ascending-without, is_in-without,
}
use opsh_actual.Exec.Job.Settled.{AllSettled, AllSettled-append, new_processes}

-- 0 stands for no job.
abbrev pub known : ℕ → List ℕ → Bool
known q is = q == 0 || is_in q is

pub record IsValid (t : JobTable) : Type 0 where
  pub ordered : Ascending 1 t.next_id (ids t.jobs)
  pub room : length t.jobs ≤ job_table_max
  pub current_known : known t.current (ids t.jobs) ≡ true
  pub previous_known : known t.previous (ids t.jobs) ≡ true
  pub apart : t.current ≡ t.previous → t.previous ≡ 0
  pub fallback : t.current ≡ 0 → t.previous ≡ 0
  pub settled : AllSettled t.jobs

pub job_table_init-IsValid : IsValid job_table_init
unfolding job_table_init
job_table_init-IsValid = record {
  ordered = omega arith;
  room = omega arith;
  current_known = refl;
  previous_known = refl;
  apart = λ e. refl;
  fallback = λ e. refl;
  settled = tt;
}

pub length-ids : (js : List Job) → length (ids js) ≡ length js
length-ids [] = refl
length-ids (j ∷ js) = ap suc (length-ids js)

-- Other jobs under the same numbers.
pub IsValid-jobs :
    (t : JobTable) (js : List Job)
    → IsValid t
    → ids js ≡ ids t.jobs
    → AllSettled js
    → IsValid (record t { jobs = js })
IsValid-jobs t js v same settled = record {
  ordered = rw same v.ordered;
  room = omega (arith, sym (length-ids js) ∙ ap length same ∙ length-ids t.jobs, v.room);
  current_known = rw same v.current_known;
  previous_known = rw same v.previous_known;
  apart = v.apart;
  fallback = v.fallback;
  settled = settled;
}

-- What a removed job leaves.
pub record Removal (id : ℕ) (js js' : List Job) : Type 0 where
  pub there : is_in id (ids js) ≡ true
  pub rest : ids js' ≡ without id (ids js)
  pub fewer : length js ≡ suc (length js')
  pub settled : AllSettled js'

pub remove_first-Removal :
    (id : ℕ) (js : List Job)
    → AllSettled js
    → ((remove_first id js ≡ none) × (is_in id (ids js) ≡ false))
      ⊎ ((js' : List Job) × (remove_first id js ≡ some js') × Removal id js js')
unfolding remove_first
remove_first-Removal id [] h = inl (refl, refl)
remove_first-Removal id (j ∷ js) (h, hs) = elim (Bool-cases (j.id == id)) [
  | inl here ↦
      inr (js, rw here, record { there = rw here; rest = rw here; fewer = refl; settled = hs })
  | inr other ↦ elim (remove_first-Removal id js hs) [
    | inl (gone, absent) ↦ inl (rw (other, gone), rw (other, absent))
    | inr (js', run, r) ↦ inr (
      j ∷ js',
      rw (other, run),
      record {
        there = rw (other, r.there);
        rest = rw (other, r.rest);
        fewer = ap suc r.fewer;
        settled = (h, r.settled);
      },
    )
  ]
]

known-without :
    (low high id q : ℕ) (is : List ℕ)
    → Ascending low high is
    → known q is ≡ true
    → q ≢ id
    → known q (without id is) ≡ true
known-without low high id q is h k ne = ground (arith, is_in-without low high id q is h)

-- Removal: the current job becomes the previous one where it was the one removed.
pub job_remove-IsValid : (t : JobTable) (id : ℕ) → IsValid t → IsValid (job_remove t id)
unfolding job_remove
job_remove-IsValid t id v = elim (remove_first-Removal id t.jobs v.settled) [
  | inl (gone, absent) ↦ rw (job_remove, gone) v
  | inr (js, run, r) ↦
      rw (job_remove, run)
        (record {
          ordered = rw r.rest (Ascending-without 1 t.next_id id (ids t.jobs) v.ordered);
          room = omega (arith, r.fewer, v.room);
          current_known = rw r.rest (current r.there);
          previous_known = rw r.rest previous;
          apart = λ e. apart e;
          fallback = λ e. fallback r.there e;
          settled = r.settled;
        })
]
  where
    is : List ℕ
    is = ids t.jobs

    keep : (q : ℕ) → known q is ≡ true → q ≢ id → known q (without id is) ≡ true
    keep q = known-without 1 t.next_id id q is v.ordered

    positive : is_in id is ≡ true → 0 < id
    positive there = ground (arith, is_in-below 1 t.next_id id is)

    current :
        is_in id is ≡ true
        → known (if t.current == id then t.previous else t.current) (without id is) ≡ true
    current there = ground (
      arith,
      keep t.current v.current_known,
      keep t.previous v.previous_known,
      v.apart,
      positive there,
    )

    previous :
        known (if t.current == id || t.previous == id then 0 else t.previous) (without id is) ≡ true
    previous = ground (arith, keep t.previous v.previous_known)

    apart :
        (if t.current == id then t.previous else t.current)
          ≡ (if t.current == id || t.previous == id then 0 else t.previous)
        → (if t.current == id || t.previous == id then 0 else t.previous) ≡ 0
    apart e = ground (arith, v.apart)

    fallback :
        is_in id is ≡ true
        → (if t.current == id then t.previous else t.current) ≡ 0
        → (if t.current == id || t.previous == id then 0 else t.previous) ≡ 0
    fallback there e = ground (arith, v.fallback)

pub job_remove-next_id : (t : JobTable) (id : ℕ) → (job_remove t id).next_id ≡ t.next_id
unfolding job_remove
job_remove-next_id t id = elim (Option-cases (remove_first id t.jobs)) [
  | inl gone ↦ rw (job_remove, gone) refl
  | inr (js, run) ↦ rw (job_remove, run) refl
]

-- A new job is the current one, and the one before it the previous.
pub job_add-IsValid :
    (t : JobTable) (pgid pid : ℕ) (pids : List ℕ) (command : Bytes)
    → IsValid t
    → t.next_id < int_max
    → Returns (job_add t pgid (pid ∷ pids) command) λ r. IsValid r.1 × (r.1.next_id ≤ suc t.next_id)
unfolding job_add
job_add-IsValid t pgid pid pids command v few =
    elim (Bool-cases (leb job_table_max (length t.jobs))) [
      | inl full ↦ ((none, t), rw full, (v, omega arith))
      | inr free ↦
          let new = new_job t.next_id pgid (pid ∷ pids) command in
          let low : leb int_max t.next_id ≡ false = ground arith in
          let fresh : is_in t.next_id (ids t.jobs) ≡ false =
            is_in-above 1 t.next_id t.next_id (ids t.jobs) (omega arith) v.ordered in
          let grown = ids-append t.jobs (new ∷ []) in
          let least : 1 ≤ t.next_id = Ascending-le 1 t.next_id (ids t.jobs) v.ordered in
          let last = is_in-append t.next_id (ids t.jobs) (t.next_id ∷ []) in
          let before = is_in-append t.current (ids t.jobs) (t.next_id ∷ []) in
          (
            (
              some t.next_id,
              record {
                jobs = t.jobs ++ new ∷ [];
                next_id = t.next_id + 1;
                current = t.next_id;
                previous = t.current;
              },
            ),
            rw (free, low),
            (
              record {
                ordered = rw grown (Ascending-push 1 t.next_id (ids t.jobs) v.ordered);
                room = omega (arith, length-append t.jobs (new ∷ []), below free);
                current_known = rw grown (ground (arith, last));
                previous_known = rw grown (ground (arith, before, v.current_known));
                apart = λ e. absurd (twice least fresh v.current_known e);
                fallback = λ e. absurd (omega (arith, e, least));
                settled = AllSettled-append t.jobs (new ∷ []) v.settled (
                    (
                      record {
                        manned = (0, new_processes pid pids);
                        ended = λ h. absurd (cc);
                        reports = λ h. absurd (cc);
                      },
                      tt,
                    ));
              },
              omega arith,
            ),
          )
    ]
  where
    below : leb job_table_max (length t.jobs) ≡ false → length t.jobs < job_table_max
    below h = ground arith

    twice :
        1 ≤ t.next_id
        → is_in t.next_id (ids t.jobs) ≡ false
        → known t.current (ids t.jobs) ≡ true
        → t.next_id ≡ t.current
        → ⊥
    twice least fresh k e =
        missing t.current least (subst (λ q. is_in q (ids t.jobs) ≡ false) e fresh) k e
      where
        missing :
            (q : ℕ)
            → 1 ≤ t.next_id
            → is_in q (ids t.jobs) ≡ false
            → known q (ids t.jobs) ≡ true
            → t.next_id ≡ q
            → ⊥
        missing q least fresh k e = ground arith
