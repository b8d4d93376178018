-- ===== src/Exec/Job/Waits.antt =====
-- `job_update` and `job_wait_fg`: what an event does, and when a wait is over.
use opsh_actual.Base.{
  ℕ, suc, ◌≡◌, refl, sym, ◌∙◌, Bool, true, false, ◌==◌, if◌then◌else◌, Option, none, some, List, [],
  ◌∷◌, ◌++◌, arith, Bool-cases, Option-cases, inl, inr, ◌⊎◌, ==_iff,
}
use opsh_actual.Base.Run.{Returns}
use opsh_actual.Exec.Job.{
  Job, JobTable, find_job, job_find_by_id, is_running, has_pid, WaitStatus, job_update, Wait,
  reaped, interrupted, no_children, forwards, Waiting, wait_loop, put_job, job_wait_fg,
}
use opsh_actual.Exec.Job.Order.{ids}
use opsh_actual.Exec.Job.Settled.{
  IsSettled, AllSettled, update_first-Follows, wait_event-Follows, put_job-Follows,
}
use opsh_actual.Exec.Job.Valid.{IsValid, IsValid-jobs}

pub job_update-IsValid :
    (events : List (ℕ × WaitStatus)) (t : JobTable)
    → IsValid t
    → Returns
        (job_update events t)
        λ r. IsValid r.1 × (ids r.1.jobs ≡ ids t.jobs) × (r.1.next_id ≡ t.next_id)
unfolding job_update
job_update-IsValid [] t v = (_, refl, (v, refl, refl))
job_update-IsValid ((pid, s) ∷ events) t v =
    let (r, run, (same, settled)) = update_first-Follows pid s t.jobs v.settled in
    let (r', run', (v', same', next)) =
      job_update-IsValid events (record t { jobs = r.1 }) (IsValid-jobs t r.1 v same settled) in
    (((if r.0 then suc r'.0 else r'.0), r'.1), rw (run, run'), (v', same' ∙ same, next))

-- Whether waitpid ever says that no child is left.
abbrev pub all_gone : List Wait → Bool
all_gone [] = false
all_gone (no_children ∷ ws) = true
all_gone (w ∷ ws) = all_gone ws

-- Where the loop stands: it ends for a job that no longer runs, or without children, and goes on for
-- a running job alone.
pub record Stands (ws : List Wait) (j : Job) (r : Waiting) : Type 0 where
  pub same : r.1.id ≡ j.id
  pub settled : IsSettled r.1
  pub over : r.0 ≡ true → (is_running r.1.state ≡ false) ⊎ (all_gone ws ≡ true)
  pub waiting : r.0 ≡ false → (is_running r.1.state ≡ true) × (all_gone ws ≡ false)

true_false : {A : Type 0} → true ≡ false → A
true_false h = absurd (cc)

left :
    (ws : List Wait) (j : Job)
    → IsSettled j
    → is_running j.state ≡ false
    → Stands ws j (true, j, [])
left ws j settled still = record {
  same = refl;
  settled = settled;
  over = λ h. inl still;
  waiting = λ h. true_false h;
}

pub wait_loop-Stands :
    (ws : List Wait) (j : Job) → IsSettled j → Returns (wait_loop ws j) (Stands ws j)
unfolding wait_loop
wait_loop-Stands [] j settled = elim (Bool-cases (is_running j.state)) [
  | inl runs ↦ (
    (false, j, []),
    rw runs,
    record {
      same = refl;
      settled = settled;
      over = λ h. true_false (sym h);
      waiting = λ h. (runs, refl);
    },
  )
  | inr still ↦ ((true, j, []), rw still, left [] j settled still)
]
wait_loop-Stands (no_children ∷ ws) j settled = (
  (true, j, []),
  refl,
  record { same = refl; settled = settled; over = λ h. inr refl; waiting = λ h. true_false h },
)
wait_loop-Stands (interrupted int term ∷ ws) j settled = elim (Bool-cases (is_running j.state)) [
  | inl runs ↦
      let (r, run, s) = wait_loop-Stands ws j settled in
      (
        (r.0, r.1, forwards int term ++ r.2),
        rw (runs, run),
        record { same = s.same; settled = s.settled; over = s.over; waiting = s.waiting },
      )
  | inr still ↦ (_, rw still, left (interrupted int term ∷ ws) j settled still)
]
wait_loop-Stands (reaped pid s ∷ ws) j settled = elim (Bool-cases (is_running j.state)) [
  | inr still ↦ (_, rw still, left (reaped pid s ∷ ws) j settled still)
  | inl runs ↦ elim (Bool-cases (has_pid pid j.processes)) [
    | inl mine ↦
        let (j', run, (same, settled')) = wait_event-Follows pid s j settled in
        let (r, run', st) = wait_loop-Stands ws j' settled' in
        (
          r,
          rw (runs, mine, run) run',
          record {
            same = st.same ∙ same;
            settled = st.settled;
            over = st.over;
            waiting = st.waiting;
          },
        )
    | inr other ↦
        let (r, run, st) = wait_loop-Stands ws j settled in
        (
          r,
          rw (runs, other) run,
          record { same = st.same; settled = st.settled; over = st.over; waiting = st.waiting },
        )
  ]
]

-- A job that is found stands in the table.
find-settled :
    (id : ℕ) (js : List Job) {j : Job}
    → AllSettled js
    → find_job (λ k. k.id == id) js ≡ some j
    → (j.id ≡ id) × IsSettled j
unfolding find_job
find-settled id [] h e = absurd (cc)
find-settled id (k ∷ js) {j} (h, hs) e = elim (Bool-cases (k.id == id)) [
  | inl here ↦ found k h (ground arith) (taken here e)
  | inr other ↦ find-settled id js hs (skipped other e)
]
  where
    found : (k : Job) → IsSettled k → k.id ≡ id → k ≡ j → (j.id ≡ id) × IsSettled j
    found k h same e = rw (sym e) (same, h)

    taken :
        (k.id == id) ≡ true
        → (if k.id == id then some k else find_job (λ k. k.id == id) js) ≡ some j
        → k ≡ j
    taken here e = cc

    skipped :
        (k.id == id) ≡ false
        → (if k.id == id then some k else find_job (λ k. k.id == id) js) ≡ some j
        → find_job (λ k. k.id == id) js ≡ some j
    skipped other e = cc

find-put_job :
    (id : ℕ) (new : Job) (js : List Job) {j : Job}
    → new.id ≡ id
    → find_job (λ k. k.id == id) js ≡ some j
    → find_job (λ k. k.id == id) (put_job id new js) ≡ some new
unfolding find_job put_job
find-put_job id new [] e h = absurd (cc)
find-put_job id new (k ∷ js) {j} e h = elim (Bool-cases (k.id == id)) [
  | inl here ↦ let mine : (new.id == id) ≡ true = (==_iff new.id id).1 e in rw (here, mine)
  | inr other ↦ rw other (rw other (find-put_job id new js e (deeper other h)))
]
  where
    deeper :
        (k.id == id) ≡ false
        → (if k.id == id then some k else find_job (λ k. k.id == id) js) ≡ some j
        → find_job (λ k. k.id == id) js ≡ some j
    deeper other h = cc

-- The answer of a wait for a job in the table.
abbrev pub Answers : List Wait → Option ℕ → Job → Type 0
Answers ws answer j =
    ((answer ≡ some j.status) × ((is_running j.state ≡ false) ⊎ (all_gone ws ≡ true)))
    ⊎ ((answer ≡ none) × (is_running j.state ≡ true) × (all_gone ws ≡ false))

-- What a wait leaves: 127 for an unknown job, and the job's answer otherwise.
abbrev pub Outcome : List Wait → JobTable → ℕ → Option ℕ × JobTable × List ℕ → Type 0
Outcome ws t id r =
    ((job_find_by_id t id ≡ none) × (r ≡ (some 127, t, [])))
    ⊎ ((j : Job) × (job_find_by_id r.1 id ≡ some j) × IsSettled j × Answers ws r.0 j)

answers :
    (ws : List Wait) (j : Job) (r : Waiting)
    → Stands ws j r
    → Answers ws (if r.0 then some r.1.status else none) r.1
answers ws j r st = elim (Bool-cases r.0) [
  | inl over ↦ inl (rw over, st.over over)
  | inr waits ↦ let (runs, more) = st.waiting waits in inr (rw waits, runs, more)
]

-- In a valid table a wait reads inside its arrays and leaves a valid table with the same next
-- number. For an unknown job it answers 127 and changes nothing. For a known one it answers the
-- job's status once the job is stopped or done or no child is left, and it goes on waiting only
-- while the job runs and there are children.
pub job_wait_fg-Outcome :
    (ws : List Wait) (t : JobTable) (id : ℕ)
    → IsValid t
    → Returns (job_wait_fg ws t id) λ r. IsValid r.1 × (r.1.next_id ≡ t.next_id) × Outcome ws t id r
unfolding job_wait_fg job_find_by_id
job_wait_fg-Outcome ws t id v = elim (Option-cases (find_job (λ k. k.id == id) t.jobs)) [
  | inl gone ↦ ((some 127, t, []), rw (job_wait_fg, gone) refl, (v, refl, inl (gone, refl)))
  | inr (j, found) ↦
      let (same, settled) = find-settled id t.jobs v.settled found in
      let (r, run, st) = wait_loop-Stands ws j settled in
      let (kept, good) = put_job-Follows id r.1 t.jobs (st.same ∙ same) st.settled v.settled in
      (
        (if r.0 then some r.1.status else none, record t { jobs = put_job id r.1 t.jobs }, r.2),
        rw (job_wait_fg, found, run) refl,
        (
          IsValid-jobs t (put_job id r.1 t.jobs) v kept good,
          refl,
          inr (
            r.1,
            find-put_job id r.1 t.jobs (st.same ∙ same) found,
            st.settled,
            answers ws j r st,
          ),
        ),
      )
]
