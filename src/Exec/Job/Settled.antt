-- ===== src/Exec/Job/Settled.antt =====
-- A job that is done: all its processes have ended, and its status is that of the last one.
use opsh_actual.Base.{
  ℕ, ◌+◌, ◌≡◌, refl, sym, ap, ◌∙◌, Bool, true, false, ◌==◌, some, List, [], ◌∷◌, ◌++◌, map, arith,
  Bool-cases, inl, inr,
}
use opsh_actual.Base.Run.{Returns}
use opsh_actual.Exec.Job.{
  Job, Process, JobState, job_running, job_stopped, job_done, is_done, all_done, last_status,
  job_check_complete, WaitStatus, exited, signaled, stopped, continued, mark, end_process,
  update_job, update_first, has_pid, wait_event, put_job, new_process,
}
use opsh_actual.Exec.Job.Order.{ids}

pub record IsSettled (j : Job) : Type 0 where
  pub manned : (s : ℕ) × (last_status j.processes ≡ some s)
  pub ended : is_done j.state ≡ true → all_done j.processes ≡ true
  pub reports : is_done j.state ≡ true → last_status j.processes ≡ some j.status

abbrev pub AllSettled : List Job → Type 0
AllSettled [] = Unit
AllSettled (j ∷ js) = IsSettled j × AllSettled js

pub AllSettled-append : (js ks : List Job) → AllSettled js → AllSettled ks → AllSettled (js ++ ks)
AllSettled-append [] ks h h' = h'
AllSettled-append (j ∷ js) ks (h, hs) h' = (h, AllSettled-append js ks hs h')

pub new_processes : (pid : ℕ) (pids : List ℕ) → last_status (map new_process (pid ∷ pids)) ≡ some 0
unfolding last_status
new_processes pid [] = refl
new_processes pid (next ∷ pids) = new_processes next pids

mark-all_done :
    (pid status : ℕ) (ps : List Process) → all_done ps ≡ true → all_done (mark pid status ps) ≡ true
unfolding all_done mark
mark-all_done pid status [] h = refl
mark-all_done pid status (p ∷ ps) h = ground (arith, mark-all_done pid status ps)

-- The last status of a list that is not empty.
behind : (p : Process) (ps : List Process) → (s : ℕ) × (last_status (p ∷ ps) ≡ some s)
unfolding last_status
behind p [] = (p.pid_status, refl)
behind p (q ∷ ps) = behind q ps

mark-manned :
    (pid status : ℕ) (ps : List Process) {s : ℕ}
    → last_status ps ≡ some s
    → (s' : ℕ) × (last_status (mark pid status ps) ≡ some s')
unfolding mark last_status
mark-manned pid status [] h = absurd (cc)
mark-manned pid status (p ∷ ps) h = elim (Bool-cases (p.pid == pid)) [
  | inl same ↦ rw same (behind (record { pid = p.pid; pid_status = status; pid_done = true }) ps)
  | inr other ↦ rw other (behind p (mark pid status ps))
]

-- What an event leaves of a job.
abbrev pub Follows : Job → Job → Type 0
Follows j j' = (j'.id ≡ j.id) × IsSettled j'

end_process-Follows :
    (pid status : ℕ) (j : Job) → IsSettled j → Returns (end_process pid status j) (Follows j)
unfolding end_process job_check_complete
end_process-Follows pid status j settled =
    let ps = mark pid status j.processes in
    let (s, last) = mark-manned pid status j.processes settled.manned.1 in
    elim (Bool-cases (all_done ps)) [
      | inl all ↦ (
        record j { processes = ps; state = job_done; status = s },
        rw (all, last),
        (refl, record { manned = (s, last); ended = λ h. all; reports = λ h. last }),
      )
      | inr some' ↦
          let open' : is_done j.state ≡ true → ⊥ = λ h.
            true_false (sym (mark-all_done pid status j.processes (settled.ended h)) ∙ some') in
          (
            record j { processes = ps },
            rw some',
            (
              refl,
              record {
                manned = (s, last);
                ended = λ h. absurd (open' h);
                reports = λ h. absurd (open' h);
              },
            ),
          )
    ]
  where
    true_false : true ≡ false → ⊥
    true_false h = cc

false_true : {A : Type 0} → false ≡ true → A
false_true h = absurd (cc)

-- Stopping and going on leave the processes as they are.
moved :
    (j : Job) (state : JobState) (status : ℕ) (notified : Bool)
    → is_done state ≡ false
    → IsSettled j
    → IsSettled (record j { state = state; status = status; notified = notified })
moved j state status notified other settled = record {
  manned = settled.manned;
  ended = λ h. false_true (sym other ∙ h);
  reports = λ h. false_true (sym other ∙ h);
}

pub update_job-Follows :
    (pid : ℕ) (s : WaitStatus) (j : Job) → IsSettled j → Returns (update_job pid s j) (Follows j)
unfolding update_job
update_job-Follows pid (exited code) j settled = end_process-Follows pid code j settled
update_job-Follows pid (signaled signal) j settled =
    end_process-Follows pid (128 + signal) j settled
update_job-Follows pid (stopped signal) j settled =
    (_, refl, (refl, moved j job_stopped (128 + signal) false refl settled))
update_job-Follows pid continued j settled =
    (_, refl, (refl, moved j job_running j.status false refl settled))

pub wait_event-Follows :
    (pid : ℕ) (s : WaitStatus) (j : Job) → IsSettled j → Returns (wait_event pid s j) (Follows j)
unfolding wait_event
wait_event-Follows pid (exited code) j settled = end_process-Follows pid code j settled
wait_event-Follows pid (signaled signal) j settled =
    end_process-Follows pid (128 + signal) j settled
wait_event-Follows pid (stopped signal) j settled =
    (_, refl, (refl, moved j job_stopped (128 + signal) false refl settled))
wait_event-Follows pid continued j settled =
    (_, refl, (refl, moved j job_running j.status j.notified refl settled))

-- The same for the whole table.
pub update_first-Follows :
    (pid : ℕ) (s : WaitStatus) (js : List Job)
    → AllSettled js
    → Returns (update_first pid s js) λ r. (ids r.1 ≡ ids js) × AllSettled r.1
unfolding update_first
update_first-Follows pid s [] h = (_, refl, (refl, tt))
update_first-Follows pid s (j ∷ js) (h, hs) = elim (Bool-cases (has_pid pid j.processes)) [
  | inl here ↦
      let (j', run, (same, settled)) = update_job-Follows pid s j h in
      ((true, j' ∷ js), rw (here, run), (rw same, (settled, hs)))
  | inr other ↦
      let (r, run, (same, settled)) = update_first-Follows pid s js hs in
      ((r.0, j ∷ r.1), rw (other, run), (rw same, (h, settled)))
]

pub put_job-Follows :
    (id : ℕ) (new : Job) (js : List Job)
    → new.id ≡ id
    → IsSettled new
    → AllSettled js
    → (ids (put_job id new js) ≡ ids js) × AllSettled (put_job id new js)
unfolding put_job
put_job-Follows id new [] e h hs = (refl, tt)
put_job-Follows id new (j ∷ js) e h (h', hs) = elim (Bool-cases (j.id == id)) [
  | inl here ↦
      let same : new.id ≡ j.id = ground arith in rw here (ap (λ i. i ∷ ids js) same, (h, hs))
  | inr other ↦
      let (same, settled) = put_job-Follows id new js e h hs in rw other (rw same, (h', settled))
]
