-- ===== src/Tests/Jobs.antt =====
-- A pipeline of two processes and a background job.
use opsh_actual.Base.{
  ℕ, ◌≡◌, refl, sym, ap, subst, ◌∙◌, true, false, leb, ◌==◌, if◌then◌else◌, none, List, [], ◌∷◌,
  length, codes, starts_with, arith,
}
use opsh_actual.Base.Decimal.{print_nat, read_digits}
use opsh_actual.Base.Run.{Run, ok, Returns}
use opsh_actual.Exec.Job.{
  Job, JobTable, Process, job_running, job_table_init, job_table_max, job_add, job_find_by_id,
  find_job, has_pid, job_find_by_pid, remove_first, reap_from, all_done, last_status,
  job_check_complete, mark, end_process, update_job, update_first, forwards, wait_event, wait_loop,
  put_job, job_remove, job_reap_done, job_update, job_wait_fg, WaitStatus, exited, signaled,
  stopped, Wait, reaped, interrupted,
}
use opsh_actual.Exec.Job.Lookup.{Adds, job_add-Adds, job_remove-lookup}
use opsh_actual.Exec.Job.Number.{job_parse_spec-print_nat}
use opsh_actual.Exec.Job.Reap.{Reaped, unreaped, job_reap_done-Reaped}
use opsh_actual.Exec.Job.Session.{Call, add, reap, update, wait, calls, new_table-IsValid}
use opsh_actual.Exec.Job.Spec.{job_parse_spec, last_job, job_current, contains, find_number}
use opsh_actual.Exec.Job.Valid.{IsValid}
use opsh_actual.Exec.Job.Waits.{Outcome, job_wait_fg-Outcome}

program : Unit {0}
unfolding job_table_init job_add find_job job_find_by_id has_pid job_find_by_pid remove_first
    job_remove reap_from job_reap_done all_done last_status job_check_complete mark end_process
    update_job update_first job_update forwards wait_event wait_loop put_job job_wait_fg last_job
    job_current starts_with contains find_number job_parse_spec calls print_nat
program = tt

-- A pipeline of 100 and 101, and a job of 200.
abbrev started : List Call
started = add 100 100 (101 ∷ []) (codes "a | b") ∷ add 200 200 [] (codes "sleep 9") ∷ []

abbrev process : ℕ → Process
process pid = record { pid = pid; pid_status = 0; pid_done = false }

abbrev two_jobs : JobTable
two_jobs = record {
  jobs =
      record {
        id = 1;
        pgid = 100;
        processes = process 100 ∷ process 101 ∷ [];
        state = job_running;
        status = 0;
        command = codes "a | b";
        notified = false;
      }
      ∷ record {
        id = 2;
        pgid = 200;
        processes = process 200 ∷ [];
        state = job_running;
        status = 0;
        command = codes "sleep 9";
        notified = false;
      }
      ∷ [];
  next_id = 3;
  current = 2;
  previous = 1;
}

started_run : calls started job_table_init ≡ ok two_jobs
unfolding program
started_run = refl

table_of : Run JobTable → JobTable
table_of (ok t) = t
table_of _ = two_jobs

two_jobs-IsValid : IsValid two_jobs
unfolding table_of
two_jobs-IsValid =
    let (t, run, valid) = new_table-IsValid started (omega arith) in
    subst IsValid (sym (ap table_of run) ∙ ap table_of started_run) valid

-- The first process fails, the second is interrupted, and the other job stops.
abbrev events : List (ℕ × WaitStatus)
events = (101, signaled 2) ∷ (200, stopped 19) ∷ (999, exited 1) ∷ (100, exited 7) ∷ []

-- The status of the pipeline is that of its last process, whichever ended last.
states : Run JobTable → List (ℕ × ℕ)
states (ok t) = rows t.jobs
  where
    rows : List Job → List (ℕ × ℕ)
    rows [] = []
    rows (j ∷ js) = (j.id, j.status) ∷ rows js
states _ = []

events_run : states (calls (update events ∷ []) two_jobs) ≡ (1, 130) ∷ (2, 147) ∷ []
unfolding program states
events_run = refl

-- The job that was current is gone, and the previous one takes its place.
spec_run : job_parse_spec (job_remove two_jobs 2) (codes "%%") ≡ job_find_by_id two_jobs 1
unfolding program
spec_run = refl

-- A number that an int does not hold wraps: this one names job 1.
wrapped_run : job_parse_spec two_jobs (codes "%4294967297") ≡ job_find_by_id two_jobs 1
unfolding program read_digits
wrapped_run = refl

abbrev waits : List Wait
waits = interrupted true false ∷ reaped 100 (exited 7) ∷ reaped 101 (exited 0) ∷ []

new_table-IsValid_example :
    Returns
      (calls (add 1 1 [] [] ∷ update ((1, exited 0) ∷ []) ∷ wait [] 1 ∷ reap ∷ []) job_table_init)
      IsValid
new_table-IsValid_example =
    new_table-IsValid (add 1 1 [] [] ∷ update ((1, exited 0) ∷ []) ∷ wait [] 1 ∷ reap ∷ [])
      (omega arith)

job_wait_fg-Outcome_example :
    Returns
      (job_wait_fg waits two_jobs 1)
      λ r. IsValid r.1 × (r.1.next_id ≡ two_jobs.next_id) × Outcome waits two_jobs 1 r
job_wait_fg-Outcome_example = job_wait_fg-Outcome waits two_jobs 1 two_jobs-IsValid

job_reap_done-Reaped_example :
    Returns (job_reap_done two_jobs) (Reaped two_jobs (unreaped two_jobs.jobs))
job_reap_done-Reaped_example = job_reap_done-Reaped two_jobs two_jobs-IsValid

job_add-Adds_example :
    Adds two_jobs 300 (300 ∷ []) (codes "c") (leb job_table_max (length two_jobs.jobs))
job_add-Adds_example =
    job_add-Adds two_jobs 300 (300 ∷ []) (codes "c") two_jobs-IsValid (omega arith)

job_remove-lookup_example :
    job_find_by_id (job_remove two_jobs 1) 2 ≡ (if 1 == 2 then none else job_find_by_id two_jobs 2)
job_remove-lookup_example = job_remove-lookup two_jobs 1 2 two_jobs-IsValid

job_parse_spec-print_nat_example :
    job_parse_spec two_jobs (b'%' ∷ print_nat 2) ≡ job_find_by_id two_jobs 2
job_parse_spec-print_nat_example = job_parse_spec-print_nat two_jobs 2 (omega arith) (omega arith)
