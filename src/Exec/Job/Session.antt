-- ===== src/Exec/Job/Session.antt =====
-- Any run of calls on a new job table.
use opsh_actual.Base.{ℕ, suc, ◌+◌, ◌≤◌, ◌<◌, refl, List, [], ◌∷◌, length, Bytes, arith}
use opsh_actual.Base.Run.{Run, ok, Returns, ◌>>=◌}
use opsh_actual.Exec.Job.{
  JobTable, job_table_init, int_max, job_add, job_remove, job_reap_done, job_update, job_wait_fg,
  WaitStatus, Wait,
}
use opsh_actual.Exec.Job.Reap.{job_reap_done-Reaped}
use opsh_actual.Exec.Job.Valid.{
  IsValid, job_table_init-IsValid, job_remove-IsValid, job_remove-next_id, job_add-IsValid,
}
use opsh_actual.Exec.Job.Waits.{job_update-IsValid, job_wait_fg-Outcome}

-- A call of the table; a job has at least one process.
pub data Call : Type 0 where
  add : ℕ → ℕ → List ℕ → Bytes → Call
  remove : ℕ → Call
  reap : Call
  update : List (ℕ × WaitStatus) → Call
  wait : List Wait → ℕ → Call

pub call : Call → JobTable → Run JobTable
call (add pgid pid pids command) t = job_add t pgid (pid ∷ pids) command >>= λ r. ok r.1
call (remove id) t = ok (job_remove t id)
call reap t = job_reap_done t
call (update events) t = job_update events t >>= λ r. ok r.1
call (wait ws id) t = job_wait_fg ws t id >>= λ r. ok r.1

unfoldable pub calls : List Call → JobTable → Run JobTable
unfolding call
calls [] t = ok t
calls (c ∷ cs) t = call c t >>= calls cs

-- One call: the next number grows by one at most.
call-IsValid :
    (c : Call) (t : JobTable)
    → IsValid t
    → t.next_id < int_max
    → Returns (call c t) λ t'. IsValid t' × (t'.next_id ≤ suc t.next_id)
unfolding call
call-IsValid (add pgid pid pids command) t v few =
    let (r, run, (valid, next)) = job_add-IsValid t pgid pid pids command v few in
    (r.1, rw run, (valid, next))
call-IsValid (remove id) t v few =
    (job_remove t id, refl, (job_remove-IsValid t id v, omega (arith, job_remove-next_id t id)))
call-IsValid reap t v few =
    let (t', run, r) = job_reap_done-Reaped t v in (t', run, (r.valid, omega (arith, r.next_id)))
call-IsValid (update events) t v few =
    let (r, run, (valid, same, next)) = job_update-IsValid events t v in
    (r.1, rw run, (valid, omega (arith, next)))
call-IsValid (wait ws id) t v few =
    let (r, run, (valid, next, outcome)) = job_wait_fg-Outcome ws t id v in
    (r.1, rw run, (valid, omega (arith, next)))

-- On a valid table, fewer calls than numbers are left return a valid table.
pub calls-IsValid :
    (cs : List Call) (t : JobTable)
    → IsValid t
    → t.next_id + length cs ≤ int_max
    → Returns (calls cs t) IsValid
unfolding calls
calls-IsValid [] t v few = (t, refl, v)
calls-IsValid (c ∷ cs) t v few =
    let (t', run, (valid, next)) = call-IsValid c t v (omega arith) in
    let (t'', run', valid') = calls-IsValid cs t' valid (omega arith) in (t'', rw run run', valid')

-- Fewer than 2^31 - 1 calls on a new table return, and leave a valid table: the numbers of the jobs
-- grow along the table, the table is not overfull, the current and the previous job are in it and
-- differ where there are such, and each job that is done has ended all its processes and has the
-- status of the last.
pub new_table-IsValid :
    (cs : List Call) → length cs < int_max → Returns (calls cs job_table_init) IsValid
unfolding job_table_init
new_table-IsValid cs few = calls-IsValid cs job_table_init job_table_init-IsValid (omega arith)
