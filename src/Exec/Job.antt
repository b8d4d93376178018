-- ===== src/Exec/Job.antt =====
-- src/exec/job.c: the job table.
-- `jobs[0 .. count-1]` is a list, and so are the three parallel arrays of a job, one entry for each
-- process. What waitpid returns is an argument: the list of its results in their order. A job that
-- the code reaches by a pointer into the table stands in the table alone, so a write through the
-- pointer is a write of that place. Job numbers and process ids are positive.
pub mod Spec
pub mod Number
pub mod Order
pub mod Settled
pub mod Valid
pub mod Reap
pub mod Waits
pub mod Lookup
pub mod Session
use opsh_actual.Base.{
  ℕ, zero, suc, ◌+◌, ◌-◌, ◌%◌, ◌^◌, Bool, true, false, ◌&&◌, ◌||◌, leb, ltb, ◌==◌, if◌then◌else◌,
  Option, none, some, List, [], ◌∷◌, ◌++◌, map, length, get_elem?, Bytes,
}
use opsh_actual.Base.Decimal.{read_digits, int64_max}
use opsh_actual.Base.Run.{Run, ok, stop, undefined, out_of_fuel, ◌>>=◌, in_bounds}

abbrev pub job_table_max : ℕ
job_table_max = 64

abbrev pub int_max : ℕ
int_max = 2 ^ 31 - 1

pub data JobState : Type 0 where
  job_running job_stopped job_done : JobState

pub record Process : Type 0 where
  pub pid : ℕ
  pub pid_status : ℕ
  pub pid_done : Bool

pub record Job : Type 0 where
  pub id : ℕ
  pub pgid : ℕ
  pub processes : List Process
  pub state : JobState
  pub status : ℕ
  pub command : Bytes
  pub notified : Bool

pub record JobTable : Type 0 where
  pub jobs : List Job
  pub next_id : ℕ
  pub current : ℕ
  pub previous : ℕ

unfoldable pub job_table_init : JobTable
job_table_init = record { jobs = []; next_id = 1; current = 0; previous = 0 }

abbrev pub new_process : ℕ → Process
new_process pid = record { pid = pid; pid_status = 0; pid_done = false }

abbrev pub new_job : ℕ → ℕ → List ℕ → Bytes → Job
new_job id pgid pids command = record {
  id = id;
  pgid = pgid;
  processes = map new_process pids;
  state = job_running;
  status = 0;
  command = command;
  notified = false;
}

-- `none` is the result -1 of a full table; the increment of the largest int is undefined.
unfoldable pub job_add : JobTable → ℕ → List ℕ → Bytes → Run (Option ℕ × JobTable)
job_add t pgid pids command =
    if leb job_table_max (length t.jobs)
    then ok (none, t)
    else if leb int_max t.next_id
    then stop undefined
    else ok (
      some t.next_id,
      record {
        jobs = t.jobs ++ new_job t.next_id pgid pids command ∷ [];
        next_id = t.next_id + 1;
        current = t.next_id;
        previous = t.current;
      },
    )

-- The first job that passes a test.
unfoldable pub find_job : (Job → Bool) → List Job → Option Job
find_job p [] = none
find_job p (j ∷ js) = let rest = find_job p js in if p j then some j else rest

unfoldable pub job_find_by_id : JobTable → ℕ → Option Job
job_find_by_id t id = find_job (λ j. j.id == id) t.jobs

unfoldable pub has_pid : ℕ → List Process → Bool
has_pid pid [] = false
has_pid pid (p ∷ ps) = p.pid == pid || has_pid pid ps

unfoldable pub job_find_by_pid : JobTable → ℕ → Option Job
job_find_by_pid t pid = find_job (λ j. has_pid pid j.processes) t.jobs

-- The jobs without the first one of the number.
unfoldable pub remove_first : ℕ → List Job → Option (List Job)
remove_first id [] = none
remove_first id (j ∷ js) =
    let rest = remove_first id js in
    if j.id == id then some js else elim rest [ none ↦ none | some js' ↦ some (j ∷ js') ]

unfoldable pub job_remove : JobTable → ℕ → JobTable
job_remove t id = elim (remove_first id t.jobs) [
  | none ↦ t
  | some js ↦ record {
    jobs = js;
    next_id = t.next_id;
    current = if t.current == id then t.previous else t.current;
    previous = if t.current == id || t.previous == id then 0 else t.previous;
  }
]

abbrev pub is_done : JobState → Bool
is_done job_done = true
is_done _ = false

abbrev pub is_running : JobState → Bool
is_running job_running = true
is_running _ = false

abbrev pub is_reapable : Job → Bool
is_reapable j = is_done j.state && j.notified

-- The loop of `job_reap_done` at index `i`.
unfoldable pub reap_from : ℕ → ℕ → JobTable → Run JobTable
reap_from zero i t = stop out_of_fuel
reap_from (suc fuel) i t = elim (get_elem? t.jobs i) [
  | none ↦ ok t
  | some j ↦
      if is_reapable j then reap_from fuel i (job_remove t j.id) else reap_from fuel (suc i) t
]

unfoldable pub job_reap_done : JobTable → Run JobTable
job_reap_done t = reap_from (suc (length t.jobs)) 0 t

unfoldable pub all_done : List Process → Bool
all_done [] = true
all_done (p ∷ ps) = p.pid_done && all_done ps

-- `pid_status[pid_count - 1]`
unfoldable pub last_status : List Process → Option ℕ
last_status [] = none
last_status (p ∷ []) = some p.pid_status
last_status (p ∷ q ∷ ps) = last_status (q ∷ ps)

unfoldable pub job_check_complete : Job → Run Job
job_check_complete j =
    if all_done j.processes
    then (in_bounds (last_status j.processes) >>= λ s.
        ok (record j { state = job_done; status = s }))
    else ok j

-- A wait status, by the macro that reads it.
pub data WaitStatus : Type 0 where
  exited signaled stopped : ℕ → WaitStatus
  continued : WaitStatus

-- The first process of the id ended with the status.
unfoldable pub mark : ℕ → ℕ → List Process → List Process
mark pid status [] = []
mark pid status (p ∷ ps) =
    if p.pid == pid
    then record { pid = p.pid; pid_status = status; pid_done = true } ∷ ps
    else p ∷ mark pid status ps

unfoldable pub end_process : ℕ → ℕ → Job → Run Job
end_process pid status j = job_check_complete (record j { processes = mark pid status j.processes })

abbrev pub stop_job : ℕ → Job → Job
stop_job signal j = record j { state = job_stopped; status = 128 + signal; notified = false }

-- The cases of `job_update`.
unfoldable pub update_job : ℕ → WaitStatus → Job → Run Job
update_job pid (exited code) j = end_process pid code j
update_job pid (signaled signal) j = end_process pid (128 + signal) j
update_job pid (stopped signal) j = ok (stop_job signal j)
update_job pid continued j = ok (record j { state = job_running; notified = false })

-- The first job with the process takes the event.
unfoldable pub update_first : ℕ → WaitStatus → List Job → Run (Bool × List Job)
update_first pid s [] = ok (false, [])
update_first pid s (j ∷ js) =
    let rest = update_first pid s js in
    if has_pid pid j.processes
    then (update_job pid s j >>= λ j'. ok (true, j' ∷ js))
    else (rest >>= λ r. ok (r.0, j ∷ r.1))

-- The result is the number of changes.
unfoldable pub job_update : List (ℕ × WaitStatus) → JobTable → Run (ℕ × JobTable)
job_update [] t = ok (0, t)
job_update ((pid, s) ∷ events) t = update_first pid s t.jobs >>= λ r.
    job_update events (record t { jobs = r.1 }) >>= λ done.
    ok ((if r.0 then suc done.0 else done.0), done.1)

-- What the blocking waitpid of `job_wait_fg` returns; with an interruption, what the two checks for
-- a pending signal return after it.
pub data Wait : Type 0 where
  reaped : ℕ → WaitStatus → Wait
  interrupted : Bool → Bool → Wait
  no_children : Wait

abbrev pub sigint : ℕ
sigint = 2

abbrev pub sigterm : ℕ
sigterm = 15

-- The signals that an interruption sends on to the process group.
unfoldable pub forwards : Bool → Bool → List ℕ
forwards int term = (if int then sigint ∷ [] else []) ++ (if term then sigterm ∷ [] else [])

-- Where the wait stands: whether it is over, the job, and the signals sent.
abbrev pub Waiting : Type 0
Waiting = Bool × Job × List ℕ

-- The cases of `job_wait_fg`.
unfoldable pub wait_event : ℕ → WaitStatus → Job → Run Job
wait_event pid (exited code) j = end_process pid code j
wait_event pid (signaled signal) j = end_process pid (128 + signal) j
wait_event pid (stopped signal) j = ok (stop_job signal j)
wait_event pid continued j = ok (record j { state = job_running })

-- The loop; the `break` behind a stop is its test, which fails then.
unfoldable pub wait_loop : List Wait → Job → Run Waiting
wait_loop [] j = ok (if is_running j.state then false else true, j, [])
wait_loop (no_children ∷ ws) j = ok (true, j, [])
wait_loop (interrupted int term ∷ ws) j =
    let rest = wait_loop ws j in
    if is_running j.state
    then (rest >>= λ r. ok (r.0, r.1, forwards int term ++ r.2))
    else ok (true, j, [])
wait_loop (reaped pid s ∷ ws) j =
    let skip = wait_loop ws j in
    let take = wait_event pid s j >>= λ j'. wait_loop ws j' in
    if is_running j.state
    then (if has_pid pid j.processes then take else skip)
    else ok (true, j, [])

-- A write through the pointer to the first job of the number.
unfoldable pub put_job : ℕ → Job → List Job → List Job
put_job id new [] = []
put_job id new (j ∷ js) = if j.id == id then new ∷ js else j ∷ put_job id new js

-- The status, or `none` while the call still waits; the table; the signals sent.
unfoldable pub job_wait_fg : List Wait → JobTable → ℕ → Run (Option ℕ × JobTable × List ℕ)
job_wait_fg ws t id = elim (job_find_by_id t id) [
  | none ↦ ok (some 127, t, [])
  | some j ↦ wait_loop ws j >>= λ r.
      ok (if r.0 then some r.1.status else none, record t { jobs = put_job id r.1 t.jobs }, r.2)
]
