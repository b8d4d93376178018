-- ===== src/Exec/Job/Spec.antt =====
-- src/exec/job.c: job_current and job_parse_spec.
use opsh_actual.Base.{
  ℕ, ◌%◌, ◌^◌, Bool, ◌&&◌, ◌||◌, leb, ltb, ◌==◌, if◌then◌else◌, Option, none, some, List, [], ◌∷◌,
  Bytes, starts_with,
}
use opsh_actual.Base.Decimal.{read_digits, int64_max}
use opsh_actual.Exec.Job.{Job, JobTable, find_job, job_find_by_id, int_max}

unfoldable pub last_job : List Job → Option Job
last_job [] = none
last_job (j ∷ []) = some j
last_job (j ∷ k ∷ js) = last_job (k ∷ js)

unfoldable pub job_current : JobTable → Option Job
job_current t = if ltb 0 t.current then job_find_by_id t t.current else last_job t.jobs

-- `strstr(s, needle)` finds something.
unfoldable pub contains : Bytes → Bytes → Bool
contains needle [] = starts_with needle []
contains needle (c ∷ s) = starts_with needle (c ∷ s) || contains needle s

-- `(int)n` of what strtol read; a negative int is no job's number.
unfoldable pub find_number : JobTable → ℕ × Bytes → Option Job
find_number t (n, []) =
    let low = (if ltb int64_max n then int64_max else n) % 2 ^ 32 in
    if leb low int_max then job_find_by_id t low else none
find_number t (n, c ∷ rest) = none

unfoldable pub job_parse_spec : JobTable → Bytes → Option Job
job_parse_spec t [] = none
job_parse_spec t (p ∷ []) = if p == b'%' then job_current t else none
job_parse_spec t (p ∷ c ∷ rest) =
    if p == b'%'
    then (if c == b'%' || c == b'+'
        then job_current t
        else if c == b'-'
        then (if ltb 0 t.previous then job_find_by_id t t.previous else none)
        else if leb b'1' c && leb c b'9'
        then find_number t (read_digits 10 (c ∷ rest) 0)
        else if c == b'?'
        then find_job (λ j. contains rest j.command) t.jobs
        else find_job (λ j. starts_with (c ∷ rest) j.command) t.jobs)
    else none
