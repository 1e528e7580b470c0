-- ===== src/Manager/Updater.antt =====
-- The loop of `startUpdater`: the retry map, the fresh tasks of each source, and the failure counts.
pub mod Retries
use veloria.Base.{
  ℕ, zero, suc, ◌+◌, Bool, true, false, Option, none, some, List, [], ◌∷◌, ◌++◌, map, if◌then◌else◌,
  leb, ltb, length, Bytes, bytes_eq, ◌||◌,
}
use veloria.Manager.{RetryKey, key_eq, IndexTask, key_of, TaskError, Journal, run_tasks}

abbrev pub max_retries : ℕ
max_retries = 3

-- a `retryEntry` under its key
pub record RetryEntry : Type 0 where
  pub key : RetryKey
  pub task : IndexTask
  pub attempts : ℕ

-- `failedSet[k]`
unfoldable pub has_key : RetryKey → List IndexTask → Bool
has_key k [] = false
has_key k (t ∷ ts) = key_eq (key_of t) k || has_key k ts

-- `retries[k]`
unfoldable pub has_entry : RetryKey → List RetryEntry → Bool
has_entry k [] = false
has_entry k (e ∷ es) = key_eq e.key k || has_entry k es

-- Phase 1, behind the run of the entries' tasks: drop what succeeded, count what failed again, and
-- give up at `max_retries`.
unfoldable pub update_retries : List IndexTask → List RetryEntry → List RetryEntry
update_retries failures [] = []
update_retries failures (e ∷ es) =
    let rest = update_retries failures es in
    if has_key e.key failures
    then (let e' = record e { attempts = e.attempts + 1 } in
        if leb max_retries e'.attempts then rest else e' ∷ rest)
    else rest

-- the failures of fresh tasks, added to the retry map
unfoldable pub add_failures : List IndexTask → List RetryEntry → List RetryEntry
add_failures [] es = es
add_failures (t ∷ ts) es = add_failures ts (
    if has_entry (key_of t) es
    then es
    else es ++ record { key = key_of t; task = t; attempts = 1 } ∷ [])

-- what the health endpoint reads of one source
pub record SourceStatus : Type 0 where
  pub consecutive_failures : ℕ
  pub last_success : Option ℕ

-- a map from source types
unfoldable pub set_status : Bytes → SourceStatus → (Bytes → SourceStatus) → Bytes → SourceStatus
set_status t s m u = if bytes_eq t u then s else m u

unfoldable pub track_failure : Bytes → (Bytes → SourceStatus) → Bytes → SourceStatus
track_failure t m =
    set_status t
      (record {
        consecutive_failures = (m t).consecutive_failures + 1;
        last_success = (m t).last_success;
      })
      m

unfoldable pub track_success : Bytes → ℕ → (Bytes → SourceStatus) → Bytes → SourceStatus
track_success t now m =
    set_status t (record { consecutive_failures = 0; last_success = some now }) m

-- Phase 2: the sources in their order; `prepare` is `PrepareUpdates`, with `none` for an error.
unfoldable pub collect_tasks :
    (Bytes → Option (List IndexTask))
    → ℕ
    → List Bytes
    → (Bytes → SourceStatus)
    → List IndexTask × (Bytes → SourceStatus)
collect_tasks prepare now [] m = ([], m)
collect_tasks prepare now (t ∷ order) m = elim (prepare t) [
  | none ↦ collect_tasks prepare now order (track_failure t m)
  | some found ↦
      let (rest, m') = collect_tasks prepare now order (track_success t now m) in
      (found ++ rest, m')
]

pub record Updater : Type 0 where
  pub retries : List RetryEntry
  pub status : Bytes → SourceStatus
  pub queue : List IndexTask
  pub journal : Journal

-- What one pass of the loop meets: the outcomes of the tasks it runs, what the sources prepare,
-- and the time. Each run of tasks has outcomes of its own.
pub record Pass : Type 0 where
  pub retry_run : IndexTask → Option TaskError
  pub prepare : Bytes → Option (List IndexTask)
  pub fresh_run : IndexTask → Option TaskError
  pub adhoc_run : IndexTask → Option TaskError
  pub now : ℕ

abbrev pub entry_task : RetryEntry → IndexTask
entry_task e = e.task

-- One pass, up to the wait at its end; the tasks queued by then are drained, their failures are
-- not retried. The context lives on, and each run takes its tasks in the order in which they finish.
unfoldable pub pass : (Bytes → Bool) → List Bytes → Pass → Updater → Updater
pass has_source order p u =
    let (again, j1) = run_tasks has_source p.retry_run (map entry_task u.retries) u.journal in
    let kept = update_retries again u.retries in
    let (tasks, status) = collect_tasks p.prepare p.now order u.status in
    let (failures, j2) = run_tasks has_source p.fresh_run tasks j1 in
    let (ignored, j3) = run_tasks has_source p.adhoc_run u.queue j2 in
    record { retries = add_failures failures kept; status = status; queue = []; journal = j3 }

abbrev pub adhoc_capacity : ℕ
adhoc_capacity = 32

-- the start of the loop: the tasks of interrupted runs, whose failures are not retried here
unfoldable pub resume :
    (Bytes → Bool) → (IndexTask → Option TaskError) → List IndexTask → Updater → Updater
resume has_source run tasks u = record u { journal = (run_tasks has_source run tasks u.journal).1 }

-- the wait at the end of a pass, when a request arrives before the update interval is over
unfoldable pub serve_adhoc : (Bytes → Bool) → (IndexTask → Option TaskError) → Updater → Updater
serve_adhoc has_source run u = elim u.queue [
  | [] ↦ u
  | t ∷ ts ↦ record u { journal = (run_tasks has_source run (t ∷ []) u.journal).1; queue = ts }
]

pub data SubmitError : Type 0 where
  ext_not_found queue_full : SubmitError

-- `SubmitReindex`: `sources` gives the `MakeReindexTaskBySlug` of each type that has a source.
unfoldable pub submit_reindex :
    (Bytes → Option (Bytes → Option IndexTask))
    → Bytes
    → Bytes
    → Updater
    → Option SubmitError × Updater
submit_reindex sources repo_type slug u = elim (sources repo_type) [
  | none ↦ (some ext_not_found, u)
  | some make_task ↦ elim (make_task slug) [
    | none ↦ (some ext_not_found, u)
    | some t ↦
        if ltb (length u.queue) adhoc_capacity
        then (none, record u { queue = u.queue ++ t ∷ [] })
        else (some queue_full, u)
  ]
]
