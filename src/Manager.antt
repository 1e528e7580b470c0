-- ===== src/Manager.antt =====
-- internal/manager/manager.go: the tasks that the updater runs, and what one run of tasks records.
pub mod Updater
pub mod Keys
pub mod Runs
pub mod Schedules
pub mod Search
use veloria.Base.{
  ℕ, zero, suc, ◌+◌, Bool, true, false, ◌&&◌, not, Option, none, some, List, [], ◌∷◌, ◌++◌,
  if◌then◌else◌, Bytes, bytes_eq, take,
}

-- a `retryKey`: the repository type and the slug of a task
pub record RetryKey : Type 0 where
  pub repo_type : Bytes
  pub slug : Bytes

unfoldable pub key_eq : RetryKey → RetryKey → Bool
key_eq k j = bytes_eq k.repo_type j.repo_type && bytes_eq k.slug j.slug

-- A `repo.IndexTask`; its closure `Run` is a parameter of what runs tasks.
pub record IndexTask : Type 0 where
  pub extension_type : Bytes
  pub slug : Bytes

abbrev pub key_of : IndexTask → RetryKey
key_of t = record { repo_type = t.extension_type; slug = t.slug }

-- The errors of a task: `repo.ErrDownloadSkipped`, or any other with its text.
pub data TaskError : Type 0 where
  download_skipped : TaskError
  task_failed : Bytes → TaskError

pub data Status : Type 0 where
  success skipped failed : Status

unfoldable pub classify : Option TaskError → Status
classify none = success
classify (some download_skipped) = skipped
classify (some (task_failed msg)) = failed

-- an `IndexEvent`, without its id and times
pub record IndexEvent : Type 0 where
  pub key : RetryKey
  pub status : Status

-- a call of a data source's `RecordIndexSuccess` or `RecordIndexFailure`
pub data IndexRecord : Type 0 where
  index_success index_failure : RetryKey → IndexRecord

-- What running tasks writes: the rows of `index_events`, if there is a recorder, and the calls that
-- update the data sources.
pub record Journal : Type 0 where
  pub has_events : Bool
  pub events : List IndexEvent
  pub records : List IndexRecord

unfoldable pub is_failed : Status → Bool
is_failed failed = true
is_failed _ = false

-- `ClearFailures`: delete the failed events of the key
unfoldable pub clear_failures : RetryKey → List IndexEvent → List IndexEvent
clear_failures k [] = []
clear_failures k (e ∷ es) =
    if key_eq e.key k && is_failed e.status then clear_failures k es else e ∷ clear_failures k es

-- the rows after the event of one task
unfoldable pub record_event : RetryKey → Status → List IndexEvent → List IndexEvent
record_event k success es = clear_failures k es ++ record { key = k; status = success } ∷ []
record_event k s es = es ++ record { key = k; status = s } ∷ []

-- the calls after one task, if its type has a source
unfoldable pub record_state : RetryKey → Status → List IndexRecord → List IndexRecord
record_state k success rs = rs ++ index_success k ∷ []
record_state k skipped rs = rs
record_state k failed rs = rs ++ index_failure k ∷ []

-- the goroutine of one task, behind `t.Run()`
unfoldable pub finish_task : (Bytes → Bool) → IndexTask → Status → Journal → Journal
finish_task has_source t s j = record j {
  events = if j.has_events then record_event (key_of t) s j.events else j.events;
  records = if has_source t.extension_type then record_state (key_of t) s j.records else j.records;
}

-- The goroutines of `runTasks`, in the order in which they finish; returns the failures.
unfoldable pub run_tasks :
    (Bytes → Bool)
    → (IndexTask → Option TaskError)
    → List IndexTask
    → Journal
    → List IndexTask × Journal
run_tasks has_source run [] j = ([], j)
run_tasks has_source run (t ∷ ts) j =
    let s = classify (run t) in
    let (failures, j') = run_tasks has_source run ts (finish_task has_source t s j) in
    (if is_failed s then t ∷ failures else failures, j')

-- The loop of `runTasks` behind `n` tasks: the tasks that it starts, and whether it returns since the
-- context is done when the next one is up.
unfoldable pub dispatch : (ℕ → Bool) → ℕ → List IndexTask → List IndexTask × Bool
dispatch is_done n [] = ([], false)
dispatch is_done n (t ∷ ts) =
    let (started, stopped) = dispatch is_done (suc n) ts in
    if is_done n then ([], true) else (t ∷ started, stopped)

-- What the scheduler leaves open: the order in which goroutines finish, whether the context is done
-- when the loop has started so many tasks, and how many have finished when it returns early.
pub record Schedule : Type 0 where
  pub order : List IndexTask → List IndexTask
  pub is_done : ℕ → Bool
  pub finished : ℕ

-- `runTasks`: an early return does not wait for the goroutines; it gives the failures up to then,
-- while all that were started run to their end.
unfoldable pub run_scheduled :
    (Bytes → Bool)
    → (IndexTask → Option TaskError)
    → Schedule
    → List IndexTask
    → Journal
    → List IndexTask × Journal
run_scheduled has_source run c tasks j =
    let (started, stopped) = dispatch c.is_done 0 tasks in
    let early = (run_tasks has_source run (take c.finished (c.order started)) j).0 in
    let (failures, j') = run_tasks has_source run (c.order started) j in
    (if stopped then early else failures, j')
