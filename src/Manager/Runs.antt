-- ===== src/Manager/Runs.antt =====
-- What a run of tasks returns and records.
use veloria.Base.{
  ◌≡◌, refl, sym, ◌∙◌, Bool, true, false, Option, none, some, List, [], ◌∷◌, ◌++◌, append-nil,
  append_assoc, arith, select, Bytes, if◌then◌else◌, Bool-cases, inl, inr,
}
use veloria.Manager.{
  RetryKey, IndexTask, key_of, TaskError, download_skipped, task_failed, classify, is_failed,
  IndexRecord, index_success, index_failure, Journal, record_state, finish_task, run_tasks,
}

-- whether a task failed, other than by a skipped download
abbrev is_failure : Option TaskError → Bool
is_failure none = false
is_failure (some download_skipped) = false
is_failure (some (task_failed msg)) = true

abbrev pub run_fails : (IndexTask → Option TaskError) → IndexTask → Bool
run_fails run t = is_failure (run t)

-- the call to a source behind a task that ended so
abbrev record_of : RetryKey → Option TaskError → List IndexRecord
record_of k none = index_success k ∷ []
record_of k (some download_skipped) = []
record_of k (some (task_failed msg)) = index_failure k ∷ []

-- the calls that a task, and that the tasks make to their sources, task by task
abbrev pub calls_of : (Bytes → Bool) → (IndexTask → Option TaskError) → IndexTask → List IndexRecord
calls_of has_source run t = if has_source t.extension_type then record_of (key_of t) (run t) else []

abbrev pub records_of :
    (Bytes → Bool) → (IndexTask → Option TaskError) → List IndexTask → List IndexRecord
records_of has_source run [] = []
records_of has_source run (t ∷ ts) = calls_of has_source run t ++ records_of has_source run ts

is_failed-classify : (e : Option TaskError) → is_failed (classify e) ≡ is_failure e
unfolding is_failed classify
is_failed-classify none = refl
is_failed-classify (some download_skipped) = refl
is_failed-classify (some (task_failed msg)) = refl

run_tasks-failures :
    (has_source : Bytes → Bool) (run : IndexTask → Option TaskError) (ts : List IndexTask)
    (j : Journal)
    → (run_tasks has_source run ts j).0 ≡ select (run_fails run) ts
unfolding run_tasks
run_tasks-failures has_source run [] j = refl
run_tasks-failures has_source run (t ∷ ts) j = ground (
  arith,
  is_failed-classify (run t),
  run_tasks-failures has_source run ts (finish_task has_source t (classify (run t)) j),
)

record_state-classify :
    (k : RetryKey) (e : Option TaskError) (rs : List IndexRecord)
    → record_state k (classify e) rs ≡ rs ++ record_of k e
unfolding record_state classify
record_state-classify k none rs = refl
record_state-classify k (some download_skipped) rs = sym (append-nil rs)
record_state-classify k (some (task_failed msg)) rs = refl

run_tasks-records :
    (has_source : Bytes → Bool) (run : IndexTask → Option TaskError) (ts : List IndexTask)
    (j : Journal)
    → (run_tasks has_source run ts j).1.records ≡ j.records ++ records_of has_source run ts
unfolding run_tasks finish_task
run_tasks-records has_source run [] j = sym (append-nil j.records)
run_tasks-records has_source run (t ∷ ts) j =
    let s = classify (run t) in
    let ih = run_tasks-records has_source run ts (finish_task has_source t s j) in
    elim (Bool-cases (has_source t.extension_type)) [
      | inl known ↦
          ih
          ∙ rw known
              (rw (record_state-classify (key_of t) (run t) j.records) (append_assoc j.records _ _))
      | inr unknown ↦ ih ∙ rw unknown refl
    ]

-- Goroutines that finish in the order of a list return exactly its tasks that failed other than by a
-- skipped download, in order, and append to the records of the sources one success for each task that
-- succeeded, one failure for each that failed and nothing for a skipped one, nor for one whose type
-- has no source.
pub run_tasks_outcome :
    (has_source : Bytes → Bool) (run : IndexTask → Option TaskError) (ts : List IndexTask)
    (j : Journal)
    → ((run_tasks has_source run ts j).0 ≡ select (run_fails run) ts)
      × ((run_tasks has_source run ts j).1.records ≡ j.records ++ records_of has_source run ts)
run_tasks_outcome has_source run ts j =
    (run_tasks-failures has_source run ts j, run_tasks-records has_source run ts j)
