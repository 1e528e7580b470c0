-- ===== src/Examples/Managing.antt =====
-- A run of the updater's loop.
use mathlib.Core.List.{Perm, reverse, reverse_perm}
use veloria.Base.{
  ltb, leb, length, take, false, if◌then◌else◌, inr, ◌<◌, ℕ, ◌≡◌, refl, map, Bool, true, Option,
  none, some, [], ◌∷◌, ◌++◌, arith, select, Bytes, codes, bytes_eq,
}
use veloria.Manager.{
  key_eq, IndexTask, TaskError, task_failed, Journal, run_tasks, key_of, classify, is_failed,
  Schedule, dispatch, run_scheduled,
}
use veloria.Manager.Runs.{run_fails, records_of}
use veloria.Manager.Schedules.{run_scheduled_outcome}
use veloria.Manager.Updater.{
  Updater, Pass, pass, has_key, has_entry, collect_tasks, update_retries, add_failures, entry_task,
}
use veloria.Manager.Updater.Retries.{
  IsRetryMap, attempts_of, retried, added, fresh_tasks, pass-IsRetryMap, pass_attempts,
}

abbrev akismet : IndexTask
akismet = record { extension_type = codes "plugins"; slug = codes "akismet" }

abbrev known : Bytes → Bool
known t = true

abbrev always_fails : IndexTask → Option TaskError
always_fails t = some (task_failed (codes "boom"))

abbrev quiet : Journal
quiet = record { has_events = true; events = []; records = [] }

abbrev waiting : Updater
waiting = record {
  retries = record { key = key_of akismet; task = akismet; attempts = 2 } ∷ [];
  status = λ t. record { consecutive_failures = 0; last_success = none };
  queue = [];
  journal = quiet;
}

abbrev bad_pass : Pass
bad_pass = record {
  retry_run = always_fails;
  prepare = λ t. some (akismet ∷ []);
  fresh_run = always_fails;
  adhoc_run = always_fails;
  now = 7;
}

waiting-IsRetryMap : IsRetryMap waiting.retries
unfolding has_entry
waiting-IsRetryMap = record {
  distinct = (refl, tt);
  waiting = ((omega arith, omega arith, refl), tt);
}

abbrev jetpack : IndexTask
jetpack = record { extension_type = codes "plugins"; slug = codes "jetpack" }

-- the second task finishes first, and the context is done when a third one is up
abbrev interrupted : Schedule
interrupted = record { order = reverse; is_done = leb 2; finished = 1 }

live_before : (i : ℕ) → i < 2 → leb 2 i ≡ false
live_before i h = ground (arith, h)

run_scheduled_outcome_example :
    ((run_scheduled known always_fails interrupted
        (akismet ∷ jetpack ∷ akismet ∷ [])
        quiet).1.records
      ≡ [] ++ records_of known always_fails (jetpack ∷ akismet ∷ []))
    × Perm
        (records_of known always_fails (jetpack ∷ akismet ∷ []))
        (records_of known always_fails (akismet ∷ jetpack ∷ []))
    × Perm
        (run_scheduled known always_fails interrupted (akismet ∷ jetpack ∷ akismet ∷ []) quiet).0
        (select (run_fails always_fails) (
          if ltb 2 (length (akismet ∷ jetpack ∷ akismet ∷ []))
          then take 1 (jetpack ∷ akismet ∷ [])
          else akismet ∷ jetpack ∷ []))
run_scheduled_outcome_example =
    run_scheduled_outcome known always_fails interrupted (akismet ∷ jetpack ∷ akismet ∷ []) quiet 2
      reverse_perm (omega arith) live_before (inr refl)

-- The early return gives one of the two failures.
early_return_forgets :
    (run_scheduled known always_fails interrupted (akismet ∷ jetpack ∷ akismet ∷ []) quiet).0
    ≡ jetpack ∷ []
unfolding run_scheduled dispatch run_tasks classify is_failed
early_return_forgets = refl

pass-IsRetryMap_example : IsRetryMap (pass known (codes "plugins" ∷ []) bad_pass waiting).retries
pass-IsRetryMap_example =
    pass-IsRetryMap known (codes "plugins" ∷ []) bad_pass waiting waiting-IsRetryMap

pass_attempts_example :
    attempts_of (key_of akismet) (pass known (codes "plugins" ∷ []) bad_pass waiting).retries
    ≡ added
        (has_key
          (key_of akismet)
          (select (run_fails always_fails) (fresh_tasks (codes "plugins" ∷ []) bad_pass waiting)))
        (retried
          (has_key
            (key_of akismet)
            (select (run_fails always_fails) (map entry_task waiting.retries)))
          (attempts_of (key_of akismet) waiting.retries))
pass_attempts_example =
    pass_attempts known (codes "plugins" ∷ []) bad_pass waiting (key_of akismet) waiting-IsRetryMap

-- The third attempt gives up; the fresh task enters the key again.
third_failure :
    attempts_of (key_of akismet) (pass known (codes "plugins" ∷ []) bad_pass waiting).retries
    ≡ some 1
unfolding pass run_tasks key_eq bytes_eq classify is_failed update_retries add_failures has_key
    has_entry collect_tasks
third_failure = refl
