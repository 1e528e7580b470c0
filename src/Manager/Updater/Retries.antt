-- ===== src/Manager/Updater/Retries.antt =====
-- The retry map as a function from keys to attempts, and its invariant.
use veloria.Base.{
  ℕ, ◌+◌, ◌≤◌, ◌<◌, ◌≡◌, ◌≢◌, refl, ap, ◌∙◌, true, false, Bool, Option, none, some, List, [], ◌∷◌,
  ◌++◌, map, arith, select, All, All-append, Bytes, if◌then◌else◌, ◌||◌, leb, Bool-cases, inl, inr,
}
use veloria.Manager.{RetryKey, key_eq, IndexTask, key_of, run_tasks}
use veloria.Manager.Keys.{key_eq_iff}
use veloria.Manager.Runs.{run_fails, run_tasks_outcome}
use veloria.Manager.Updater.{
  RetryEntry, max_retries, has_key, has_entry, update_retries, add_failures, Updater, Pass, pass,
  collect_tasks, entry_task,
}

-- `retries[k].attempts`
abbrev pub attempts_of : RetryKey → List RetryEntry → Option ℕ
attempts_of k [] = none
attempts_of k (e ∷ es) = if key_eq e.key k then some e.attempts else attempts_of k es

-- every key stands once
abbrev pub Distinct : List RetryEntry → Type 0
Distinct [] = Unit
Distinct (e ∷ es) = (has_entry e.key es ≡ false) × Distinct es

-- an entry waits for fewer than `max_retries` attempts, under the key of its task
abbrev pub IsWaiting : RetryEntry → Type 0
IsWaiting e = (1 ≤ e.attempts) × (e.attempts < max_retries) × (key_of e.task ≡ e.key)

pub record IsRetryMap (es : List RetryEntry) : Type 0 where
  pub distinct : Distinct es
  pub waiting : All IsWaiting es

has_entry-attempts :
    (k : RetryKey) (es : List RetryEntry) → has_entry k es ≡ false → attempts_of k es ≡ none
unfolding has_entry
has_entry-attempts k [] h = refl
has_entry-attempts k (e ∷ es) h = ground (arith, has_entry-attempts k es)

has_entry-some :
    (k : RetryKey) (es : List RetryEntry) → has_entry k es ≡ true → attempts_of k es ≢ none
unfolding has_entry
has_entry-some k [] h = cc
has_entry-some k (e ∷ es) h = ground (arith, has_entry-some k es)

has_entry-update :
    (k : RetryKey) (fs : List IndexTask) (es : List RetryEntry)
    → has_entry k es ≡ false
    → has_entry k (update_retries fs es) ≡ false
unfolding has_entry update_retries
has_entry-update k fs [] h = refl
has_entry-update k fs (e ∷ es) h = ground (arith, has_entry-update k fs es)

update_retries-IsRetryMap :
    (fs : List IndexTask) (es : List RetryEntry) → IsRetryMap es → IsRetryMap (update_retries fs es)
unfolding update_retries
update_retries-IsRetryMap fs [] h = h
update_retries-IsRetryMap fs (e ∷ es) h =
    let ih =
      update_retries-IsRetryMap fs es (record { distinct = h.distinct.1; waiting = h.waiting.1 }) in
    record {
      distinct = ground (arith, ih.distinct, has_entry-update e.key fs es h.distinct.0);
      waiting = ground (arith, ih.waiting, h.waiting.0);
    }

-- what becomes of the attempts at a key whose tasks were run again
abbrev pub retried : Bool → Option ℕ → Option ℕ
retried failed_again none = none
retried failed_again (some n) =
    if failed_again then (if leb max_retries (n + 1) then none else some (n + 1)) else none

update_retries-attempts :
    (k : RetryKey) (fs : List IndexTask) (es : List RetryEntry)
    → Distinct es
    → attempts_of k (update_retries fs es) ≡ retried (has_key k fs) (attempts_of k es)
unfolding update_retries
update_retries-attempts k fs [] h = refl
update_retries-attempts k fs (e ∷ es) h = ground (
  arith,
  update_retries-attempts k fs es h.1,
  key_eq_iff e.key k,
  has_entry-attempts e.key es h.0,
  has_entry-attempts e.key (update_retries fs es) (has_entry-update e.key fs es h.0),
)

-- a key that failed for the first time
abbrev pub added : Bool → Option ℕ → Option ℕ
added failed_now (some n) = some n
added failed_now none = if failed_now then some 1 else none

attempts_of-append :
    (k : RetryKey) (es : List RetryEntry) (e : RetryEntry)
    → attempts_of k (es ++ e ∷ []) ≡ elim (attempts_of k es) [
      | some n ↦ some n
      | none ↦ if key_eq e.key k then some e.attempts else none
    ]
attempts_of-append k [] e = refl
attempts_of-append k (x ∷ es) e = ground (arith, attempts_of-append k es e)

has_entry-append :
    (k : RetryKey) (es : List RetryEntry) (e : RetryEntry)
    → has_entry k (es ++ e ∷ []) ≡ (has_entry k es || key_eq e.key k)
unfolding has_entry
has_entry-append k [] e = ground arith
has_entry-append k (x ∷ es) e = ground (arith, has_entry-append k es e)

add_failures-attempts :
    (k : RetryKey) (ts : List IndexTask) (es : List RetryEntry)
    → attempts_of k (add_failures ts es) ≡ added (has_key k ts) (attempts_of k es)
unfolding add_failures has_key
add_failures-attempts k [] es = ground arith
add_failures-attempts k (t ∷ ts) es =
    let e : RetryEntry = record { key = key_of t; task = t; attempts = 1 } in
    elim (Bool-cases (has_entry (key_of t) es)) [
      | inl old ↦ rw old (
          ground (
            arith,
            add_failures-attempts k ts es,
            key_eq_iff (key_of t) k,
            has_entry-some (key_of t) es old,
          ))
      | inr new ↦ rw new (
          ground (
            arith,
            add_failures-attempts k ts (es ++ e ∷ []),
            attempts_of-append k es e,
            key_eq_iff (key_of t) k,
            has_entry-attempts (key_of t) es new,
          ))
    ]

has_entry-apart :
    (k : RetryKey) (x : RetryEntry) (es : List RetryEntry)
    → has_entry k (x ∷ es) ≡ false
    → (key_eq k x.key ≡ false) × (has_entry k es ≡ false)
unfolding has_entry
has_entry-apart k x es h =
    (ground (arith, key_eq_iff x.key k, key_eq_iff k x.key), ground (arith, key_eq_iff x.key k))

Distinct-append :
    (es : List RetryEntry) (e : RetryEntry)
    → Distinct es
    → has_entry e.key es ≡ false
    → Distinct (es ++ e ∷ [])
Distinct-append [] e h n = (n, tt)
Distinct-append (x ∷ es) e (h, hs) n =
    let (other, apart) = has_entry-apart e.key x es n in
    (ground (arith, has_entry-append x.key es e, other), Distinct-append es e hs apart)

add_failures-IsRetryMap :
    (ts : List IndexTask) (es : List RetryEntry) → IsRetryMap es → IsRetryMap (add_failures ts es)
unfolding add_failures
add_failures-IsRetryMap [] es h = h
add_failures-IsRetryMap (t ∷ ts) es h =
    let e : RetryEntry = record { key = key_of t; task = t; attempts = 1 } in
    elim (Bool-cases (has_entry (key_of t) es)) [
      | inl old ↦ rw old (add_failures-IsRetryMap ts es h)
      | inr new ↦ rw new (
          add_failures-IsRetryMap ts (es ++ e ∷ []) (record {
            distinct = Distinct-append es e h.distinct new;
            waiting =
                All-append IsWaiting es (e ∷ []) h.waiting ((omega arith, omega arith, refl), tt);
          }))
    ]

-- After any pass of the updater's loop the retry map is well formed again: each key stands once,
-- under the key of its task, with at least one and fewer than `max_retries` attempts.
pub pass-IsRetryMap :
    (has_source : Bytes → Bool) (order : List Bytes) (p : Pass) (u : Updater)
    → IsRetryMap u.retries
    → IsRetryMap (pass has_source order p u).retries
unfolding pass
pass-IsRetryMap has_source order p u h =
    add_failures-IsRetryMap _ _ (update_retries-IsRetryMap _ u.retries h)

-- the tasks that the sources prepare in a pass
abbrev pub fresh_tasks : List Bytes → Pass → Updater → List IndexTask
fresh_tasks order p u = (collect_tasks p.prepare p.now order u.status).0

-- A pass changes the attempts of each key as follows. A waiting key whose task, run again, does not
-- fail leaves the map; one whose task fails has one attempt more, and is given up when that makes
-- `max_retries`. Then a key that is not waiting and that a failed fresh task has is entered with one
-- attempt; a failed fresh task does not count for a key that is still waiting.
pub pass_attempts :
    (has_source : Bytes → Bool) (order : List Bytes) (p : Pass) (u : Updater) (k : RetryKey)
    → IsRetryMap u.retries
    → attempts_of k (pass has_source order p u).retries
      ≡ added (has_key k (select (run_fails p.fresh_run) (fresh_tasks order p u))) (
          retried
            (has_key k (select (run_fails p.retry_run) (map entry_task u.retries)))
            (attempts_of k u.retries))
unfolding pass
pass_attempts has_source order p u k h =
    let (again, j1) = run_tasks has_source p.retry_run (map entry_task u.retries) u.journal in
    let tasks = fresh_tasks order p u in
    let first = run_tasks_outcome has_source p.retry_run (map entry_task u.retries) u.journal in
    let second = run_tasks_outcome has_source p.fresh_run tasks j1 in
    rw (← first.0, ← second.0)
      (add_failures-attempts k _ (update_retries again u.retries)
        ∙ ap (added (has_key k (run_tasks has_source p.fresh_run tasks j1).0))
            (update_retries-attempts k again u.retries h.distinct))
