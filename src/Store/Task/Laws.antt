-- ===== src/Store/Task/Laws.antt =====
-- What the index task does on each outcome of its downloads.
use veloria.Base.{
  ℕ, ◌+◌, ◌≤◌, ◌≡◌, ◌≢◌, ◌↔◌, refl, ap, ◌∙◌, Bool, true, false, ◌&&◌, not, Option, none, some, List,
  [], ◌∷◌, ◌++◌, length, length-append, arith, All, All-append, and_right, if◌then◌else◌, Bytes,
  bytes_eq_iff, Bool-cases, inl, inr,
}
use veloria.Base.Maps.{erase}
use veloria.Store.{
  ExtensionType, Extension, ExtractStats, Store, has_index, unlist, swap_index, update_index,
}
use veloria.Store.Task.{
  IndexerResult, Fetch, fetched, fetch_failed, RunnerError, not_found, unavailable, other, skipped,
  download_failed, source_wordpress, Attempts, try_url, is_fallback, try_fallback, first_attempt,
  fetch_index, mark_closed, close_extension, on_failure, save_stats, install, on_success, conclude,
  run_task,
}

abbrev pub is_not_found : Fetch → Bool
is_not_found (fetch_failed not_found) = true
is_not_found _ = false

-- The primary URL is gone for good, and so is every fallback tried after it.
abbrev pub gone_for_good : (ℕ → Bytes → Fetch) → ExtensionType → Extension → Bool
gone_for_good runner repo_type ext =
    is_not_found (first_attempt runner ext.download_link).outcome
    && is_not_found (fetch_index runner repo_type ext).outcome

-- a URL that the task may try behind the primary one
abbrev pub IsFallback : Extension → Bytes → Type 0
IsFallback ext url = (ext.source ≡ source_wordpress) × (url ≢ []) × (url ≢ ext.download_link)

is_fallback-IsFallback :
    (ext : Extension) (url : Bytes)
    → is_fallback ext.source ext.download_link url ≡ true
    → IsFallback ext url
unfolding is_fallback
is_fallback-IsFallback ext url h = ground (
  arith,
  bytes_eq_iff ext.source source_wordpress,
  bytes_eq_iff url [],
  bytes_eq_iff url ext.download_link,
)

-- the URLs tried: the primary one, then at most `n` fallbacks
abbrev pub TriedAtMost : ℕ → Extension → List Bytes → Type 0
TriedAtMost n ext tried =
    (more : List Bytes) × (tried ≡ ext.download_link ∷ more)
    × (length more ≤ n)
    × All (IsFallback ext) more

try_fallback-tried :
    (runner : ℕ → Bytes → Fetch) (ext : Extension) (url : Bytes) (n : ℕ) (a : Attempts)
    → TriedAtMost n ext a.tried
    → TriedAtMost (n + 1) ext (try_fallback runner ext.source ext.download_link url a).tried
unfolding try_fallback try_url
try_fallback-tried runner ext url n a (more, e, short, all) =
    elim (Bool-cases (download_failed a.outcome && is_fallback ext.source ext.download_link url)) [
      | inr stay ↦ rw stay (more, e, omega arith, all)
      | inl go ↦
          let ok = is_fallback-IsFallback ext url (and_right _ _ go) in
          rw go (
            more ++ url ∷ [],
            ap (λ t. t ++ url ∷ []) e,
            omega (arith, length-append {0} more (url ∷ [])),
            All-append (IsFallback ext) more (url ∷ []) all (ok, tt),
          )
    ]

first_attempt-tried :
    (runner : ℕ → Bytes → Fetch) (ext : Extension)
    → TriedAtMost 0 ext (first_attempt runner ext.download_link).tried
unfolding first_attempt try_url
first_attempt-tried runner ext = ([], refl, omega arith, tt)

-- A task tries its primary URL first, and behind it at most two other URLs; each of these is tried
-- only for an extension from wordpress.org, is not empty and is not the primary URL.
fetch_index_tried :
    (runner : ℕ → Bytes → Fetch) (repo_type : ExtensionType) (ext : Extension)
    → TriedAtMost 2 ext (fetch_index runner repo_type ext).tried
unfolding fetch_index
fetch_index_tried runner repo_type ext =
    try_fallback-tried runner ext _ 1 _
      (try_fallback-tried runner ext _ 0 _ (first_attempt-tried runner ext))

-- what the database says is closed, after the branch of a failed download
on_failure-closed :
    (ext : Extension) (primary : Fetch) (e : RunnerError) (s : Store)
    → (on_failure ext primary e s).1.closed ≡ (
        if is_not_found primary && is_not_found (fetch_failed e)
        then (ext.slug, ext.source) ∷ s.closed
        else s.closed)
unfolding on_failure close_extension mark_closed unlist
on_failure-closed ext (fetched r) e s = refl
on_failure-closed ext (fetch_failed not_found) e s = ground arith
on_failure-closed ext (fetch_failed unavailable) e s = ground arith
on_failure-closed ext (fetch_failed other) e s = ground arith

update_index-closed :
    (idx : ℕ) (slug : Bytes) (s : Store) → (update_index idx slug s).1.closed ≡ s.closed
unfolding update_index swap_index
update_index-closed idx slug s = ground arith

update_index-refused :
    (idx : ℕ) (slug : Bytes) (s : Store)
    → (update_index idx slug s).0 ≢ none
    → (update_index idx slug s).1 ≡ s
unfolding update_index
update_index-refused idx slug s h = ground arith

-- what a new index leaves alone
install-closed :
    (slug : Bytes) (idx : Option ℕ) (s : Store)
    → ((install slug idx s).1.closed ≡ s.closed) × ((install slug idx s).0 ≢ some skipped)
unfolding install
install-closed slug none s = (refl, λ e. cc)
install-closed slug (some idx) s = (update_index-closed idx slug s, λ e. ground arith)

install-refused :
    (slug : Bytes) (idx : Option ℕ) (s : Store)
    → (install slug idx s).0 ≢ none
    → (install slug idx s).1 ≡ s
unfolding install
install-refused slug none s h = refl
install-refused slug (some idx) s h = update_index-refused idx slug s (ground arith)

save_stats-keeps :
    (slug : Bytes) (st : Option ExtractStats) (s : Store)
    → ((save_stats slug st s).closed ≡ s.closed)
      × ((save_stats slug st s).index_at ≡ s.index_at)
      × ((save_stats slug st s).entries ≡ s.entries)
unfolding save_stats
save_stats-keeps slug none s = (refl, refl, refl)
save_stats-keeps slug (some st) s = (refl, refl, refl)

on_success-closed :
    (open_index : Bytes → Option ℕ) (ext : Extension) (r : IndexerResult) (s : Store)
    → ((on_success open_index ext r s).1.closed ≡ s.closed)
      × ((on_success open_index ext r s).0 ≢ some skipped)
unfolding on_success
on_success-closed open_index ext r s =
    let (e, n) =
      install-closed ext.slug (open_index r.index_path) (save_stats ext.slug r.stats s) in
    (e ∙ (save_stats-keeps ext.slug r.stats s).0, n)

-- the two outcomes of which a closed extension is the result
abbrev pub both_not_found : Fetch → Fetch → Bool
both_not_found primary final = is_not_found primary && is_not_found final

conclude-closed :
    (open_index : Bytes → Option ℕ) (ext : Extension) (primary final : Fetch) (s : Store)
    → (conclude open_index ext primary final s).1.closed
      ≡ (if both_not_found primary final then (ext.slug, ext.source) ∷ s.closed else s.closed)
unfolding conclude
conclude-closed open_index ext primary (fetched r) s =
    ground (arith, (on_success-closed open_index ext r s).0)
conclude-closed open_index ext primary (fetch_failed e) s = on_failure-closed ext primary e s

conclude-skipped :
    (open_index : Bytes → Option ℕ) (ext : Extension) (primary final : Fetch) (s : Store)
    → ((conclude open_index ext primary final s).0 ≡ some skipped)
      ↔ (both_not_found primary final ≡ true)
unfolding conclude on_failure
conclude-skipped open_index ext primary (fetched r) s =
    let never = (on_success-closed open_index ext r s).1 in
    (λ h. absurd (never h), λ h. ground arith)
conclude-skipped open_index ext (fetched r) (fetch_failed e) s =
    (λ h. ground arith, λ h. ground arith)
conclude-skipped open_index ext (fetch_failed not_found) (fetch_failed e) s =
    (λ h. ground arith, λ h. ground arith)
conclude-skipped open_index ext (fetch_failed unavailable) (fetch_failed e) s =
    (λ h. ground arith, λ h. ground arith)
conclude-skipped open_index ext (fetch_failed other) (fetch_failed e) s =
    (λ h. ground arith, λ h. ground arith)

-- The task marks its extension as closed exactly if the primary URL is gone for good and so is the
-- last URL tried; a transient failure of the primary URL never closes it, whatever the fallbacks
-- report. It reports a skipped download in exactly the same case.
pub run_task_closes :
    (runner : ℕ → Bytes → Fetch) (open_index : Bytes → Option ℕ) (ext : Extension) (s : Store)
    → ((run_task runner open_index ext s).1.closed ≡ (
        if gone_for_good runner s.repo_type ext
        then (ext.slug, ext.source) ∷ s.closed
        else s.closed))
      × (((run_task runner open_index ext s).0 ≡ some skipped)
          ↔ (gone_for_good runner s.repo_type ext ≡ true))
unfolding run_task
run_task_closes runner open_index ext s =
    let primary = (first_attempt runner ext.download_link).outcome in
    let final = (fetch_index runner s.repo_type ext).outcome in
    (
      conclude-closed open_index ext primary final s,
      conclude-skipped open_index ext primary final s,
    )

conclude-index :
    (open_index : Bytes → Option ℕ) (ext : Extension) (primary final : Fetch) (s : Store)
    → (conclude open_index ext primary final s).0 ≢ none
    → ((conclude open_index ext primary final s).1.index_at ≡ s.index_at)
      × ((conclude open_index ext primary final s).1.entries ≡ (
          if both_not_found primary final && not (has_index ext s)
          then erase ext.slug s.entries
          else s.entries))
unfolding conclude on_failure close_extension mark_closed unlist on_success
conclude-index open_index ext primary (fetched r) s h =
    let same =
      install-refused ext.slug (open_index r.index_path) (save_stats ext.slug r.stats s) h in
    let (_, heap, listed) = save_stats-keeps ext.slug r.stats s in
    rw same (heap, ground (arith, listed))
conclude-index open_index ext (fetched r) (fetch_failed e) s h = ground arith
conclude-index open_index ext (fetch_failed not_found) (fetch_failed e) s h = ground arith
conclude-index open_index ext (fetch_failed unavailable) (fetch_failed e) s h = ground arith
conclude-index open_index ext (fetch_failed other) (fetch_failed e) s h = ground arith

-- A task that reports an error leaves every loaded index in its place, and the extensions too, but
-- for one case: an extension that is gone for good and has no index is taken off the list.
pub run_task_failure_keeps :
    (runner : ℕ → Bytes → Fetch) (open_index : Bytes → Option ℕ) (ext : Extension) (s : Store)
    → (run_task runner open_index ext s).0 ≢ none
    → ((run_task runner open_index ext s).1.index_at ≡ s.index_at)
      × ((run_task runner open_index ext s).1.entries ≡ (
          if gone_for_good runner s.repo_type ext && not (has_index ext s)
          then erase ext.slug s.entries
          else s.entries))
unfolding run_task
run_task_failure_keeps runner open_index ext s h =
    conclude-index open_index ext (first_attempt runner ext.download_link).outcome
      (fetch_index runner s.repo_type ext).outcome s h
