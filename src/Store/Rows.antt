-- ===== src/Store/Rows.antt =====
-- The rows of a repository's table that the index tasks write and that the resumption reads: `markClosed`,
-- `RecordIndexSuccess`, `RecordIndexFailure`, and the queries of `closedSlugs` and `ResumeUnindexed` in
-- internal/repo/repository.go. An update that fails changes nothing, and a query that fails gives no slugs,
-- since the code ignores its error.
-- A time is a natural number of nanoseconds.
pub mod Open
use veloria.Base.{
  ℕ, ◌+◌, ◌-◌, Bool, true, false, ◌&&◌, ◌||◌, not, Option, none, some, List, [], ◌∷◌, leb, ltb,
  if◌then◌else◌, is_some, Bytes, bytes_eq,
}
use veloria.Store.{Extension, Store}
use veloria.Store.Resume.{resume_unindexed}

pub data IndexStatus : Type 0 where
  index_pending index_done index_failed : IndexStatus

-- the columns that these queries name; `slug` is the version of a core
pub record Row : Type 0 where
  pub slug : Bytes
  pub source : Bytes
  pub closed_at : Option ℕ
  pub index_status : IndexStatus
  pub indexed_at : Option ℕ
  pub retry_count : ℕ
  pub last_attempt_at : Option ℕ

unfoldable pub update_where : (Row → Bool) → (Row → Row) → List Row → List Row
update_where pick change [] = []
update_where pick change (r ∷ rs) = (if pick r then change r else r) ∷ update_where pick change rs

-- `markClosed`; cores have no source
unfoldable pub mark_row_closed : Bool → Bytes → Bytes → ℕ → List Row → List Row
mark_row_closed is_core slug source now rows =
    update_where (λ r. bytes_eq r.slug slug && (is_core || bytes_eq r.source source))
      (λ r. record r { closed_at = some now }) rows

-- `RecordIndexSuccess`
unfoldable pub record_index_success : Bytes → ℕ → List Row → List Row
record_index_success slug now rows =
    update_where (λ r. bytes_eq r.slug slug)
      (λ r. record r {
        index_status = index_done;
        indexed_at = some now;
        retry_count = 0;
        last_attempt_at = some now;
      })
      rows

-- `RecordIndexFailure`
unfoldable pub record_index_failure : Bytes → ℕ → List Row → List Row
record_index_failure slug now rows =
    update_where (λ r. bytes_eq r.slug slug)
      (λ r. record r {
        index_status = index_failed;
        last_attempt_at = some now;
        retry_count = r.retry_count + 1;
      })
      rows

-- the query of `closedSlugs`
unfoldable pub closed_slugs : List Row → List Bytes
closed_slugs [] = []
closed_slugs (r ∷ rs) =
    let rest = closed_slugs rs in if is_some r.closed_at then r.slug ∷ rest else rest

abbrev pub max_total_retries : ℕ
max_total_retries = 15

-- 24 hours
abbrev pub stale_after : ℕ
stale_after = 86400000000000

unfoldable pub is_index_failed : IndexStatus → Bool
is_index_failed index_pending = false
is_index_failed index_done = false
is_index_failed index_failed = true

-- an attempt that is older; a NULL fits no comparison
unfoldable pub attempted_before : Option ℕ → ℕ → Bool
attempted_before none t = false
attempted_before (some a) t = ltb a t

-- the condition of the query for stale failures
unfoldable pub is_due : ℕ → Row → Bool
is_due now r =
    (is_index_failed r.index_status && (leb 3 r.retry_count && ltb r.retry_count max_total_retries))
    && (attempted_before r.last_attempt_at (now - stale_after) && not (is_some r.closed_at))

unfoldable pub stale_slugs : ℕ → List Row → List Bytes
stale_slugs now [] = []
stale_slugs now (r ∷ rs) =
    let rest = stale_slugs now rs in if is_due now r then r.slug ∷ rest else rest

-- what is read of a query's slugs; the flag tells that the query succeeds
unfoldable pub plucked : Bool → List Bytes → List Bytes
plucked answers slugs = if answers then slugs else []

-- `ResumeUnindexed` with its two queries
unfoldable pub resume_from_rows : Bool → Bool → ℕ → List Row → Store → List Extension
resume_from_rows closed_answers stale_answers now rows s =
    resume_unindexed (plucked closed_answers (closed_slugs rows))
      (plucked stale_answers (stale_slugs now rows)) s
