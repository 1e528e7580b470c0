-- ===== src/Examples/Resuming.antt =====
-- A resumption from the rows of a table.
use veloria.Base.{none, some, List, [], ◌∷◌, ◌+◌, ◌≡◌, refl, codes}
use veloria.Store.Rows.{Row, index_failed, stale_after, is_due, is_index_failed, attempted_before}
use veloria.Base.{Bytes, true}

-- a row that failed three times, the last time at 0
abbrev failed_row : Bytes → Row
failed_row slug = record {
  slug = slug;
  source = codes "wordpress.org";
  closed_at = none;
  index_status = index_failed;
  indexed_at = none;
  retry_count = 3;
  last_attempt_at = some 0;
}

-- the row of the listed plugin, which is closed, and another one
abbrev rows : List Row
rows =
    record (failed_row (codes "akismet")) { closed_at = some 5 } ∷ failed_row (codes "jetpack") ∷ []

due_again : is_due (stale_after + 1) (failed_row (codes "jetpack")) ≡ true
unfolding is_due is_index_failed attempted_before
due_again = refl
