-- ===== src/Store/Rows/Open.antt =====
-- Which extensions the rows let be resumed, and that the updates leave each slug in one row.
use mathlib.Core.List.{Mem, mem-append_left}
use veloria.Base.{
  ℕ, ◌≡◌, ◌≢◌, ◌∙◌, refl, sym, subst, Bool, false, none, some, List, [], ◌∷◌, All, Bytes,
  Bool-cases, inl, inr,
}
use veloria.Base.Maps.{lookup}
use veloria.Store.{Extension, Store}
use veloria.Store.Resume.{resume_unindexed}
use veloria.Store.Resume.Unindexed.{unindexed-Mem}
use veloria.Store.Resume.Wanted.{IsWanted, IsWanted-is_unindexed}
use veloria.Store.Rows.{
  update_where, mark_row_closed, record_index_success, record_index_failure, Row, resume_from_rows,
  plucked,
}

-- no two rows have one slug
abbrev pub AreApart : List Row → Type 0
AreApart [] = Unit
AreApart (r ∷ rs) = All (λ q. q.slug ≢ r.slug) rs × AreApart rs

-- each row of the extension's slug has no time at which it was closed
abbrev pub IsOpen : List Row → Extension → Type 0
IsOpen rows e = All (λ r. r.slug ≡ e.slug → r.closed_at ≡ none) rows

-- If that query fails, a listed extension with a download link and no index is resumed, closed or not.
resume_from_rows-closed :
    (stale_answers : Bool) (now : ℕ) (rows : List Row) (s : Store) (k : Bytes) (e : Extension)
    → lookup k s.entries ≡ some e
    → IsWanted [] s e
    → Mem e (resume_from_rows false stale_answers now rows s)
unfolding resume_from_rows resume_unindexed plucked
resume_from_rows-closed stale_answers now rows s k e h w =
    mem-append_left _ (unindexed-Mem [] s k e s.entries h (IsWanted-is_unindexed [] s e w))

module _ (pick : Row → Bool) (change : Row → Row)
    (keeps : (r : Row) → (change r).slug ≡ r.slug) where
  update_where-away :
      (slug : Bytes) (rs : List Row)
      → All (λ q. q.slug ≢ slug) rs
      → All (λ q. q.slug ≢ slug) (update_where pick change rs)
  unfolding update_where
  update_where-away slug [] h = tt
  update_where-away slug (r ∷ rs) h = elim (Bool-cases (pick r)) [
    | inl e ↦ rw e ((λ x. h.0 (sym (keeps r) ∙ x)), update_where-away slug rs h.1)
    | inr e ↦ rw e (h.0, update_where-away slug rs h.1)
  ]

  update_where-AreApart : (rs : List Row) → AreApart rs → AreApart (update_where pick change rs)
  unfolding update_where
  update_where-AreApart [] h = tt
  update_where-AreApart (r ∷ rs) h = elim (Bool-cases (pick r)) [
    | inl e ↦ rw e (
      subst (λ k. All (λ q. q.slug ≢ k) (update_where pick change rs)) (sym (keeps r))
          (update_where-away r.slug rs h.0),
      update_where-AreApart rs h.1,
    )
    | inr e ↦ rw e (update_where-away r.slug rs h.0, update_where-AreApart rs h.1)
  ]

-- The updates that the index tasks make leave each slug in one row.
updates-AreApart :
    (is_core : Bool) (slug source : Bytes) (now : ℕ) (rows : List Row)
    → AreApart rows
    → AreApart (mark_row_closed is_core slug source now rows)
      × AreApart (record_index_success slug now rows)
      × AreApart (record_index_failure slug now rows)
unfolding mark_row_closed record_index_success record_index_failure
updates-AreApart is_core slug source now rows h = (
  update_where-AreApart _ _ (λ r. refl) rows h,
  update_where-AreApart _ _ (λ r. refl) rows h,
  update_where-AreApart _ _ (λ r. refl) rows h,
)
