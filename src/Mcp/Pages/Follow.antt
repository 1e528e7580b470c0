-- ===== src/Mcp/Pages/Follow.antt =====
-- A client that follows the hints of the answers.
use veloria.Base.{
  ℕ, suc, ◌+◌, ◌-◌, ◌*◌, ◌≤◌, ◌<◌, ◌≡◌, refl, false, Option, none, some, List, [], ◌∷◌, length,
  drop, min, arith, ltb, leb, Bool-cases, inl, inr, length-drop, take_all,
}
use veloria.Base.Int.{ℤ, pos, negsuc}
use veloria.Base.Paging.{collect, page_at, collect-drop}
use veloria.Mcp.Tools.{clamp_int}
use veloria.Mcp.Persist.{ToolResponse}
use veloria.Mcp.Pages.{
  max_limit, FlatMatch, all_matches, MatchesPage, no_matches, matches_page, page_of,
  search_matches_page, clamped_page,
}

-- the matches of a page, and where the next one starts
abbrev pub shown : MatchesPage → List FlatMatch × Option ℕ
shown (no_matches offset total) = ([], none)
shown (matches_page first last total page next) = (page, next)

page_of-shown :
    (all : List FlatMatch) (offset limit : ℕ)
    → offset < length all
    → shown (page_of all offset limit) ≡ page_at all limit offset
unfolding page_of
page_of-shown all offset limit h =
    let there : leb (length all) offset ≡ false = ground arith in
    elim (Bool-cases (ltb (offset + limit) (length all))) [
      | inl e ↦
          let end : min (offset + limit) (length all) ≡ offset + limit = ground (arith, e) in
          let size : offset + limit - offset ≡ limit = omega arith in rw (there, end, size, e)
      | inr e ↦
          let end : min (offset + limit) (length all) ≡ length all = ground (arith, e) in
          let none' : ltb (length all) (length all) ≡ false = ground arith in
          let rest = length-drop offset all in
          rw (
            there,
            end,
            e,
            none',
            take_all (length all - offset) (drop offset all) (omega (arith, rest)),
            take_all limit (drop offset all) (ground (arith, e, rest)),
          )
    ]

limit_pos : (limit : ℤ) → 1 ≤ clamp_int limit 1 max_limit
unfolding clamp_int
limit_pos (pos n) = ground arith
limit_pos (negsuc n) = omega arith

offset_kept : (k : ℕ) → k ≤ max_limit * 1000 → clamp_int (pos k) 0 (max_limit * 1000) ≡ k
unfolding clamp_int
offset_kept k h = ground arith

-- the page that a request at an offset gets
abbrev answer_at : List FlatMatch → ℤ → ℕ → List FlatMatch × Option ℕ
answer_at all limit k =
    shown (page_of all (clamp_int (pos k) 0 (max_limit * 1000)) (clamp_int limit 1 max_limit))

answer_at-page :
    (all : List FlatMatch) (limit : ℤ) (k : ℕ)
    → length all ≤ max_limit * 1000 + 1
    → k < length all
    → answer_at all limit k ≡ page_at all (clamp_int limit 1 max_limit) k
answer_at-page all limit k h l =
    rw (offset_kept k (omega (arith, h, l))) (page_of-shown all k (clamp_int limit 1 max_limit) l)

answers_all :
    (all : List FlatMatch) (limit : ℤ)
    → length all ≤ max_limit * 1000 + 1
    → collect (answer_at all limit) (suc (length all)) (some 0) ≡ all
answers_all [] limit h = unfold collect page_of clamp_int in refl
answers_all (m ∷ ms) limit h =
    collect-drop (answer_at (m ∷ ms) limit) (m ∷ ms) (clamp_int limit 1 max_limit) (limit_pos limit)
      (λ k l. answer_at-page (m ∷ ms) limit k h l) (suc (length (m ∷ ms))) 0 (omega arith)
      (omega arith)

-- A client that starts at offset 0 and asks for the next page as long as it is told of one reads every
-- match of a stored search with at most 100,001 matches, once and in order, whatever limit it asks for,
-- and within as many requests as there are matches and one more.
pub search_matches_all :
    (resp : ToolResponse) (limit : ℤ)
    → length (all_matches resp.extensions) ≤ max_limit * 1000 + 1
    → collect
        (λ k. shown (clamped_page resp (pos k) limit))
        (suc (length (all_matches resp.extensions)))
        (some 0)
      ≡ all_matches resp.extensions
unfolding clamped_page search_matches_page
search_matches_all resp limit h = answers_all (all_matches resp.extensions) limit h
