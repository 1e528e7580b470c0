-- ===== src/Search/Bounds.antt =====
-- The counters of the search loop, and the limits that it keeps.
use veloria.Base.{
  ℕ, ◌+◌, ◌-◌, ◌≤◌, ◌<◌, ◌≡◌, ◌⊎◌, none, some, List, [], ◌∷◌, ◌++◌, arith, length, length-append,
  All, All-append, Bool-cases, Option-cases, Option, Bytes, inl, inr,
}
use veloria.Grep.{Match, grep_data}
use veloria.Grep.Size.{grep_data-size}
use veloria.Search.{
  FileMatch, CompiledSearch, Progress, SearchResponse, rel_name, is_filtered, collect, visit,
  search_loop, start, search_compiled,
}

-- the matches of all files together, as `countMatches` of internal/manager/manager.go counts them
unfoldable pub count_matches : List FileMatch → ℕ
count_matches [] = 0
count_matches (f ∷ fs) = length f.matches + count_matches fs

count_append :
    (fs : List FileMatch) (f : FileMatch)
    → count_matches (fs ++ f ∷ []) ≡ count_matches fs + length f.matches
unfolding count_matches
count_append [] f = omega arith
count_append (g ∷ fs) f = omega (arith, count_append fs f)

-- a file in the results has a match
abbrev pub HasMatch : FileMatch → Type 0
HasMatch f = 0 < length f.matches

-- what holds of the loop's variables between two files
pub record IsCounted (cs : CompiledSearch) (s : Progress) : Type 0 where
  pub collected : s.files_collected ≡ length s.results
  pub counted : s.matches_collected ≡ count_matches s.results
  pub capped : s.matches_collected ≤ cs.max_results
  pub limited : (cs.limit ≡ 0) ⊎ (s.files_collected ≤ cs.limit)
  pub found : s.files_collected ≤ s.files_found
  pub opened : s.files_found ≤ s.files_opened
  pub matched : All HasMatch s.results

module _ (cs : CompiledSearch) (name : Bytes) where
  collect-IsCounted :
      (ms : List Match) (s : Progress)
      → length ms + s.matches_collected ≤ cs.max_results
      → s.files_found < s.files_opened
      → IsCounted cs s
      → IsCounted cs (collect cs name ms s)
  unfolding collect
  collect-IsCounted [] s fits fresh h = h
  collect-IsCounted (m ∷ ms) s fits fresh h =
      let f : FileMatch = record { filename = rel_name name; matches = m ∷ ms } in
      ground (
        arith,
        length-append s.results (f ∷ []),
        count_append s.results f,
        All-append HasMatch s.results (f ∷ []) h.matched (omega arith, tt),
      )

  visit-IsCounted :
      (read : Bytes → Option Bytes) (s : Progress)
      → s.matches_collected ≤ cs.max_results
      → IsCounted cs s
      → IsCounted cs (visit read cs name s)
  unfolding visit
  visit-IsCounted read s fits h =
      let t : Progress = record s { files_opened = s.files_opened + 1 } in
      let opened : IsCounted cs t = ground arith in
      elim (Bool-cases (is_filtered cs name)) [
        | inl skip ↦ rw (skip, visit) h
        | inr keep ↦ elim (Option-cases (read name)) [
          | inl e ↦ rw (keep, visit) (rw (e, visit) opened)
          | inr (content, e) ↦
              let left = cs.max_results - s.matches_collected in
              rw (keep, visit)
                (rw (e, visit)
                  (collect-IsCounted
                    (grep_data cs.re cs.content_re cs.lines_of_context left content) t
                    (omega
                      (arith, grep_data-size cs.re cs.content_re cs.lines_of_context left content))
                    (omega arith) opened))
        ]
      ]

search_loop-IsCounted :
    (read : Bytes → Option Bytes) (cs : CompiledSearch) (names : List Bytes) (s : Progress)
    → IsCounted cs s
    → IsCounted cs (search_loop read cs names s)
unfolding search_loop
search_loop-IsCounted read cs [] s h = h
search_loop-IsCounted read cs (name ∷ names) s h = ground (
  arith,
  search_loop-IsCounted read cs names (visit read cs name s)
      (visit-IsCounted cs name read s h.capped h),
)

start-IsCounted : (cs : CompiledSearch) → IsCounted cs start
unfolding count_matches
start-IsCounted cs = ground arith

-- The answer of a search of one extension keeps its limits: no more than `max_results` matches in
-- all, no more than `limit` files if there is a limit, and no file without a match; and its counters
-- are ordered: files in the answer, files with a match, files opened.
pub search_compiled_limits :
    (read : Bytes → Option Bytes) (cs : CompiledSearch) (names : Option (List Bytes))
    {r : SearchResponse}
    → search_compiled read cs names ≡ some r
    → (count_matches r.matches ≤ cs.max_results)
      × ((cs.limit ≡ 0) ⊎ (length r.matches ≤ cs.limit))
      × All HasMatch r.matches
      × (length r.matches ≤ r.files_with_match)
      × (r.files_with_match ≤ r.files_opened)
unfolding search_compiled
search_compiled_limits read cs none e = cc
search_compiled_limits read cs (some names) {r} e =
    let h = search_loop-IsCounted read cs names start (start-IsCounted cs) in
    let counted = h.counted in let capped = h.capped in ground arith
