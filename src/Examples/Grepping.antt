-- ===== src/Examples/Grepping.antt =====
-- Runs of the line search and of the search of one extension.
use veloria.Base.{
  ℕ, zero, suc, ◌≤◌, ◌≡◌, ◌⊎◌, refl, Bool, true, Option, none, some, List, [], ◌∷◌, arith, length,
  take, All, Bytes, codes,
}
use veloria.Grep.{grep_data}
use veloria.Grep.Scan.{nl, index_byte, count_nl, trim_right, after_last}
use veloria.Grep.Scan.Laws.{unsplit, index_byte_line, index_byte_ended}
use veloria.Grep.Spec.{MatchesLines, unless_end, expected}
use veloria.Grep.Correct.Main.{grep_data-meets}
use veloria.Grep.Context.{
  truncate_match_line, truncate_context_lines, extract_before, extract_after,
}
use veloria.Search.{
  CompiledSearch, SearchResponse, search_compiled, search_loop, visit, collect, is_filtered,
  rel_name,
}
use veloria.Search.Bounds.{count_matches, HasMatch, search_compiled_limits}
use mathlib.Core.List.{cons-ne-nil, append-nil}

-- an engine that matches every line
abbrev any_line : Bool → Bytes → Bool
any_line b l = true

abbrev any_engine : Bytes → Bool → Option ℕ
any_engine text b = elim (index_byte text nl) [ none ↦ some (length text) | some i ↦ some i ]

any_engine-MatchesLines : MatchesLines any_line any_engine
any_engine-MatchesLines [] b ne h = absurd (ne refl)
any_engine-MatchesLines (l ∷ []) b ne (h, _) = ground (arith, append-nil l, index_byte_line l h)
any_engine-MatchesLines (l ∷ k ∷ ls) b ne (h, _) =
    ground (arith, index_byte_ended l (unsplit (k ∷ ls)) h)

abbrev two_lines : List Bytes
two_lines = codes "ab" ∷ codes "cd" ∷ []

grep_data-meets_example :
    grep_data any_engine none 1 5 (codes "ab\ncd")
    ≡ take 5 (unless_end two_lines (expected any_line none 1 true [] two_lines))
grep_data-meets_example =
    grep_data-meets any_line any_engine any_engine-MatchesLines none 1 5 (codes "ab\ncd") two_lines
      (cons-ne-nil _ _) (omega arith) refl

grep_two_lines :
    grep_data any_engine none 1 5 (codes "ab\ncd")
    ≡ record { line = codes "ab"; line_number = 1; before = []; after = codes "cd" ∷ [] }
      ∷ record { line = codes "cd"; line_number = 2; before = codes "ab" ∷ []; after = [] }
      ∷ []
unfolding grep_data index_byte count_nl extract_before extract_after truncate_match_line
    truncate_context_lines trim_right
grep_two_lines = refl

-- An empty first line is left out of the context above line 2.
empty_first_line : extract_before (codes "\nab\ncd") 4 5 ≡ codes "ab" ∷ []
unfolding extract_before
empty_first_line = refl

abbrev repeat : ℕ → ℕ → Bytes
repeat zero b = []
repeat (suc n) b = b ∷ repeat n b

abbrev long_line : Bytes
long_line = repeat 300 b'a'

abbrev any_search : CompiledSearch
any_search = record {
  re = any_engine;
  content_re = none;
  fre = none;
  exclude_fre = none;
  max_results = 3;
  lines_of_context = 0;
  offset = 0;
  limit = 1;
}

abbrev same_content : Bytes → Option Bytes
same_content name = some (codes "ab\ncd")

abbrev found_one : SearchResponse
found_one = record {
  matches =
      record {
        filename = codes "a.php";
        matches =
            record { line = codes "ab"; line_number = 1; before = []; after = [] }
            ∷ record { line = codes "cd"; line_number = 2; before = []; after = [] }
            ∷ [];
      }
      ∷ [];
  files_with_match = 2;
  files_opened = 2;
}

search_one_file :
    search_compiled same_content any_search
      (some (codes "/p/source/a.php" ∷ codes "/p/source/b.php" ∷ []))
    ≡ some found_one
unfolding search_compiled search_loop visit collect is_filtered rel_name grep_data index_byte
    count_nl truncate_match_line trim_right after_last
search_one_file = refl

search_compiled_limits_example :
    (count_matches found_one.matches ≤ 3)
    × (◌≡◌ {A = ℕ} 1 0 ⊎ (length found_one.matches ≤ 1))
    × All HasMatch found_one.matches
    × (length found_one.matches ≤ 2)
    × ◌≤◌ 2 2
search_compiled_limits_example =
    search_compiled_limits same_content any_search
      (some (codes "/p/source/a.php" ∷ codes "/p/source/b.php" ∷ [])) search_one_file
