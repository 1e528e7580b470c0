-- ===== src/Grep.antt =====
-- `grepData` of internal/index/index.go: the lines of one source file that match, with context.
pub mod Scan
pub mod Context
pub mod Spec
pub mod Size
pub mod Correct
use veloria.Base.{
  ℕ, zero, suc, ◌+◌, min, Bool, true, false, Option, none, some, List, [], ◌∷◌, ◌++◌, ◌&&◌, length,
  drop, slice, ltb, if◌then◌else◌, Bytes,
}
use Scan.{nl, after_last, trim_right, count_nl}
use Context.{extract_before, extract_after, truncate_match_line, truncate_context_lines}

pub record Match : Type 0 where
  pub line : Bytes
  pub line_number : ℕ
  pub before : List Bytes
  pub after : List Bytes

-- `re` stands for `re.Match(b, beginText, true)` of the search engine, with `none` for -1; `fre`
-- for the regexp that finds the place of a match in its line.
module _ (re : Bytes → Bool → Option ℕ) (fre : Option (Bytes → Option ℕ))
    (context_lines max_matches : ℕ) (buf : Bytes) where
  -- the match of one round: the chunk starts at `chunk_start`, the matching line ends at `m`
  unfoldable pub found_match : ℕ → ℕ → ℕ → Match
  found_match lineno line_start line_end = record {
    line = truncate_match_line (trim_right (slice buf line_start line_end)) fre;
    line_number = lineno;
    before =
        if ltb 0 context_lines
        then truncate_context_lines (extract_before buf line_start context_lines)
        else [];
    after =
        if ltb 0 context_lines
        then truncate_context_lines (extract_after buf line_end context_lines)
        else [];
  }

  unfoldable pub grep_loop : ℕ → ℕ → Bool → ℕ → List Match → List Match
  grep_loop zero chunk_start begin_text lineno matches = matches
  grep_loop (suc fuel) chunk_start begin_text lineno matches =
      elim (ltb chunk_start (length buf) && ltb (length matches) max_matches) [
        | false ↦ matches
        | true ↦ elim (re (drop chunk_start buf) begin_text) [
          | none ↦ matches
          | some rel ↦
              let m = rel + chunk_start in
              let line_start = after_last (slice buf chunk_start m) nl + chunk_start in
              let line_end = min (m + 1) (length buf) in
              let number = lineno + count_nl (slice buf chunk_start line_start) in
              grep_loop fuel line_end false (number + 1)
                (matches ++ found_match number line_start line_end ∷ [])
        ]
      ]

  -- Each round moves the start of the chunk by at least one byte.
  unfoldable pub grep_data : List Match
  unfolding grep_loop found_match
  grep_data = grep_loop (suc (length buf)) 0 true 1 []
