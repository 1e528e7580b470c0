-- ===== src/Grep/Spec.antt =====
-- What `grepData` should return for a file that is given as its list of lines.
use veloria.Base.{
  ℕ, ◌+◌, ◌≡◌, ◌≢◌, Bool, true, false, Option, none, some, List, [], ◌∷◌, length, reverse, All, ltb,
  if◌then◌else◌, Bytes,
}
use veloria.Grep.{Match}
use veloria.Grep.Scan.{trim_right}
use veloria.Grep.Scan.Laws.{IsLine, unsplit}
use veloria.Grep.Context.{truncate_match_line, truncate_context_lines}
use veloria.Grep.Context.Laws.{nearest}

-- `p b l` tells whether the line `l` matches; `b` is true for the line that begins the text.
-- The end of the first line that matches: what `Regexp.Match` of internal/codesearch/regexp returns.
abbrev pub match_end : (Bool → Bytes → Bool) → Bool → List Bytes → Option ℕ
match_end p b [] = none
match_end p b (l ∷ ls) = elim (p b l) [
  | true ↦ some (length l)
  | false ↦ elim (match_end p false ls) [ none ↦ none | some i ↦ some (length l + 1 + i) ]
]

-- The search engine decides line by line, by `p`.
abbrev pub MatchesLines : (Bool → Bytes → Bool) → (Bytes → Bool → Option ℕ) → Type 0
MatchesLines p re =
    (ls : List Bytes) (b : Bool) → ls ≢ [] → All IsLine ls → re (unsplit ls) b ≡ match_end p b ls

-- The empty text behind a file's last newline is no line of its own once the chunk starts there.
abbrev pub unless_end {ℓ} : {A : Type ℓ} → List Bytes → List A → List A
unless_end ([] ∷ []) ms = []
unless_end _ ms = ms

module _ (p : Bool → Bytes → Bool) (fre : Option (Bytes → Option ℕ)) (context_lines : ℕ) where
  -- the match of line `l`, with `up` the lines above it, nearest first, and `rest` those below
  abbrev pub match_of : List Bytes → Bytes → List Bytes → Match
  match_of up l rest = record {
    line = truncate_match_line (trim_right l) fre;
    line_number = length up + 1;
    before =
        if ltb 0 context_lines
        then truncate_context_lines (reverse (nearest context_lines up))
        else [];
    after = if ltb 0 context_lines then truncate_context_lines (nearest context_lines rest) else [];
  }

  -- the matching lines of `ls`, in order
  abbrev pub expected : Bool → List Bytes → List Bytes → List Match
  expected b up [] = []
  expected b up (l ∷ rest) = elim (p b l) [
    | true ↦ match_of up l rest ∷ unless_end rest (expected false (l ∷ up) rest)
    | false ↦ expected false (l ∷ up) rest
  ]
