-- ===== src/Mcp/GrepFile.antt =====
-- `GrepFile` and `grepSingleFile` of internal/mcp/service.go. The regexp, the walk of the directory and
-- the files' lines are parameters.
pub mod Lines
pub mod Cap
use veloria.Base.{
  ℕ, zero, suc, ◌+◌, ◌-◌, Bool, true, false, Option, none, some, List, [], ◌∷◌, ◌++◌, length, take,
  slice, leb, ltb, if◌then◌else◌, Bytes, min,
}

pub record GrepLineMatch : Type 0 where
  pub line : ℕ
  pub content : Bytes
  pub before : List Bytes
  pub after : List Bytes

-- all_lines[start:i], where that is tested
unfoldable pub context : List Bytes → ℕ → ℕ → ℕ → List Bytes
context all_lines context_lines start stop =
    if ltb 0 context_lines then (if ltb start stop then slice all_lines start stop else []) else []

unfoldable pub line_match : List Bytes → ℕ → ℕ → Bytes → GrepLineMatch
line_match all_lines context_lines i line = record {
  line = i + 1;
  content = line;
  before = context all_lines context_lines (i - context_lines) i;
  after = context all_lines context_lines (i + 1) (min (i + 1 + context_lines) (length all_lines));
}

-- the loop, at line index `i`
unfoldable pub grep_lines : (Bytes → Bool) → List Bytes → ℕ → ℕ → List Bytes → List GrepLineMatch
grep_lines re all_lines context_lines i [] = []
grep_lines re all_lines context_lines i (l ∷ ls) =
    let rest = grep_lines re all_lines context_lines (suc i) ls in
    if re l then line_match all_lines context_lines i l ∷ rest else rest

-- `grepSingleFile`, with `none` for an error of reading
unfoldable pub grep_single_file :
    (Bytes → Bool) → ℕ → Option (List Bytes) → Option (List GrepLineMatch)
grep_single_file re context_lines none = none
grep_single_file re context_lines (some all_lines) =
    some (grep_lines re all_lines context_lines 0 all_lines)

abbrev pub max_grep_matches : ℕ
max_grep_matches = 1000

pub record GrepFileMatch : Type 0 where
  pub path : Bytes
  pub matches : List GrepLineMatch

pub record GrepFileResponse : Type 0 where
  pub total_matches : ℕ
  pub files : List GrepFileMatch

-- one step of the walk: an error, a directory, or a file with its relative path, what the glob says
-- of it (`none` for a malformed one), and what `grepSingleFile` returns
pub data Entry : Type 0 where
  walk_error directory : Entry
  file : Bytes → Option Bool → Option (List GrepLineMatch) → Entry

-- the matches of a file, under the global cap
unfoldable pub add_matches : Bytes → List GrepLineMatch → GrepFileResponse → GrepFileResponse
add_matches path [] resp = resp
add_matches path (m ∷ ms) resp =
    let remaining = max_grep_matches - resp.total_matches in
    let kept = (if ltb remaining (length (m ∷ ms)) then take remaining (m ∷ ms) else m ∷ ms) in
    record {
      total_matches = resp.total_matches + length kept;
      files = resp.files ++ record { path = path; matches = kept } ∷ [];
    }

unfoldable pub add_file :
    Bytes → Option Bool → Option (List GrepLineMatch) → GrepFileResponse → Option GrepFileResponse
add_file path none found resp = none
add_file path (some false) found resp = some resp
add_file path (some true) none resp = some resp
add_file path (some true) (some ms) resp = some (add_matches path ms resp)

-- the walk behind a file
unfoldable pub and_then :
    Option GrepFileResponse → (GrepFileResponse → Option GrepFileResponse) → Option GrepFileResponse
and_then none rest = none
and_then (some resp) rest = rest resp

unfoldable pub grep_walk : List Entry → GrepFileResponse → Option GrepFileResponse
grep_walk [] resp = some resp
grep_walk (walk_error ∷ es) resp = none
grep_walk (directory ∷ es) resp = grep_walk es resp
grep_walk (file path glob found ∷ es) resp = elim (leb max_grep_matches resp.total_matches) [
  | true ↦ some resp
  | false ↦ and_then (add_file path glob found resp) (grep_walk es)
]

unfoldable pub grep_file : List Entry → Option GrepFileResponse
grep_file es = grep_walk es (record { total_matches = 0; files = [] })
