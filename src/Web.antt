-- ===== src/Web.antt =====
-- The page that shows a match with the lines around it: `ReadContextLines` of internal/web/helpers.go and
-- `ContextPage` of internal/search/web.go. The source directory of an extension, the joining of paths
-- (`SafeJoin` over package filepath) and the files are parameters. A file is what package bufio scans
-- of it once gzip is undone.
pub mod Window
use veloria.Base.{
  ℕ, zero, suc, ◌+◌, ◌-◌, max, Bool, true, false, ◌||◌, Option, none, some, List, [], ◌∷◌, leb, ltb,
  ◌==◌, if◌then◌else◌, Bytes, codes, bytes_eq, ◌⊎◌, inl, inr,
}
use veloria.Base.Int.{ℤ, pos, negsuc}
use veloria.Base.Atoi.{atoi}

-- a `SearchContextLine`
pub record ContextLine : Type 0 where
  pub number : ℕ
  pub text : Bytes
  pub is_match : Bool

-- A file that is open, and rewound behind its first two bytes: the lines that `Scan` finds, and
-- whether, behind so many calls of `Scan`, `Err` has an error (a read may fail behind lines that it
-- gave), and whether then one of the deferred calls of `Close` fails.
pub record OpenFile : Type 0 where
  pub lines : List Bytes
  pub scan_error : ℕ → Bool
  pub close_error : ℕ → Bool

unfoldable pub add_line : ContextLine → List ContextLine × ℕ → List ContextLine × ℕ
add_line l (ls, calls) = (l ∷ ls, calls)

-- the loop behind `current` lines: the lines of the window, and the calls of `Scan` at its end
unfoldable pub scan_lines : List Bytes → ℕ → ℕ → ℕ → ℕ → List ContextLine × ℕ
scan_lines [] current line start end = ([], suc current)
scan_lines (l ∷ ls) current line start end =
    let n = suc current in
    let rest = scan_lines ls n line start end in
    if ltb n start
    then rest
    else if ltb end n
    then ([], n)
    else add_line (record { number = n; text = l; is_match = n == line }) rest

-- behind the loop: `Err`, then the deferred calls, whose error the function returns too
unfoldable pub close_lines : OpenFile → List ContextLine × ℕ → Option (List ContextLine)
close_lines f (ls, calls) = if f.scan_error calls || f.close_error calls then none else some ls

-- `ReadContextLines`; as an argument `none` stands for a file that cannot be opened or rewound, or
-- has a broken gzip header, as a result for an error
unfoldable pub read_context_lines : Option OpenFile → ℕ → ℕ → Option (List ContextLine)
read_context_lines none line radius = none
read_context_lines (some f) line radius =
    close_lines f (scan_lines f.lines 0 line (max (line - radius) 1) (line + radius))

-- what the page shows: a text that tells what is wrong, or the lines
pub data ContextPage : Type 0 where
  context_error : Bytes → ContextPage
  context_lines : List ContextLine → ContextPage

-- the query of a request
pub record ContextQuery : Type 0 where
  pub repo : Bytes
  pub slug : Bytes
  pub file : Bytes
  pub line : Bytes

-- The manager's `ResolveSourceDir`, if there is a manager; it gives the text of its error or a directory.
abbrev pub Sources : Type 0
Sources = Option (Bytes → Bytes → Bytes ⊎ Bytes)

unfoldable pub loaded_page : Option (List ContextLine) → ContextPage
loaded_page none = context_error (codes "Unable to load file context.")
loaded_page (some ls) = context_lines ls

module _ (safe_join : Bytes → Bytes → Option Bytes) (files : Bytes → Option OpenFile) where
  unfoldable pub joined_page : Option Bytes → ℕ → ContextPage
  joined_page none line = context_error (codes "Invalid file path.")
  joined_page (some path) line = loaded_page (read_context_lines (files path) line 4)

  unfoldable pub resolved_page : Bytes ⊎ Bytes → Bytes → ℕ → ContextPage
  resolved_page (inl err) file line = context_error err
  resolved_page (inr dir) file line = joined_page (safe_join dir file) line

  -- behind the test of the line number
  unfoldable pub line_page : (Bytes → Bytes → Bytes ⊎ Bytes) → ContextQuery → Option ℤ → ContextPage
  line_page resolve q none = context_error (codes "Invalid line number.")
  line_page resolve q (some (negsuc n)) = context_error (codes "Invalid line number.")
  line_page resolve q (some (pos zero)) = context_error (codes "Invalid line number.")
  line_page resolve q (some (pos (suc n))) =
      if bytes_eq q.repo [] || (bytes_eq q.slug [] || bytes_eq q.file [])
      then context_error (codes "Missing context details.")
      else resolved_page (resolve q.repo q.slug) q.file (suc n)

  unfoldable pub context_page : Sources → ContextQuery → ContextPage
  context_page none q = context_error (codes "Search context is unavailable.")
  context_page (some resolve) q = line_page resolve q (atoi q.line)
