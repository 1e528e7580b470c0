-- ===== src/Mcp/ReadFile.antt =====
-- `ReadFile` and `readFileRange` of internal/mcp/service.go, and the handler of the tool. The path and
-- the file are parameters: its lines, as package bufio scans them, or `none` for an error.
pub mod Laws
use veloria.Base.{
  ℕ, zero, suc, ◌+◌, ◌-◌, ◌*◌, Bool, true, false, ◌&&◌, ◌||◌, Option, none, some, List, [], ◌∷◌,
  length, leb, ltb, ◌==◌, if◌then◌else◌, Bytes,
}
use veloria.Base.Int.{ℤ, pos, negsuc}
use veloria.Mcp.Tools.{clamp_int}

abbrev pub max_read_lines : ℕ
max_read_lines = 500

-- the loop of `readFileRange`, behind `line_num` lines
unfoldable pub range_loop : List Bytes → ℕ → ℕ → ℕ → List Bytes
range_loop [] line_num start_line end_line = []
range_loop (l ∷ ls) line_num start_line end_line =
    let rest = range_loop ls (suc line_num) start_line end_line in
    if leb start_line (suc line_num) && ltb (suc line_num) end_line then l ∷ rest else rest

-- its tests on the two numbers; a negative one is treated as 0
unfoldable pub line_count : ℕ → ℕ
line_count max_lines =
    if max_lines == 0 || ltb max_read_lines max_lines then max_read_lines else max_lines

unfoldable pub first_line : ℕ → ℕ
first_line start_line = if ltb start_line 1 then 1 else start_line

unfoldable pub read_file_range : List Bytes → ℕ → ℕ → List Bytes × ℕ
read_file_range file start_line max_lines =
    let first = first_line start_line in
    (range_loop file 0 first (first + line_count max_lines), length file)

pub record ReadFileResponse : Type 0 where
  pub total_lines : ℕ
  pub start_line : ℕ
  pub end_line : ℕ
  pub content : List (ℕ × Bytes)

-- the lines and their numbers, which `formatNumberedLines` prints
unfoldable pub numbered : ℕ → List Bytes → List (ℕ × Bytes)
numbered n [] = []
numbered n (l ∷ ls) = (n, l) ∷ numbered (suc n) ls

unfoldable pub end_of : ℕ → List Bytes → ℕ
end_of start_line [] = start_line
end_of start_line (l ∷ ls) = (start_line + length (l ∷ ls)) - 1

-- `ReadFile`, behind its checks of the repository, the extension and the path
unfoldable pub read_file : Option (List Bytes) → ℕ → ℕ → Option ReadFileResponse
read_file none start_line max_lines = none
read_file (some file) start_line max_lines =
    let (lines, total) = read_file_range file start_line max_lines in
    some (record {
      total_lines = total;
      start_line = start_line;
      end_line = end_of start_line lines;
      content = numbered start_line lines;
    })

-- the handler of `readFileTool`
unfoldable pub handle_read_file : Option (List Bytes) → ℤ → ℤ → Option ReadFileResponse
handle_read_file file start_line max_lines =
    read_file file (clamp_int start_line 1 (max_read_lines * 1000))
      (clamp_int max_lines 1 max_read_lines)

-- `FormatReadFile` tells where to continue
unfoldable pub next_start : ReadFileResponse → Option ℕ
next_start r = if ltb r.end_line r.total_lines then some (r.end_line + 1) else none
