-- ===== src/Examples/Agents.antt =====
-- The tools for agents, on a file, a grep and a stored search.
use veloria.Base.{
  ◌≤◌, ◌≡◌, Bool, refl, true, false, some, List, [], ◌∷◌, Bytes, codes, arith, bytes_eq, length,
  take, suc,
}
use veloria.Base.Int.{pos}
use veloria.Codec.{search_response_to_proto}
use veloria.Mcp.ReadFile.{
  ReadFileResponse, first_line, line_count, end_of, read_file, read_file_range, range_loop,
  numbered, handle_read_file,
}
use veloria.Mcp.Tools.{clamp_int}
use veloria.Mcp.ReadFile.Laws.{read_pages, read_file_all, IsReachable, read_file-IsReachable}
use veloria.Mcp.GrepFile.{
  Entry, file, directory, GrepFileResponse, GrepLineMatch, grep_file, grep_walk, grep_single_file,
  max_grep_matches, add_matches, add_file, and_then,
}
use veloria.Mcp.GrepFile.Lines.{expected, grep_single_file-expected}
use veloria.Mcp.GrepFile.Cap.{matches_in, all_matches, grep_file_capped}
use veloria.Mcp.Persist.{
  Storage, Calls, tool_search, load_search, persist_search, store_results, upload, upload_outcome,
  create_row, find,
}
use veloria.Mcp.Persist.Laws.{IsBacked, load_search-persisted, persist_search-IsBacked}
use veloria.Examples.Searching.{identity, stored, stored-IsStorable}

abbrev three_lines : List Bytes
three_lines = codes "a" ∷ codes "eval" ∷ codes "c" ∷ []

read_file_all_example :
    read_pages three_lines 2 (suc (length three_lines)) (some 1) ≡ numbered 1 three_lines
read_file_all_example = read_file_all three_lines 2 (omega arith)

abbrev second_page : ReadFileResponse
second_page = record {
  total_lines = 3;
  start_line = 3;
  end_line = 3;
  content = (3, codes "c") ∷ [];
}

second_page_read : handle_read_file (some three_lines) (pos 3) (pos 2) ≡ some second_page
unfolding handle_read_file clamp_int read_file read_file_range range_loop first_line line_count
    end_of numbered
second_page_read = refl

read_file-IsReachable_example : IsReachable second_page
read_file-IsReachable_example =
    read_file-IsReachable three_lines (pos 3) (pos 2) second_page second_page_read

abbrev is_eval : Bytes → Bool
is_eval l = bytes_eq l (codes "eval")

grep_single_file-expected_example :
    grep_single_file is_eval 1 (some three_lines) ≡ some (expected is_eval 1 [] three_lines)
grep_single_file-expected_example = grep_single_file-expected is_eval 1 three_lines

abbrev eval_line : GrepLineMatch
eval_line = record {
  line = 2;
  content = codes "eval";
  before = codes "a" ∷ [];
  after = codes "c" ∷ [];
}

abbrev walked : List Entry
walked =
    directory
    ∷ file (codes "a.php") (some true) (some (eval_line ∷ []))
    ∷ file (codes "b.js") (some false) (some (eval_line ∷ []))
    ∷ []

abbrev grepped : GrepFileResponse
grepped = record {
  total_matches = 1;
  files = record { path = codes "a.php"; matches = eval_line ∷ [] } ∷ [];
}

walked-grepped : grep_file walked ≡ some grepped
unfolding grep_file grep_walk and_then add_file add_matches
walked-grepped = refl

grep_file_capped_example :
    (matches_in grepped ≡ take max_grep_matches (all_matches walked))
    × ((length (matches_in grepped) ≡ grepped.total_matches)
        × (grepped.total_matches ≤ max_grep_matches))
grep_file_capped_example = grep_file_capped walked grepped walked-grepped

abbrev all_succeed : Calls
all_succeed = record { available = true; creates = true; uploads = true; deletes = true }

abbrev no_upload : Calls
no_upload = record { available = true; creates = true; uploads = false; deletes = true }

abbrev no_searches : Storage
no_searches = record { rows = []; objects = []; next_id = 7 }

searched_stored : (tool_search identity all_succeed stored no_searches).0.1 ≡ some 7
unfolding tool_search persist_search store_results upload upload_outcome create_row
    search_response_to_proto
searched_stored = refl

load_search-persisted_example :
    load_search identity 7 (tool_search identity all_succeed stored no_searches).1
    ≡ (tool_search identity all_succeed stored no_searches).0.0
load_search-persisted_example =
    load_search-persisted identity identity all_succeed stored no_searches 7 stored-IsStorable
      searched_stored

no_searches-IsBacked : IsBacked no_searches
unfolding find
no_searches-IsBacked id h = absurd (cc h)

persist_search-IsBacked_example : IsBacked (persist_search identity no_upload stored no_searches).1
persist_search-IsBacked_example =
    persist_search-IsBacked identity no_upload stored no_searches refl no_searches-IsBacked
