-- ===== src/Mcp/Handlers.antt =====
-- The handlers of internal/mcp/tools.go for searches, lists of extensions and greps. The service is a
-- record of functions, whose errors are texts; a request holds the values that its getters return,
-- defaults included. The verb `%q` is a parameter.
pub mod Bounds
use veloria.Base.{
  ℕ, ◌+◌, ◌*◌, Bool, true, false, ◌&&◌, ◌||◌, not, Option, none, some, List, [], ◌∷◌, ◌++◌, length,
  leb, ltb, ◌==◌, if◌then◌else◌, Bytes, codes, bytes_eq, ◌⊎◌, inl, inr,
}
use veloria.Base.Decimal.{decimal}
use veloria.Base.Int.{ℤ}
use veloria.Mcp.Tools.{clamp_int, is_valid_repo}
use veloria.Mcp.Persist.{ToolResponse}
use veloria.Mcp.GrepFile.{GrepLineMatch, GrepFileMatch, GrepFileResponse, max_grep_matches}
use veloria.Mcp.Pages.{ListResponse, max_limit}
use veloria.Mcp.Pages.Text.{
  format_search_matches, format_search_summary, format_extension_list, marked_lines,
}

abbrev pub max_context : ℕ
max_context = 5

pub record SearchParams : Type 0 where
  pub query : Bytes
  pub repo : Bytes
  pub file_match : Bytes
  pub exclude_file_match : Bytes
  pub case_sensitive : Bool
  pub context_lines : ℕ
  pub limit : ℕ
  pub offset : ℕ

pub record ListParams : Type 0 where
  pub repo : Bytes
  pub search : Bytes
  pub limit : ℕ
  pub offset : ℕ

pub record GrepFileParams : Type 0 where
  pub repo : Bytes
  pub slug : Bytes
  pub query : Bytes
  pub file_match : Bytes
  pub case_sensitive : Bool
  pub context_lines : ℕ

-- the part of `SearchService` that these handlers call
pub record Service : Type 0 where
  pub search : SearchParams → Bytes ⊎ (Bytes × ToolResponse)
  pub load_search : Bytes → Bytes ⊎ ToolResponse
  pub list_extensions : ListParams → Option ListResponse
  pub grep_file : GrepFileParams → Bytes ⊎ GrepFileResponse

-- a `CallToolResult`
pub data Reply : Type 0 where
  error_reply text_reply : Bytes → Reply

-- the arguments of a request of `search_code`
pub record SearchRequest : Type 0 where
  pub query : Bytes
  pub repo : Bytes
  pub search_id : Bytes
  pub file_match : Bytes
  pub exclude_file_match : Bytes
  pub case_sensitive : Bool
  pub context_lines : ℤ
  pub limit : ℤ
  pub offset : ℤ

unfoldable pub limit_of : ℤ → ℕ
limit_of n = clamp_int n 1 max_limit

unfoldable pub offset_of : ℤ → ℕ
offset_of n = clamp_int n 0 (max_limit * 1000)

unfoldable pub context_of : ℤ → ℕ
context_of n = clamp_int n 0 max_context

unfoldable pub loaded_reply : Bytes ⊎ ToolResponse → ℕ → ℕ → Reply
loaded_reply (inl e) offset limit = error_reply (codes "failed to load search: " ++ e)
loaded_reply (inr resp) offset limit = text_reply (format_search_matches resp offset limit)

unfoldable pub searched_reply :
    (Bytes → Bytes) → Bytes → Bytes → Bytes ⊎ (Bytes × ToolResponse) → ℕ → ℕ → Reply
searched_reply quote query repo (inl e) offset limit = error_reply (codes "search failed: " ++ e)
searched_reply quote query repo (inr (id, resp)) offset limit = text_reply (
    if offset == 0
    then format_search_summary quote resp id query repo
    else format_search_matches resp offset limit)

unfoldable pub search_params : SearchRequest → SearchParams
search_params r = record {
  query = r.query;
  repo = r.repo;
  file_match = r.file_match;
  exclude_file_match = r.exclude_file_match;
  case_sensitive = r.case_sensitive;
  context_lines = context_of r.context_lines;
  limit = limit_of r.limit;
  offset = offset_of r.offset;
}

unfoldable pub repo_error : Reply
repo_error = error_reply (codes "repo must be one of: plugins, themes, cores")

-- `handleSearchCode`
unfoldable pub handle_search_code : (Bytes → Bytes) → Service → SearchRequest → Reply
handle_search_code quote svc r =
    if not (bytes_eq r.search_id [])
    then loaded_reply (svc.load_search r.search_id) (offset_of r.offset) (limit_of r.limit)
    else if bytes_eq r.query []
    then error_reply (codes "query is required")
    else if not (is_valid_repo r.repo)
    then repo_error
    else searched_reply quote r.query r.repo (svc.search (search_params r)) (offset_of r.offset)
        (limit_of r.limit)

-- the arguments of a request of `list_extensions`
pub record ListRequest : Type 0 where
  pub repo : Bytes
  pub search : Bytes
  pub limit : ℤ
  pub offset : ℤ

unfoldable pub list_params : ListRequest → ListParams
list_params r = record {
  repo = r.repo;
  search = r.search;
  limit = limit_of r.limit;
  offset = offset_of r.offset;
}

unfoldable pub listed_reply : Option ListResponse → Bytes → ℕ → Reply
listed_reply none repo offset = error_reply (codes "failed to list extensions, please try again")
listed_reply (some resp) repo offset = text_reply (format_extension_list resp repo offset)

-- `handleListExtensions`
unfoldable pub handle_list_extensions : Service → ListRequest → Reply
handle_list_extensions svc r =
    if not (is_valid_repo r.repo)
    then repo_error
    else listed_reply (svc.list_extensions (list_params r)) r.repo (offset_of r.offset)

-- the arguments of a request of `grep_file`
pub record GrepRequest : Type 0 where
  pub repo : Bytes
  pub slug : Bytes
  pub query : Bytes
  pub file_match : Bytes
  pub case_sensitive : Bool
  pub context_lines : ℤ

unfoldable pub grep_params : GrepRequest → GrepFileParams
grep_params r = record {
  repo = r.repo;
  slug = r.slug;
  query = r.query;
  file_match = r.file_match;
  case_sensitive = r.case_sensitive;
  context_lines = context_of r.context_lines;
}

unfoldable pub grep_lines_text : List GrepLineMatch → Bytes
grep_lines_text [] = []
grep_lines_text (m ∷ ms) =
    marked_lines m.before
    ++ (codes "  > "
        ++ (decimal m.line
            ++ (codes ": "
                ++ (m.content ++ (10 ∷ (marked_lines m.after ++ (10 ∷ grep_lines_text ms)))))))

unfoldable pub grep_files_text : List GrepFileMatch → Bytes
grep_files_text [] = []
grep_files_text (f ∷ fs) =
    (226 ∷ 128 ∷ 148 ∷ [])
    ++ (codes " "
        ++ (f.path
            ++ (codes " ("
                ++ (decimal (length f.matches)
                    ++ (codes " matches)"
                        ++ (10 ∷ (grep_lines_text f.matches ++ grep_files_text fs)))))))

unfoldable pub cap_text : ℕ → Bytes
cap_text n =
    if leb max_grep_matches n
    then codes "Results capped at 1,000 matches. "
      ++ (codes "Narrow your search with file_match or a more specific query." ++ 10 ∷ [])
    else []

unfoldable pub grep_body : List GrepFileMatch → ℕ → Bytes
grep_body [] total = []
grep_body (f ∷ fs) total = 10 ∷ (grep_files_text (f ∷ fs) ++ cap_text total)

-- `FormatGrepFile`, whose response repeats the repository, the slug and the query
unfoldable pub format_grep_file : (Bytes → Bytes) → GrepFileParams → GrepFileResponse → Bytes
format_grep_file quote p resp =
    p.repo
    ++ (codes "/"
        ++ (p.slug
            ++ (codes " "
                ++ ((226 ∷ 128 ∷ 148 ∷ [])
                    ++ (codes " grep "
                        ++ (quote p.query
                            ++ (10
                                ∷ (decimal resp.total_matches
                                    ++ (codes " matches across "
                                        ++ (decimal (length resp.files)
                                            ++ (codes " files"
                                                ++ (10
                                                    ∷ grep_body resp.files
                                                        resp.total_matches))))))))))))

unfoldable pub grep_reply : (Bytes → Bytes) → GrepFileParams → Bytes ⊎ GrepFileResponse → Reply
grep_reply quote p (inl e) = error_reply e
grep_reply quote p (inr resp) = text_reply (format_grep_file quote p resp)

-- `handleGrepFile`
unfoldable pub handle_grep_file : (Bytes → Bytes) → Service → GrepRequest → Reply
handle_grep_file quote svc r =
    if bytes_eq r.repo [] || (bytes_eq r.slug [] || bytes_eq r.query [])
    then error_reply (codes "repo, slug, and query are required")
    else if not (is_valid_repo r.repo)
    then repo_error
    else grep_reply quote (grep_params r) (svc.grep_file (grep_params r))
