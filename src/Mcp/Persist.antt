-- ===== src/Mcp/Persist.antt =====
-- Searches of agents that are stored and loaded again: `Search`, `persistSearch`, `LoadSearch` and
-- `convertManagerResponse` of internal/mcp/service.go. The database's rows and the object store are the
-- state; which of their calls fail is a parameter.
pub mod Laws
use veloria.Base.{
  ℕ, zero, suc, ◌+◌, Bool, true, false, ◌&&◌, Option, none, some, List, [], ◌∷◌, ◌++◌, length,
  or_default, ◌==◌, if◌then◌else◌, Bytes, codes, cut_after,
}
use veloria.Grep.{Match}
use veloria.Codec.{
  FileMatch, SearchResult, SearchResponse, search_response_to_proto, search_response_from_proto,
}

pub record MatchDetail : Type 0 where
  pub file : Bytes
  pub line : ℕ
  pub content : Bytes
  pub before : List Bytes
  pub after : List Bytes

pub record ExtensionResult : Type 0 where
  pub slug : Bytes
  pub name : Bytes
  pub version : Bytes
  pub active_installs : ℕ
  pub total_matches : ℕ
  pub matches : List MatchDetail

pub record ToolResponse : Type 0 where
  pub total_matches : ℕ
  pub total_extensions : ℕ
  pub extensions : List ExtensionResult

-- The elements behind the pointers of a slice; `none` is the panic on a nil one.
unfoldable pub all_there {ℓ} : {A : Type ℓ} → List (Option A) → Option (List A)
all_there [] = some []
all_there (none ∷ xs) = none
all_there (some x ∷ xs) = elim (all_there xs) [ none ↦ none | some ys ↦ some (x ∷ ys) ]

-- the name behind the slug's prefix
unfoldable pub strip_slug : Bytes → Bytes
unfolding cut_after
strip_slug filename = or_default (cut_after (codes "/") filename) filename

unfoldable pub line_details : Bytes → List Match → List MatchDetail
line_details filename [] = []
line_details filename (m ∷ ms) =
    record {
      file = filename;
      line = m.line_number;
      content = m.line;
      before = m.before;
      after = m.after;
    }
    ∷ line_details filename ms

-- the matches of the files
unfoldable pub file_details : List FileMatch → Option (List MatchDetail)
file_details [] = some []
file_details (fm ∷ fms) = elim (all_there fm.matches) [
  | none ↦ none
  | some ms ↦ elim (file_details fms) [
    | none ↦ none
    | some rest ↦ some (line_details (strip_slug fm.filename) ms ++ rest)
  ]
]

unfoldable pub extension_result : SearchResult → List MatchDetail → ExtensionResult
extension_result r details = record {
  slug = r.slug;
  name = r.name;
  version = r.version;
  active_installs = r.active_installs;
  total_matches = r.total_matches;
  matches = details;
}

unfoldable pub convert_result : SearchResult → Option ExtensionResult
convert_result r = elim (all_there r.matches) [
  | none ↦ none
  | some fms ↦ elim (file_details fms) [
    | none ↦ none
    | some details ↦ some (extension_result r details)
  ]
]

unfoldable pub convert_results : List SearchResult → Option (List ExtensionResult)
convert_results [] = some []
convert_results (r ∷ rs) = elim (convert_result r) [
  | none ↦ none
  | some e ↦ elim (convert_results rs) [ none ↦ none | some es ↦ some (e ∷ es) ]
]

unfoldable pub total_of : List SearchResult → ℕ
total_of [] = 0
total_of (r ∷ rs) = r.total_matches + total_of rs

-- `convertManagerResponse`
unfoldable pub convert_manager_response : SearchResponse → Option ToolResponse
convert_manager_response resp = elim (all_there resp.results) [
  | none ↦ none
  | some rs ↦ elim (convert_results rs) [
    | none ↦ none
    | some es ↦
        some (record { total_matches = total_of rs; total_extensions = length rs; extensions = es })
  ]
]

-- a row of the table `searches`, as far as a load reads it
pub data SearchStatus : Type 0 where
  queued processing completed failed : SearchStatus

-- The rows and the stored messages by their ids; the database makes a new id for a row.
pub record Storage : Type 0 where
  pub rows : List (ℕ × SearchStatus)
  pub objects : List (ℕ × SearchResponse)
  pub next_id : ℕ

unfoldable pub find {ℓ} : {V : Type ℓ} → ℕ → List (ℕ × V) → Option V
find id [] = none
find id ((k, v) ∷ m) = if k == id then some v else find id m

unfoldable pub remove {ℓ} : {V : Type ℓ} → ℕ → List (ℕ × V) → List (ℕ × V)
remove id [] = []
remove id ((k, v) ∷ m) = let rest = remove id m in if k == id then rest else (k, v) ∷ rest

-- which calls succeed: the database and the object store are there, the row is created, the upload,
-- the removal of the row
pub record Calls : Type 0 where
  pub available : Bool
  pub creates : Bool
  pub uploads : Bool
  pub deletes : Bool

-- the row's creation, which is completed from the start
unfoldable pub create_row : Storage → Storage
create_row s = record s { rows = (s.next_id, completed) ∷ s.rows; next_id = suc s.next_id }

-- the removal of the row of a failed upload
unfoldable pub clean_up : Bool → ℕ → Storage → Storage
clean_up true id s = record s { rows = remove id s.rows }
clean_up false id s = s

unfoldable pub upload_outcome : Bool → Bool → ℕ → SearchResponse → Storage → Option ℕ × Storage
upload_outcome true deletes id message s =
    (some id, record s { objects = (id, message) ∷ s.objects })
upload_outcome false deletes id message s = (none, clean_up deletes id s)

unfoldable pub upload : Calls → ℕ → Option SearchResponse → Storage → Option ℕ × Storage
upload c id none s = (none, clean_up c.deletes id s)
upload c id (some message) s = upload_outcome c.uploads c.deletes id message s

-- behind the creation of the row, if it succeeds
unfoldable pub store_results :
    Bool → (Bytes → Bytes) → Calls → SearchResponse → Storage → Option ℕ × Storage
store_results false valid c results s = (none, s)
store_results true valid c results s =
    upload c s.next_id (search_response_to_proto valid (some results)) (create_row s)

-- `persistSearch`
unfoldable pub persist_search :
    (Bytes → Bytes) → Calls → SearchResponse → Storage → Option ℕ × Storage
persist_search valid c results s = store_results (c.available && c.creates) valid c results s

-- the answer of `Search` behind a search that succeeds: the id is empty if nothing was stored
unfoldable pub tool_search :
    (Bytes → Bytes) → Calls → SearchResponse → Storage → (Option ToolResponse × Option ℕ) × Storage
tool_search valid c results s =
    let (id, t) = persist_search valid c results s in ((convert_manager_response results, id), t)

unfoldable pub load_response : Option SearchResponse → Option ToolResponse
load_response none = none
load_response (some resp) = convert_manager_response resp

unfoldable pub load_object : (Bytes → Bytes) → Option SearchResponse → Option ToolResponse
load_object unescape message = load_response (search_response_from_proto unescape message)

-- a missing object is an error
unfoldable pub load_found : (Bytes → Bytes) → Option SearchResponse → Option ToolResponse
load_found unescape none = none
load_found unescape (some message) = load_object unescape (some message)

unfoldable pub load_row : (Bytes → Bytes) → ℕ → Option SearchStatus → Storage → Option ToolResponse
load_row unescape id (some completed) s = load_found unescape (find id s.objects)
load_row unescape id (some queued) s = none
load_row unescape id (some processing) s = none
load_row unescape id (some failed) s = none
load_row unescape id none s = none

-- `LoadSearch`, behind the parse of the id and with calls that succeed
unfoldable pub load_search : (Bytes → Bytes) → ℕ → Storage → Option ToolResponse
load_search unescape id s = load_row unescape id (find id s.rows) s
