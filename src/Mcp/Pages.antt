-- ===== src/Mcp/Pages.antt =====
-- The pages of search results and of lists of extensions: internal/mcp/format.go, and `ListExtensions` of
-- internal/mcp/service.go. Text is bytes of UTF-8; the verb `%q` and the matching rows of the database,
-- in the order of the query, are parameters.
pub mod Text
pub mod Follow
pub mod Like
use veloria.Base.{
  ℕ, zero, suc, ◌+◌, ◌-◌, ◌*◌, Bool, true, false, Option, none, some, List, [], ◌∷◌, ◌++◌, length,
  take, drop, slice, min, ltb, leb, ◌==◌, if◌then◌else◌, Bytes, codes, bytes_eq, or_default, ◌||◌,
}
use veloria.Base.Int.{ℤ}
use veloria.Base.Maps.{lookup}
use veloria.Mcp.Persist.{MatchDetail, ExtensionResult, ToolResponse}
use veloria.Mcp.Tools.{clamp_int, is_valid_repo}

abbrev pub max_limit : ℕ
max_limit = 100

-- a match with its extension
pub record FlatMatch : Type 0 where
  pub slug : Bytes
  pub name : Bytes
  pub detail : MatchDetail

unfoldable pub flat_matches : Bytes → Bytes → List MatchDetail → List FlatMatch
flat_matches slug name [] = []
flat_matches slug name (m ∷ ms) =
    record { slug = slug; name = name; detail = m } ∷ flat_matches slug name ms

-- the matches of all extensions
unfoldable pub all_matches : List ExtensionResult → List FlatMatch
all_matches [] = []
all_matches (e ∷ es) = flat_matches e.slug e.name e.matches ++ all_matches es

-- What `FormatSearchMatches` shows: nothing at that offset, or the matches from the first to the last of
-- the page, and where the next page starts.
pub data MatchesPage : Type 0 where
  no_matches : ℕ → ℕ → MatchesPage
  matches_page : ℕ → ℕ → ℕ → List FlatMatch → Option ℕ → MatchesPage

unfoldable pub page_of : List FlatMatch → ℕ → ℕ → MatchesPage
page_of all offset limit =
    let total = length all in
    let end = min (offset + limit) total in
    if leb total offset
    then no_matches offset total
    else matches_page (offset + 1) end total (slice all offset end)
        (if ltb end total then some end else none)

unfoldable pub search_matches_page : ToolResponse → ℕ → ℕ → MatchesPage
search_matches_page resp offset limit = page_of (all_matches resp.extensions) offset limit

-- the page behind the handler's clamps
unfoldable pub clamped_page : ToolResponse → ℤ → ℤ → MatchesPage
clamped_page resp offset limit =
    search_matches_page resp (clamp_int offset 0 (max_limit * 1000)) (clamp_int limit 1 max_limit)

-- an `extensionRow`
pub record ExtensionRow : Type 0 where
  pub slug : Bytes
  pub name : Bytes
  pub version : Bytes

pub record ExtensionSummary : Type 0 where
  pub slug : Bytes
  pub name : Bytes
  pub version : Bytes
  pub indexed : Bool

pub record ListResponse : Type 0 where
  pub total : ℕ
  pub extensions : List ExtensionSummary

-- `indexStatus[row.Slug]`, with false for a missing key
unfoldable pub summary_of : List (Bytes × Bool) → ExtensionRow → ExtensionSummary
summary_of status row = record {
  slug = row.slug;
  name = row.name;
  version = row.version;
  indexed = or_default (lookup row.slug status) false;
}

unfoldable pub summaries : List (Bytes × Bool) → List ExtensionRow → List ExtensionSummary
summaries status [] = []
summaries status (r ∷ rs) = summary_of status r ∷ summaries status rs

-- The repository whose table is queried; an empty one stands for the plugins.
unfoldable pub table_of : Bytes → Bytes
table_of repo = if bytes_eq repo [] then codes "plugins" else repo

-- The database: the rows of a table that are not deleted and fit a search text, in the order of their
-- slugs, or `none` for an error. The query takes `limit` of them from `offset` on.
abbrev pub Rows : Type 0
Rows = Bytes → Bytes → Option (List ExtensionRow)

unfoldable pub list_rows :
    Option (List ExtensionRow) → List (Bytes × Bool) → ℕ → ℕ → Option ListResponse
list_rows none status offset limit = none
list_rows (some rows) status offset limit =
    some (record {
      total = length rows;
      extensions = summaries status (take limit (drop offset rows));
    })

-- `ListExtensions`; `escape` is `escapeLike`'s part in the pattern, which the database reads
unfoldable pub list_extensions :
    Rows → (Bytes → List (Bytes × Bool)) → Bytes → Bytes → ℕ → ℕ → Option ListResponse
list_extensions rows status repo search offset limit =
    if is_valid_repo (table_of repo)
    then list_rows (rows (table_of repo) search) (status repo) offset limit
    else none

-- where `FormatExtensionList` says that the next page starts
unfoldable pub next_offset : ListResponse → ℕ → Option ℕ
next_offset resp offset =
    let end = offset + length resp.extensions in
    elim resp.extensions [ [] ↦ none | x ∷ xs ↦ if ltb end resp.total then some end else none ]

-- `escapeLike`: strings.ReplaceAll for one character, by a backslash and the character
unfoldable pub replace_all : ℕ → Bytes → Bytes
replace_all c [] = []
replace_all c (b ∷ s) = let rest = replace_all c s in if b == c then 92 ∷ b ∷ rest else b ∷ rest

unfoldable pub escape_like : Bytes → Bytes
escape_like s = replace_all 95 (replace_all 37 (replace_all 92 s))
