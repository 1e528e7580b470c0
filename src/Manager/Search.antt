-- ===== src/Manager/Search.antt =====
-- `Search` of internal/manager/manager.go with its cache. The search of a source is a parameter
-- (internal/repo's `Search`), and so is which entries of the cache are still held.
pub mod Order
pub mod Keys
pub mod Caching
use veloria.Base.{
  ℕ, zero, suc, ◌+◌, Bool, true, false, ◌&&◌, ◌||◌, not, Option, none, some, List, [], ◌∷◌, ◌++◌,
  map, length, ltb, ◌==◌, if◌then◌else◌, Bytes, codes, bytes_eq, bytes_lt,
}
use veloria.Base.Decimal.{decimal}
use veloria.Base.Maps.{lookup, insert}
use veloria.Grep.{Match}
use veloria.Codec.{FileMatch, SearchResult, SearchResponse}

-- `SearchParams` without the progress function
pub record SearchParams : Type 0 where
  pub file_match : Bytes
  pub exclude_file_match : Bytes
  pub case_insensitive : Bool
  pub lines_of_context : ℕ

-- the arguments of a search; nil parameters are the empty ones
pub record Query : Type 0 where
  pub repo_type : Bytes
  pub term : Bytes
  pub params : SearchParams

-- a `repo.SearchResult`: what the getters of its extension return, and the matches
pub record Found : Type 0 where
  pub slug : Bytes
  pub name : Bytes
  pub version : Bytes
  pub active_installs : ℕ
  pub downloaded : ℕ
  pub matches : List FileMatch

-- the verb `%v` on a bool
unfoldable pub bool_text : Bool → Bytes
bool_text true = codes "true"
bool_text false = codes "false"

-- a part of the key, with the colon and the parts behind it
abbrev pub part : Bytes → Bytes → Bytes
part s rest = s ++ 58 ∷ rest

-- `searchCacheKey`
unfoldable pub search_cache_key : Query → Bytes
search_cache_key q = part (codes "search") (
    part q.repo_type (
      part q.term (
        part (bool_text q.params.case_insensitive) (
          part q.params.file_match
            (part q.params.exclude_file_match (decimal q.params.lines_of_context))))))

-- `countMatches`
unfoldable pub count_matches : List FileMatch → ℕ
count_matches [] = 0
count_matches (fm ∷ fms) = length fm.matches + count_matches fms

-- the `SearchResult` that the loop appends
unfoldable pub result_of : Found → SearchResult
result_of r = record {
  slug = r.slug;
  name = r.name;
  version = r.version;
  active_installs = r.active_installs;
  downloaded = r.downloaded;
  matches = map some r.matches;
  total_matches = count_matches r.matches;
}

-- the comparison that is handed to `sort.Slice`
unfoldable pub less : SearchResult → SearchResult → Bool
less a b =
    if a.active_installs == b.active_installs
    then bytes_lt a.slug b.slug
    else ltb b.active_installs a.active_installs

-- package sort's `Slice`, which leaves the order of equal elements open
unfoldable pub insert_sorted : SearchResult → List SearchResult → List SearchResult
insert_sorted a [] = a ∷ []
insert_sorted a (b ∷ bs) = if less b a then b ∷ insert_sorted a bs else a ∷ (b ∷ bs)

unfoldable pub sort_results : List SearchResult → List SearchResult
sort_results [] = []
sort_results (a ∷ bs) = insert_sorted a (sort_results bs)

-- the response that a search of a source makes
unfoldable pub response_of : List Found → ℕ → SearchResponse
response_of found total = record {
  results = map some (sort_results (map result_of found));
  total = total;
}

pub data Answer : Type 0 where
  unknown_type source_failed : Answer
  answered : SearchResponse → Answer

-- the answer of a source: `none` for its error
abbrev pub SourceSearch : Type 0
SourceSearch = Query → Option (List Found × ℕ)

unfoldable pub source_answer : Option (List Found × ℕ) → Answer
source_answer none = source_failed
source_answer (some (found, total)) = answered (response_of found total)

-- `cache.Set` of an answer, if there is a cache
unfoldable pub remember :
    Bytes → Answer → Option (List (Bytes × SearchResponse)) → Option (List (Bytes × SearchResponse))
remember key (answered resp) (some m) = some (insert key resp m)
remember key (answered resp) none = none
remember key unknown_type c = c
remember key source_failed c = c

-- `cache.Get`, if there is a cache and it still holds the entry
unfoldable pub recall :
    (Bytes → Bool) → Bytes → Option (List (Bytes × SearchResponse)) → Option SearchResponse
recall holds key none = none
recall holds key (some m) = if holds key then lookup key m else none

-- behind the look at the cache
unfoldable pub search_source :
    SourceSearch
    → Query
    → Option SearchResponse
    → Option (List (Bytes × SearchResponse))
    → Answer × Option (List (Bytes × SearchResponse))
search_source run q (some resp) c = (answered resp, c)
search_source run q none c = let a = source_answer (run q) in (a, remember (search_cache_key q) a c)

-- `Search`
unfoldable pub search :
    (Bytes → Bool)
    → SourceSearch
    → (Bytes → Bool)
    → Query
    → Option (List (Bytes × SearchResponse))
    → Answer × Option (List (Bytes × SearchResponse))
search has_source run holds q c =
    if has_source q.repo_type
    then search_source run q (recall holds (search_cache_key q) c) c
    else (unknown_type, c)
