-- ===== src/Codec.antt =====
-- The stored form of search results: internal/search/model/codec.go. A message has the fields of its
-- struct, an entry of a slice may be nil, and the generated getters are the fields. Package strings'
-- `ToValidUTF8` and package html's `UnescapeString` are parameters.
pub mod Laws
use veloria.Base.{ℕ, ◌≡◌, Bool, Option, none, some, List, [], ◌∷◌, map, Bytes, min}
use veloria.Grep.{Match}

-- `math.MaxInt32`
abbrev pub max_int32 : ℕ
max_int32 = 2147483647

pub record FileMatch : Type 0 where
  pub filename : Bytes
  pub matches : List (Option Match)
  pub auto_generated : Bool

pub record SearchResult : Type 0 where
  pub slug : Bytes
  pub name : Bytes
  pub version : Bytes
  pub active_installs : ℕ
  pub downloaded : ℕ
  pub matches : List (Option FileMatch)
  pub total_matches : ℕ

pub record SearchResponse : Type 0 where
  pub results : List (Option SearchResult)
  pub total : ℕ

-- the loop of each conversion of a slice: nil entries are left out
unfoldable pub convert_all : {A : Type 0} → (A → A) → List (Option A) → List (Option A)
convert_all f [] = []
convert_all f (none ∷ xs) = convert_all f xs
convert_all f (some x ∷ xs) = some (f x) ∷ convert_all f xs

module _ (valid : Bytes → Bytes) where
  unfoldable pub valid_utf8_slice : List Bytes → List Bytes
  valid_utf8_slice ss = map valid ss

  unfoldable pub match_to_proto : Match → Match
  match_to_proto m = record {
    line = valid m.line;
    line_number = min m.line_number max_int32;
    before = valid_utf8_slice m.before;
    after = valid_utf8_slice m.after;
  }

  unfoldable pub file_match_to_proto : FileMatch → FileMatch
  file_match_to_proto m = record {
    filename = valid m.filename;
    matches = convert_all match_to_proto m.matches;
    auto_generated = m.auto_generated;
  }

  unfoldable pub search_result_to_proto : SearchResult → SearchResult
  search_result_to_proto r = record {
    slug = valid r.slug;
    name = valid r.name;
    version = valid r.version;
    active_installs = r.active_installs;
    downloaded = r.downloaded;
    matches = convert_all file_match_to_proto r.matches;
    total_matches = min r.total_matches max_int32;
  }

  unfoldable pub search_response_to_proto : Option SearchResponse → Option SearchResponse
  search_response_to_proto none = none
  search_response_to_proto (some resp) = some (record {
    results = convert_all search_result_to_proto resp.results;
    total = min resp.total max_int32;
  })

unfoldable pub match_from_proto : Match → Match
match_from_proto m = record {
  line = m.line;
  line_number = m.line_number;
  before = m.before;
  after = m.after;
}

unfoldable pub file_match_from_proto : FileMatch → FileMatch
file_match_from_proto m = record {
  filename = m.filename;
  matches = convert_all match_from_proto m.matches;
  auto_generated = m.auto_generated;
}

module _ (unescape : Bytes → Bytes) where
  unfoldable pub search_result_from_proto : SearchResult → SearchResult
  search_result_from_proto r = record {
    slug = r.slug;
    name = unescape r.name;
    version = r.version;
    active_installs = r.active_installs;
    downloaded = r.downloaded;
    matches = convert_all file_match_from_proto r.matches;
    total_matches = r.total_matches;
  }

  unfoldable pub search_response_from_proto : Option SearchResponse → Option SearchResponse
  search_response_from_proto none = none
  search_response_from_proto (some resp) =
      some
        (record { results = convert_all search_result_from_proto resp.results; total = resp.total })
