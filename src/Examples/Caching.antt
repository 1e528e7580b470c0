-- ===== src/Examples/Caching.antt =====
-- Searches with a cache in front of their source.
use veloria.Base.{
  ℕ, ◌≡◌, refl, if◌then◌else◌, Bool, true, some, List, [], ◌∷◌, arith, Bytes, codes, bytes_eq,
}
use veloria.Base.Maps.{lookup}
use veloria.Manager.Search.{
  Query, Found, answered, SourceSearch, source_answer, response_of, recall, search,
}
use veloria.Manager.Search.Order.{Ranks, source_answer-Ranks}
use veloria.Manager.Search.Keys.{IsPlainQuery, with_colon, moved_colon}
use veloria.Manager.Search.Caching.{searches, answers, searches_uncached, search_confused}

abbrev installed : Bytes → ℕ → Found
installed slug n = record {
  slug = slug;
  name = slug;
  version = codes "1.0";
  active_installs = n;
  downloaded = 0;
  matches = [];
}

abbrev both : List Found
both = installed (codes "akismet") 5 ∷ installed (codes "jetpack") 9 ∷ []

source_answer-Ranks_example : Ranks (response_of both 7) both 7
source_answer-Ranks_example = source_answer-Ranks both 7 (unfold source_answer in refl)

abbrev source : SourceSearch
source q = some (both, 7)

abbrev every : Bytes → Bool
every k = true

abbrev eval_query : Query
eval_query = record {
  repo_type = codes "plugins";
  term = codes "eval";
  params = record {
    file_match = [];
    exclude_file_match = [];
    case_insensitive = true;
    lines_of_context = 2;
  };
}

eval_query-IsPlain : IsPlainQuery eval_query
eval_query-IsPlain = record {
  repo_type = omega arith;
  term = omega arith;
  file_match = tt;
  exclude_file_match = tt;
}

searches_uncached_example :
    searches every source ((eval_query, every) ∷ (eval_query, every) ∷ []) (some [])
    ≡ answers every source ((eval_query, every) ∷ (eval_query, every) ∷ [])
searches_uncached_example =
    searches_uncached every source ((eval_query, every) ∷ (eval_query, every) ∷ [])
      (eval_query-IsPlain, (eval_query-IsPlain, tt))

-- a source that finds nothing but for `a`
abbrev only_a : SourceSearch
only_a q = if bytes_eq q.term (codes "a") then some (both, 7) else some ([], 0)

search_confused_example :
    (search every only_a every
      (moved_colon (codes "plugins") (codes "a") (codes "php") [] 0)
      (search every only_a every
        (with_colon (codes "plugins") (codes "a") (codes "php") [] 0)
        (some [])).1).0
    ≡ answered (response_of both 7)
search_confused_example =
    search_confused every only_a every (codes "plugins") (codes "a") (codes "php") [] 0 [] refl refl
      (unfold bytes_eq in refl) (unfold recall lookup in refl)
