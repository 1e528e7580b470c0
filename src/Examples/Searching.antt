-- ===== src/Examples/Searching.antt =====
-- A search of two extensions, and stored results.
use veloria.Base.{
  ◌<◌, subst, sym, ◌+◌, ◌-◌, ◌*◌, ◌≤◌, ◌≡◌, inr, refl, true, false, none, some, List, [], ◌∷◌,
  Bytes, codes, arith,
}
use mathlib.Core.List.{Memᴰ}
use veloria.Grep.{Match}
use veloria.Search.{FileMatch}
use veloria.Search.Bounds.{count_matches}
use veloria.Store.{Extension, Store, has_index}
use veloria.Store.Search.{
  global_match_cap, started, searching, counted, finished, job, Search, slots, active, queue, start,
  launch, begin, count, publish, Reaches, begin_with, then_step, IsOver,
}
use veloria.Store.Search.Bound.{matches_of, search_bound}
use veloria.Store.Search.Complete.{hit}
use veloria.Store.Search.{answer, snapshot, sort_by_slug, indexed_extensions, insert_by_slug}
use veloria.Store.Search.Finds.{search_finds}
use veloria.Codec.{SearchResult, SearchResponse}
use veloria.Codec.Laws.{there, IsStorable}
use veloria.Registry.{Registry}
use veloria.Examples.Storing.{akismet, one_plugin}

abbrev one_line : Match
one_line = record { line = codes "eval"; line_number = 3; before = []; after = [] }

abbrev found : Extension → List FileMatch
found e = record { filename = codes "a.php"; matches = one_line ∷ [] } ∷ []

abbrev launched : Search
launched = record (start (akismet ∷ [])) { jobs = job akismet started ∷ [] }

abbrev searched : Search
searched = record launched { jobs = job akismet searching ∷ [] }

abbrev added : Search
added = record searched {
  jobs = job akismet counted ∷ [];
  total_matches = 0 + count_matches (found akismet);
}

abbrev over : Search
over = record added { jobs = job akismet finished ∷ []; results = hit found akismet ∷ [] }

over_reached : Reaches 2 found (start (akismet ∷ [])) over
unfolding start queue active slots count_matches
over_reached =
    then_step
      (then_step
        (then_step
          (then_step begin_with
            (launch [] [] akismet refl tt (omega arith) (omega arith) refl refl))
          (begin [] [] akismet refl (omega arith)))
        (count [] [] akismet refl (λ h. cc)))
      (publish [] [] akismet refl)

one_match : (e : Extension) → count_matches (found e) ≤ 1
unfolding count_matches
one_match e = omega arith

search_bound_example :
    (active over.jobs ≤ 2) × (matches_of over.results ≤ (global_match_cap - 1) + 1 * 2)
search_bound_example = search_bound 2 1 found one_match (akismet ∷ []) over_reached

over-IsOver : IsOver over
unfolding active slots start
over-IsOver = record { no_worker = refl; no_waiting = inr ((λ h. cc), tt) }

abbrev indexed_plugin : Store
indexed_plugin = record one_plugin { index_at = λ a. some 7 }

one_indexed : snapshot indexed_plugin ≡ akismet ∷ []
unfolding snapshot sort_by_slug indexed_extensions insert_by_slug has_index
one_indexed = refl

store_reached : Reaches 2 found (start (snapshot indexed_plugin)) over
store_reached = subst (λ es. Reaches 2 found (start es) over) (sym one_indexed) over_reached

over-answer : answer over ≡ some (hit found akismet ∷ [])
unfolding answer start
over-answer = refl

below_cap : over.total_matches < global_match_cap
unfolding start count_matches
below_cap = omega arith

akismet_indexed : has_index akismet indexed_plugin ≡ true
unfolding has_index
akismet_indexed = refl

search_finds_example : Memᴰ (hit found akismet) (hit found akismet ∷ [])
search_finds_example =
    search_finds found indexed_plugin (hit found akismet ∷ []) (codes "akismet") akismet
      store_reached over-IsOver over-answer below_cap (Memᴰ.head refl) akismet_indexed (λ h. cc)

abbrev pub identity : Bytes → Bytes
identity s = s

abbrev found_result : SearchResult
found_result = record {
  slug = codes "akismet";
  name = codes "Akismet";
  version = codes "5.3";
  active_installs = 5000000;
  downloaded = 7;
  matches =
      some
        (record { filename = codes "a.php"; matches = some one_line ∷ []; auto_generated = false })
      ∷ [];
  total_matches = 1;
}

abbrev pub stored : SearchResponse
stored = record { results = some found_result ∷ []; total = 12 }

pub stored-IsStorable : IsStorable identity identity stored
stored-IsStorable = record {
  results_storable = (
    there (record {
      slug_valid = refl;
      name_valid = refl;
      name_plain = refl;
      version_valid = refl;
      files_storable = (
        there (record {
          filename_valid = refl;
          matches_storable = (
            there (record {
              line_valid = refl;
              number_fits = omega arith;
              before_valid = tt;
              after_valid = tt;
            }),
            tt,
          );
        }),
        tt,
      );
      total_fits = omega arith;
    }),
    tt,
  );
  response_fits = omega arith;
}

abbrev no_storage : Registry
no_storage = record {
  db = some 1;
  sql_db = some 2;
  s3 = none;
  manager = some 3;
  tasks = none;
  api_client = none;
  session = none;
  auth_handler = none;
  mcp_handler = none;
  maintenance = false;
}
