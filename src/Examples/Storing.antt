-- ===== src/Examples/Storing.antt =====
-- Index tasks on a small store.
use veloria.Base.{
  Bool, All, ℕ, ◌≡◌, ◌≢◌, ◌↔◌, refl, true, not, ◌&&◌, Option, none, some, [], ◌∷◌, Bytes, codes,
  bytes_eq, if◌then◌else◌,
}
use veloria.Base.Maps.{lookup, erase}
use veloria.Store.{get, put, plugins, Extension, Store, has_index}
use veloria.Store.Updates.{
  seen_before, is_skipped, reuse, reuse_existing, ensure_indexed, allocate, prepared, list_prepared,
  prepare, prepare_updates,
}
use veloria.Store.Updates.Laws.{DistinctSlugs, IsListed, prepare_updates_tasks}
use veloria.Store.Updates.Handles.{HasPlace, prepare_updates-HasPlace}
use veloria.Store.Task.{
  Fetch, fetch_failed, not_found, skipped, fetch_index, first_attempt, run_task, conclude,
  on_failure, source_wordpress, wordpress_download_url, try_url, try_fallback, is_fallback,
  download_failed,
}
use veloria.Store.Task.Laws.{gone_for_good, run_task_closes, run_task_failure_keeps}

abbrev pub akismet : Extension
akismet = record {
  slug = codes "akismet";
  name = codes "Akismet";
  version = codes "5.3";
  source = source_wordpress;
  download_link = codes "https://mirror/akismet.zip";
  indexed = some 0;
}

abbrev pub one_plugin : Store
one_plugin = record {
  repo_type = plugins;
  entries = (codes "akismet", akismet) ∷ [];
  total = 1;
  index_at = λ a. none;
  next_indexed = 1;
  closing = [];
  closed = [];
  saved_stats = [];
  stats_cache = none;
  status_cache = none;
}

abbrev all_gone : ℕ → Bytes → Fetch
all_gone n url = fetch_failed not_found

abbrev no_open : Bytes → Option ℕ
no_open path = none

gone_is_skipped : (run_task all_gone no_open akismet one_plugin).0 ≡ some skipped
unfolding run_task conclude on_failure fetch_index first_attempt try_url try_fallback is_fallback
    bytes_eq download_failed wordpress_download_url
gone_is_skipped = refl

run_task_closes_example :
    ((run_task all_gone no_open akismet one_plugin).1.closed ≡ (
      if gone_for_good all_gone plugins akismet
      then (codes "akismet", source_wordpress) ∷ []
      else []))
    × (((run_task all_gone no_open akismet one_plugin).0 ≡ some skipped)
        ↔ (gone_for_good all_gone plugins akismet ≡ true))
run_task_closes_example = run_task_closes all_gone no_open akismet one_plugin

reports_an_error : (run_task all_gone no_open akismet one_plugin).0 ≢ none
reports_an_error e = cc gone_is_skipped

run_task_failure_keeps_example :
    ((run_task all_gone no_open akismet one_plugin).1.index_at ≡ one_plugin.index_at)
    × ((run_task all_gone no_open akismet one_plugin).1.entries ≡ (
        if gone_for_good all_gone plugins akismet && not (has_index akismet one_plugin)
        then erase (codes "akismet") one_plugin.entries
        else one_plugin.entries))
run_task_failure_keeps_example =
    run_task_failure_keeps all_gone no_open akismet one_plugin reports_an_error

-- the same plugin in a newer version, on a second page too
abbrev newer : Extension
newer = record akismet { version = codes "5.4"; indexed = none }

abbrev saves : Extension → Bool
saves e = true

abbrev listed_newer : Extension
listed_newer = record newer { indexed = some 0 }

one_task :
    (prepare_updates saves (some (newer ∷ newer ∷ [])) one_plugin).0 ≡ some (listed_newer ∷ [])
unfolding prepare_updates prepare is_skipped seen_before list_prepared prepared reuse_existing reuse
    ensure_indexed allocate get put lookup bytes_eq
one_task = refl

prepare_updates_tasks_example :
    DistinctSlugs (listed_newer ∷ [])
    × All
        (IsListed (prepare_updates saves (some (newer ∷ newer ∷ [])) one_plugin).1)
        (listed_newer ∷ [])
prepare_updates_tasks_example =
    prepare_updates_tasks saves (newer ∷ newer ∷ []) (listed_newer ∷ []) one_plugin one_task

akismet-HasPlace : HasPlace one_plugin (codes "akismet") 0
unfolding lookup bytes_eq
akismet-HasPlace = record { extension = akismet; listed = refl; place = refl }

prepare_updates-HasPlace_example :
    HasPlace (prepare_updates saves (some (newer ∷ newer ∷ [])) one_plugin).1 (codes "akismet") 0
prepare_updates-HasPlace_example =
    prepare_updates-HasPlace saves (some (newer ∷ newer ∷ [])) one_plugin (codes "akismet") 0
      akismet-HasPlace
