-- ===== src/Examples/Updating.antt =====
-- The fetches of updates and full scans, on a short list of plugins.
use mathlib.Core.List.{flatten, Perm}
use veloria.Base.{
  ℕ, zero, suc, ◌≡◌, ◌≢◌, ◌≤◌, ◌-◌, refl, false, Option, none, some, List, [], ◌∷◌, arith, map,
  select, not, Bytes, codes,
}
use veloria.Base.Atoi.{atoi}
use veloria.Store.{Extension}
use veloria.Fetch.{
  Listed, Request, fetched, exhausted, default_source, prepare_theme, overlap, fetch_plugins_since,
  fetch_themes_since,
}
use veloria.Fetch.Paging.{IsBounded, fetch_since-ends}
use veloria.Fetch.Since.{is_recent, IsLatestFirst, page_response, Serves, fetch_since-recent}
use veloria.Fetch.Discover.{discover_new_plugins, discover_new_themes}
use veloria.Fetch.Discover.Laws.{scan_answer, discover-new}
use veloria.Fetch.Versions.{
  cores_to_index, is_version_indexed, compare_versions, compare_parts, compare_numbers,
  version_numbers, split_dots, add_front, number, lt_int, larger,
}
use veloria.Base.{◌↔◌, true}
use veloria.Fetch.Versions.Order.{IsAscending, IsIndexed}
use veloria.Fetch.Versions.Parts.{HasNumbers}
use veloria.Fetch.Versions.{version_numbers}
use veloria.Fetch.Versions.Laws.{cores_to_index-sorted}
use veloria.Examples.Storing.{akismet, one_plugin}

abbrev listed : Bytes → Listed
listed raw = record { extension = akismet; last_updated_raw = raw }

abbrev first_page : List Listed
first_page = listed (50 ∷ []) ∷ listed [] ∷ []

abbrev second_page : List Listed
second_page = listed (49 ∷ []) ∷ []

-- The API's answers by the number of the page.
abbrev api : Request
api zero = none
api (suc zero) = some (page_response 2 0 first_page)
api (suc (suc zero)) = some (page_response 2 1 second_page)
api (suc (suc (suc n))) = none

-- a time of one byte
abbrev parse : Bytes → Option ℕ
parse [] = none
parse (c ∷ s) = some c

api-IsBounded : IsBounded api 2
api-IsBounded zero r h = cc
api-IsBounded (suc zero) r h = ground arith
api-IsBounded (suc (suc zero)) r h = ground arith
api-IsBounded (suc (suc (suc n))) r h = cc

fetch_since-ends_example :
    (fetch_plugins_since 3 api parse 0 ≢ exhausted) × (fetch_themes_since 3 api parse 0 ≢ exhausted)
fetch_since-ends_example = fetch_since-ends api parse 0 2 api-IsBounded

api-Serves : Serves api 2 0 (first_page ∷ second_page ∷ [])
api-Serves = (refl, (λ h. cc), (refl, (λ h. cc), tt))

not_later : (t u a b : ℕ) → some t ≡ some a → some u ≡ some b → u ≤ t → b ≤ a
not_later t u a b h k l = ground arith

latest_first : IsLatestFirst parse (flatten (first_page ∷ second_page ∷ []))
unfolding flatten
latest_first = (
  ((λ t u h k. cc), ((λ t u h k. not_later 50 49 t u h k (omega arith)), tt)),
  (((λ t u h k. cc), tt), (tt, tt)),
)

fetch_since-recent_example :
    (fetch_plugins_since 2 api parse 7200000000050
      ≡ fetched (
          map default_source (
            select
              (is_recent parse (7200000000050 - overlap))
              (flatten (first_page ∷ second_page ∷ [])))))
    × (fetch_themes_since 2 api parse 7200000000050
        ≡ fetched (
            map prepare_theme (
              select
                (is_recent parse (7200000000050 - overlap))
                (flatten (first_page ∷ second_page ∷ [])))))
fetch_since-recent_example =
    fetch_since-recent api parse 7200000000050 first_page (second_page ∷ []) api-Serves latest_first

discover-new_example :
    (discover_new_plugins 2 api (λ k. false) (codes "jetpack" ∷ [])
      ≡ scan_answer default_source (codes "jetpack" ∷ []) (flatten (first_page ∷ second_page ∷ [])))
    × (discover_new_themes 2 api (λ k. false) (codes "jetpack" ∷ [])
        ≡ scan_answer prepare_theme
            (codes "jetpack" ∷ [])
            (flatten (first_page ∷ second_page ∷ [])))
discover-new_example =
    discover-new api (λ k. false) (codes "jetpack" ∷ []) first_page (second_page ∷ []) (λ j. refl)
      api-Serves

abbrev releases : List Extension
releases =
    record akismet { version = codes "6.10" } ∷ record akismet { version = codes "6.9.1" } ∷ []

ten_is_larger : compare_versions (codes "6.10") (codes "6.9.1") ≡ larger
unfolding compare_versions compare_parts compare_numbers version_numbers split_dots add_front number
    lt_int atoi
ten_is_larger = refl

cores_to_index-sorted_example :
    Perm
      (cores_to_index releases one_plugin)
      (select (λ c. not (is_version_indexed c.version one_plugin)) releases)
    × ((version : Bytes)
        → (is_version_indexed version one_plugin ≡ true) ↔ IsIndexed version one_plugin)
    × IsAscending (cores_to_index releases one_plugin)
    × ((version : Bytes) → HasNumbers version (version_numbers version))
cores_to_index-sorted_example = cores_to_index-sorted releases one_plugin
