-- ===== src/Examples/Loading.antt =====
-- The loading of indexes and the extensions that are resumed, on a small store.
use mathlib.Core.List.{Mem}
use veloria.Base.{
  ℕ, ◌≡◌, refl, Bool, true, false, Option, some, List, [], ◌∷◌, arith, All, if◌then◌else◌, Bytes,
  codes, bytes_eq, bytes_eq_iff,
}
use veloria.Base.Atoi.{all_digits, atoi}
use veloria.Base.Maps.{lookup, insert, Distinct}
use veloria.Base.Exchange.{exchange_sort}
use veloria.Store.{Extension, update_index, swap_index}
use veloria.Store.Load.{
  parse_name, split_name, stamped, is_timestamp_suffix, cut_last_dot, add_dir, group_dirs, newer,
  try_open, install, load_group, load_groups, load_indexes,
}
use veloria.Store.Load.Newest.{infos_of}
use veloria.Store.Load.Places.{IsAlone, Loaded, load_indexes-Loaded}
use veloria.Store.Load.Removals.{IsSuperseded, load_indexes-IsSuperseded}
use veloria.Store.Resume.{resume_unindexed}
use veloria.Store.Resume.Wanted.{IsWanted}
use veloria.Base.{◌⊎◌}
use veloria.Store.Resume.Unindexed.{IsApart, IsListed}
use veloria.Store.Resume.Laws.{resume_unindexed-IsListed}
use veloria.Store.Updates.Handles.{HasPlace}
use veloria.Examples.Storing.{akismet, one_plugin}

abbrev slug : Bytes
slug = codes "akismet"

-- the directory that the indexer writes, and one with a timestamp
abbrev dirs : List (Bytes × Bool)
dirs = (slug, true) ∷ (codes "akismet.1700000000", true) ∷ (codes "notes.txt", false) ∷ []

abbrev opens : Bytes → Option ℕ
opens path = if bytes_eq path slug then some 1 else some 2

akismet-HasPlace : HasPlace one_plugin slug 0
unfolding lookup bytes_eq
akismet-HasPlace = record { extension = akismet; listed = refl; place = refl }

akismet-IsAlone : IsAlone slug 0 one_plugin.entries
unfolding lookup
akismet-IsAlone k e h i = ground (arith, bytes_eq_iff slug k, h)

load_indexes-Loaded_example :
    Loaded opens
      (infos_of slug dirs)
      (one_plugin.index_at 0)
      ((load_indexes opens (some dirs) one_plugin).0.index_at 0)
load_indexes-Loaded_example =
    load_indexes-Loaded opens dirs one_plugin slug 0 akismet-HasPlace akismet-IsAlone

load_indexes-IsSuperseded_example :
    All (IsSuperseded opens dirs) (load_indexes opens (some dirs) one_plugin).1
load_indexes-IsSuperseded_example = load_indexes-IsSuperseded opens dirs one_plugin

-- The directory with a timestamp is loaded, though the indexer writes the other one.
legacy_wins : (load_indexes opens (some dirs) one_plugin).0.index_at 0 ≡ some 2
unfolding load_indexes load_groups load_group install group_dirs add_dir parse_name split_name
    stamped is_timestamp_suffix cut_last_dot all_digits atoi lookup insert bytes_eq exchange_sort
    newer try_open update_index swap_index
legacy_wins = refl

resume_unindexed-IsListed_example :
    IsApart (resume_unindexed [] (slug ∷ []) one_plugin)
    × All (IsListed one_plugin) (resume_unindexed [] (slug ∷ []) one_plugin)
    × All
        (λ e. IsWanted [] one_plugin e ⊎ Mem e.slug (slug ∷ []))
        (resume_unindexed [] (slug ∷ []) one_plugin)
    × ((k : Bytes) (e : Extension)
        → lookup k one_plugin.entries ≡ some e
        → IsWanted [] one_plugin e
        → Mem e (resume_unindexed [] (slug ∷ []) one_plugin))
resume_unindexed-IsListed_example =
    resume_unindexed-IsListed [] one_plugin (slug ∷ []) one_plugin-Distinct (refl, tt)
  where
    one_plugin-Distinct : Distinct one_plugin.entries
    one_plugin-Distinct = (unfold lookup in refl, tt)
