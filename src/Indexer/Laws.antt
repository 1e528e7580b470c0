-- ===== src/Indexer/Laws.antt =====
-- What a run of the index command leaves behind.
use veloria.Base.{◌≡◌, refl, Bool, true, none, some, if◌then◌else◌, arith}
use veloria.Indexer.{
  Disk, Calls, move, clean_up, clean_up_index, place_index, place_staging, swap, build_index, unzip,
  stage, run,
}

-- What a run from `d` gives: the release, as sources and as index, with nothing staged; or an error and
-- both as before.
pub record Gives (c : Calls) (d : Disk) (r : Bool × Disk) : Type 0 where
  pub gives_source : r.1.source ≡ (if r.0 then some c.release else d.source)
  pub leaves_none : (if r.0 then r.1.staging else none) ≡ none
  pub gives_index : r.1.index ≡ (if r.0 then some c.release else d.index)

swap-Gives :
    (c : Calls) (d : Disk)
    → c.clears_old ≡ true
    → c.restores ≡ true
    → c.moves_index ≡ true
    → d.staging ≡ some c.release
    → d.temporary ≡ some c.release
    → Gives c d (swap c d)
unfolding swap place_staging move place_index clean_up_index clean_up
swap-Gives c d h1 h2 h3 h4 h5 = record {
  gives_source = ground (arith);
  leaves_none = ground (arith);
  gives_index = ground (arith);
}

build_index-Gives :
    (c : Calls) (d : Disk)
    → c.clears_old ≡ true
    → c.restores ≡ true
    → c.moves_index ≡ true
    → d.staging ≡ some c.release
    → Gives c d (build_index c d)
unfolding build_index clean_up
build_index-Gives c d h1 h2 h3 h4 =
    let s = swap-Gives c (record d { temporary = some c.release }) h1 h2 h3 h4 refl in
    record {
      gives_source = ground (arith, s.gives_source);
      leaves_none = ground (arith, s.leaves_none);
      gives_index = ground (arith, s.gives_index);
    }

unzip-Gives :
    (c : Calls) (d : Disk)
    → c.clears_old ≡ true
    → c.restores ≡ true
    → c.moves_index ≡ true
    → Gives c d (unzip c d)
unfolding unzip
unzip-Gives c d h1 h2 h3 =
    let s = build_index-Gives c (record d { staging = some c.release }) h1 h2 h3 refl in
    record {
      gives_source = ground (arith, s.gives_source);
      leaves_none = ground (arith, s.leaves_none);
      gives_index = ground (arith, s.gives_index);
    }

stage-Gives :
    (c : Calls) (d : Disk)
    → c.clears_old ≡ true
    → c.restores ≡ true
    → c.moves_index ≡ true
    → Gives c d (stage c d)
unfolding stage
stage-Gives c d h1 h2 h3 =
    let s = unzip-Gives c (record d { staging = none }) h1 h2 h3 in
    record {
      gives_source = ground (arith, s.gives_source);
      leaves_none = ground (arith, s.leaves_none);
      gives_index = ground (arith, s.gives_index);
    }

-- If an old source can be removed and put back, and the last rename succeeds, then a run that succeeds
-- leaves the sources and the index of the new release and no staging directory, and a run that fails,
-- whichever of its other calls fail, leaves the sources and the index as they were.
pub run-Gives :
    (c : Calls) (d : Disk)
    → c.clears_old ≡ true
    → c.restores ≡ true
    → c.moves_index ≡ true
    → Gives c d (run c d)
unfolding run
run-Gives c d h1 h2 h3 =
    let s = stage-Gives c d h1 h2 h3 in
    record {
      gives_source = ground (arith, s.gives_source);
      leaves_none = ground (arith, s.leaves_none);
      gives_index = ground (arith, s.gives_index);
    }
