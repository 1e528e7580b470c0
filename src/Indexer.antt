-- ===== src/Indexer.antt =====
-- `Run` of the index command: cmd/veloria/index.go. The disk holds, for one slug, its source, its old
-- source and its staging directory, and the temporary and the final index; each is missing or has a
-- content. Which calls succeed, and what is downloaded, are parameters.
pub mod Laws
use veloria.Base.{ℕ, Bool, true, false, Option, none, some, is_some, if◌then◌else◌}

pub record Disk : Type 0 where
  pub source : Option ℕ
  pub old : Option ℕ
  pub staging : Option ℕ
  pub temporary : Option ℕ
  pub index : Option ℕ

-- One run: whether each call succeeds, and the release that is downloaded.
pub record Calls : Type 0 where
  pub config_loads : Bool
  pub locks : Bool
  pub downloads : Bool
  pub clears_staging : Bool
  pub makes_staging : Bool
  pub unzips : Bool
  pub makes_index_dir : Bool
  pub creates_index : Bool
  pub compresses : Bool
  pub clears_old : Bool
  pub moves_old : Bool
  pub moves_staging : Bool
  pub restores : Bool
  pub moves_index : Bool
  pub release : ℕ

-- A renamed directory and its new place: a missing one cannot be renamed, and one cannot take the place
-- of another that is not empty.
unfoldable pub move : Bool → Option ℕ → Option ℕ → Bool × (Option ℕ × Option ℕ)
move true (some a) none = (true, (none, some a))
move true (some a) (some b) = (false, (some a, some b))
move true none to = (false, (none, to))
move false from to = (false, (from, to))

-- the deferred calls, where the staging directory is not in place
unfoldable pub clean_up : Disk → Disk
clean_up d = record d { staging = none; temporary = none }

-- where it is
unfoldable pub clean_up_index : Disk → Disk
clean_up_index d = record d { temporary = none }

-- the last rename, and the removal of the old source behind it
unfoldable pub place_index : Calls → Disk → Bool × Disk
place_index c d =
    if c.moves_index
    then (
      true,
      clean_up_index (record d {
        index = d.temporary;
        temporary = none;
        old = if c.clears_old then none else d.old;
      }),
    )
    else (false, clean_up_index d)

-- the rename of the staging directory, with its outcome
unfoldable pub place_staging : Calls → Disk → Bool × (Option ℕ × Option ℕ) → Bool × Disk
place_staging c d (true, (staging, source)) =
    place_index c (record d { staging = staging; source = source })
place_staging c d (false, (staging, source)) =
    let (ok, (old, back)) = move c.restores d.old d.source in
    (false, clean_up (record d { old = old; source = back }))

-- from the removal of an earlier old source on
unfoldable pub swap : Calls → Disk → Bool × Disk
swap c d =
    let cleared = record d { old = if c.clears_old then none else d.old } in
    let (ok, (source, old)) = move c.moves_old cleared.source cleared.old in
    let moved = record cleared { source = source; old = old } in
    place_staging c moved (move c.moves_staging moved.staging moved.source)

-- The index of the staging directory is built. Where its file cannot be created, `log.Fatalf` ends the
-- process without the deferred calls.
unfoldable pub build_index : Calls → Disk → Bool × Disk
build_index c d =
    let built = record d { temporary = some c.release } in
    if c.creates_index
    then (if c.compresses then swap c built else (false, clean_up built))
    else (false, d)

unfoldable pub unzip : Calls → Disk → Bool × Disk
unzip c d =
    let unzipped = record d { staging = some c.release } in
    if c.unzips
    then (if c.makes_index_dir
        then build_index c unzipped
        else (false, record unzipped { staging = none }))
    else (false, record unzipped { staging = none })

unfoldable pub stage : Calls → Disk → Bool × Disk
stage c d =
    if c.clears_staging
    then (if c.makes_staging
        then unzip c (record d { staging = none })
        else (false, record d { staging = none }))
    else (false, d)

unfoldable pub run : Calls → Disk → Bool × Disk
run c d =
    if c.config_loads
    then (if c.locks then (if c.downloads then stage c d else (false, d)) else (false, d))
    else (false, d)
