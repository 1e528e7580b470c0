-- ===== src/Store/Search.antt =====
-- `Search` of internal/repo/repository.go: a dispatcher starts a worker per extension, at most
-- `workers` at a time, and each step here is one access to the state that they share. `found e` are the
-- matches of `SearchCompiled` on `e`: none where it fails or panics.
pub mod Steps
pub mod Bound
pub mod Jobs
pub mod Complete
pub mod Finds
use veloria.Base.{
  ℕ, zero, suc, ◌+◌, ◌≤◌, ◌<◌, ◌≡◌, ◌≢◌, Bool, true, false, Option, none, some, List, [], ◌∷◌, ◌++◌,
  length, All, Bytes, bytes_lt, if◌then◌else◌, min, ◌⊎◌, inl, inr,
}
use veloria.Search.{FileMatch}
use veloria.Search.Bounds.{count_matches}
use veloria.Store.{Extension, Store, has_index}

abbrev pub global_match_cap : ℕ
global_match_cap = 100000

-- where a worker is: its extension waits, it runs, it searches below the cap, it has added its count
-- and not yet its result, or it is done
pub data Phase : Type 0 where
  queued started searching counted finished skipped : Phase

pub record Job : Type 0 where
  pub extension : Extension
  pub phase : Phase

abbrev pub job : Extension → Phase → Job
job e p = record { extension = e; phase = p }

-- `SearchResult` of the store
pub record Hit : Type 0 where
  pub extension : Extension
  pub matches : List FileMatch

-- the variables that the dispatcher and the workers share
pub record Search : Type 0 where
  pub jobs : List Job
  pub results : List Hit
  pub total_matches : ℕ
  pub stopped : Bool
  pub cancelled : Bool

-- the slots of the semaphore that are taken
unfoldable pub slots : Phase → ℕ
slots queued = 0
slots started = 1
slots searching = 1
slots counted = 1
slots finished = 0
slots skipped = 0

unfoldable pub active : List Job → ℕ
active [] = 0
active (j ∷ js) = slots j.phase + active js

-- `slices.SortFunc` by slug
unfoldable pub insert_by_slug : Extension → List Extension → List Extension
insert_by_slug e [] = e ∷ []
insert_by_slug e (x ∷ xs) =
    let rest = insert_by_slug e xs in if bytes_lt x.slug e.slug then x ∷ rest else e ∷ (x ∷ xs)

unfoldable pub sort_by_slug : List Extension → List Extension
sort_by_slug [] = []
sort_by_slug (e ∷ es) = insert_by_slug e (sort_by_slug es)

-- the entries with an index
unfoldable pub indexed_extensions : Store → List (Bytes × Extension) → List Extension
indexed_extensions s [] = []
indexed_extensions s ((k, e) ∷ m) =
    let rest = indexed_extensions s m in if has_index e s then e ∷ rest else rest

unfoldable pub snapshot : Store → List Extension
snapshot s = sort_by_slug (indexed_extensions s s.entries)

unfoldable pub queue : List Extension → List Job
queue [] = []
queue (e ∷ es) = job e queued ∷ queue es

unfoldable pub start : List Extension → Search
start es = record {
  jobs = queue es;
  results = [];
  total_matches = 0;
  stopped = false;
  cancelled = false;
}

pub data Step (workers : ℕ) (found : Extension → List FileMatch) (s : Search)
    : Search → Type 0 where
  -- the dispatcher, in the order of the slugs
  launch :
      (xs ys : List Job) (e : Extension)
      → s.jobs ≡ xs ++ job e queued ∷ ys
      → All (λ j. j.phase ≢ queued) xs
      → active s.jobs < workers
      → s.total_matches < global_match_cap
      → s.stopped ≡ false
      → s.cancelled ≡ false
      → Step workers found s (record s { jobs = xs ++ job e started ∷ ys })
  -- its `break`s
  stop :
      (global_match_cap ≤ s.total_matches) ⊎ (s.cancelled ≡ true)
      → Step workers found s (record s { stopped = true })
  cancel : Step workers found s (record s { cancelled = true })
  -- a worker's test of the cap
  begin :
      (xs ys : List Job) (e : Extension)
      → s.jobs ≡ xs ++ job e started ∷ ys
      → s.total_matches < global_match_cap
      → Step workers found s (record s { jobs = xs ++ job e searching ∷ ys })
  skip :
      (xs ys : List Job) (e : Extension)
      → s.jobs ≡ xs ++ job e started ∷ ys
      → global_match_cap ≤ s.total_matches
      → Step workers found s (record s { jobs = xs ++ job e skipped ∷ ys })
  -- behind a search without a match
  miss :
      (xs ys : List Job) (e : Extension)
      → s.jobs ≡ xs ++ job e searching ∷ ys
      → found e ≡ []
      → Step workers found s (record s { jobs = xs ++ job e finished ∷ ys })
  -- `totalMatches.Add`
  count :
      (xs ys : List Job) (e : Extension)
      → s.jobs ≡ xs ++ job e searching ∷ ys
      → found e ≢ []
      → Step workers found s (record s {
        jobs = xs ++ job e counted ∷ ys;
        total_matches = s.total_matches + count_matches (found e);
      })
  -- the append to `results` under the lock, and the end of the worker
  publish :
      (xs ys : List Job) (e : Extension)
      → s.jobs ≡ xs ++ job e counted ∷ ys
      → Step workers found s (record s {
        jobs = xs ++ job e finished ∷ ys;
        results = s.results ++ record { extension = e; matches = found e } ∷ [];
      })

pub data Reaches (workers : ℕ) (found : Extension → List FileMatch) (s : Search)
    : Search → Type 0 where
  begin_with : Reaches workers found s s
  then_step :
      {t u : Search}
      → Reaches workers found s t
      → Step workers found t u
      → Reaches workers found s u

-- `wg.Wait` returns behind the dispatcher's loop: no worker runs, and no extension waits unless the
-- loop was left
pub record IsOver (s : Search) : Type 0 where
  pub no_worker : active s.jobs ≡ 0
  pub no_waiting : (s.stopped ≡ true) ⊎ All (λ j. j.phase ≢ queued) s.jobs

-- what `Search` returns, `none` for the context's error
unfoldable pub answer : Search → Option (List Hit)
answer s = if s.cancelled then none else some s.results
