-- ===== src/Store/Resume.antt =====
-- The extensions that are still to be indexed: `ResumeUnindexed`, `MakeReindexTaskBySlug` and `GetAll` of
-- internal/repo/repository.go. The slugs that the database gives are parameters; a task is its extension.
-- The list's order stands for the map's, which Go leaves open.
pub mod Unindexed
pub mod Stale
pub mod Wanted
pub mod Laws
use veloria.Base.{
  ℕ, Bool, true, false, ◌&&◌, ◌||◌, not, Option, none, some, List, [], ◌∷◌, ◌++◌, if◌then◌else◌,
  Bytes, bytes_eq,
}
use veloria.Base.Maps.{lookup}
use veloria.Store.{Extension, Store, get, has_index}
use veloria.Store.Updates.{seen_before}

-- `closedSlugs` and the set that it makes
unfoldable pub is_closed : List Bytes → Bytes → Bool
is_closed slugs slug = seen_before slug slugs

-- the tests of the first loop
unfoldable pub is_unindexed : List Bytes → Store → Extension → Bool
is_unindexed closed s e =
    not (is_closed closed e.slug) && (not (has_index e s) && not (bytes_eq e.download_link []))

-- the loop over the list
unfoldable pub unindexed : List Bytes → Store → List (Bytes × Extension) → List Extension
unindexed closed s [] = []
unindexed closed s ((k, e) ∷ m) =
    let rest = unindexed closed s m in if is_unindexed closed s e then e ∷ rest else rest

-- `seen`, behind the first loop
unfoldable pub slugs_of : List Extension → List Bytes
slugs_of [] = []
slugs_of (e ∷ es) = e.slug ∷ slugs_of es

-- an extension that is listed and can be downloaded
unfoldable pub to_retry : Option Extension → Option Extension
to_retry none = none
to_retry (some e) = if bytes_eq e.download_link [] then none else some e

-- one round of the loop over the slugs of stale failures: whether the slug was seen, and what is to be
-- retried for it
unfoldable pub stale_round :
    (List Bytes → List Extension) → Bytes → List Bytes → Bool → Option Extension → List Extension
stale_round continue slug seen true o = continue seen
stale_round continue slug seen false none = continue seen
stale_round continue slug seen false (some e) = e ∷ continue (slug ∷ seen)

unfoldable pub stale_failures : Store → List Bytes → List Bytes → List Extension
stale_failures s [] seen = []
stale_failures s (slug ∷ slugs) seen =
    stale_round (stale_failures s slugs) slug seen (seen_before slug seen)
      (to_retry (lookup slug s.entries))

-- `ResumeUnindexed`
unfoldable pub resume_unindexed : List Bytes → List Bytes → Store → List Extension
resume_unindexed closed stale s =
    let first = unindexed closed s s.entries in first ++ stale_failures s stale (slugs_of first)

-- `MakeReindexTaskBySlug`
unfoldable pub make_reindex_task_by_slug : Bytes → Store → Option Extension
make_reindex_task_by_slug slug s = get slug s

-- `GetAll`
unfoldable pub get_all : List (Bytes × Extension) → List Extension
get_all [] = []
get_all ((k, e) ∷ m) = e ∷ get_all m
