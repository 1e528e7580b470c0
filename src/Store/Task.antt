-- ===== src/Store/Task.antt =====
-- `makeIndexTask` of internal/repo/repository.go: the download with its two fallbacks, and what the
-- task does with the outcome. The subprocess that downloads and indexes one URL is a parameter.
pub mod Laws
use veloria.Base.{
  ℕ, zero, suc, ◌+◌, Bool, true, false, ◌&&◌, ◌||◌, not, Option, none, some, List, [], ◌∷◌, ◌++◌,
  length, if◌then◌else◌, Bytes, codes, bytes_eq, is_some, inl, inr, ◌==◌,
}
use veloria.Store.{
  ExtensionType, plugins, themes, cores, ExtractStats, Extension, Store, StoreError, ext_not_found,
  has_index, unlist, update_index,
}

-- the result of the indexer subprocess
pub record IndexerResult : Type 0 where
  pub index_path : Bytes
  pub stats : Option ExtractStats

-- what `errors.Is` tells of the runner's error: ErrDownloadNotFound, ErrDownloadUnavailable, or another
pub data RunnerError : Type 0 where
  not_found unavailable other : RunnerError

pub data Fetch : Type 0 where
  fetched : IndexerResult → Fetch
  fetch_failed : RunnerError → Fetch

-- The error of a task. `fallback_failed` wraps the primary's ErrDownloadUnavailable, with the text
-- of the fallback's error.
pub data TaskError : Type 0 where
  skipped open_failed fallback_failed : TaskError
  index_error : RunnerError → TaskError
  update_failed : StoreError → TaskError

-- `indexerError`, on the exit code of the subprocess if it has one
unfoldable pub indexer_error : Option ℕ → RunnerError
indexer_error none = other
indexer_error (some code) =
    if code == 2 then not_found else if code == 3 then unavailable else other

unfoldable pub download_failed : Fetch → Bool
download_failed (fetched r) = false
download_failed (fetch_failed not_found) = true
download_failed (fetch_failed unavailable) = true
download_failed (fetch_failed other) = false

abbrev pub source_wordpress : Bytes
source_wordpress = codes "wordpress.org"

-- `wordpressDownloadURL`
unfoldable pub wordpress_download_url : ExtensionType → Bytes → Bytes → Bytes
wordpress_download_url cores slug version = []
wordpress_download_url plugins slug [] =
    codes "https://downloads.wordpress.org/plugin/" ++ (slug ++ codes ".zip")
wordpress_download_url plugins slug (c ∷ v) =
    codes "https://downloads.wordpress.org/plugin/"
    ++ (slug ++ (codes "." ++ ((c ∷ v) ++ codes ".zip")))
wordpress_download_url themes slug [] =
    codes "https://downloads.wordpress.org/theme/" ++ (slug ++ codes ".zip")
wordpress_download_url themes slug (c ∷ v) =
    codes "https://downloads.wordpress.org/theme/"
    ++ (slug ++ (codes "." ++ ((c ∷ v) ++ codes ".zip")))

-- the outcome so far, and the URLs tried for it, the first one first
pub record Attempts : Type 0 where
  pub outcome : Fetch
  pub tried : List Bytes

-- `runner n url` is the n-th run of the subprocess: the same URL may fail once and then work.
unfoldable pub try_url : (ℕ → Bytes → Fetch) → Bytes → Attempts → Attempts
try_url runner url a = record { outcome = runner (length a.tried) url; tried = a.tried ++ url ∷ [] }

-- the test of both fallbacks
unfoldable pub is_fallback : Bytes → Bytes → Bytes → Bool
is_fallback source primary url =
    bytes_eq source source_wordpress && (not (bytes_eq url []) && not (bytes_eq url primary))

unfoldable pub try_fallback : (ℕ → Bytes → Fetch) → Bytes → Bytes → Bytes → Attempts → Attempts
try_fallback runner source primary url a =
    if download_failed a.outcome && is_fallback source primary url then try_url runner url a else a

unfoldable pub first_attempt : (ℕ → Bytes → Fetch) → Bytes → Attempts
first_attempt runner primary =
    try_url runner primary (record { outcome = fetch_failed other; tried = [] })

-- all attempts of one task
unfoldable pub fetch_index : (ℕ → Bytes → Fetch) → ExtensionType → Extension → Attempts
fetch_index runner repo_type ext =
    let primary = ext.download_link in
    try_fallback runner ext.source primary (wordpress_download_url repo_type ext.slug []) (
      try_fallback runner ext.source primary (wordpress_download_url repo_type ext.slug ext.version)
        (first_attempt runner primary))

-- `markClosed`: the row of the slug and source; cores have no source
unfoldable pub mark_closed : Bytes → Bytes → Store → Store
mark_closed slug source s = record s { closed = (slug, source) ∷ s.closed }

-- The download is gone for good. The code calls `HasIndex` of the extension's place, and would panic
-- for an extension without one; here such an extension has no index.
unfoldable pub close_extension : Extension → Store → Store
close_extension ext s =
    mark_closed ext.slug ext.source (if has_index ext s then s else unlist ext.slug s)

-- the branch `if err != nil` behind the fallbacks
unfoldable pub on_failure : Extension → Fetch → RunnerError → Store → Option TaskError × Store
on_failure ext (fetch_failed not_found) not_found s = (some skipped, close_extension ext s)
on_failure ext (fetch_failed unavailable) unavailable s = (some (index_error unavailable), s)
on_failure ext (fetch_failed unavailable) e s = (some fallback_failed, s)
on_failure ext primary e s = (some (index_error e), s)

unfoldable pub save_stats : Bytes → Option ExtractStats → Store → Store
save_stats slug none s = s
save_stats slug (some st) s = record s { saved_stats = (slug, st) ∷ s.saved_stats }

-- the new index, opened, goes to the extension that the store lists under the slug
unfoldable pub install : Bytes → Option ℕ → Store → Option TaskError × Store
install slug none s = (some open_failed, s)
install slug (some idx) s =
    let (e, u) = update_index idx slug s in
    (elim e [ none ↦ none | some x ↦ some (update_failed x) ], u)

-- behind a successful download: `open_index` is `index.Open`, with `none` for nil
unfoldable pub on_success :
    (Bytes → Option ℕ) → Extension → IndexerResult → Store → Option TaskError × Store
on_success open_index ext r s =
    install ext.slug (open_index r.index_path) (save_stats ext.slug r.stats s)

-- the task behind its attempts, from the outcomes of the first and of the last one
unfoldable pub conclude :
    (Bytes → Option ℕ) → Extension → Fetch → Fetch → Store → Option TaskError × Store
conclude open_index ext primary (fetched r) s = on_success open_index ext r s
conclude open_index ext primary (fetch_failed e) s = on_failure ext primary e s

-- `Run` of the task
unfoldable pub run_task :
    (ℕ → Bytes → Fetch) → (Bytes → Option ℕ) → Extension → Store → Option TaskError × Store
run_task runner open_index ext s =
    conclude open_index ext (first_attempt runner ext.download_link).outcome
      (fetch_index runner s.repo_type ext).outcome s
