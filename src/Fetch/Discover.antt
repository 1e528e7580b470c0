-- ===== src/Fetch/Discover.antt =====
-- The full scan for new plugins and themes, and the choice between it and the fetch of updates, with the
-- row of the table `datasources`: internal/repo/plugins.go, themes.go and watermark.go.
pub mod Laws
use veloria.Base.{
  ℕ, zero, suc, ◌+◌, ◌-◌, ◌*◌, Bool, true, false, ◌&&◌, ◌||◌, not, Option, none, some, List, [],
  ◌∷◌, ◌++◌, map, ltb, leb, ◌==◌, if◌then◌else◌, or_default, Bytes, bytes_eq,
}
use veloria.Store.{Extension}
use veloria.Fetch.{
  Listed, PageResponse, Request, fetch_page, Fetched, fetched, page_failed, cancelled, exhausted,
  default_source, prepare_theme,
}

unfoldable pub is_known : List Bytes → Bytes → Bool
is_known [] slug = false
is_known (k ∷ ks) slug = bytes_eq k slug || is_known ks slug

unfoldable pub keys : List (Bytes × Extension) → List Bytes
keys [] = []
keys ((k, e) ∷ m) = k ∷ keys m

-- `getAllKnownSlugs`; the rows' slugs are `none` where the database fails
unfoldable pub get_all_known_slugs :
    List (Bytes × Extension) → Option (List Bytes) → Option (List Bytes)
get_all_known_slugs entries none = none
get_all_known_slugs entries (some slugs) = some (keys entries ++ slugs)

-- What a scan has found, and whose metadata it has updated.
pub record Scan : Type 0 where
  pub result : List Listed
  pub updated : List Listed

module _ (prepare : Listed → Listed) (known : List Bytes) where
  -- the round of one plugin or theme
  unfoldable pub visit : Listed → Scan → Scan
  visit p s =
      if is_known known p.extension.slug
      then record s { updated = s.updated ++ prepare p ∷ [] }
      else if bytes_eq ((prepare p).extension.download_link) []
      then s
      else record s { result = s.result ++ prepare p ∷ [] }

  unfoldable pub visit_all : List Listed → Scan → Scan
  visit_all [] s = s
  visit_all (p ∷ ps) s = visit_all ps (visit p s)

  unfoldable pub discover_listed :
      (ℕ → Scan → Fetched (List Listed) × Scan)
      → ℕ
      → ℕ
      → List Listed
      → Scan
      → Fetched (List Listed) × Scan
  discover_listed continue page pages [] s = (fetched s.result, s)
  discover_listed continue page pages (p ∷ ps) s =
      let s' = visit_all (p ∷ ps) s in
      if leb pages page then (fetched s'.result, s') else continue (suc page) s'

  unfoldable pub discover_round :
      (ℕ → Scan → Fetched (List Listed) × Scan)
      → ℕ
      → Option PageResponse
      → Scan
      → Fetched (List Listed) × Scan
  discover_round continue page none s = (page_failed page, s)
  discover_round continue page (some r) s = discover_listed continue page r.info.pages r.listed s

  -- the loop over the pages; `is_done` tells of the context before each page
  unfoldable pub discover_pages : Request → (ℕ → Bool) → ℕ → ℕ → Scan → Fetched (List Listed) × Scan
  discover_pages request is_done zero page s = (exhausted, s)
  discover_pages request is_done (suc fuel) page s =
      let more =
        discover_round (discover_pages request is_done fuel) page (fetch_page request page) s in
      if is_done page then (cancelled, s) else more

abbrev pub no_scan : Scan
no_scan = record { result = []; updated = [] }

-- `discoverNewPlugins`, behind the slugs that are known
unfoldable pub discover_new_plugins :
    ℕ → Request → (ℕ → Bool) → List Bytes → Fetched (List Listed) × Scan
discover_new_plugins fuel request is_done known =
    discover_pages default_source known request is_done fuel 1 no_scan

-- `discoverNewThemes`
unfoldable pub discover_new_themes :
    ℕ → Request → (ℕ → Bool) → List Bytes → Fetched (List Listed) × Scan
discover_new_themes fuel request is_done known =
    discover_pages prepare_theme known request is_done fuel 1 no_scan

-- the row of a repository type in `datasources`
pub record Datasource : Type 0 where
  pub last_update_at : Option ℕ
  pub last_full_scan_at : Option ℕ

-- seven days and one hour
abbrev pub full_scan_interval : ℕ
full_scan_interval = 604800000000000

abbrev pub one_hour : ℕ
one_hour = 3600000000000

-- the last full scan is not known, or long ago
unfoldable pub scan_due : Option ℕ → ℕ → Bool
scan_due none now = true
scan_due (some t) now = leb full_scan_interval (now - t)

-- `needsFullScan`; the flag tells that the row can be read
unfoldable pub needs_full_scan : Bool → Datasource → ℕ → Bool
needs_full_scan reads d now = not reads || scan_due d.last_full_scan_at now

-- `recordFullScan`, `writeWatermark`: the flag tells that the row can be written
unfoldable pub record_full_scan : Bool → ℕ → Datasource → Datasource
record_full_scan writes now d = if writes then record d { last_full_scan_at = some now } else d

unfoldable pub write_watermark : Bool → ℕ → Datasource → Datasource
write_watermark writes now d = if writes then record d { last_update_at = some now } else d

-- `readWatermark`
unfoldable pub read_watermark : Bool → Datasource → ℕ → ℕ
read_watermark reads d now =
    if reads then or_default d.last_update_at (now - one_hour) else now - one_hour

-- the database's answers to one fetch, and the times at its start and its end
pub record Moment : Type 0 where
  pub reads : Bool
  pub writes : Bool
  pub production : Bool
  pub now : ℕ
  pub ended : ℕ

-- what is done with the row behind a loop over pages
unfoldable pub when_fetched :
    Fetched (List Listed) → (Datasource → Datasource) → Datasource → Datasource
when_fetched (fetched xs) write d = write d
when_fetched (page_failed n) write d = d
when_fetched cancelled write d = d
when_fetched exhausted write d = d

-- `FetchPluginUpdates` and `FetchThemeUpdates`; outside production a few fixed extensions are fetched
unfoldable pub fetch_updates :
    (ℕ → Fetched (List Listed))
    → Fetched (List Listed)
    → Moment
    → Datasource
    → Fetched (List Listed) × Datasource
fetch_updates fetch_since fetch_local m d =
    let r = fetch_since (read_watermark m.reads d m.now) in
    if m.production
    then (r, when_fetched r (write_watermark m.writes m.ended) d)
    else (fetch_local, d)

-- The function that `PrepareUpdates` of the two stores hands on.
unfoldable pub fetch_pending :
    Fetched (List Listed)
    → (ℕ → Fetched (List Listed))
    → Fetched (List Listed)
    → Moment
    → Datasource
    → Fetched (List Listed) × Datasource
fetch_pending discover fetch_since fetch_local m d =
    if needs_full_scan m.reads d m.now
    then (discover, when_fetched discover (record_full_scan m.writes m.ended) d)
    else fetch_updates fetch_since fetch_local m d
