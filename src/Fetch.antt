-- ===== src/Fetch.antt =====
-- The lists of plugins and themes that the API serves page by page: internal/repo/plugins.go and
-- themes.go. A request of a page is a parameter (the API client's `FetchJSON`), and so are package time's
-- parser and the database's answers. A time is a natural number of nanoseconds.
pub mod Paging
pub mod Since
pub mod Discover
pub mod Versions
use veloria.Base.{
  ℕ, zero, suc, ◌+◌, ◌-◌, ◌*◌, Bool, true, false, ◌&&◌, ◌||◌, not, Option, none, some, List, [],
  ◌∷◌, ◌++◌, ltb, leb, ◌==◌, if◌then◌else◌, Bytes, codes, bytes_eq,
}
use veloria.Store.{Extension}
use veloria.Store.Task.{source_wordpress}

-- a plugin or theme of the API's list, with the text of its last update
pub record Listed : Type 0 where
  pub extension : Extension
  pub last_updated_raw : Bytes

pub record PageInfo : Type 0 where
  pub page : ℕ
  pub pages : ℕ

-- a `pluginResponse` or `themeResponse`
pub record PageResponse : Type 0 where
  pub info : PageInfo
  pub listed : List Listed

-- What a request of a page gives; `none` for an error.
abbrev pub Request : Type 0
Request = ℕ → Option PageResponse

-- `fetchPluginPage`, behind the request: the API's answer to a page that does not exist is an error
unfoldable pub check_page : Option PageResponse → Option PageResponse
check_page none = none
check_page (some r) = if ltb 0 r.info.pages && ltb r.info.pages r.info.page then none else some r

unfoldable pub fetch_page : Request → ℕ → Option PageResponse
fetch_page request page = check_page (request page)

-- the source of one that names none
unfoldable pub default_source : Listed → Listed
default_source p = record p {
  extension = record (p.extension) {
    source = if bytes_eq p.extension.source [] then source_wordpress else p.extension.source;
  };
}

-- `fillWordPressDownloadLink`
unfoldable pub fill_wordpress_download_link : Extension → Extension
fill_wordpress_download_link t =
    if (bytes_eq t.source source_wordpress && bytes_eq t.download_link [])
      && (not (bytes_eq t.slug []) && not (bytes_eq t.version []))
    then record t {
      download_link =
          codes "https://downloads.wordpress.org/theme/"
          ++ (t.slug ++ (codes "." ++ (t.version ++ codes ".zip")));
    }
    else t

-- what the loops do first with a theme
unfoldable pub prepare_theme : Listed → Listed
prepare_theme t =
    let s = default_source t in record s { extension = fill_wordpress_download_link s.extension }

-- The outcome of a loop over pages; `exhausted` is the model's end of the fuel.
pub data Fetched (A : Type 0) : Type 0 where
  fetched : A → Fetched A
  page_failed : ℕ → Fetched A
  cancelled : Fetched A
  exhausted : Fetched A

-- the loop over one page: whether it meets one that is too old, and those that it takes
unfoldable pub scan_page :
    (Listed → Listed) → (Bytes → Option ℕ) → ℕ → List Listed → Bool × List Listed
scan_page prepare parse threshold [] = (false, [])
scan_page prepare parse threshold (p ∷ ps) =
    let rest = scan_page prepare parse threshold ps in
    elim (parse p.last_updated_raw) [
      | none ↦ rest
      | some ts ↦ if ltb ts threshold then (true, []) else (rest.0, prepare p ∷ rest.1)
    ]

-- what is done behind one page
unfoldable pub after_page :
    (ℕ → List Listed → Fetched (List Listed))
    → ℕ
    → ℕ
    → List Listed
    → Bool × List Listed
    → Fetched (List Listed)
after_page continue page pages all (true, taken) = fetched (all ++ taken)
after_page continue page pages all (false, taken) =
    if leb pages page then fetched (all ++ taken) else continue (suc page) (all ++ taken)

module _ (prepare : Listed → Listed) (parse : Bytes → Option ℕ) (threshold : ℕ) where
  -- an empty page ends the loop
  unfoldable pub since_listed :
      (ℕ → List Listed → Fetched (List Listed))
      → ℕ
      → ℕ
      → List Listed
      → List Listed
      → Fetched (List Listed)
  since_listed continue page pages all [] = fetched all
  since_listed continue page pages all (p ∷ ps) =
      after_page continue page pages all (scan_page prepare parse threshold (p ∷ ps))

  unfoldable pub since_round :
      (ℕ → List Listed → Fetched (List Listed))
      → ℕ
      → List Listed
      → Option PageResponse
      → Fetched (List Listed)
  since_round continue page all none = page_failed page
  since_round continue page all (some r) = since_listed continue page r.info.pages all r.listed

  -- The loop over the pages, from `page` on, behind `all`.
  unfoldable pub since_pages : Request → ℕ → ℕ → List Listed → Fetched (List Listed)
  since_pages request zero page all = exhausted
  since_pages request (suc fuel) page all =
      since_round (since_pages request fuel) page all (fetch_page request page)

-- two hours
abbrev pub overlap : ℕ
overlap = 7200000000000

-- `FetchPluginsSince`
unfoldable pub fetch_plugins_since : ℕ → Request → (Bytes → Option ℕ) → ℕ → Fetched (List Listed)
fetch_plugins_since fuel request parse since =
    since_pages default_source parse (since - overlap) request fuel 1 []

-- `FetchThemesSince`
unfoldable pub fetch_themes_since : ℕ → Request → (Bytes → Option ℕ) → ℕ → Fetched (List Listed)
fetch_themes_since fuel request parse since =
    since_pages prepare_theme parse (since - overlap) request fuel 1 []
