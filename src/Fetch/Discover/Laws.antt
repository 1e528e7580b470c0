-- ===== src/Fetch/Discover/Laws.antt =====
-- What a full scan finds, and when the row of the data source moves on.
use mathlib.Core.List.{flatten}
use veloria.Base.{
  ℕ, suc, ◌+◌, ◌≡◌, ◌≢◌, refl, sym, ap, ◌∙◌, Bool, true, false, not, ◌&&◌, none, some, List, [],
  ◌∷◌, ◌++◌, map, length, arith, leb, if◌then◌else◌, Bytes, bytes_eq, Bool-cases, inl, inr, select,
  append_assoc, append-nil,
}
use veloria.Fetch.{
  Listed, Request, Fetched, fetched, page_failed, cancelled, exhausted, default_source,
  prepare_theme,
}
use veloria.Fetch.Since.{Serves, page_response, fetch_served}
use veloria.Fetch.Discover.{
  is_known, Scan, visit, visit_all, discover_listed, discover_round, discover_pages, no_scan,
  discover_new_plugins, discover_new_themes, Datasource, Moment, when_fetched, fetch_updates,
  fetch_pending, needs_full_scan,
}

-- neither known nor without a download link
abbrev pub is_new : (Listed → Listed) → List Bytes → Listed → Bool
is_new prepare known p =
    not (is_known known p.extension.slug) && not (bytes_eq ((prepare p).extension.download_link) [])

abbrev pub has_known : List Bytes → Listed → Bool
has_known known p = is_known known p.extension.slug

module _ (prepare : Listed → Listed) (known : List Bytes) where
  -- what a scan holds behind the pages
  abbrev pub scanned : Scan → List Listed → Scan
  scanned s ps = record {
    result = s.result ++ map prepare (select (is_new prepare known) ps);
    updated = s.updated ++ map prepare (select (has_known known) ps);
  }

  visit-scanned :
      (p : Listed) (ps : List Listed) (s : Scan)
      → scanned (visit prepare known p s) ps ≡ scanned s (p ∷ ps)
  unfolding visit
  visit-scanned p ps s = ground (
    arith,
    append_assoc s.result (prepare p ∷ []) (map prepare (select (is_new prepare known) ps)),
    append_assoc s.updated (prepare p ∷ []) (map prepare (select (has_known known) ps)),
  )

  visit_all-scanned : (ps : List Listed) (s : Scan) → visit_all prepare known ps s ≡ scanned s ps
  unfolding visit_all
  visit_all-scanned [] s =
      λ i. record { result = sym (append-nil s.result) i; updated = sym (append-nil s.updated) i }
  visit_all-scanned (p ∷ ps) s =
      visit_all-scanned ps (visit prepare known p s) ∙ visit-scanned p ps s

  visit_all-append :
      (ps qs : List Listed) (s : Scan)
      → visit_all prepare known (ps ++ qs) s
        ≡ visit_all prepare known qs (visit_all prepare known ps s)
  unfolding visit_all
  visit_all-append [] qs s = refl
  visit_all-append (p ∷ ps) qs s = visit_all-append ps qs (visit prepare known p s)

  abbrev found : Scan → Fetched (List Listed) × Scan
  found s = (fetched s.result, s)

  round_served :
      (continue : ℕ → Scan → Fetched (List Listed) × Scan) (n k : ℕ) (ps : List Listed) (s : Scan)
      → ps ≢ []
      → discover_round prepare known continue (suc k) (some (page_response n k ps)) s ≡ (
          if leb n (suc k)
          then found (visit_all prepare known ps s)
          else continue (suc (suc k)) (visit_all prepare known ps s))
  unfolding discover_round discover_listed
  round_served continue n k [] s h = absurd (h refl)
  round_served continue n k (p ∷ ps) s h = refl

  discover_served :
      (request : Request) (is_done : ℕ → Bool) (n k : ℕ) (pss : List (List Listed))
      (ps : List Listed) (s : Scan)
      → ((j : ℕ) → is_done j ≡ false)
      → Serves request n k (ps ∷ pss)
      → k + length (ps ∷ pss) ≡ n
      → discover_pages prepare known request is_done (length (ps ∷ pss)) (suc k) s
        ≡ found (visit_all prepare known (flatten (ps ∷ pss)) s)
  unfolding discover_pages flatten
  discover_served request is_done n k [] ps s open' h e =
      let got = fetch_served default_source (λ _. none) 0 request n k ps (omega (arith, e)) h.0 in
      let continue = discover_pages prepare known request is_done 0 in
      let last : leb n (suc k) ≡ true = ground (arith, e) in
      rw (got, open' (suc k), append-nil ps) (round_served continue n k ps s h.1 ∙ rw last)
  discover_served request is_done n k (qs ∷ pss) ps s open' h e =
      let got = fetch_served default_source (λ _. none) 0 request n k ps (omega (arith, e)) h.0 in
      let continue = discover_pages prepare known request is_done (length (qs ∷ pss)) in
      let more : leb n (suc k) ≡ false = ground (arith, e) in
      let ih =
        discover_served request is_done n (suc k) pss qs (visit_all prepare known ps s) open' h.2
          (omega (arith, e)) in
      rw (got, open' (suc k), visit_all-append ps (flatten (qs ∷ pss)) s)
        (round_served continue n k ps s h.1 ∙ rw more ih)

  discovered :
      (request : Request) (is_done : ℕ → Bool) (ps : List Listed) (pss : List (List Listed))
      → ((j : ℕ) → is_done j ≡ false)
      → Serves request (length (ps ∷ pss)) 0 (ps ∷ pss)
      → discover_pages prepare known request is_done (length (ps ∷ pss)) 1 no_scan
        ≡ found (scanned no_scan (flatten (ps ∷ pss)))
  discovered request is_done ps pss open' h =
      discover_served request is_done (length (ps ∷ pss)) 0 pss ps no_scan open' h (omega arith)
      ∙ ap found (visit_all-scanned (flatten (ps ∷ pss)) no_scan)

-- the answer of a scan that finds new ones and updates known ones among those listed
abbrev pub scan_answer : (Listed → Listed) → List Bytes → List Listed → Fetched (List Listed) × Scan
scan_answer prepare known listed =
    let s : Scan = record {
      result = map prepare (select (is_new prepare known) listed);
      updated = map prepare (select (has_known known) listed);
    } in
    (fetched s.result, s)

-- If the API serves its whole list on pages, none of them empty, and the context lives on, then a full
-- scan returns exactly those of the list that are not known and have a download link, in order, and
-- updates the metadata of exactly those that are known, of plugins and of themes.
pub discover-new :
    (request : Request) (is_done : ℕ → Bool) (known : List Bytes) (ps : List Listed)
    (pss : List (List Listed))
    → ((j : ℕ) → is_done j ≡ false)
    → Serves request (length (ps ∷ pss)) 0 (ps ∷ pss)
    → (discover_new_plugins (length (ps ∷ pss)) request is_done known
        ≡ scan_answer default_source known (flatten (ps ∷ pss)))
      × (discover_new_themes (length (ps ∷ pss)) request is_done known
          ≡ scan_answer prepare_theme known (flatten (ps ∷ pss)))
unfolding discover_new_plugins discover_new_themes
discover-new request is_done known ps pss open' h = (
  discovered default_source known request is_done ps pss open' h,
  discovered prepare_theme known request is_done ps pss open' h,
)

when_fetched-moves :
    (r : Fetched (List Listed)) (write : Datasource → Datasource) (d : Datasource)
    → ((xs : List Listed) → r ≢ fetched xs)
    → when_fetched r write d ≡ d
unfolding when_fetched
when_fetched-moves (fetched xs) write d h = absurd (h xs refl)
when_fetched-moves (page_failed n) write d h = refl
when_fetched-moves cancelled write d h = refl
when_fetched-moves exhausted write d h = refl

-- A fetch of pending plugins or themes that ends without a list leaves the row of the data source as it
-- was, so that the next fetch starts from the same times.
fetch_pending-keeps :
    (discover : Fetched (List Listed)) (fetch_since : ℕ → Fetched (List Listed))
    (fetch_local : Fetched (List Listed)) (m : Moment) (d : Datasource)
    → ((xs : List Listed) → (fetch_pending discover fetch_since fetch_local m d).0 ≢ fetched xs)
    → (fetch_pending discover fetch_since fetch_local m d).1 ≡ d
unfolding fetch_pending fetch_updates
fetch_pending-keeps discover fetch_since fetch_local m d h =
    elim (Bool-cases (needs_full_scan m.reads d m.now)) [
      | inl due ↦ rw due (when_fetched-moves discover _ d (rw due at h))
      | inr not_due ↦ elim (Bool-cases m.production) [
        | inl live ↦ rw (not_due, live) (when_fetched-moves _ _ d (rw (not_due, live) at h))
        | inr dev ↦ rw (not_due, dev)
      ]
    ]
