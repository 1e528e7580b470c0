-- ===== src/Fetch/Since.antt =====
-- What the fetches of updates return from a list that is served page by page.
use mathlib.Core.List.{flatten}
use veloria.Base.{
  ℕ, suc, ◌+◌, ◌-◌, ◌≤◌, ◌<◌, ◌≡◌, ◌≢◌, refl, ap, ◌∙◌, Bool, true, false, not, Option, none, some,
  List, [], ◌∷◌, ◌++◌, map, length, arith, All, ltb, leb, if◌then◌else◌, Bytes, Bool-cases,
  Option-cases, inl, inr, select, append_assoc, append-nil,
}
use veloria.Fetch.{
  Listed, PageResponse, Request, check_page, fetch_page, Fetched, fetched, scan_page, after_page,
  since_listed, since_round, since_pages, fetch_plugins_since, fetch_themes_since, default_source,
  prepare_theme, overlap,
}

-- the response that serves a page of `n`
abbrev pub page_response : ℕ → ℕ → List Listed → PageResponse
page_response n k ps = record { info = record { page = suc k; pages = n }; listed = ps }

-- the requests from page `k + 1` on are answered by the pages, of which there are `n` in all
abbrev pub Serves : Request → ℕ → ℕ → List (List Listed) → Type 0
Serves request n k [] = Unit
Serves request n k (ps ∷ pss) =
    (request (suc k) ≡ some (page_response n k ps)) × (ps ≢ []) × Serves request n (suc k) pss

-- updated at the threshold or later
abbrev pub is_recent : (Bytes → Option ℕ) → ℕ → Listed → Bool
is_recent parse threshold p = elim (parse p.last_updated_raw) [
  | none ↦ false
  | some ts ↦ not (ltb ts threshold)
]

-- `q` was not updated later than `p`, if both times can be read
abbrev pub IsNotLater : (Bytes → Option ℕ) → Listed → Listed → Type 0
IsNotLater parse p q =
    (t u : ℕ) → parse p.last_updated_raw ≡ some t → parse q.last_updated_raw ≡ some u → u ≤ t

-- the latest update comes first
abbrev pub IsLatestFirst : (Bytes → Option ℕ) → List Listed → Type 0
IsLatestFirst parse [] = Unit
IsLatestFirst parse (p ∷ ps) = All (IsNotLater parse p) ps × IsLatestFirst parse ps

module _ (prepare : Listed → Listed) (parse : Bytes → Option ℕ) (threshold : ℕ) where
  scan-append :
      (ps qs : List Listed)
      → scan_page prepare parse threshold (ps ++ qs) ≡ (
          if (scan_page prepare parse threshold ps).0
          then scan_page prepare parse threshold ps
          else (
            (scan_page prepare parse threshold qs).0,
            (scan_page prepare parse threshold ps).1 ++ (scan_page prepare parse threshold qs).1,
          ))
  unfolding scan_page
  scan-append [] qs = refl
  scan-append (p ∷ ps) qs = ground (arith, scan-append ps qs)

  pub fetch_served :
      (request : Request) (n k : ℕ) (ps : List Listed)
      → k < n
      → request (suc k) ≡ some (page_response n k ps)
      → fetch_page request (suc k) ≡ some (page_response n k ps)
  unfolding fetch_page check_page
  fetch_served request n k ps h e = rw e (ground arith)

  round_served :
      (continue : ℕ → List Listed → Fetched (List Listed)) (n k : ℕ) (all ps : List Listed)
      → ps ≢ []
      → since_round prepare parse threshold continue (suc k) all (some (page_response n k ps))
        ≡ after_page continue (suc k) n all (scan_page prepare parse threshold ps)
  unfolding since_round since_listed
  round_served continue n k all [] h = absurd (h refl)
  round_served continue n k all (p ∷ ps) h = refl

  after_served :
      (continue : ℕ → List Listed → Fetched (List Listed)) (n k : ℕ) (all : List Listed)
      (t rest : Bool × List Listed)
      → (n ≤ suc k → rest.1 ≡ [])
      → (suc k < n → continue (suc (suc k)) (all ++ t.1) ≡ fetched ((all ++ t.1) ++ rest.1))
      → after_page continue (suc k) n all t
        ≡ fetched (all ++ (if t.0 then t else (rest.0, t.1 ++ rest.1)).1)
  unfolding after_page
  after_served continue n k all (true, taken) rest last more = refl
  after_served continue n k all (false, taken) rest last more = elim (Bool-cases (leb n (suc k))) [
    | inl e ↦ let nil = last (ground (arith, e)) in rw (e, nil, append-nil taken)
    | inr e ↦ rw e (more (ground (arith, e)) ∙ ap fetched (append_assoc all taken rest.1))
  ]

  since_served :
      (request : Request) (n k : ℕ) (pss : List (List Listed)) (ps all : List Listed)
      → Serves request n k (ps ∷ pss)
      → k + length (ps ∷ pss) ≡ n
      → since_pages prepare parse threshold request (length (ps ∷ pss)) (suc k) all
        ≡ fetched (all ++ (scan_page prepare parse threshold (flatten (ps ∷ pss))).1)
  unfolding since_pages flatten scan_page
  since_served request n k [] ps all h e =
      let got = fetch_served request n k ps (omega (arith, e)) h.0 in
      let continue = since_pages prepare parse threshold request 0 in
      let scan = scan_page prepare parse threshold ps in
      rw (got, scan-append ps [])
        (round_served continue n k all ps h.1
          ∙ after_served continue n k all scan (false, []) (λ _. refl)
              (λ l. absurd (omega (arith, l, e))))
  since_served request n k (qs ∷ pss) ps all h e =
      let got = fetch_served request n k ps (omega (arith, e)) h.0 in
      let continue = since_pages prepare parse threshold request (length (qs ∷ pss)) in
      let scan = scan_page prepare parse threshold ps in
      let rest = scan_page prepare parse threshold (flatten (qs ∷ pss)) in
      rw (got, scan-append ps (flatten (qs ∷ pss)))
        (round_served continue n k all ps h.1
          ∙ after_served continue n k all scan rest (λ l. absurd (omega (arith, l, e)))
              (λ l. since_served request n (suc k) pss qs (all ++ scan.1) h.2 (omega (arith, e))))

  none_recent :
      (p : Listed) (t : ℕ) (qs : List Listed)
      → parse p.last_updated_raw ≡ some t
      → t < threshold
      → All (IsNotLater parse p) qs
      → select (is_recent parse threshold) qs ≡ []
  none_recent p t [] e l h = refl
  none_recent p t (q ∷ qs) e l h = elim (Option-cases (parse q.last_updated_raw)) [
    | inl none' ↦ ground (arith, none', none_recent p t qs e l h.1)
    | inr (u, some') ↦ ground (arith, some', h.0 t u e some', none_recent p t qs e l h.1)
  ]

  scan-select :
      (ps : List Listed)
      → IsLatestFirst parse ps
      → (scan_page prepare parse threshold ps).1
        ≡ map prepare (select (is_recent parse threshold) ps)
  unfolding scan_page
  scan-select [] h = refl
  scan-select (p ∷ ps) h = elim (Option-cases (parse p.last_updated_raw)) [
    | inl none' ↦ ground (arith, none', scan-select ps h.1)
    | inr (t, some') ↦ elim (Bool-cases (ltb t threshold)) [
      | inl old ↦
          ground (
            arith,
            some',
            old,
            ap (map prepare) (none_recent p t ps some' (ground (arith, old)) h.0),
          )
      | inr new ↦ ground (arith, some', new, scan-select ps h.1)
    ]
  ]

  since_recent :
      (request : Request) (pss : List (List Listed)) (ps : List Listed)
      → Serves request (length (ps ∷ pss)) 0 (ps ∷ pss)
      → IsLatestFirst parse (flatten (ps ∷ pss))
      → since_pages prepare parse threshold request (length (ps ∷ pss)) 1 []
        ≡ fetched (map prepare (select (is_recent parse threshold) (flatten (ps ∷ pss))))
  since_recent request pss ps h sorted =
      since_served request (length (ps ∷ pss)) 0 pss ps [] h (omega arith)
      ∙ ap fetched (scan-select (flatten (ps ∷ pss)) sorted)

-- If the API serves its whole list on pages, none of them empty and the latest update first, then the
-- fetches of updates return exactly those of the list that were updated at most two hours before the
-- given time or later, in order, each with its source filled in, and a theme with its download link;
-- those whose time cannot be read are left out. They make at most one request for each page.
pub fetch_since-recent :
    (request : Request) (parse : Bytes → Option ℕ) (since : ℕ) (ps : List Listed)
    (pss : List (List Listed))
    → Serves request (length (ps ∷ pss)) 0 (ps ∷ pss)
    → IsLatestFirst parse (flatten (ps ∷ pss))
    → (fetch_plugins_since (length (ps ∷ pss)) request parse since
        ≡ fetched
            (map default_source (select (is_recent parse (since - overlap)) (flatten (ps ∷ pss)))))
      × (fetch_themes_since (length (ps ∷ pss)) request parse since
          ≡ fetched
              (map prepare_theme (select (is_recent parse (since - overlap)) (flatten (ps ∷ pss)))))
unfolding fetch_plugins_since fetch_themes_since
fetch_since-recent request parse since ps pss h sorted = (
  since_recent default_source parse (since - overlap) request pss ps h sorted,
  since_recent prepare_theme parse (since - overlap) request pss ps h sorted,
)
