-- ===== src/Fetch/Paging.antt =====
-- The loops over pages end.
use veloria.Base.{
  ℕ, zero, suc, ◌+◌, ◌-◌, ◌≤◌, ◌<◌, ◌≡◌, ◌≢◌, refl, Bool, true, false, Option, none, some, List, [],
  ◌∷◌, ◌++◌, arith, leb, Bytes, Bool-cases, Option-cases, inl, inr,
}
use veloria.Fetch.{
  Listed, PageResponse, Request, check_page, fetch_page, Fetched, exhausted, scan_page, after_page,
  since_listed, since_round, since_pages, fetch_plugins_since, fetch_themes_since, default_source,
  prepare_theme, overlap,
}

-- no response speaks of more pages
abbrev pub IsBounded : Request → ℕ → Type 0
IsBounded request n = (k : ℕ) (r : PageResponse) → request k ≡ some r → r.info.pages ≤ n

pub fetch_page-request :
    (request : Request) (k : ℕ) (r : PageResponse)
    → fetch_page request k ≡ some r
    → request k ≡ some r
unfolding fetch_page check_page
fetch_page-request request k r h = elim (Option-cases (request k)) [
  | inl e ↦ cc (rw (e, check_page) at h)
  | inr (q, e) ↦ ground (arith, e)
]

after_page-ends :
    (continue : ℕ → List Listed → Fetched (List Listed)) (page pages : ℕ) (all : List Listed)
    (taken : Bool × List Listed)
    → ((xs : List Listed) → page < pages → continue (suc page) xs ≢ exhausted)
    → after_page continue page pages all taken ≢ exhausted
unfolding after_page
after_page-ends continue page pages all (true, taken) h e = cc
after_page-ends continue page pages all (false, taken) h e = elim (Bool-cases (leb pages page)) [
  | inl l ↦ cc (rw l at e)
  | inr l ↦ h (all ++ taken) (ground (arith, l)) (rw l at e)
]

module _ (prepare : Listed → Listed) (parse : Bytes → Option ℕ) (threshold : ℕ) where
  since_listed-ends :
      (continue : ℕ → List Listed → Fetched (List Listed)) (page pages : ℕ) (all ps : List Listed)
      → ((xs : List Listed) → page < pages → continue (suc page) xs ≢ exhausted)
      → since_listed prepare parse threshold continue page pages all ps ≢ exhausted
  unfolding since_listed
  since_listed-ends continue page pages all [] h e = cc
  since_listed-ends continue page pages all (p ∷ ps) h e =
      after_page-ends continue page pages all (scan_page prepare parse threshold (p ∷ ps)) h e

  since_round-ends :
      (request : Request) (n : ℕ) (continue : ℕ → List Listed → Fetched (List Listed)) (page : ℕ)
      (all : List Listed) (o : Option PageResponse)
      → IsBounded request n
      → fetch_page request page ≡ o
      → ((xs : List Listed) → page < n → continue (suc page) xs ≢ exhausted)
      → since_round prepare parse threshold continue page all o ≢ exhausted
  unfolding since_round
  since_round-ends request n continue page all none b f h e = cc
  since_round-ends request n continue page all (some r) b f h e =
      let few = b page r (fetch_page-request request page r f) in
      since_listed-ends continue page r.info.pages all r.listed
        (λ xs l. h xs (omega (arith, few, l))) e

  since_pages-ends :
      (request : Request) (n fuel page : ℕ) (all : List Listed)
      → IsBounded request n
      → 1 ≤ fuel
      → n + 1 ≤ fuel + page
      → since_pages prepare parse threshold request fuel page all ≢ exhausted
  unfolding since_pages
  since_pages-ends request n zero page all b h k e = absurd (omega (arith, h))
  since_pages-ends request n (suc fuel) page all b h k e =
      since_round-ends request n (since_pages prepare parse threshold request fuel) page all
        (fetch_page request page) b refl
        (λ xs l.
          since_pages-ends request n fuel (suc page) xs b (omega (arith, k, l)) (omega (arith, k)))
        e

-- The fetches of the updated plugins and of the updated themes end within n + 1 requests, if no response
-- speaks of more than n pages.
pub fetch_since-ends :
    (request : Request) (parse : Bytes → Option ℕ) (since n : ℕ)
    → IsBounded request n
    → (fetch_plugins_since (suc n) request parse since ≢ exhausted)
      × (fetch_themes_since (suc n) request parse since ≢ exhausted)
unfolding fetch_plugins_since fetch_themes_since
fetch_since-ends request parse since n b = (
  since_pages-ends default_source parse (since - overlap) request n (suc n) 1 [] b (omega arith)
      (omega arith),
  since_pages-ends prepare_theme parse (since - overlap) request n (suc n) 1 [] b (omega arith)
      (omega arith),
)
