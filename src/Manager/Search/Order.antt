-- ===== src/Manager/Search/Order.antt =====
-- The order of the results that a search answers with.
use mathlib.Core.List.{Perm}
use mathlib.Core.List.Perm
use veloria.Base.{
  ℕ, Bytes, subst, ◌≡◌, refl, true, false, some, List, [], ◌∷◌, map, arith, All, Bool-cases, inl,
  inr, ◌⊎◌, ◌<◌, ◌+◌, ap, length, All-map, bytes_lt, bytes_lt_irrefl, bytes_lt_trans,
  bytes_lt_total,
}
use veloria.Codec.{FileMatch, SearchResult, SearchResponse}
use veloria.Manager.Search.{
  Found, count_matches, result_of, less, insert_sorted, sort_results, response_of, answered,
  source_answer,
}

-- each result stands behind none that should come later
abbrev pub IsOrdered : List SearchResult → Type 0
IsOrdered [] = Unit
IsOrdered (a ∷ as') = All (λ b. less b a ≡ false) as' × IsOrdered as'

insert_sorted-perm :
    (a : SearchResult) (bs : List SearchResult) → Perm (insert_sorted a bs) (a ∷ bs)
unfolding insert_sorted
insert_sorted-perm a [] = Perm.refl (a ∷ [])
insert_sorted-perm a (b ∷ bs) = elim (Bool-cases (less b a)) [
  | inl h ↦ rw h (Perm.trans (Perm.cons b (insert_sorted-perm a bs)) (Perm.swap a b bs))
  | inr h ↦ rw h (Perm.refl (a ∷ (b ∷ bs)))
]

sort_results-perm : (bs : List SearchResult) → Perm (sort_results bs) bs
unfolding sort_results
sort_results-perm [] = Perm.refl []
sort_results-perm (a ∷ bs) =
    Perm.trans (insert_sorted-perm a (sort_results bs)) (Perm.cons a (sort_results-perm bs))

less_asymm : (a b : SearchResult) → less a b ≡ true → less b a ≡ false
unfolding less
less_asymm a b h = ground (arith, bytes_lt_irrefl a.slug, bytes_lt_trans a.slug b.slug a.slug)

not_lt_trans : (s t u : Bytes) → bytes_lt t s ≡ false → bytes_lt u t ≡ false → bytes_lt u s ≡ false
not_lt_trans s t u h k = elim (Bool-cases (bytes_lt u s)) [
  | inr e ↦ e
  | inl e ↦ elim (Bool-cases (bytes_lt s t)) [
    | inl l ↦ cc (bytes_lt_trans u s t e l)
    | inr l ↦ let same = bytes_lt_total s t l h in cc (rw same at e)
  ]
]

-- `less` negated is transitive
not_less_trans : (a b c : SearchResult) → less b a ≡ false → less c b ≡ false → less c a ≡ false
unfolding less
not_less_trans a b c h k = ground (arith, not_lt_trans a.slug b.slug c.slug)

All-not_less_trans :
    (a b : SearchResult) (cs : List SearchResult)
    → less b a ≡ false
    → All (λ c. less c b ≡ false) cs
    → All (λ c. less c a ≡ false) cs
All-not_less_trans a b [] h k = tt
All-not_less_trans a b (c ∷ cs) h k = (not_less_trans a b c h k.0, All-not_less_trans a b cs h k.1)

All-insert_sorted :
    (x a : SearchResult) (bs : List SearchResult)
    → less a x ≡ false
    → All (λ c. less c x ≡ false) bs
    → All (λ c. less c x ≡ false) (insert_sorted a bs)
unfolding insert_sorted
All-insert_sorted x a [] h k = (h, tt)
All-insert_sorted x a (b ∷ bs) h k = elim (Bool-cases (less b a)) [
  | inl e ↦ rw e (k.0, All-insert_sorted x a bs h k.1)
  | inr e ↦ rw e (h, k)
]

insert_sorted-IsOrdered :
    (a : SearchResult) (bs : List SearchResult) → IsOrdered bs → IsOrdered (insert_sorted a bs)
unfolding insert_sorted
insert_sorted-IsOrdered a [] h = (tt, tt)
insert_sorted-IsOrdered a (b ∷ bs) h = elim (Bool-cases (less b a)) [
  | inl e ↦ rw e (All-insert_sorted b a bs (less_asymm b a e) h.0, insert_sorted-IsOrdered a bs h.1)
  | inr e ↦ rw e ((e, All-not_less_trans a b bs e h.0), h)
]

sort_results-IsOrdered : (bs : List SearchResult) → IsOrdered (sort_results bs)
unfolding sort_results
sort_results-IsOrdered [] = tt
sort_results-IsOrdered (a ∷ bs) =
    insert_sorted-IsOrdered a (sort_results bs) (sort_results-IsOrdered bs)

-- the smaller text, or the same
abbrev pub IsTextLe : Bytes → Bytes → Type 0
IsTextLe [] t = Unit
IsTextLe (c ∷ s) [] = ⊥
IsTextLe (c ∷ s) (d ∷ t) = (c < d) ⊎ ((c ≡ d) × IsTextLe s t)

not_lt-IsTextLe : (s t : Bytes) → bytes_lt t s ≡ false → IsTextLe s t
unfolding bytes_lt
not_lt-IsTextLe [] t h = tt
not_lt-IsTextLe (c ∷ s) [] h = cc
not_lt-IsTextLe (c ∷ s) (d ∷ t) h = ground (arith, h, not_lt-IsTextLe s t)

-- a result that may stand in front of another one
abbrev pub IsInFront : SearchResult → SearchResult → Type 0
IsInFront a b =
    (b.active_installs < a.active_installs)
    ⊎ ((a.active_installs ≡ b.active_installs) × IsTextLe a.slug b.slug)

abbrev pub IsRanked : List SearchResult → Type 0
IsRanked [] = Unit
IsRanked (a ∷ as') = All (IsInFront a) as' × IsRanked as'

not_less-IsInFront : (a b : SearchResult) → less b a ≡ false → IsInFront a b
unfolding less
not_less-IsInFront a b h = ground (arith, h, not_lt-IsTextLe a.slug b.slug)

IsOrdered-IsRanked : (rs : List SearchResult) → IsOrdered rs → IsRanked rs
IsOrdered-IsRanked [] h = tt
IsOrdered-IsRanked (a ∷ as') h = (
  All-map (λ b. less b a ≡ false) (IsInFront a) (not_less-IsInFront a) as' h.0,
  IsOrdered-IsRanked as' h.1,
)

-- the matching lines of all files
abbrev pub lines_in : List FileMatch → ℕ
lines_in [] = 0
lines_in (fm ∷ fms) = length fm.matches + lines_in fms

-- the result of an extension that was found
pub record IsShown (r : Found) (a : SearchResult) : Type 0 where
  pub same_slug : a.slug ≡ r.slug
  pub same_name : a.name ≡ r.name
  pub same_version : a.version ≡ r.version
  pub same_installs : a.active_installs ≡ r.active_installs
  pub same_downloads : a.downloaded ≡ r.downloaded
  pub same_matches : a.matches ≡ map some r.matches
  pub all_lines : a.total_matches ≡ lines_in r.matches

abbrev pub AreShown : List Found → List SearchResult → Type 0
AreShown [] [] = Unit
AreShown [] (a ∷ as') = ⊥
AreShown (r ∷ rs) [] = ⊥
AreShown (r ∷ rs) (a ∷ as') = IsShown r a × AreShown rs as'

count_matches-lines : (fms : List FileMatch) → count_matches fms ≡ lines_in fms
unfolding count_matches
count_matches-lines [] = refl
count_matches-lines (fm ∷ fms) = ap (λ n. length fm.matches + n) (count_matches-lines fms)

results-AreShown : (found : List Found) → AreShown found (map result_of found)
unfolding result_of
results-AreShown [] = tt
results-AreShown (r ∷ rs) = (
  record {
    same_slug = refl;
    same_name = refl;
    same_version = refl;
    same_installs = refl;
    same_downloads = refl;
    same_matches = refl;
    all_lines = count_matches-lines r.matches;
  },
  results-AreShown rs,
)

-- A response with a result for each extension that was found, each once and in order.
abbrev pub Ranks : SearchResponse → List Found → ℕ → Type 0
Ranks resp found total =
    (shown : List SearchResult) × (ranked : List SearchResult) × AreShown found shown
    × Perm ranked shown
    × IsRanked ranked
    × (resp.results ≡ map some ranked)
    × (resp.total ≡ total)

-- A search of a source answers with a result for each extension that the source found, with its data, its
-- matches and the count of its matching lines, each once, with more active installs first and the smaller
-- slug first among equal installs, and with the source's total.
pub source_answer-Ranks :
    (found : List Found) (total : ℕ) {resp : SearchResponse}
    → source_answer (some (found, total)) ≡ answered resp
    → Ranks resp found total
unfolding source_answer response_of
source_answer-Ranks found total {resp} h =
    let rs = map result_of found in
    let e : response_of found total ≡ resp = cc in
    subst (λ r. Ranks r found total) e
      (
        rs,
        sort_results rs,
        results-AreShown found,
        sort_results-perm rs,
        IsOrdered-IsRanked (sort_results rs) (sort_results-IsOrdered rs),
        refl,
        refl,
      )
