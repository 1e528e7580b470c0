-- ===== src/Manager/Search/Keys.antt =====
-- When two searches have one key in the cache.
use veloria.Base.{
  ℕ, ◌≡◌, ◌≢◌, refl, sym, ap, Bool, true, false, [], ◌∷◌, arith, All, Bytes, codes, append_assoc,
}
use veloria.Base.Decimal.{decimal, decimal_inj}
use veloria.Manager.Search.{SearchParams, Query, bool_text, part, search_cache_key}

-- no byte is a colon
abbrev pub IsPlain : Bytes → Type 0
IsPlain s = All (λ c. c ≢ 58) s

-- a search with no colon in what its key is made of
pub record IsPlainQuery (q : Query) : Type 0 where
  pub repo_type : IsPlain q.repo_type
  pub term : IsPlain q.term
  pub file_match : IsPlain q.params.file_match
  pub exclude_file_match : IsPlain q.params.exclude_file_match

head_tail : {a b : ℕ} {s t : Bytes} → a ∷ s ≡ b ∷ t → (a ≡ b) × (s ≡ t)
head_tail h = (cc, cc)

part_inj : (s t x y : Bytes) → IsPlain s → IsPlain t → part s x ≡ part t y → (s ≡ t) × (x ≡ y)
part_inj [] [] x y p q h = (refl, cc)
part_inj [] (b ∷ t) x y p q h = absurd (q.0 (sym (head_tail h).0))
part_inj (a ∷ s) [] x y p q h = absurd (p.0 (head_tail h).0)
part_inj (a ∷ s) (b ∷ t) x y p q h =
    let (e, f) = head_tail h in let (i, j) = part_inj s t x y p.1 q.1 f in (cc, j)

bool_text-IsPlain : (b : Bool) → IsPlain (bool_text b)
unfolding bool_text
bool_text-IsPlain true = omega arith
bool_text-IsPlain false = omega arith

bool_text_inj : (a b : Bool) → bool_text a ≡ bool_text b → a ≡ b
unfolding bool_text
bool_text_inj true true h = refl
bool_text_inj true false h = cc
bool_text_inj false true h = cc
bool_text_inj false false h = refl

query_eq : (q r : Query) → q.repo_type ≡ r.repo_type → q.term ≡ r.term → q.params ≡ r.params → q ≡ r
query_eq q r a b c = λ i. record { repo_type = a i; term = b i; params = c i }

params_eq :
    (p r : SearchParams)
    → p.file_match ≡ r.file_match
    → p.exclude_file_match ≡ r.exclude_file_match
    → p.case_insensitive ≡ r.case_insensitive
    → p.lines_of_context ≡ r.lines_of_context
    → p ≡ r
params_eq p r a b c d = λ i. record {
  file_match = a i;
  exclude_file_match = b i;
  case_insensitive = c i;
  lines_of_context = d i;
}

-- Two searches with no colon in their terms and file patterns have one key only if they are the same.
pub search_cache_key_inj :
    (q r : Query)
    → IsPlainQuery q
    → IsPlainQuery r
    → search_cache_key q ≡ search_cache_key r
    → q ≡ r
unfolding search_cache_key
search_cache_key_inj q r p k h =
    let (_, h1) = part_inj (codes "search") (codes "search") _ _ (omega arith) (omega arith) h in
    let (e1, h2) = part_inj _ _ _ _ p.repo_type k.repo_type h1 in
    let (e2, h3) = part_inj _ _ _ _ p.term k.term h2 in
    let (e3, h4) =
      part_inj _ _ _ _ (bool_text-IsPlain q.params.case_insensitive)
        (bool_text-IsPlain r.params.case_insensitive) h3 in
    let (e4, h5) = part_inj _ _ _ _ p.file_match k.file_match h4 in
    let (e5, h6) = part_inj _ _ _ _ p.exclude_file_match k.exclude_file_match h5 in
    query_eq q r e1 e2
      (params_eq q.params r.params e4 e5 (bool_text_inj _ _ e3) (decimal_inj _ _ h6))

part_assoc : (s x rest : Bytes) → part (part s x) rest ≡ part s (part x rest)
part_assoc s x rest = append_assoc s (58 ∷ x) (58 ∷ rest)

-- A search for `t` with the file pattern `false:f`, and one for `t:false` with the pattern `f`.
abbrev pub with_colon : Bytes → Bytes → Bytes → Bytes → ℕ → Query
with_colon repo t f e n = record {
  repo_type = repo;
  term = t;
  params = record {
    file_match = part (codes "false") f;
    exclude_file_match = e;
    case_insensitive = false;
    lines_of_context = n;
  };
}

abbrev pub moved_colon : Bytes → Bytes → Bytes → Bytes → ℕ → Query
moved_colon repo t f e n = record {
  repo_type = repo;
  term = part t (codes "false");
  params = record {
    file_match = f;
    exclude_file_match = e;
    case_insensitive = false;
    lines_of_context = n;
  };
}

pub search_cache_key_collides :
    (repo t f e : Bytes) (n : ℕ)
    → search_cache_key (with_colon repo t f e n) ≡ search_cache_key (moved_colon repo t f e n)
unfolding search_cache_key bool_text
search_cache_key_collides repo t f e n =
    let rest = part (codes "false") (part f (part e (decimal n))) in
    ap (λ x. part (codes "search") (part repo x)) (sym (part_assoc t (codes "false") rest))
