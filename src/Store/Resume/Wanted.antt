-- ===== src/Store/Resume/Wanted.antt =====
-- Which extensions are to be indexed for the first time, without the code's own tests.
use veloria.Base.{
  ℕ, ◌≡◌, ◌≢◌, refl, true, false, some, List, [], ◌∷◌, arith, All, Bytes, bytes_eq_iff, Bool-cases,
  Option-cases, inl, inr,
}
use veloria.Store.{Extension, Store, has_index}
use veloria.Store.Updates.{seen_before}
use veloria.Store.Resume.{is_closed, is_unindexed, unindexed}

-- It is none of the closed, no index stands at its place, if it has one, and it can be downloaded.
pub record IsWanted (closed : List Bytes) (s : Store) (e : Extension) : Type 0 where
  pub not_closed : All (λ k. k ≢ e.slug) closed
  pub no_index : (a i : ℕ) → e.indexed ≡ some a → s.index_at a ≢ some i
  pub link : e.download_link ≢ []

pub seen_before_none :
    (slug : Bytes) (ks : List Bytes) → All (λ k. k ≢ slug) ks → seen_before slug ks ≡ false
unfolding seen_before
seen_before_none slug [] h = refl
seen_before_none slug (k ∷ ks) h =
    ground (arith, h.0, bytes_eq_iff k slug, seen_before_none slug ks h.1)

pub seen_before_away :
    (slug : Bytes) (ks : List Bytes) → seen_before slug ks ≡ false → All (λ k. k ≢ slug) ks
unfolding seen_before
seen_before_away slug [] h = tt
seen_before_away slug (k ∷ ks) h = (
  λ x. ground (arith, h, (bytes_eq_iff k slug).1 x),
  seen_before_away slug ks (ground (arith, h)),
)

has_no_index :
    (s : Store) (e : Extension)
    → ((a i : ℕ) → e.indexed ≡ some a → s.index_at a ≢ some i)
    → has_index e s ≡ false
unfolding has_index
has_no_index s e h = elim (Option-cases e.indexed) [
  | inl n ↦ rw n refl
  | inr (a, p) ↦ elim (Option-cases (s.index_at a)) [
    | inl n ↦ rw (p, n) refl
    | inr (i, q) ↦ absurd (h a i p q)
  ]
]

no_index_there :
    (s : Store) (e : Extension) (a i : ℕ)
    → has_index e s ≡ false
    → e.indexed ≡ some a
    → s.index_at a ≢ some i
unfolding has_index
no_index_there s e a i h p q = cc (rw (p, q) at h)

module _ (closed : List Bytes) (s : Store) where
  pub IsWanted-is_unindexed : (e : Extension) → IsWanted closed s e → is_unindexed closed s e ≡ true
  unfolding is_unindexed is_closed
  IsWanted-is_unindexed e w =
      let unseen = seen_before_none e.slug closed w.not_closed in
      let bare = has_no_index s e w.no_index in
      ground (arith, unseen, bare, w.link, bytes_eq_iff e.download_link [])

  is_unindexed-IsWanted : (e : Extension) → is_unindexed closed s e ≡ true → IsWanted closed s e
  unfolding is_unindexed is_closed
  is_unindexed-IsWanted e t = record {
    not_closed = seen_before_away e.slug closed (ground (arith, t));
    no_index = λ a i. no_index_there s e a i (ground (arith, t));
    link = λ x. ground (arith, t, (bytes_eq_iff e.download_link []).1 x);
  }

  pub unindexed-IsWanted :
      (m : List (Bytes × Extension)) → All (IsWanted closed s) (unindexed closed s m)
  unfolding unindexed
  unindexed-IsWanted [] = tt
  unindexed-IsWanted ((k, e) ∷ m) = elim (Bool-cases (is_unindexed closed s e)) [
    | inl t ↦ rw t (is_unindexed-IsWanted e t, unindexed-IsWanted m)
    | inr t ↦ rw t (unindexed-IsWanted m)
  ]
