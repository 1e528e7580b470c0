-- ===== src/Fetch/Versions/Order.antt =====
-- The order of versions by their numbers, and which versions have an index, without the code's own tests.
use veloria.Base.{
  ℕ, zero, suc, ◌<◌, ◌≡◌, refl, subst, ◌↔◌, true, false, some, List, [], ◌∷◌, arith, All, Bytes,
  Option-cases, inl, inr,
}
use veloria.Base.Int.{ℤ, pos, negsuc}
use veloria.Base.Maps.{lookup}
use veloria.Store.{Extension, Store, get, has_index}
use veloria.Fetch.Versions.{
  lt_int, Comparison, compare_numbers, compare_parts, version_numbers, compare_versions, is_larger,
  comes_first, is_version_indexed,
}

-- the number at a place; a missing one is 0
abbrev pub part_at : List ℤ → ℕ → ℤ
part_at [] i = pos 0
part_at (n ∷ ns) zero = n
part_at (n ∷ ns) (suc i) = part_at ns i

abbrev pub IsBelow : ℤ → ℤ → Type 0
IsBelow (pos m) (pos n) = m < n
IsBelow (pos m) (negsuc n) = ⊥
IsBelow (negsuc m) (pos n) = Unit
IsBelow (negsuc m) (negsuc n) = n < m

-- At some place the first version has the larger number, and in front of it both have the same ones.
abbrev pub IsLarger : List ℤ → List ℤ → Type 0
IsLarger as' bs =
    (i : ℕ) × ((j : ℕ) → j < i → part_at as' j ≡ part_at bs j)
    × IsBelow (part_at bs i) (part_at as' i)

-- no release stands behind one with a larger version
abbrev pub IsAscending : List Extension → Type 0
IsAscending [] = Unit
IsAscending (c ∷ cs) =
    All (λ d. ¬ IsLarger (version_numbers c.version) (version_numbers d.version)) cs
    × IsAscending cs

-- a release that is listed with an index at its place
abbrev pub IsIndexed : Bytes → Store → Type 0
IsIndexed version s =
    (e : Extension) × (lookup version s.entries ≡ some e)
    × (a : ℕ) × (i : ℕ) × (e.indexed ≡ some a)
    × (s.index_at a ≡ some i)

below_larger : (a b : ℤ) (r : Comparison) → IsBelow b a → is_larger (compare_numbers a b r) ≡ true
unfolding compare_numbers lt_int is_larger
below_larger (pos m) (pos n) r h = ground (arith, h)
below_larger (pos m) (negsuc n) r h = refl
below_larger (negsuc m) (pos n) r h = absurd h
below_larger (negsuc m) (negsuc n) r h = ground (arith, h)

compare_numbers_same : (a : ℤ) (r : Comparison) → compare_numbers a a r ≡ r
unfolding compare_numbers lt_int
compare_numbers_same (pos m) r = ground arith
compare_numbers_same (negsuc m) r = ground arith

skip_same :
    (a b : ℤ) (r : Comparison)
    → a ≡ b
    → is_larger r ≡ true
    → is_larger (compare_numbers a b r) ≡ true
skip_same a b r e h =
    subst (λ x. is_larger (compare_numbers a x r) ≡ true) e (rw (compare_numbers_same a r) h)

larger_parts : (as' bs : List ℤ) → IsLarger as' bs → is_larger (compare_parts as' bs) ≡ true
unfolding compare_parts
larger_parts [] [] (i, same, below) = absurd (omega (arith, below))
larger_parts [] (b ∷ bs) (zero, same, below) = below_larger (pos 0) b _ below
larger_parts [] (b ∷ bs) (suc i, same, below) =
    skip_same (pos 0) b _ (same 0 (omega arith))
      (larger_parts [] bs (i, (λ j h. same (suc j) (omega (arith, h))), below))
larger_parts (a ∷ as') [] (zero, same, below) = below_larger a (pos 0) _ below
larger_parts (a ∷ as') [] (suc i, same, below) =
    skip_same a (pos 0) _ (same 0 (omega arith))
      (larger_parts as' [] (i, (λ j h. same (suc j) (omega (arith, h))), below))
larger_parts (a ∷ as') (b ∷ bs) (zero, same, below) = below_larger a b _ below
larger_parts (a ∷ as') (b ∷ bs) (suc i, same, below) =
    skip_same a b _ (same 0 (omega arith))
      (larger_parts as' bs (i, (λ j h. same (suc j) (omega (arith, h))), below))

pub not_first :
    (c d : Extension)
    → comes_first d c ≡ false
    → ¬ IsLarger (version_numbers c.version) (version_numbers d.version)
unfolding comes_first compare_versions
not_first c d h l = cc (larger_parts (version_numbers c.version) (version_numbers d.version) l)

IsIndexed-from :
    (version : Bytes) (s : Store) → is_version_indexed version s ≡ true → IsIndexed version s
unfolding is_version_indexed get has_index
IsIndexed-from version s h = elim (Option-cases (lookup version s.entries)) [
  | inl n ↦ cc (rw (is_version_indexed, get, n) at h)
  | inr (e, l) ↦ elim (Option-cases e.indexed) [
    | inl n ↦ cc (rw (is_version_indexed, get, l, has_index, n) at h)
    | inr (a, p) ↦ elim (Option-cases (s.index_at a)) [
      | inl n ↦ cc (rw (is_version_indexed, get, l, has_index, p, n) at h)
      | inr (i, q) ↦ (e, l, a, i, p, q)
    ]
  ]
]

IsIndexed-to :
    (version : Bytes) (s : Store) → IsIndexed version s → is_version_indexed version s ≡ true
unfolding is_version_indexed get has_index
IsIndexed-to version s (e, l, a, i, p, q) = rw (is_version_indexed, get, l, has_index, p, q) refl

pub is_version_indexed_iff :
    (version : Bytes) (s : Store) → (is_version_indexed version s ≡ true) ↔ IsIndexed version s
is_version_indexed_iff version s = (IsIndexed-from version s, IsIndexed-to version s)
