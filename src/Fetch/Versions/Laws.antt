-- ===== src/Fetch/Versions/Laws.antt =====
-- The releases to index are sorted by version.
use mathlib.Core.List.{Perm}
use veloria.Base.{◌≡◌, refl, true, false, List, [], ◌∷◌, arith, select, not, ◌↔◌, All-map, Bytes}
use veloria.Base.Int.{ℤ, pos, negsuc}
use veloria.Base.Exchange.{IsOrdered, exchange_sort-perm, exchange_sort-IsOrdered}
use veloria.Store.{Extension, Store}
use veloria.Fetch.Versions.Parts.{HasNumbers, version_numbers-HasNumbers}
use veloria.Fetch.Versions.Order.{
  IsLarger, IsAscending, IsIndexed, not_first, is_version_indexed_iff,
}
use veloria.Fetch.Versions.{
  lt_int, Comparison, smaller, same, larger, compare_numbers, compare_parts, version_numbers,
  compare_versions, is_larger, comes_first, sort_cores_by_version, is_version_indexed, not_indexed,
  cores_to_index,
}

lt_int_irrefl : (a : ℤ) → lt_int a a ≡ false
unfolding lt_int
lt_int_irrefl (pos m) = ground arith
lt_int_irrefl (negsuc m) = ground arith

lt_int_asymm : (a b : ℤ) → lt_int a b ≡ true → lt_int b a ≡ false
unfolding lt_int
lt_int_asymm (pos m) (pos n) h = ground arith
lt_int_asymm (pos m) (negsuc n) h = cc
lt_int_asymm (negsuc m) (pos n) h = refl
lt_int_asymm (negsuc m) (negsuc n) h = ground arith

-- of three numbers: ≤ is transitive
not_lt_trans : (a b c : ℤ) → lt_int b a ≡ false → lt_int c b ≡ false → lt_int c a ≡ false
unfolding lt_int
not_lt_trans (pos m) (pos n) (pos o) h k = ground arith
not_lt_trans (pos m) (pos n) (negsuc o) h k = cc
not_lt_trans (pos m) (negsuc n) c h k = cc
not_lt_trans (negsuc m) (pos n) (pos o) h k = refl
not_lt_trans (negsuc m) (pos n) (negsuc o) h k = cc
not_lt_trans (negsuc m) (negsuc n) (pos o) h k = refl
not_lt_trans (negsuc m) (negsuc n) (negsuc o) h k = ground arith

-- the comparison the other way round
flip : Comparison → Comparison
flip smaller = larger
flip same = same
flip larger = smaller

compare_numbers-flip :
    (a b : ℤ) (r s : Comparison) → s ≡ flip r → compare_numbers b a s ≡ flip (compare_numbers a b r)
unfolding compare_numbers flip
compare_numbers-flip a b r s h = ground (arith, lt_int_asymm a b)

compare_parts-flip : (as' bs : List ℤ) → compare_parts bs as' ≡ flip (compare_parts as' bs)
unfolding compare_parts
compare_parts-flip [] [] = unfold flip in refl
compare_parts-flip [] (b ∷ bs) = compare_numbers-flip (pos 0) b _ _ (compare_parts-flip [] bs)
compare_parts-flip (a ∷ as') [] = compare_numbers-flip a (pos 0) _ _ (compare_parts-flip as' [])
compare_parts-flip (a ∷ as') (b ∷ bs) = compare_numbers-flip a b _ _ (compare_parts-flip as' bs)

compare_numbers_trans :
    (a b c : ℤ) (r s t : Comparison)
    → (is_larger r ≡ false → is_larger s ≡ false → is_larger t ≡ false)
    → is_larger (compare_numbers a b r) ≡ false
    → is_larger (compare_numbers b c s) ≡ false
    → is_larger (compare_numbers a c t) ≡ false
unfolding compare_numbers is_larger
compare_numbers_trans a b c r s t ih h k = ground (
  arith,
  not_lt_trans a b c,
  not_lt_trans c b a,
  not_lt_trans b c a,
  not_lt_trans a c b,
  not_lt_trans b a c,
  not_lt_trans c a b,
  lt_int_asymm a b,
  lt_int_asymm b a,
  lt_int_asymm b c,
  lt_int_asymm c b,
  lt_int_asymm a c,
  lt_int_asymm c a,
  ih,
)

compare_parts_trans :
    (as' bs cs : List ℤ)
    → is_larger (compare_parts as' bs) ≡ false
    → is_larger (compare_parts bs cs) ≡ false
    → is_larger (compare_parts as' cs) ≡ false
unfolding compare_parts
compare_parts_trans [] [] [] h k = h
compare_parts_trans [] [] (c ∷ cs) h k = k
compare_parts_trans [] (b ∷ bs) [] h k = unfold is_larger in refl
compare_parts_trans [] (b ∷ bs) (c ∷ cs) h k =
    compare_numbers_trans (pos 0) b c _ _ _ (compare_parts_trans [] bs cs) h k
compare_parts_trans (a ∷ as') [] [] h k = h
compare_parts_trans (a ∷ as') [] (c ∷ cs) h k =
    compare_numbers_trans a (pos 0) c _ _ _ (compare_parts_trans as' [] cs) h k
compare_parts_trans (a ∷ as') (b ∷ bs) [] h k =
    compare_numbers_trans a b (pos 0) _ _ _ (compare_parts_trans as' bs []) h k
compare_parts_trans (a ∷ as') (b ∷ bs) (c ∷ cs) h k =
    compare_numbers_trans a b c _ _ _ (compare_parts_trans as' bs cs) h k

comes_first_asymm : (a b : Extension) → comes_first a b ≡ true → comes_first b a ≡ false
unfolding comes_first compare_versions is_larger
comes_first_asymm a b h =
    let e = compare_parts-flip (version_numbers b.version) (version_numbers a.version) in
    unfold flip in ground (arith, e)

comes_first_trans :
    (a b c : Extension)
    → comes_first b a ≡ false
    → comes_first c b ≡ false
    → comes_first c a ≡ false
unfolding comes_first compare_versions
comes_first_trans a b c h k =
    compare_parts_trans (version_numbers a.version) (version_numbers b.version)
      (version_numbers c.version) h k

compare_parts_self : (as' : List ℤ) → is_larger (compare_parts as' as') ≡ false
unfolding compare_parts compare_numbers is_larger
compare_parts_self [] = refl
compare_parts_self (a ∷ as') = ground (arith, lt_int_irrefl a, compare_parts_self as')

comes_first_irrefl : (a : Extension) → comes_first a a ≡ false
unfolding comes_first compare_versions
comes_first_irrefl a = compare_parts_self (version_numbers a.version)

not_indexed-select :
    (cores : List Extension) (s : Store)
    → not_indexed cores s ≡ select (λ c. not (is_version_indexed c.version s)) cores
unfolding not_indexed
not_indexed-select [] s = refl
not_indexed-select (c ∷ cs) s = ground (arith, not_indexed-select cs s)

ordered-IsAscending : (cs : List Extension) → IsOrdered comes_first cs → IsAscending cs
ordered-IsAscending [] h = tt
ordered-IsAscending (c ∷ cs) h = (
  All-map (λ d. comes_first d c ≡ false)
      (λ d. ¬ IsLarger (version_numbers c.version) (version_numbers d.version)) (not_first c) cs
      h.0,
  ordered-IsAscending cs h.1,
)

-- The releases to index are exactly those fetched whose version is not found to be indexed, each as often
-- as it was fetched; a version is found to be indexed exactly if an extension is listed under it with an
-- index at its place; and no release stands behind one with a larger version, which is one that has the
-- larger number at the first place where they differ, with missing numbers as 0. The numbers of a version
-- are those of the parts without dots that, with dots between them, make it up.
pub cores_to_index-sorted :
    (cores : List Extension) (s : Store)
    → Perm (cores_to_index cores s) (select (λ c. not (is_version_indexed c.version s)) cores)
      × ((version : Bytes) → (is_version_indexed version s ≡ true) ↔ IsIndexed version s)
      × IsAscending (cores_to_index cores s)
      × ((version : Bytes) → HasNumbers version (version_numbers version))
unfolding cores_to_index sort_cores_by_version
cores_to_index-sorted cores s = rw (not_indexed-select cores s) (
  exchange_sort-perm comes_first _,
  (λ version. is_version_indexed_iff version s),
  ordered-IsAscending _ (
      exchange_sort-IsOrdered comes_first comes_first_asymm comes_first_trans comes_first_irrefl _),
  version_numbers-HasNumbers,
)
