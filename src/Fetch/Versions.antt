-- ===== src/Fetch/Versions.antt =====
-- The order of core releases by their versions: `compareVersions`, `sortCoresByVersion` and the choice of
-- releases to index in internal/repo/cores.go.
pub mod Order
pub mod Parts
pub mod Laws
use veloria.Base.{
  ℕ, zero, suc, ◌+◌, ◌-◌, ◌^◌, Bool, true, false, ◌&&◌, ◌||◌, not, Option, none, some, List, [],
  ◌∷◌, ◌++◌, map, ltb, ◌==◌, if◌then◌else◌, Bytes,
}
use veloria.Base.Int.{ℤ, pos, negsuc}
use veloria.Base.Atoi.{is_digit, all_digits, atoi}
use veloria.Base.Exchange.{exchange_sort}
use veloria.Store.{Extension, Store, get, has_index}

-- strings.Split(s, "."): the part in front, and the parts behind each dot
unfoldable pub add_front : ℕ → List Bytes → List Bytes
add_front c [] = (c ∷ []) ∷ []
add_front c (s ∷ ss) = (c ∷ s) ∷ ss

unfoldable pub split_dots : Bytes → List Bytes
split_dots [] = [] ∷ []
split_dots (c ∷ s) = let rest = split_dots s in if c == 46 then [] ∷ rest else add_front c rest

-- The number that strconv.Atoi returns beside its error: the nearest int64 of a number out of range, and
-- 0 of what is no number.
unfoldable pub out_of_range : Bytes → ℤ
out_of_range [] = pos 0
out_of_range (c ∷ []) = pos 0
out_of_range (c ∷ d ∷ s) =
    if c == b'-' && all_digits (d ∷ s)
    then negsuc (2 ^ 63 - 1)
    else if (c == b'+' || is_digit c) && all_digits (d ∷ s)
    then pos (2 ^ 63 - 1)
    else pos 0

unfoldable pub number : Bytes → ℤ
number s = elim (atoi s) [ some z ↦ z | none ↦ out_of_range s ]

-- a < b
unfoldable pub lt_int : ℤ → ℤ → Bool
lt_int (pos m) (pos n) = ltb m n
lt_int (pos m) (negsuc n) = false
lt_int (negsuc m) (pos n) = true
lt_int (negsuc m) (negsuc n) = ltb n m

-- the result of a comparison: -1, 0 or 1
pub data Comparison : Type 0 where
  smaller same larger : Comparison

unfoldable pub compare_numbers : ℤ → ℤ → Comparison → Comparison
compare_numbers a b rest = if lt_int a b then smaller else if lt_int b a then larger else rest

-- the loop over the segments; a missing one counts as 0
unfoldable pub compare_parts : List ℤ → List ℤ → Comparison
compare_parts [] [] = same
compare_parts [] (b ∷ bs) = compare_numbers (pos 0) b (compare_parts [] bs)
compare_parts (a ∷ as') [] = compare_numbers a (pos 0) (compare_parts as' [])
compare_parts (a ∷ as') (b ∷ bs) = compare_numbers a b (compare_parts as' bs)

unfoldable pub version_numbers : Bytes → List ℤ
version_numbers v = map number (split_dots v)

-- `compareVersions`
unfoldable pub compare_versions : Bytes → Bytes → Comparison
compare_versions a b = compare_parts (version_numbers a) (version_numbers b)

unfoldable pub is_larger : Comparison → Bool
is_larger smaller = false
is_larger same = false
is_larger larger = true

-- the test of the sort, of the later element with the earlier one
unfoldable pub comes_first : Extension → Extension → Bool
comes_first later earlier = is_larger (compare_versions earlier.version later.version)

-- `sortCoresByVersion`
unfoldable pub sort_cores_by_version : List Extension → List Extension
sort_cores_by_version cores = exchange_sort comes_first cores

-- `isVersionIndexed`
unfoldable pub is_version_indexed : Bytes → Store → Bool
is_version_indexed version s = elim (get version s) [ none ↦ false | some e ↦ has_index e s ]

unfoldable pub not_indexed : List Extension → Store → List Extension
not_indexed [] s = []
not_indexed (c ∷ cs) s =
    let rest = not_indexed cs s in if is_version_indexed c.version s then rest else c ∷ rest

-- the releases that `PrepareUpdates` of the core store hands on, out of those fetched
unfoldable pub cores_to_index : List Extension → Store → List Extension
cores_to_index cores s = sort_cores_by_version (not_indexed cores s)
