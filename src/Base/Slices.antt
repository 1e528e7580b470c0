-- ===== src/Base/Slices.antt =====
-- `s[:i]`, `s[i:]` and `s[i:j]` of a sequence that is given in parts.
use Prim.Native.Nat.{ℕ, zero, suc, ◌+◌, ◌-◌, ◌≤◌}
use mathlib.Core.Path.{◌≡◌, refl, ap}
use mathlib.Core.List.{List, [], ◌∷◌, ◌++◌, append_assoc}
use mathlib.Core.Option.{some}
use native.Mathlib.Omega.{arith}
use veloria.Base.Lists.{length, take, drop, get_elem?, length-append}

module _ {ℓ} {A : Type ℓ} where
  -- s[i:j]
  abbrev pub slice : List A → ℕ → ℕ → List A
  slice xs i j = take (j - i) (drop i xs)

module _ {ℓ} {A : Type ℓ} where
  pub take_prefix : (xs ys : List A) → take (length xs) (xs ++ ys) ≡ xs
  take_prefix [] ys = refl
  take_prefix (x ∷ xs) ys = ap (λ t. x ∷ t) (take_prefix xs ys)

  pub drop_prefix : (xs ys : List A) → drop (length xs) (xs ++ ys) ≡ ys
  drop_prefix [] ys = refl
  drop_prefix (x ∷ xs) ys = drop_prefix xs ys

  pub take_all : (n : ℕ) (xs : List A) → length xs ≤ n → take n xs ≡ xs
  take_all zero [] h = refl
  take_all zero (x ∷ xs) h = absurd (omega arith)
  take_all (suc n) [] h = refl
  take_all (suc n) (x ∷ xs) h = ap (λ t. x ∷ t) (take_all n xs (omega arith))

  pub take_two : (x y r : List A) → take (length x + length y) (x ++ (y ++ r)) ≡ x ++ y
  take_two x y r = rw (← length-append x y, ← append_assoc x y r) (take_prefix (x ++ y) r)

  -- The part of a sequence between two others.
  pub slice_middle :
      (x y r : List A) (i j : ℕ)
      → i ≡ length x
      → j ≡ length x + length y
      → slice (x ++ (y ++ r)) i j ≡ y
  slice_middle x y r i j p q =
      let e : j - i ≡ length y = omega arith in rw (e, p, drop_prefix x (y ++ r)) (take_prefix y r)

  pub get_elem?_middle :
      (x : List A) (a : A) (r : List A) → get_elem? (x ++ a ∷ r) (length x) ≡ some a
  get_elem?_middle [] a r = refl
  get_elem?_middle (b ∷ x) a r = get_elem?_middle x a r

module _ {ℓ} {A : Type ℓ} where
  pub take_append :
      (n : ℕ) (xs ys : List A) → take n (xs ++ ys) ≡ take n xs ++ take (n - length xs) ys
  take_append zero [] ys = refl
  take_append (suc n) [] ys = let e : suc n - 0 ≡ suc n = omega arith in rw e
  take_append zero (x ∷ xs) ys = let e : 0 - suc (length xs) ≡ 0 = omega arith in rw e
  take_append (suc n) (x ∷ xs) ys =
      let e : suc n - suc (length xs) ≡ n - length xs = omega arith in
      rw e (ap (λ t. x ∷ t) (take_append n xs ys))

  pub take-take : (n : ℕ) (xs ys : List A) → take n (take n xs ++ ys) ≡ take n (xs ++ ys)
  take-take zero xs ys = refl
  take-take (suc n) [] ys = refl
  take-take (suc n) (x ∷ xs) ys = ap (λ t. x ∷ t) (take-take n xs ys)

  -- a full list leaves no room
  pub take_full : (n : ℕ) (xs ys : List A) → length xs ≡ n → take n (xs ++ ys) ≡ xs
  take_full zero [] ys h = refl
  take_full zero (x ∷ xs) ys h = absurd (omega (arith, h))
  take_full (suc n) [] ys h = absurd (omega (arith, h))
  take_full (suc n) (x ∷ xs) ys h = ap (λ t. x ∷ t) (take_full n xs ys (omega (arith, h)))
