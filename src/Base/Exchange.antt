-- ===== src/Base/Exchange.antt =====
-- The exchange sort of internal/repo: two nested loops over a slice that swap two elements where the
-- later one should come first.
use Prim.Native.Nat.{ℕ, zero, suc, ◌≤◌}
use mathlib.Core.Path.{◌≡◌, refl, ap, subst}
use mathlib.Core.Logic.{inl, inr}
use mathlib.Core.Bool.{Bool, true, false}
use mathlib.Core.List.{List, [], ◌∷◌, Perm}
use mathlib.Core.List.Perm
use native.Mathlib.Omega.{arith}
use veloria.Base.Tests.{if◌then◌else◌, Bool-cases}
use veloria.Base.Lists.{length, All}

module _ {ℓ} {A : Type ℓ} (earlier : A → A → Bool) where
  -- The inner loop: the element that ends up in the first place, and the others behind it.
  exchange : A → List A → A × List A
  exchange x [] = (x, [])
  exchange x (y ∷ ys) =
      let r = exchange (if earlier y x then y else x) ys in
      (r.0, (if earlier y x then x else y) ∷ r.1)

  -- The outer loop, on as many rounds as there are elements.
  sort_rounds : ℕ → List A → List A
  sort_rounds zero xs = xs
  sort_rounds (suc n) [] = []
  sort_rounds (suc n) (x ∷ xs) = let r = exchange x xs in r.0 ∷ sort_rounds n r.1

  unfoldable pub exchange_sort : List A → List A
  unfolding exchange sort_rounds
  exchange_sort xs = sort_rounds (length xs) xs

  -- no element should come before one in front of it
  abbrev pub IsOrdered : List A → Type 0
  IsOrdered [] = Unit
  IsOrdered (x ∷ xs) = All (λ y. earlier y x ≡ false) xs × IsOrdered xs

  exchange-perm : (x : A) (ys : List A) → Perm ((exchange x ys).0 ∷ (exchange x ys).1) (x ∷ ys)
  unfolding exchange
  exchange-perm x [] = Perm.refl (x ∷ [])
  exchange-perm x (y ∷ ys) = elim (Bool-cases (earlier y x)) [
    | inl e ↦ rw e (
        Perm.trans (Perm.swap x (exchange y ys).0 (exchange y ys).1)
          (Perm.cons x (exchange-perm y ys)))
    | inr e ↦ rw e (
        Perm.trans (Perm.swap y (exchange x ys).0 (exchange x ys).1)
          (Perm.trans (Perm.cons y (exchange-perm x ys)) (Perm.swap x y ys)))
  ]

  length-exchange : (x : A) (ys : List A) → length (exchange x ys).1 ≡ length ys
  unfolding exchange
  length-exchange x [] = refl
  length-exchange x (y ∷ ys) = ap suc (length-exchange (if earlier y x then y else x) ys)

  sort_rounds-perm : (n : ℕ) (xs : List A) → Perm (sort_rounds n xs) xs
  unfolding sort_rounds
  sort_rounds-perm zero xs = Perm.refl xs
  sort_rounds-perm (suc n) [] = Perm.refl []
  sort_rounds-perm (suc n) (x ∷ xs) =
      Perm.trans (Perm.cons (exchange x xs).0 (sort_rounds-perm n (exchange x xs).1))
        (exchange-perm x xs)

  pub exchange_sort-perm : (xs : List A) → Perm (exchange_sort xs) xs
  unfolding exchange_sort
  exchange_sort-perm xs = sort_rounds-perm (length xs) xs

  -- what all elements have in common
  exchange-All :
      (Q : A → Type 0) (x : A) (ys : List A)
      → Q x
      → All Q ys
      → Q (exchange x ys).0 × All Q (exchange x ys).1
  unfolding exchange
  exchange-All Q x [] p q = (p, tt)
  exchange-All Q x (y ∷ ys) p q = elim (Bool-cases (earlier y x)) [
    | inl e ↦ let r = exchange-All Q y ys q.0 q.1 in rw e (r.0, (p, r.1))
    | inr e ↦ let r = exchange-All Q x ys p q.1 in rw e (r.0, (q.0, r.1))
  ]

  sort_rounds-All : (Q : A → Type 0) (n : ℕ) (xs : List A) → All Q xs → All Q (sort_rounds n xs)
  unfolding sort_rounds
  sort_rounds-All Q zero xs h = h
  sort_rounds-All Q (suc n) [] h = tt
  sort_rounds-All Q (suc n) (x ∷ xs) h =
      let r = exchange-All Q x xs h.0 h.1 in (r.0, sort_rounds-All Q n (exchange x xs).1 r.1)

  pub exchange_sort-All : (Q : A → Type 0) (xs : List A) → All Q xs → All Q (exchange_sort xs)
  unfolding exchange_sort
  exchange_sort-All Q xs h = sort_rounds-All Q (length xs) xs h

  All-exchange :
      (Q : A → Type 0) (x : A) (ys : List A)
      → Q (exchange x ys).0
      → All Q (exchange x ys).1
      → Q x × All Q ys
  unfolding exchange
  All-exchange Q x [] p q = (p, tt)
  All-exchange Q x (y ∷ ys) p q = elim (Bool-cases (earlier y x)) [
    | inl e ↦
        let k : Q x = rw e at q.0 in let r = All-exchange Q y ys (rw e at p) (rw e at q.1) in (k, r)
    | inr e ↦
        let k : Q y = rw e at q.0 in
        let r = All-exchange Q x ys (rw e at p) (rw e at q.1) in (r.0, (k, r.1))
  ]

  All-sort_rounds : (Q : A → Type 0) (n : ℕ) (xs : List A) → All Q (sort_rounds n xs) → All Q xs
  unfolding sort_rounds
  All-sort_rounds Q zero xs h = h
  All-sort_rounds Q (suc n) [] h = tt
  All-sort_rounds Q (suc n) (x ∷ xs) h =
      All-exchange Q x xs h.0 (All-sort_rounds Q n (exchange x xs).1 h.1)

  pub All-exchange_sort : (Q : A → Type 0) (xs : List A) → All Q (exchange_sort xs) → All Q xs
  unfolding exchange_sort
  All-exchange_sort Q xs h = All-sort_rounds Q (length xs) xs h

  -- The order that the comparison stands for: of two elements not both come first, and one that does
  -- not come before another does not come before what that one does not come before.
  module _ (asymm : (a b : A) → earlier a b ≡ true → earlier b a ≡ false)
      (trans : (a b c : A) → earlier b a ≡ false → earlier c b ≡ false → earlier c a ≡ false)
      (irrefl : (a : A) → earlier a a ≡ false) where
    exchange-head : (x : A) (ys : List A) → earlier x (exchange x ys).0 ≡ false
    unfolding exchange
    exchange-head x [] = irrefl x
    exchange-head x (y ∷ ys) = elim (Bool-cases (earlier y x)) [
      | inl e ↦ rw e (trans (exchange y ys).0 y x (exchange-head y ys) (asymm y x e))
      | inr e ↦ rw e (exchange-head x ys)
    ]

    exchange_swap :
        (x y : A) (ys : List A)
        → earlier y x ≡ true
        → ((exchange y ys).0, x ∷ (exchange y ys).1) ≡ exchange x (y ∷ ys)
    unfolding exchange
    exchange_swap x y ys e = rw e

    exchange_keep :
        (x y : A) (ys : List A)
        → earlier y x ≡ false
        → ((exchange x ys).0, y ∷ (exchange x ys).1) ≡ exchange x (y ∷ ys)
    unfolding exchange
    exchange_keep x y ys e = rw e

    abbrev IsLeast : A × List A → Type 0
    IsLeast r = All (λ z. earlier z r.0 ≡ false) r.1

    exchange-IsLeast : (x : A) (ys : List A) → IsLeast (exchange x ys)
    exchange-IsLeast x [] = unfold exchange in tt
    exchange-IsLeast x (y ∷ ys) = elim (Bool-cases (earlier y x)) [
      | inl e ↦
          subst IsLeast (exchange_swap x y ys e)
            (trans (exchange y ys).0 y x (exchange-head y ys) (asymm y x e), exchange-IsLeast y ys)
      | inr e ↦
          subst IsLeast (exchange_keep x y ys e)
            (trans (exchange x ys).0 x y (exchange-head x ys) e, exchange-IsLeast x ys)
    ]

    sort_rounds-IsOrdered : (n : ℕ) (xs : List A) → length xs ≤ n → IsOrdered (sort_rounds n xs)
    unfolding sort_rounds
    sort_rounds-IsOrdered zero [] h = tt
    sort_rounds-IsOrdered zero (x ∷ xs) h = absurd (omega (arith, h))
    sort_rounds-IsOrdered (suc n) [] h = tt
    sort_rounds-IsOrdered (suc n) (x ∷ xs) h =
        let r = exchange x xs in
        (
          sort_rounds-All (λ z. earlier z r.0 ≡ false) n r.1 (exchange-IsLeast x xs),
          sort_rounds-IsOrdered n r.1 (omega (arith, length-exchange x xs)),
        )

    pub exchange_sort-IsOrdered : (xs : List A) → IsOrdered (exchange_sort xs)
    unfolding exchange_sort
    exchange_sort-IsOrdered xs = sort_rounds-IsOrdered (length xs) xs (omega arith)
