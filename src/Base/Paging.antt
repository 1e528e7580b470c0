-- ===== src/Base/Paging.antt =====
-- Reading a list page by page, as long as a page says where the next one starts.
use Prim.Native.Nat.{ℕ, zero, suc, ◌+◌, ◌≤◌, ◌<◌}
use mathlib.Core.Path.{◌≡◌, refl, sym, ◌∙◌, ap}
use mathlib.Core.Logic.{inl, inr}
use mathlib.Core.Option.{Option, none, some}
use mathlib.Core.List.{List, [], ◌∷◌, ◌++◌, append-nil}
use native.Mathlib.Omega.{arith}
use veloria.Base.Tests.{ltb, if◌then◌else◌, Bool-cases, ltb→lt}
use veloria.Base.Lists.{length, take, drop, length-drop, take-append-drop}
use veloria.Base.Slices.{take_all}

module _ {ℓ} {A : Type ℓ} where
  -- What a client reads with at most so many requests; a page is its elements, and where the next starts.
  unfoldable pub collect : (ℕ → List A × Option ℕ) → ℕ → Option ℕ → List A
  collect get zero next = []
  collect get (suc fuel) none = []
  collect get (suc fuel) (some k) = (get k).0 ++ collect get fuel (get k).1

  -- the page of `n` elements behind `k`
  abbrev pub page_at : List A → ℕ → ℕ → List A × Option ℕ
  page_at xs n k = (take n (drop k xs), if ltb (k + n) (length xs) then some (k + n) else none)

  pub drop-drop : (m n : ℕ) (xs : List A) → drop n (drop m xs) ≡ drop (m + n) xs
  drop-drop zero n xs = let e : 0 + n ≡ n = omega arith in rw e
  drop-drop (suc m) zero [] = let e : suc m + 0 ≡ suc (m + 0) = omega arith in rw e
  drop-drop (suc m) (suc n) [] = let e : suc m + suc n ≡ suc (m + suc n) = omega arith in rw e
  drop-drop (suc m) n (x ∷ xs) =
      let e : suc m + n ≡ suc (m + n) = omega arith in rw e (drop-drop m n xs)

  collect-none : (get : ℕ → List A × Option ℕ) (fuel : ℕ) → collect get fuel none ≡ []
  unfolding collect
  collect-none get zero = refl
  collect-none get (suc fuel) = refl

  pub collect-drop :
      (get : ℕ → List A × Option ℕ) (xs : List A) (n : ℕ)
      → 1 ≤ n
      → ((k : ℕ) → k < length xs → get k ≡ page_at xs n k)
      → (fuel k : ℕ) → k < length xs
      → length xs ≤ fuel + k
      → collect get fuel (some k) ≡ drop k xs
  unfolding collect
  collect-drop get xs n pos h zero k l f = absurd (omega (arith, l, f))
  collect-drop get xs n pos h (suc fuel) k l f = elim (Bool-cases (ltb (k + n) (length xs))) [
    | inl more ↦
        rw (h k l, more)
          (ap (λ t. take n (drop k xs) ++ t)
              (collect-drop get xs n pos h fuel (k + n) (ltb→lt _ _ more) (omega (arith, f, pos))
                ∙ sym (drop-drop k n xs))
            ∙ take-append-drop n (drop k xs))
    | inr last ↦
        rw (h k l, last, collect-none get fuel)
          (append-nil _ ∙ take_all n (drop k xs) (ground (arith, last, length-drop k xs)))
  ]
