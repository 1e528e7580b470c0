-- ===== src/Mcp/Numbers/Laws.antt =====
-- The two ways to write a number with commas agree.
use veloria.Base.{
  ℕ, zero, suc, ◌+◌, ◌/◌, ◌%◌, ◌≤◌, ◌<◌, ◌≡◌, ◌≢◌, refl, sym, ap, ◌∙◌, Bool, true, false, [], ◌∷◌,
  ◌++◌, ltb, Bytes, arith, Bool-cases, inl, inr, append_assoc, length-append,
}
use veloria.Base.Decimal.{digits, decimal}
use veloria.Mcp.Numbers.{
  grouped, format_number, three_digits, with_commas, format_number_with_commas,
}

digits_fuel : (f g n : ℕ) → n < f → n < g → digits f n ≡ digits g n
unfolding digits
digits_fuel zero g n h k = absurd (omega (arith, h))
digits_fuel (suc f) zero n h k = absurd (omega (arith, k))
digits_fuel (suc f) (suc g) n h k = elim (Bool-cases (ltb n 10)) [
  | inl e ↦ rw e
  | inr e ↦ rw e (
      ap (λ t. t ++ (48 + n % 10) ∷ [])
        (digits_fuel f g (n / 10) (ground (arith, e)) (ground (arith, e))))
]

-- the last digit, and those in front of it
decimal_last : (n : ℕ) → 10 ≤ n → decimal n ≡ decimal (n / 10) ++ (48 + n % 10) ∷ []
unfolding decimal digits
decimal_last n h =
    let big : ltb n 10 ≡ false = ground arith in
    rw big (
      ap (λ t. t ++ (48 + n % 10) ∷ [])
        (digits_fuel n (suc (n / 10)) (n / 10) (omega arith) (omega arith)))

decimal_thousands : (n : ℕ) → 1000 ≤ n → decimal n ≡ decimal (n / 1000) ++ three_digits (n % 1000)
unfolding three_digits
decimal_thousands n h =
    let high : n / 10 / 10 / 10 ≡ n / 1000 = omega arith in
    let a : n / 10 / 10 % 10 ≡ n % 1000 / 100 = omega arith in
    let b : n / 10 % 10 ≡ n % 1000 / 10 % 10 = omega arith in
    let c : n % 10 ≡ n % 1000 % 10 = omega arith in
    let two : decimal n ≡ decimal (n / 10 / 10) ++ (48 + n / 10 % 10) ∷ (48 + n % 10) ∷ [] =
      rw (decimal_last n (omega (arith, h)), decimal_last (n / 10) (omega (arith, h)))
        (append_assoc (decimal (n / 10 / 10)) ((48 + n / 10 % 10) ∷ []) ((48 + n % 10) ∷ [])) in
    two
    ∙ rw (decimal_last (n / 10 / 10) (omega (arith, h)), high, a, b, c)
        (append_assoc (decimal (n / 1000)) ((48 + n % 1000 / 100) ∷ []) _)

grouped-append :
    (first : Bool) (s : Bytes) (a b c : ℕ)
    → s ≢ []
    → grouped first (s ++ a ∷ b ∷ c ∷ []) ≡ grouped first s ++ b',' ∷ a ∷ b ∷ c ∷ []
unfolding grouped
grouped-append first [] a b c h = absurd (h refl)
grouped-append first (d ∷ []) a b c h = ground arith
grouped-append first (d ∷ e ∷ s) a b c h =
    ground (arith, grouped-append false (e ∷ s) a b c, length-append s (a ∷ b ∷ c ∷ []))

snoc-ne-nil : (s : Bytes) (c : ℕ) → s ++ c ∷ [] ≢ []
snoc-ne-nil [] c h = cc
snoc-ne-nil (d ∷ s) c h = cc

decimal-ne-nil : (n : ℕ) → decimal n ≢ []
unfolding decimal digits
decimal-ne-nil n h = elim (Bool-cases (ltb n 10)) [
  | inl e ↦ cc (rw e at h)
  | inr e ↦ snoc-ne-nil _ _ (rw e at h)
]

grouped_three :
    (s : Bytes) (m : ℕ)
    → s ≢ []
    → grouped true (s ++ three_digits m) ≡ grouped true s ++ b',' ∷ three_digits m
unfolding three_digits
grouped_three s m h = grouped-append true s _ _ _ h

decimal_digit : (n : ℕ) → n < 10 → decimal n ≡ (48 + n) ∷ []
unfolding decimal digits
decimal_digit n h = ground arith

-- At most three digits are not grouped.
short : (n : ℕ) → n < 1000 → grouped true (decimal n) ≡ decimal n
unfolding grouped
short n h = elim (Bool-cases (ltb n 10)) [
  | inl e ↦ rw (decimal_digit n (ground (arith, e)))
  | inr e ↦ elim (Bool-cases (ltb n 100)) [
    | inl f ↦ rw (decimal_last n (ground (arith, e)), decimal_digit (n / 10) (ground (arith, f)))
    | inr f ↦ rw (
      decimal_last n (ground (arith, e)),
      decimal_last (n / 10) (ground (arith, f)),
      decimal_digit (n / 10 / 10) (omega (arith, h)),
    )
  ]
]

with_commas-grouped : (fuel n : ℕ) → n < fuel → with_commas fuel n ≡ grouped true (decimal n)
unfolding with_commas
with_commas-grouped zero n h = absurd (omega (arith, h))
with_commas-grouped (suc fuel) n h = elim (Bool-cases (ltb n 1000)) [
  | inl e ↦ rw e (sym (short n (ground (arith, e))))
  | inr e ↦
      let big : 1000 ≤ n = ground (arith, e) in
      rw (e, with_commas-grouped fuel (n / 1000) (omega (arith, h, big)), decimal_thousands n big)
        (sym (grouped_three (decimal (n / 1000)) (n % 1000) (decimal-ne-nil (n / 1000))))
]

-- A number is written alike for agents and on the pages.
format_number-format_number_with_commas : (n : ℕ) → format_number n ≡ format_number_with_commas n
unfolding format_number format_number_with_commas
format_number-format_number_with_commas n = elim (Bool-cases (ltb n 1000)) [
  | inl e ↦
      rw e (sym (short n (ground (arith, e))) ∙ sym (with_commas-grouped (suc n) n (omega arith)))
  | inr e ↦ rw e (sym (with_commas-grouped (suc n) n (omega arith)))
]
