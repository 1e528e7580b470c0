-- ===== src/Sanitize/Laws.antt =====
-- What sanitised text satisfies.
use veloria.Base.{
  ℕ, zero, suc, ◌≤◌, ◌≡◌, refl, ap, Bool, true, false, List, [], ◌∷◌, length, take, reverse, arith,
  leb, ◌==◌, Bool-cases, inl, inr, ◌⊎◌, leb→le, starts_with, length-reverse,
}
use veloria.Sanitize.{
  Classes, max_varchar_len, Kind, space, dropped, visible, kind, clean_loop, clean_text, back_up,
  cut_entity, trim_left, trim, truncate_runes, sanitize_text, strip_marker, visible_name,
  normalize_name,
}

kind_cases : (k : Kind) → (k ≡ space) ⊎ ((k ≡ dropped) ⊎ (k ≡ visible))
kind_cases space = inl refl
kind_cases dropped = inr (inl refl)
kind_cases visible = inr (inr refl)

module _ (u : Classes) (drop_format : Bool) (blank : u.is_space 32 ≡ true) where
  blank-space : kind u drop_format 32 ≡ space
  unfolding kind
  blank-space = rw blank

  -- behind a visible rune
  clean_visible :
      (pending written : Bool) (r : ℕ) (s : List ℕ)
      → kind u drop_format r ≡ visible
      → ((pending ≡ true) → written ≡ true)
      → clean_loop u drop_format false true (clean_loop u drop_format false true s)
        ≡ clean_loop u drop_format false true s
      → clean_loop u drop_format false written (clean_loop u drop_format pending written (r ∷ s))
        ≡ clean_loop u drop_format pending written (r ∷ s)
  unfolding clean_loop
  clean_visible false written r s e h ih = rw (e, clean_loop, e, clean_loop) (ap (λ t. r ∷ t) ih)
  clean_visible true written r s e h ih =
      rw (h refl, e, clean_loop, blank-space, clean_loop, e, clean_loop) (ap (λ t. 32 ∷ (r ∷ t)) ih)

  clean_again :
      (pending written : Bool) (s : List ℕ)
      → ((pending ≡ true) → written ≡ true)
      → clean_loop u drop_format false written (clean_loop u drop_format pending written s)
        ≡ clean_loop u drop_format pending written s
  unfolding clean_loop
  clean_again pending written [] h = refl
  clean_again pending written (r ∷ s) h = elim (kind_cases (kind u drop_format r)) [
    | inl e ↦ rw (e, clean_loop) (clean_again written written s (λ w. w))
    | inr (inl e) ↦ rw (e, clean_loop) (clean_again pending written s h)
    | inr (inr e) ↦ clean_visible pending written r s e h (clean_again false true s (λ w. refl))
  ]

  -- If the blank is a space character, cleaning a cleaned text changes nothing.
  pub clean_text_idempotent :
      (s : List ℕ)
      → clean_text u (clean_text u s drop_format) drop_format ≡ clean_text u s drop_format
  unfolding clean_text
  clean_text_idempotent s = clean_again false false s (λ w. w)

length-take_le : (n : ℕ) (s : List ℕ) → length (take n s) ≤ n
length-take_le zero s = omega arith
length-take_le (suc n) [] = omega arith
length-take_le (suc n) (r ∷ s) = omega (arith, length-take_le n s)

length-trim_left : (p : ℕ → Bool) (s : List ℕ) → length (trim_left p s) ≤ length s
unfolding trim_left
length-trim_left p [] = omega arith
length-trim_left p (r ∷ s) = elim (Bool-cases (p r)) [
  | inl e ↦ rw e (omega (arith, length-trim_left p s))
  | inr e ↦ rw e (omega arith)
]

length-trim : (p : ℕ → Bool) (s : List ℕ) → length (trim p s) ≤ length s
unfolding trim
length-trim p s =
    let a = length-trim_left p s in
    let b = length-trim_left p (reverse (trim_left p s)) in
    let c = length-reverse (trim_left p s) in
    let d = length-reverse (trim_left p (reverse (trim_left p s))) in omega (arith, a, b, c, d)

length-cut_entity : (s : List ℕ) → length (cut_entity s) ≤ length s
unfolding cut_entity
length-cut_entity [] = omega arith
length-cut_entity (r ∷ s) = ground (arith, length-cut_entity s)

back_up_le : (u : Classes) (s : List ℕ) (n : ℕ) → back_up u s n ≤ n
unfolding back_up
back_up_le u s zero = omega arith
back_up_le u s (suc n) = ground (arith, back_up_le u s n)

length-truncate_runes : (u : Classes) (s : List ℕ) (n : ℕ) → length (truncate_runes u s n) ≤ n
unfolding truncate_runes
length-truncate_runes u s n =
    let h = take (back_up u s n) s in
    omega (
      arith,
      length-trim u.is_space (cut_entity h),
      length-cut_entity h,
      length-take_le (back_up u s n) s,
      back_up_le u s n,
    )

-- A sanitised text has at most `limit` runes, if the limit is not zero.
sanitize_text_fits : (u : Classes) (s : List ℕ) (n : ℕ) → length (sanitize_text u s (suc n)) ≤ suc n
unfolding sanitize_text
sanitize_text_fits u s n = elim (Bool-cases (leb (length (clean_text u s false)) (suc n))) [
  | inl e ↦ rw e (leb→le _ _ e)
  | inr e ↦ elim (Bool-cases (leb (length (clean_text u s true)) (suc n))) [
    | inl f ↦ rw (e, f) (leb→le _ _ f)
    | inr f ↦ rw (e, f) (length-truncate_runes u (clean_text u s true) (suc n))
  ]
]

visible_name_le : (u : Classes) (s t : List ℕ) → length (visible_name u s t) ≤ length s
unfolding visible_name strip_marker
visible_name_le u s [] = omega arith
visible_name_le u s (r ∷ t) = elim (Bool-cases (starts_with (61 ∷ 61 ∷ 61 ∷ []) s)) [
  | inl e ↦
      rw e (
        omega (arith, length-trim u.is_space (trim (λ c. c == 61) s), length-trim (λ c. c == 61) s))
  | inr e ↦ rw e (omega arith)
]

-- A normalised name has at most 255 runes, and so fits its column.
normalize_name_fits : (u : Classes) (s : List ℕ) → length (normalize_name u s) ≤ max_varchar_len
unfolding normalize_name
normalize_name_fits u s =
    let t = sanitize_text u s max_varchar_len in
    omega (arith, visible_name_le u t (clean_text u t true), sanitize_text_fits u s 254)
