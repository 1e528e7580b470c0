-- ===== src/Grep/Correct/Loop.antt =====
-- The loop of `grepData` meets the specification of Grep/Spec.antt.
use veloria.Base.{
  ℕ, zero, suc, ◌+◌, ◌-◌, ◌≤◌, ◌<◌, min, ◌≡◌, ◌≢◌, refl, ◌⊎◌, inl, inr, Bool, false, Option, none,
  some, List, [], ◌∷◌, ◌++◌, append_assoc, append-nil, arith, length, length-append, take, drop,
  slice, slice_middle, All, Bytes,
}
use veloria.Grep.{Match, found_match, grep_loop}
use veloria.Grep.Scan.{nl, after_last, count_nl}
use veloria.Grep.Scan.Laws.{IsLine, ended, unsplit, after_last_lines, count_nl-ended}
use veloria.Grep.Spec.{unless_end}

pub take_none {ℓ} : {A : Type ℓ} (n : ℕ) → take {A = A} n [] ≡ []
take_none zero = refl
take_none (suc n) = refl

pub take_next {ℓ} :
    {A : Type ℓ} (n : ℕ) (ms : List A) (m : A) (rest : List A)
    → length ms < n
    → (ms ++ m ∷ []) ++ take (n - length (ms ++ m ∷ [])) rest
      ≡ ms ++ take (n - length ms) (m ∷ rest)
take_next n ms m rest h =
    let e : n - length ms ≡ suc (n - length (ms ++ m ∷ [])) =
      omega (arith, length-append ms (m ∷ [])) in
    rw e (append_assoc ms (m ∷ []) (take (n - length (ms ++ m ∷ [])) rest))

-- Either nothing is left of the text, or what is left counts.
pub text_left {ℓ} :
    {A : Type ℓ} (ls : List Bytes) (ms : List A)
    → ls ≢ []
    → (length (unsplit ls) ≡ 0) × (unless_end ls ms ≡ [])
      ⊎ (0 < length (unsplit ls)) × (unless_end ls ms ≡ ms)
text_left [] ms h = absurd (h refl)
text_left ([] ∷ []) ms h = inl (refl, refl)
text_left ((c ∷ l) ∷ []) ms h = inr (omega arith, refl)
text_left ([] ∷ k ∷ ls) ms h = inr (omega arith, refl)
text_left ((c ∷ l) ∷ k ∷ ls) ms h = inr (omega arith, refl)

module _ (re : Bytes → Bool → Option ℕ) (fre : Option (Bytes → Option ℕ)) (ctx max_matches : ℕ)
    (buf : Bytes) where
  pub loop_stop :
      (fuel chunk : ℕ) (b : Bool) (lineno : ℕ) (ms : List Match)
      → length buf ≤ chunk
      → grep_loop re fre ctx max_matches buf fuel chunk b lineno ms ≡ ms
  unfolding grep_loop
  loop_stop zero chunk b lineno ms h = refl
  loop_stop (suc fuel) chunk b lineno ms h = ground arith

  pub loop_full :
      (fuel chunk : ℕ) (b : Bool) (lineno : ℕ) (ms : List Match)
      → max_matches ≤ length ms
      → grep_loop re fre ctx max_matches buf fuel chunk b lineno ms ≡ ms
  unfolding grep_loop
  loop_full zero chunk b lineno ms h = refl
  loop_full (suc fuel) chunk b lineno ms h = ground arith

  pub loop_none :
      (fuel chunk : ℕ) (b : Bool) (lineno : ℕ) (ms : List Match)
      → re (drop chunk buf) b ≡ none
      → grep_loop re fre ctx max_matches buf fuel chunk b lineno ms ≡ ms
  unfolding grep_loop
  loop_none zero chunk b lineno ms h = refl
  loop_none (suc fuel) chunk b lineno ms h = ground arith

  loop_some :
      (fuel chunk : ℕ) (b : Bool) (lineno : ℕ) (ms : List Match) (rel start end num : ℕ)
      → chunk < length buf
      → length ms < max_matches
      → re (drop chunk buf) b ≡ some rel
      → after_last (slice buf chunk (rel + chunk)) nl + chunk ≡ start
      → min (rel + chunk + 1) (length buf) ≡ end
      → lineno + count_nl (slice buf chunk start) ≡ num
      → grep_loop re fre ctx max_matches buf (suc fuel) chunk b lineno ms
        ≡ grep_loop re fre ctx max_matches buf fuel end false
            (num + 1)
            (ms ++ found_match re fre ctx max_matches buf num start end ∷ [])
  unfolding grep_loop
  loop_some fuel chunk b lineno ms rel start end num h k r s e n = rw (← n, ← e, ← s) (ground arith)

  -- What one round computes, at the text `E ++ l ++ r` behind `x`, where `E` ends in the lines skipped.
  pub loop_places :
      (sk : List Bytes) (x l r : Bytes) (fuel chunk : ℕ) (b : Bool) (lineno : ℕ) (ms : List Match)
      (end : ℕ)
      → All IsLine sk
      → IsLine l
      → buf ≡ x ++ (ended sk ++ (l ++ r))
      → chunk ≡ length x
      → chunk < length buf
      → length ms < max_matches
      → re (drop chunk buf) b ≡ some (length (ended sk) + length l)
      → min (length x + length (ended sk) + length l + 1) (length buf) ≡ end
      → grep_loop re fre ctx max_matches buf (suc fuel) chunk b lineno ms
        ≡ grep_loop re fre ctx max_matches buf fuel end false (lineno + length sk + 1) (
            ms
            ++ found_match re fre ctx max_matches buf
                (lineno + length sk)
                (length (ended sk) + chunk)
                end
              ∷ [])
  loop_places sk x l r fuel chunk b lineno ms end hs h e c inside room hit ends =
      loop_some fuel chunk b lineno ms (length (ended sk) + length l) (length (ended sk) + chunk)
        end (lineno + length sk) inside room hit start (omega arith) number
    where
      text : slice buf chunk (length (ended sk) + length l + chunk) ≡ ended sk ++ l
      text =
          rw (e, ← append_assoc (ended sk) l r)
            (slice_middle x (ended sk ++ l) r chunk _ c (omega (arith, length-append (ended sk) l)))

      start :
          after_last (slice buf chunk (length (ended sk) + length l + chunk)) nl + chunk
          ≡ length (ended sk) + chunk
      start = rw text (omega (arith, after_last_lines sk l h))

      lines : slice buf chunk (length (ended sk) + chunk) ≡ ended sk
      lines = rw e (slice_middle x (ended sk) (l ++ r) chunk _ c (omega arith))

      counted : count_nl (ended sk) ≡ length sk
      counted = rw append-nil at (count_nl-ended sk [] hs tt)

      number : lineno + count_nl (slice buf chunk (length (ended sk) + chunk)) ≡ lineno + length sk
      number = rw (lines, counted)
