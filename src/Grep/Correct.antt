-- ===== src/Grep/Correct.antt =====
-- `grepData` returns the matching lines: all of them up to the limit, in order, with their numbers
-- and their context.
mod Loop
pub mod Main
use veloria.Base.{
  ℕ, zero, suc, ◌+◌, ◌-◌, ◌≤◌, ◌<◌, min, ◌≡◌, ◌≢◌, refl, sym, ap, ◌⊎◌, inl, inr, Bool, true, false,
  Option, none, some, List, [], ◌∷◌, ◌++◌, append_assoc, append-nil, arith, length, length-append,
  take, drop, drop_prefix, slice, slice_middle, All, Bytes, Bool-cases,
}
use veloria.Grep.{Match, found_match, grep_loop, grep_data}
use veloria.Grep.Scan.{nl, after_last, count_nl, trim_right}
use veloria.Grep.Scan.Laws.{
  IsLine, ended, ended_up, below, unsplit, after_last_lines, count_nl-ended, trim_right_ended,
}
use veloria.Grep.Context.{extract_before, extract_after}
use veloria.Grep.Context.Laws.{extract_before-lines, extract_after-lines}
use veloria.Grep.Spec.{match_end, MatchesLines, unless_end, match_of, expected}

-- `up` with the lines `sk` behind it
abbrev shift : List Bytes → List Bytes → List Bytes
shift [] up = up
shift (s ∷ sk) up = shift sk (s ∷ up)

ended_up-shift : (sk up : List Bytes) → ended_up (shift sk up) ≡ ended_up up ++ ended sk
ended_up-shift [] up = sym (append-nil (ended_up up))
ended_up-shift (s ∷ sk) up = simp (ended_up-shift sk (s ∷ up), append_assoc)

length-shift : (sk up : List Bytes) → length (shift sk up) ≡ length up + length sk
length-shift [] up = omega arith
length-shift (s ∷ sk) up = omega (arith, length-shift sk (s ∷ up))

shift-IsLine : (sk up : List Bytes) → All IsLine sk → All IsLine up → All IsLine (shift sk up)
shift-IsLine [] up _ h = h
shift-IsLine (s ∷ sk) up (hs, hk) h = shift-IsLine sk (s ∷ up) hk (hs, h)

unsplit-skip :
    (sk : List Bytes) (l : Bytes) (rest : List Bytes)
    → unsplit (sk ++ l ∷ rest) ≡ ended sk ++ (l ++ below rest)
unsplit-skip [] l rest = refl
unsplit-skip (s ∷ []) l rest = simp append_assoc
unsplit-skip (s ∷ t ∷ sk) l rest =
    rw (append_assoc s (nl ∷ ended (t ∷ sk)) (l ++ below rest))
      (ap (λ x. s ++ nl ∷ x) (unsplit-skip (t ∷ sk) l rest))

-- where the first match is: the lines skipped, the matching line, the lines behind it
module _ (p : Bool → Bytes → Bool) (fre : Option (Bytes → Option ℕ)) (ctx : ℕ) where
  record Found (b : Bool) (ls : List Bytes) : Type 0 where
    skipped : List Bytes
    matched : Bytes
    behind : List Bytes
    parts : ls ≡ skipped ++ matched ∷ behind
    at : match_end p b ls ≡ some (length (ended skipped) + length matched)
    then_rest :
        (up : List Bytes)
        → expected p fre ctx b up ls
          ≡ match_of p fre ctx (shift skipped up) matched behind
            ∷ unless_end behind (expected p fre ctx false (matched ∷ shift skipped up) behind)

  record Nowhere (b : Bool) (ls : List Bytes) : Type 0 where
    at : match_end p b ls ≡ none
    no_match : (up : List Bytes) → expected p fre ctx b up ls ≡ []

  find_first : (b : Bool) (ls : List Bytes) → Nowhere b ls ⊎ Found b ls
  find_first b [] = inl (record { at = refl; no_match = λ up. refl })
  find_first b (l ∷ ls) = elim (Bool-cases (p b l)) [
    | inl hit ↦ inr (record {
      skipped = [];
      matched = l;
      behind = ls;
      parts = refl;
      at = rw (hit, match_end) (ap some (omega arith));
      then_rest = λ up. rw (hit, expected);
    })
    | inr miss ↦ elim (find_first false ls) [
      | inl f ↦ inl (record {
        at = rw (miss, match_end) (rw (f.at, match_end));
        no_match = λ up. rw (miss, expected) (f.no_match (l ∷ up));
      })
      | inr f ↦ inr (record {
        skipped = l ∷ f.skipped;
        matched = f.matched;
        behind = f.behind;
        parts = ap (λ t. l ∷ t) f.parts;
        at =
            rw (miss, match_end)
              (rw (f.at, match_end)
                (ap some (omega (arith, length-append l (nl ∷ ended f.skipped)))));
        then_rest = λ up. rw (miss, expected) (f.then_rest (l ∷ up));
      })
    ]
  ]

-- The match of one round, at the line `l` with `up` above it and `rest` below it.
module _ (p : Bool → Bytes → Bool) (re : Bytes → Bool → Option ℕ) (fre : Option (Bytes → Option ℕ))
    (ctx max_matches : ℕ) where
  found_match-last :
      (up : List Bytes) (l buf : Bytes) (start end : ℕ)
      → All IsLine up
      → buf ≡ ended_up up ++ l
      → start ≡ length (ended_up up)
      → end ≡ length buf
      → found_match re fre ctx max_matches buf (length up + 1) start end
        ≡ match_of p fre ctx up l []
  unfolding found_match
  found_match-last up l buf start end h e e' e'' =
      let x = ended_up up in
      let size = length-append x l in
      let start_of = slice_middle x l [] start end e' (omega (arith, ap (length {0}) e)) in
      let above = extract_before-lines ctx up l h in
      let under = extract_after-lines ctx buf [] tt in
      cc (append-nil l, append-nil buf, start_of, above, under)

  found_match-inner :
      (up : List Bytes) (l : Bytes) (r : Bytes) (rest : List Bytes) (buf : Bytes) (start end : ℕ)
      → All IsLine up
      → All IsLine (r ∷ rest)
      → buf ≡ ended_up up ++ (l ++ below (r ∷ rest))
      → start ≡ length (ended_up up)
      → end ≡ length (ended_up up) + length l + 1
      → found_match re fre ctx max_matches buf (length up + 1) start end
        ≡ match_of p fre ctx up l (r ∷ rest)
  unfolding found_match
  found_match-inner up l r rest buf start end h hr e e' e'' =
      let x = ended_up up in
      let tail = r ++ below rest in
      let size = length-append l (nl ∷ []) in
      let start_of = slice_middle x (l ++ nl ∷ []) tail start end e' (omega arith) in
      let above = extract_before-lines ctx up (l ++ nl ∷ tail) h in
      let under = extract_after-lines ctx (ended_up (l ∷ up)) (r ∷ rest) hr in
      let ends : end ≡ length (ended_up (l ∷ up)) = omega (arith, length-append x (l ++ nl ∷ [])) in
      cc (
        append_assoc l (nl ∷ []) tail,
        append_assoc x (l ++ nl ∷ []) tail,
        start_of,
        above,
        under,
        trim_right_ended l,
      )
