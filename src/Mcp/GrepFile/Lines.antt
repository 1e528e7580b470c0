-- ===== src/Mcp/GrepFile/Lines.antt =====
-- The matches of one file, against a description by the lines before and behind each.
use veloria.Base.{
  ℕ, zero, suc, ◌+◌, ◌-◌, ◌≤◌, ◌≡◌, refl, ap, ◌∙◌, Bool, true, some, List, [], ◌∷◌, ◌++◌, length,
  take, drop, slice, ltb, if◌then◌else◌, Bytes, min, arith, Bool-cases, inl, inr, length-append,
  length-drop, take_prefix, drop_prefix, append_assoc,
}
use veloria.Mcp.GrepFile.{GrepLineMatch, context, line_match, grep_lines, grep_single_file}

-- what is expected for a file with the lines `pre` and `rest`, from `rest` on
unfoldable pub expected : (Bytes → Bool) → ℕ → List Bytes → List Bytes → List GrepLineMatch
expected re n pre [] = []
expected re n pre (l ∷ post) =
    let rest = expected re n (pre ++ l ∷ []) post in
    if re l
    then record {
      line = length pre + 1;
      content = l;
      before = drop (length pre - n) pre;
      after = take n post;
    }
      ∷ rest
    else rest

drop_within : (k : ℕ) (xs ys : List Bytes) → k ≤ length xs → drop k (xs ++ ys) ≡ drop k xs ++ ys
drop_within zero xs ys h = refl
drop_within (suc k) [] ys h = absurd (omega (arith, h))
drop_within (suc k) (x ∷ xs) ys h = drop_within k xs ys (omega (arith, h))

slice_before :
    (pre ys : List Bytes) (k : ℕ) → k ≤ length pre → slice (pre ++ ys) k (length pre) ≡ drop k pre
slice_before pre ys k h =
    let e : length pre - k ≡ length (drop k pre) = omega (arith, length-drop k pre) in
    rw (drop_within k pre ys h, e) (take_prefix (drop k pre) ys)

take_short : (n : ℕ) (xs : List Bytes) → take (min n (length xs)) xs ≡ take n xs
take_short zero xs = let e : min 0 (length xs) ≡ 0 = omega arith in rw e
take_short (suc n) [] = let e : min (suc n) 0 ≡ 0 = omega arith in rw e
take_short (suc n) (x ∷ xs) =
    let e : min (suc n) (suc (length xs)) ≡ suc (min n (length xs)) = omega arith in
    rw e (ap (λ t. x ∷ t) (take_short n xs))

-- the tests of the code leave out only slices that are empty
context_is :
    (ls : List Bytes) (n start stop : ℕ)
    → (n ≡ 0 → stop ≤ start)
    → context ls n start stop ≡ slice ls start stop
unfolding context
context_is ls zero start stop h = let e : stop - start ≡ 0 = omega (arith, h refl) in rw e
context_is ls (suc n) start stop h =
    let p : ltb 0 (suc n) ≡ true = ground arith in
    elim (Bool-cases (ltb start stop)) [
      | inl e ↦ rw (p, e)
      | inr e ↦ let z : stop - start ≡ 0 = ground (arith, e) in rw (p, e, z)
    ]

context_before :
    (pre post : List Bytes) (l : Bytes) (n : ℕ)
    → context (pre ++ l ∷ post) n (length pre - n) (length pre) ≡ drop (length pre - n) pre
context_before pre post l n =
    context_is (pre ++ l ∷ post) n (length pre - n) (length pre) (λ z. omega (arith, z))
    ∙ slice_before pre (l ∷ post) (length pre - n) (omega arith)

context_after :
    (pre post : List Bytes) (l : Bytes) (n : ℕ)
    → context
        (pre ++ l ∷ post)
        n
        (length pre + 1)
        (min (length pre + 1 + n) (length (pre ++ l ∷ post)))
      ≡ take n post
context_after pre post l n =
    let size = length-append pre (l ∷ post) in
    let e : min (length pre + 1 + n) (length (pre ++ l ∷ post)) - (length pre + 1)
        ≡ min n (length post) =
      omega (arith, size) in
    let one = length-append pre (l ∷ []) in
    let d : drop (length pre + 1) (pre ++ l ∷ post) ≡ post =
      rw (← one, ← append_assoc pre (l ∷ []) post) (drop_prefix (pre ++ l ∷ []) post) in
    context_is (pre ++ l ∷ post) n (length pre + 1) _ (λ z. omega (arith, z))
    ∙ rw (e, d) (take_short n post)

grep_lines-expected :
    (re : Bytes → Bool) (n : ℕ) (pre rest : List Bytes)
    → grep_lines re (pre ++ rest) n (length pre) rest ≡ expected re n pre rest
unfolding grep_lines expected line_match
grep_lines-expected re n pre [] = refl
grep_lines-expected re n pre (l ∷ post) =
    let s : suc (length pre) ≡ length (pre ++ l ∷ []) = omega (arith, length-append pre (l ∷ [])) in
    let a : (pre ++ l ∷ []) ++ post ≡ pre ++ l ∷ post = append_assoc pre (l ∷ []) post in
    let ih = grep_lines-expected re n (pre ++ l ∷ []) post in
    let ih' : grep_lines re (pre ++ l ∷ post) n (suc (length pre)) post
        ≡ expected re n (pre ++ l ∷ []) post =
      rw (s, ← a) ih in
    rw (ih', context_before pre post l n, context_after pre post l n)

-- A file is searched line by line: the result has, in order, each line that the regexp matches, with
-- its number and with the `n` lines in front of it and behind it, or fewer at an end of the file.
pub grep_single_file-expected :
    (re : Bytes → Bool) (n : ℕ) (lines : List Bytes)
    → grep_single_file re n (some lines) ≡ some (expected re n [] lines)
unfolding grep_single_file
grep_single_file-expected re n lines = ap some (grep_lines-expected re n [] lines)
