-- ===== src/Grep/Scan/Laws.antt =====
-- What the byte searches find in text that is given line by line.
use veloria.Base.{
  ℕ, zero, suc, ◌+◌, ◌≤◌, ◌<◌, ◌≡◌, ◌≢◌, refl, none, some, List, [], ◌∷◌, ◌++◌, append_assoc, arith,
  length, length-append, drop, All, Bytes,
}
use native.Mathlib.Numerals.{towards_suc}
use veloria.Grep.Scan.{nl, index_byte, after_last, trim_right, count_nl_loop, count_nl}

-- No newline in a line.
abbrev pub IsLine : Bytes → Type 0
IsLine = All (λ c. c ≢ nl)

-- Lines with a newline behind each.
abbrev pub ended : List Bytes → Bytes
ended [] = []
ended (l ∷ ls) = l ++ nl ∷ ended ls

pub index_byte_line : (l : Bytes) → IsLine l → index_byte l nl ≡ none
unfolding index_byte
index_byte_line [] h = refl
index_byte_line (b ∷ l) (h, hs) = ground (arith, index_byte_line l hs)

pub index_byte_ended :
    (l rest : Bytes) → IsLine l → index_byte (l ++ nl ∷ rest) nl ≡ some (length l)
unfolding index_byte
index_byte_ended [] rest h = refl
index_byte_ended (b ∷ l) rest (h, hs) = ground (arith, index_byte_ended l rest hs)

pub after_last_line : (l : Bytes) → IsLine l → after_last l nl ≡ 0
unfolding after_last
after_last_line [] h = refl
after_last_line (b ∷ l) (h, hs) = ground (arith, after_last_line l hs)

after_last_skip :
    (l s : Bytes) → 0 < after_last s nl → after_last (l ++ s) nl ≡ length l + after_last s nl
unfolding after_last
after_last_skip [] s h = omega arith
after_last_skip (b ∷ l) s h = ground (arith, after_last_skip l s h)

-- The last newline of `s ++ [nl] ++ l` is the one written out.
pub after_last_ended : (s l : Bytes) → IsLine l → after_last (s ++ nl ∷ l) nl ≡ length s + 1
unfolding after_last
after_last_ended [] l h = ground (arith, after_last_line l h)
after_last_ended (b ∷ s) l h = ground (arith, after_last_ended s l h)

pub ended-append :
    (k : Bytes) (ls : List Bytes) (l : Bytes) → ended (k ∷ ls) ++ l ≡ k ++ nl ∷ (ended ls ++ l)
ended-append k ls l = append_assoc k (nl ∷ ended ls) l

pub after_last_lines :
    (ls : List Bytes) (l : Bytes) → IsLine l → after_last (ended ls ++ l) nl ≡ length (ended ls)
after_last_lines [] l h = after_last_line l h
after_last_lines (k ∷ []) l h =
    rw (ended-append k [] l) (omega (arith, after_last_ended k l h, length-append k (nl ∷ [])))
after_last_lines (k ∷ k' ∷ ls) l h =
    let s = ended (k' ∷ ls) in
    let ih = after_last_lines (k' ∷ ls) l h in
    let grow = length-append k (nl ∷ s) in
    let split = append_assoc k (nl ∷ []) (s ++ l) in
    rw (ended-append k (k' ∷ ls) l, ← split)
      (omega (
        arith,
        ih,
        grow,
        length-append k (nl ∷ []),
        length-append k' (nl ∷ ended ls),
        after_last_skip (k ++ nl ∷ []) (s ++ l),
      ))

pub drop_line : (k s : Bytes) → drop (length k + 1) (k ++ nl ∷ s) ≡ s
drop_line [] s = refl
drop_line (b ∷ k) s = simp towards_suc (let ih = drop_line k s in simp towards_suc at ih)

count_nl_loop-ended :
    (ls : List Bytes) (l : Bytes) (fuel n : ℕ)
    → All IsLine ls
    → IsLine l
    → length ls < fuel
    → count_nl_loop fuel (ended ls ++ l) n ≡ n + length ls
unfolding count_nl_loop
count_nl_loop-ended ls l zero n hs h lt = absurd (omega arith)
count_nl_loop-ended [] l (suc fuel) n hs h lt = ground (arith, index_byte_line l h)
count_nl_loop-ended (k ∷ ls) l (suc fuel) n (hk, hs) h lt = rw ended-append (
    ground (
      arith,
      index_byte_ended k (ended ls ++ l) hk,
      drop_line k (ended ls ++ l),
      count_nl_loop-ended ls l fuel (n + 1) hs h,
    ))

-- Every line brings at least its newline.
length-ended : (ls : List Bytes) → length ls ≤ length (ended ls)
length-ended [] = omega arith
length-ended (k ∷ ls) = omega (arith, length-ended ls, length-append k (nl ∷ ended ls))

-- In a buffer of ended lines with one more line behind them, `countNL` counts the ended lines.
pub count_nl-ended :
    (ls : List Bytes) (l : Bytes) → All IsLine ls → IsLine l → count_nl (ended ls ++ l) ≡ length ls
unfolding count_nl
count_nl-ended ls l hs h = omega (
  arith,
  length-ended ls,
  length-append (ended ls) l,
  count_nl_loop-ended ls l (suc (length (ended ls ++ l))) 0 hs h,
)

-- The newline that ends a line is trimmed with the carriage returns before it.
pub trim_right_ended : (l : Bytes) → trim_right (l ++ nl ∷ []) ≡ trim_right l
unfolding trim_right
trim_right_ended [] = refl
trim_right_ended (b ∷ l) = ground (arith, trim_right_ended l)

-- The same, for lines given from the last one up.
abbrev pub ended_up : List Bytes → Bytes
ended_up [] = []
ended_up (l ∷ ls) = ended_up ls ++ (l ++ nl ∷ [])

-- What follows a line: nothing, or a newline and the lines below joined by newlines.
abbrev pub below : List Bytes → Bytes
below [] = []
below (l ∷ ls) = nl ∷ (l ++ below ls)

-- strings.Join(lines, "\n")
abbrev pub unsplit : List Bytes → Bytes
unsplit [] = []
unsplit (l ∷ ls) = l ++ below ls
