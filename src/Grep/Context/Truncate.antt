-- ===== src/Grep/Context/Truncate.antt =====
-- The bounds of the lines that a search returns.
use veloria.Base.{
  ℕ, zero, suc, ◌+◌, ◌-◌, ◌≤◌, ◌<◌, ◌*◌, min, ◌≡◌, refl, ap, Option, some, List, [], ◌∷◌, arith,
  length, get_elem?, take, drop, length-take, All, Bytes, leb, Bool-cases, leb→le, inl, inr,
}
use veloria.Grep.Context.{
  max_line_len, truncate_radius, match_center, truncate_match_line, truncate_context_line,
  truncate_context_lines,
}

get_elem?-take {ℓ} :
    {A : Type ℓ} (n i : ℕ) (xs : List A) → i < n → get_elem? (take n xs) i ≡ get_elem? xs i
get_elem?-take zero i xs h = absurd (omega arith)
get_elem?-take (suc n) i [] h = refl
get_elem?-take (suc n) zero (x ∷ xs) h = refl
get_elem?-take (suc n) (suc i) (x ∷ xs) h = get_elem?-take n i xs (omega arith)

get_elem?-drop {ℓ} :
    {A : Type ℓ} (n i : ℕ) (xs : List A) → get_elem? (drop n xs) i ≡ get_elem? xs (n + i)
get_elem?-drop zero i xs = let e : 0 + i ≡ i = omega arith in rw e
get_elem?-drop (suc n) i [] = refl
get_elem?-drop (suc n) i (x ∷ xs) =
    let e : suc n + i ≡ suc (n + i) = omega arith in rw e (get_elem?-drop n i xs)

-- A line is never returned longer than `max_line_len`, wherever the regexp finds the match.
truncate_match_line-size :
    (line : Bytes) (fre : Option (Bytes → Option ℕ))
    → length (truncate_match_line line fre) ≤ max_line_len
unfolding truncate_match_line
truncate_match_line-size line fre =
    let c = match_center fre line in
    let n = min (c + truncate_radius) (length line) - (c - truncate_radius) in
    ground (arith, length-take n (drop (c - truncate_radius) line))

-- Of a line longer than `max_line_len` in which the regexp finds the match at byte `c`, at most
-- twice `truncate_radius` bytes are returned, and they hold the byte at `c`: it stands behind the
-- `truncate_radius` bytes before it, or behind all that there are.
truncate_match_line-keeps :
    (line : Bytes) (find : Bytes → Option ℕ) (c : ℕ)
    → max_line_len < length line
    → find line ≡ some c
    → c < length line
    → (length (truncate_match_line line (some find)) ≤ 2 * truncate_radius)
      × (get_elem? (truncate_match_line line (some find)) (min c truncate_radius)
          ≡ get_elem? line c)
unfolding truncate_match_line match_center
truncate_match_line-keeps line find c long found inside =
    let from = c - truncate_radius in
    let n = min (c + truncate_radius) (length line) - from in
    let size = length-take n (drop from line) in
    let inner = get_elem?-take n (min c truncate_radius) (drop from line) (omega arith) in
    let whole = get_elem?-drop from (min c truncate_radius) line in
    let place : from + min c truncate_radius ≡ c = omega arith in
    (ground (arith, size), ground (arith, inner, whole, place))

truncate_context_line-size : (l : Bytes) → length (truncate_context_line l) ≤ max_line_len
unfolding truncate_context_line
truncate_context_line-size l = elim (Bool-cases (leb (length l) max_line_len)) [
  | inl short ↦ rw short (leb→le _ _ short)
  | inr long ↦ rw long (omega (arith, length-take max_line_len l))
]

-- Every context line is cut to at most `max_line_len` bytes, and no line is added or lost.
truncate_context_lines-size :
    (lines : List Bytes)
    → (length (truncate_context_lines lines) ≡ length lines)
      × All (λ l. length l ≤ max_line_len) (truncate_context_lines lines)
unfolding truncate_context_lines
truncate_context_lines-size [] = (refl, tt)
truncate_context_lines-size (l ∷ lines) =
    let (n, h) = truncate_context_lines-size lines in (ap suc n, (truncate_context_line-size l, h))
