-- ===== src/Web/Window.antt =====
-- The lines that are read around a line.
use veloria.Base.{
  ℕ, zero, suc, ◌+◌, ◌-◌, max, min, ◌≤◌, ◌<◌, ◌≡◌, refl, ◌||◌, none, some, List, [], ◌∷◌, ltb, ◌==◌,
  if◌then◌else◌, Bytes, length, take, drop, arith, Bool-cases, inl, inr,
}
use veloria.Web.{ContextLine, OpenFile, add_line, scan_lines, close_lines, read_context_lines}

-- lines with their numbers from `n` on, of which one is the match
abbrev pub marked : ℕ → ℕ → List Bytes → List ContextLine
marked line n [] = []
marked line n (l ∷ ls) =
    record { number = n; text = l; is_match = n == line } ∷ marked line (suc n) ls

-- what the loop finds from line `n` on
abbrev window : List Bytes → ℕ → ℕ → ℕ → ℕ → List ContextLine
window ls line start end n = marked line (max start n) (drop (start - n) (take (suc end - n) ls))

window_skips :
    (l : Bytes) (ls : List Bytes) (line start end n : ℕ)
    → n < start
    → start ≤ end
    → window (l ∷ ls) line start end n ≡ window ls line start end (suc n)
window_skips l ls line start end n h k =
    let a : start - n ≡ suc (start - suc n) = omega (arith, h) in
    let b : suc end - n ≡ suc (suc end - suc n) = omega (arith, h, k) in
    let c : max start n ≡ start = omega (arith, h) in
    let d : max start (suc n) ≡ start = omega (arith, h) in rw (a, b, c, d)

window_takes :
    (l : Bytes) (ls : List Bytes) (line start end n : ℕ)
    → start ≤ n
    → n ≤ end
    → window (l ∷ ls) line start end n
      ≡ record { number = n; text = l; is_match = n == line } ∷ window ls line start end (suc n)
window_takes l ls line start end n h k =
    let a : start - n ≡ 0 = omega (arith, h) in
    let a' : start - suc n ≡ 0 = omega (arith, h) in
    let b : suc end - n ≡ suc (suc end - suc n) = omega (arith, k) in
    let c : max start n ≡ n = omega (arith, h) in
    let d : max start (suc n) ≡ suc n = omega (arith, h) in rw (a, a', b, c, d)

take-nil : (k : ℕ) → take {A = Bytes} k [] ≡ []
take-nil zero = refl
take-nil (suc k) = refl

drop-nil : (k : ℕ) → drop {A = Bytes} k [] ≡ []
drop-nil zero = refl
drop-nil (suc k) = refl

window_none :
    (ls : List Bytes) (line start size n : ℕ)
    → take size ls ≡ []
    → marked line (max start n) (drop (start - n) (take size ls)) ≡ []
window_none ls line start size n h = rw (h, drop-nil (start - n))

scan_lines-window :
    (ls : List Bytes) (current line start end : ℕ)
    → start ≤ end
    → current ≤ end
    → scan_lines ls current line start end
      ≡ (window ls line start end (suc current), suc (min (current + length ls) end))
unfolding scan_lines add_line
scan_lines-window [] current line start end h k =
    let within : min (current + 0) end ≡ current = omega (arith, k) in
    rw (within, window_none [] line start (suc end - suc current) (suc current) (take-nil _)) refl
scan_lines-window (l ∷ ls) current line start end h k =
    let rest = scan_lines-window ls (suc current) line start end h in
    let size : suc current + length ls ≡ current + suc (length ls) = omega arith in
    elim (Bool-cases (ltb (suc current) start)) [
      | inl e ↦
          let before : suc current < start = ground (arith, e) in
          rw (e, window_skips l ls line start end (suc current) before h, ← size)
            (rest (omega (arith, before, h)))
      | inr e ↦ elim (Bool-cases (ltb end (suc current))) [
        | inl f ↦
            let past : end < suc current = ground (arith, f) in
            let none_left : suc end - suc current ≡ 0 = omega (arith, past) in
            let calls : min (current + suc (length ls)) end ≡ current = omega (arith, past, k) in
            rw
              (
                e,
                f,
                calls,
                window_none (l ∷ ls) line start (suc end - suc current) (suc current)
                    (rw none_left),
              )
              refl
        | inr f ↦
            let here : suc current ≤ end = ground (arith, f) in
            let there : start ≤ suc current = ground (arith, e) in
            rw (e, f, rest here, window_takes l ls line start end (suc current) there here, ← size)
              refl
      ]
    ]

-- Around a line, counted from 1, of a file that is open, the lines from `line - radius` to `line +
-- radius` are read, or fewer at an end of the file, with their numbers, and the line itself is marked.
-- `Scan` is called once more than these and the lines before them are many; there is an error exactly
-- if `Err` has one then, or a deferred `Close` fails then.
pub read_context_lines-window :
    (f : OpenFile) (line radius : ℕ)
    → 1 ≤ line
    → read_context_lines (some f) line radius ≡ (
        let calls = suc (min (length f.lines) (line + radius)) in
        let start = max (line - radius) 1 in
        if f.scan_error calls || f.close_error calls
        then none
        else some (marked line start (drop (start - 1) (take (line + radius) f.lines))))
unfolding read_context_lines close_lines
read_context_lines-window f line radius h =
    let start = max (line - radius) 1 in
    let first : max start 1 ≡ start = omega arith in
    let last : suc (line + radius) - 1 ≡ line + radius = omega arith in
    let from_zero : 0 + length f.lines ≡ length f.lines = omega arith in
    rw
      (
        scan_lines-window f.lines 0 line start (line + radius) (omega (arith, h)) (omega arith),
        first,
        last,
        from_zero,
      )
      refl
