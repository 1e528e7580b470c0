-- ===== src/Grep/Context.antt =====
-- `extractBeforeContext`, `extractAfterContext`, `truncateMatchLine` and `truncateContextLines` of
-- internal/index/index.go.
pub mod Laws
pub mod Truncate
use veloria.Base.{
  ℕ, zero, suc, ◌+◌, ◌-◌, min, Bool, true, false, Option, none, some, List, [], ◌∷◌, ◌||◌, map,
  reverse, length, get_elem?, take, drop, slice, leb, ◌==◌, if◌then◌else◌, Bytes, or_default,
}
use veloria.Grep.Scan.{nl, index_byte, after_last}

abbrev pub max_line_len : ℕ
max_line_len = 250

abbrev pub truncate_radius : ℕ
truncate_radius = 100

-- `end` is just behind the last byte of the next line upwards.
unfoldable pub before_loop : ℕ → Bytes → ℕ → List Bytes
before_loop zero buf end = []
before_loop (suc n) buf end = elim (end == 0) [
  | true ↦ []
  | false ↦
      let start = after_last (take end buf) nl in
      slice buf start end ∷ before_loop n buf (start - 1)
]

-- buf[i] == '\n'
unfoldable pub is_nl_at : Bytes → ℕ → Bool
is_nl_at buf i = elim (get_elem? buf i) [ none ↦ false | some b ↦ b == nl ]

unfoldable pub extract_before : Bytes → ℕ → ℕ → List Bytes
unfolding before_loop is_nl_at after_last
extract_before buf line_start n =
    if line_start == 0 || n == 0
    then []
    else reverse
        (before_loop n buf (if is_nl_at buf (line_start - 1) then line_start - 1 else line_start))

unfoldable pub after_loop : ℕ → Bytes → ℕ → List Bytes
after_loop zero buf pos = []
after_loop (suc n) buf pos = elim (leb (length buf) pos) [
  | true ↦ []
  | false ↦ elim (index_byte (drop pos buf) nl) [
    | none ↦ drop pos buf ∷ []
    | some i ↦ slice buf pos (pos + i) ∷ after_loop n buf (pos + i + 1)
  ]
]

unfoldable pub extract_after : Bytes → ℕ → ℕ → List Bytes
unfolding after_loop index_byte
extract_after buf line_end n =
    if leb (length buf) line_end || n == 0 then [] else after_loop n buf line_end

-- `find` is the start of the first match, `fre.FindStringIndex(line)[0]`; a nil `fre` or no match
-- leaves the centre at 0.
unfoldable pub match_center : Option (Bytes → Option ℕ) → Bytes → ℕ
match_center none line = 0
match_center (some find) line = or_default (find line) 0

unfoldable pub truncate_match_line : Bytes → Option (Bytes → Option ℕ) → Bytes
unfolding match_center
truncate_match_line line fre =
    if leb (length line) max_line_len
    then line
    else let center = match_center fre line in
      slice line (center - truncate_radius) (min (center + truncate_radius) (length line))

truncate_context_line : Bytes → Bytes
truncate_context_line line = if leb (length line) max_line_len then line else take max_line_len line

unfoldable pub truncate_context_lines : List Bytes → List Bytes
unfolding truncate_context_line
truncate_context_lines lines = map truncate_context_line lines
