-- ===== src/Grep/Scan.antt =====
-- The searches of Go's package bytes that internal/index/index.go makes, and its `countNL`.
pub mod Laws
use veloria.Base.{
  ℕ, zero, suc, ◌+◌, true, false, Option, none, some, [], ◌∷◌, ◌||◌, length, drop, ◌==◌,
  if◌then◌else◌, Bytes,
}

abbrev pub nl : ℕ
nl = 10

abbrev cr : ℕ
cr = 13

-- bytes.IndexByte, with `none` for -1
unfoldable pub index_byte : Bytes → ℕ → Option ℕ
index_byte [] c = none
index_byte (b ∷ bs) c = elim (b == c) [
  | true ↦ some 0
  | false ↦ elim (index_byte bs c) [ none ↦ none | some i ↦ some (suc i) ]
]

-- bytes.LastIndexByte plus one; the -1 of a missing byte gives 0
unfoldable pub after_last : Bytes → ℕ → ℕ
after_last [] c = 0
after_last (b ∷ bs) c = elim (after_last bs c) [
  | zero ↦ if b == c then 1 else 0
  | suc i ↦ suc (suc i)
]

-- bytes.TrimRight(b, "\r\n")
unfoldable pub trim_right : Bytes → Bytes
trim_right [] = []
trim_right (b ∷ bs) = elim (trim_right bs) [
  | [] ↦ if b == cr || b == nl then [] else b ∷ []
  | c ∷ cs ↦ b ∷ c ∷ cs
]

-- the loop of `countNL`
unfoldable pub count_nl_loop : ℕ → Bytes → ℕ → ℕ
count_nl_loop zero b n = n
count_nl_loop (suc fuel) b n = elim (index_byte b nl) [
  | none ↦ n
  | some i ↦ count_nl_loop fuel (drop (i + 1) b) (n + 1)
]

-- each round drops at least one byte
unfoldable pub count_nl : Bytes → ℕ
unfolding count_nl_loop index_byte
count_nl b = count_nl_loop (suc (length b)) b 0
