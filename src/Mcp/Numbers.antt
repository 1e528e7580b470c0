-- ===== src/Mcp/Numbers.antt =====
-- Numbers with commas: `formatNumber` of internal/mcp/format.go and `formatNumberWithCommas` of
-- internal/ui/format.go, on numbers that are not negative.
pub mod Laws
use veloria.Base.{
  ℕ, zero, suc, ◌+◌, ◌/◌, ◌%◌, Bool, true, false, ◌&&◌, not, List, [], ◌∷◌, ◌++◌, length, ltb, ◌==◌,
  if◌then◌else◌, Bytes,
}
use veloria.Base.Decimal.{decimal}

-- The loop over the digits; `first` tells that no digit stands in front.
unfoldable pub grouped : Bool → Bytes → Bytes
grouped first [] = []
grouped first (c ∷ s) =
    let rest = c ∷ grouped false s in
    if not first && length (c ∷ s) % 3 == 0 then b',' ∷ rest else rest

-- `formatNumber`
unfoldable pub format_number : ℕ → Bytes
format_number n = if ltb n 1000 then decimal n else grouped true (decimal n)

-- the verb `%03d` on a number below 1000
unfoldable pub three_digits : ℕ → Bytes
three_digits n = (48 + n / 100) ∷ (48 + n / 10 % 10) ∷ (48 + n % 10) ∷ []

-- the recursion, on fuel above the number
unfoldable pub with_commas : ℕ → ℕ → Bytes
with_commas zero n = []
with_commas (suc fuel) n =
    let high = with_commas fuel (n / 1000) in
    if ltb n 1000 then decimal n else high ++ b',' ∷ three_digits (n % 1000)

-- `formatNumberWithCommas`
unfoldable pub format_number_with_commas : ℕ → Bytes
format_number_with_commas n = with_commas (suc n) n
