-- ===== src/Pagination.antt =====
-- `ParsePagination` of internal/api/pagination.go. A query parameter is its first value, empty where
-- it is missing.
pub mod Laws
use veloria.Base.{
  ℕ, zero, suc, ◌-◌, ◌*◌, ◌^◌, Option, none, some, List, [], ◌∷◌, Bytes, ltb, if◌then◌else◌,
}
use veloria.Base.Int.{ℤ, pos, negsuc}
use veloria.Base.Atoi.{atoi}
use veloria.Http.Delay.{to_int64}

abbrev pub default_per_page : ℕ
default_per_page = 50

abbrev pub max_per_page : ℕ
max_per_page = 200

pub record Pagination : Type 0 where
  pub page : ℕ
  pub per_page : ℕ
  pub offset : ℤ
  pub limit : ℕ

-- `parsed, err := strconv.Atoi(s)`, refused for an error or below 1
unfoldable pub positive : Option ℤ → Option ℕ
positive none = none
positive (some (negsuc n)) = none
positive (some (pos zero)) = none
positive (some (pos (suc n))) = some (suc n)

-- a parameter with its default
unfoldable pub parameter : ℕ → Bytes → Option ℕ
parameter default_value [] = some default_value
parameter default_value (c ∷ s) = positive (atoi (c ∷ s))

-- the product of the offset wraps around
unfoldable pub pagination : ℕ → ℕ → Pagination
pagination page per_page =
    let size = if ltb max_per_page per_page then max_per_page else per_page in
    record { page = page; per_page = size; offset = to_int64 ((page - 1) * size); limit = size }

unfoldable pub paginate : Option ℕ → Option ℕ → Option Pagination
paginate none per_page = none
paginate (some page) none = none
paginate (some page) (some per_page) = some (pagination page per_page)

unfoldable pub parse_pagination : Bytes → Bytes → Option Pagination
parse_pagination page_str per_page_str =
    paginate (parameter 1 page_str) (parameter default_per_page per_page_str)
