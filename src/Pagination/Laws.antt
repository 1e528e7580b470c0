-- ===== src/Pagination/Laws.antt =====
-- What a parsed pagination satisfies.
use veloria.Base.{
  ℕ, zero, suc, ◌-◌, ◌*◌, ◌^◌, ◌≤◌, ◌<◌, ◌≡◌, refl, sym, subst, Option, none, some, [], ◌∷◌, Bytes,
  ltb, arith, if◌then◌else◌,
}
use veloria.Base.Int.{ℤ, pos, negsuc}
use veloria.Base.Atoi.{atoi}
use veloria.Http.Delay.Laws.{to_int64-small}
use veloria.Pagination.{
  default_per_page, max_per_page, Pagination, positive, parameter, pagination, paginate,
  parse_pagination,
}

positive-one : (o : Option ℤ) (n : ℕ) → positive o ≡ some n → 1 ≤ n
unfolding positive
positive-one none n e = cc
positive-one (some (negsuc m)) n e = cc
positive-one (some (pos zero)) n e = cc
positive-one (some (pos (suc m))) n e = ground (arith, e)

parameter-one : (d n : ℕ) (s : Bytes) → 1 ≤ d → parameter d s ≡ some n → 1 ≤ n
unfolding parameter
parameter-one d n [] h e = ground (arith, e)
parameter-one d n (c ∷ s) h e = positive-one (atoi (c ∷ s)) n e

paginate_parts :
    (a b : Option ℕ) (p : Pagination)
    → paginate a b ≡ some p
    → (n : ℕ) × (m : ℕ) × ((a ≡ some n) × (b ≡ some m)) × (p ≡ pagination n m)
unfolding paginate
paginate_parts none b p e = cc
paginate_parts (some n) none p e = cc
paginate_parts (some n) (some m) p e = (n, m, (refl, refl), cc)

size_bounds :
    (m : ℕ)
    → 1 ≤ m
    → (1 ≤ (if ltb max_per_page m then max_per_page else m))
      × ((if ltb max_per_page m then max_per_page else m) ≤ max_per_page)
size_bounds m h = (ground (arith, h), ground (arith, h))

pagination_bounds :
    (n m : ℕ)
    → 1 ≤ n
    → 1 ≤ m
    → ((1 ≤ (pagination n m).page) × (1 ≤ (pagination n m).per_page))
      × (((pagination n m).per_page ≤ max_per_page)
          × ((pagination n m).limit ≡ (pagination n m).per_page))
unfolding pagination
pagination_bounds n m h k = let (l, u) = size_bounds m k in ((h, l), (u, refl))

-- A parsed pagination has a page of at least 1 and a page size from 1 to 200, which is the limit.
parse_pagination_bounds :
    (page_str per_page_str : Bytes) (p : Pagination)
    → parse_pagination page_str per_page_str ≡ some p
    → ((1 ≤ p.page) × (1 ≤ p.per_page)) × ((p.per_page ≤ max_per_page) × (p.limit ≡ p.per_page))
unfolding parse_pagination
parse_pagination_bounds page_str per_page_str p e =
    let (n, m, (a, b), c) =
      paginate_parts (parameter 1 page_str) (parameter default_per_page per_page_str) p e in
    rw c (
      pagination_bounds n m (parameter-one 1 n page_str (omega arith) a)
        (parameter-one default_per_page m per_page_str (omega arith) b))

pagination_offset :
    (n m : ℕ)
    → ((pagination n m).page - 1) * (pagination n m).per_page < 2 ^ 63
    → (pagination n m).offset ≡ pos (((pagination n m).page - 1) * (pagination n m).per_page)
unfolding pagination
pagination_offset n m h = to_int64-small _ h

-- The offset is the number of entries on the pages before, if that fits an int64.
parse_pagination_offset :
    (page_str per_page_str : Bytes) (p : Pagination)
    → parse_pagination page_str per_page_str ≡ some p
    → (p.page - 1) * p.per_page < 2 ^ 63
    → p.offset ≡ pos ((p.page - 1) * p.per_page)
unfolding parse_pagination
parse_pagination_offset page_str per_page_str p e h =
    let (n, m, _, c) =
      paginate_parts (parameter 1 page_str) (parameter default_per_page per_page_str) p e in
    subst (λ q. (q.page - 1) * q.per_page < 2 ^ 63 → q.offset ≡ pos ((q.page - 1) * q.per_page))
      (sym c) (pagination_offset n m) h
