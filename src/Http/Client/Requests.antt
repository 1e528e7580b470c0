-- ===== src/Http/Client/Requests.antt =====
-- Which responses give a body.
use veloria.Base.{
  ℕ, zero, suc, ◌+◌, ◌≤◌, ◌<◌, ◌≡◌, ◌↔◌, inl, inr, refl, ap, true, false, Option, none, some, [],
  ◌∷◌, length, Bytes, arith, ltb, ◌==◌, ◌||◌, Bool-cases, take, take_all,
}
use veloria.Base.Int.{ℤ}
use veloria.Http.Client.{
  answered, body_of, read_body_with_limit, limited_body, success_body, do_request,
  response_max_bytes,
}

length-take : (n : ℕ) (xs : Bytes) → n < length xs → length (take (suc n) xs) ≡ suc n
length-take zero (x ∷ xs) h = refl
length-take zero [] h = omega (arith, h)
length-take (suc n) [] h = omega (arith, h)
length-take (suc n) (x ∷ xs) h = ap suc (length-take n xs (omega (arith, h)))

-- what stays within the limit is the whole body
pub read_within : (m : ℕ) (b : Bytes) → length b ≤ m → read_body_with_limit m b ≡ some b
unfolding read_body_with_limit
read_within m b h =
    let t : take (m + 1) b ≡ b = take_all (m + 1) b (omega (arith, h)) in
    let l : ltb m (length b) ≡ false = ground (arith, h) in rw (t, l)

pub read_beyond : (m : ℕ) (b : Bytes) → m < length b → read_body_with_limit m b ≡ none
unfolding read_body_with_limit
read_beyond m b h =
    let e : m + 1 ≡ suc m = omega arith in
    let l : ltb m (suc m) ≡ true = ground arith in rw (e, length-take m b h, l)

read_some : (m : ℕ) (b c : Bytes) → read_body_with_limit m b ≡ some c → (b ≡ c) × (length b ≤ m)
read_some m b c e = elim (Bool-cases (ltb m (length b))) [
  | inl l ↦ absurd (cc (read_beyond m b (ground (arith, l)), e))
  | inr l ↦ let le : length b ≤ m = ground (arith, l) in (cc (read_within m b le, e), le)
]

limited_some : (o : Option Bytes) (b : Bytes) → limited_body o ≡ body_of b → o ≡ some b
unfolding limited_body
limited_some none b e = cc
limited_some (some x) b e = cc

success_some :
    (o : Option Bytes) (b : Bytes)
    → success_body o ≡ body_of b
    → (o ≡ some b) × (length b ≤ response_max_bytes)
unfolding success_body
success_some none b e = cc
success_some (some x) b e =
    let (p, l) = read_some response_max_bytes x b (limited_some _ b e) in (ap some p, rw (← p) l)

status_success :
    (until : Bytes → Option ℤ) (fields : Bytes → Bytes) (d : ℤ) (s : ℕ) (h : Bytes)
    (o : Option Bytes) (b : Bytes)
    → do_request until fields d (answered s h o) ≡ body_of b
    → ((200 ≤ s) × (s ≤ 299)) × (success_body o ≡ body_of b)
unfolding do_request
status_success until fields d s h o b e = ground arith

-- A request gives the body `b` exactly if the response has a status from 200 to 299 and `b` as its
-- whole body, read without an error, of at most 10 MiB.
do_request_body :
    (until : Bytes → Option ℤ) (fields : Bytes → Bytes) (d : ℤ) (s : ℕ) (h : Bytes)
    (o : Option Bytes) (b : Bytes)
    → (do_request until fields d (answered s h o) ≡ body_of b)
      ↔ (((200 ≤ s) × (s ≤ 299)) × ((o ≡ some b) × (length b ≤ response_max_bytes)))
unfolding do_request success_body limited_body
do_request_body until fields d s h o b = (
  (λ e. let (r, f) = status_success until fields d s h o b e in (r, success_some o b f)),
  (λ ((l, r), (p, q)).
      let a : (s == 429) ≡ false = ground (arith, r) in
      let c : (ltb s 200 || ltb 299 s) ≡ false = ground (arith, l, r) in
      rw (a, c, p, read_within response_max_bytes b q)),
)
