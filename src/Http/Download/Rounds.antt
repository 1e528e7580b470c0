-- ===== src/Http/Download/Rounds.antt =====
-- What the server's answers mean, as predicates, and the rounds of the download loop by them.
use veloria.Base.{
  ℕ, suc, ◌+◌, ◌≤◌, ◌≡◌, ◌≢◌, ◌⊎◌, inl, inr, refl, Bool, true, false, List, [], ◌∷◌, if◌then◌else◌,
  Bytes, arith, Option, none, some, ap, drop, starts_with, starts_with-append, starts_with_parts,
  Bool-cases,
}
use veloria.Base.Int.{ℤ, pos_part}
use veloria.Http.Download.{
  Copy, broken, complete, Exchange, malformed, no_response, response, download_not_found,
  download_unavailable, is_permanent_http_failure, validate_zip_magic, saved, failed, again,
  copy_round, status_round, round_of,
}

-- the number of seconds slept
abbrev pub slept : List ℤ → ℕ
slept [] = 0
slept (w ∷ ws) = pos_part w + slept ws

-- The server answered that the URL never works, with one of the four statuses; or a body is complete, and
-- the file cannot be read back or does not begin with the four bytes of a zip.
pub data IsGone : Exchange → Type 0 where
  by_status :
      {s : ℕ} {h : Bytes} {c : Copy}
      → ((s ≡ 400) ⊎ (s ≡ 403)) ⊎ ((s ≡ 404) ⊎ (s ≡ 410))
      → IsGone (response s h c)
  by_body :
      {h : Bytes} {b : Option Bytes}
      → ((rest : Bytes) → b ≢ some (80 ∷ 75 ∷ 3 ∷ 4 ∷ rest))
      → IsGone (response 200 h (complete b true))

-- The URL may work later: no response, a broken body, or a status 429 or from 500 on. The flag tells
-- whether the failure is other than a 429.
pub data IsTransient : Bool → Exchange → Type 0 where
  by_transport : IsTransient true no_response
  by_copy : {h : Bytes} → IsTransient true (response 200 h (broken true))
  by_limit : {h : Bytes} {c : Copy} → IsTransient false (response 429 h c)
  by_server : {s : ℕ} {h : Bytes} {c : Copy} → 500 ≤ s → IsTransient true (response s h c)

not_valid :
    (b : Option Bytes)
    → ((rest : Bytes) → b ≢ some (80 ∷ 75 ∷ 3 ∷ 4 ∷ rest))
    → validate_zip_magic b ≡ false
unfolding validate_zip_magic
not_valid none h = refl
not_valid (some c) h = elim (Bool-cases (starts_with (80 ∷ 75 ∷ 3 ∷ 4 ∷ []) c)) [
  | inr e ↦ e
  | inl e ↦ absurd (h (drop 4 c) (ap some (starts_with_parts (80 ∷ 75 ∷ 3 ∷ 4 ∷ []) c e)))
]

valid_zip : (rest : Bytes) → validate_zip_magic (some (80 ∷ 75 ∷ 3 ∷ 4 ∷ rest)) ≡ true
unfolding validate_zip_magic
valid_zip rest = starts_with-append (80 ∷ 75 ∷ 3 ∷ 4 ∷ []) rest

not_valid_zip :
    (b : Option Bytes)
    → validate_zip_magic b ≡ false
    → (rest : Bytes) → b ≢ some (80 ∷ 75 ∷ 3 ∷ 4 ∷ rest)
not_valid_zip b h rest e = cc (rw e at h, valid_zip rest)

pub round_of-gone : (x : Exchange) → IsGone x → round_of x ≡ failed download_not_found
unfolding round_of status_round is_permanent_http_failure copy_round
round_of-gone _ (by_status h) = ground arith
round_of-gone _ (by_body {b} h) = rw (not_valid b h)

pub round_of-transient :
    (t : Bool) (x : Exchange) → IsTransient t x → (h : Bytes) × (round_of x ≡ again t h)
unfolding round_of status_round is_permanent_http_failure copy_round
round_of-transient _ _ by_transport = ([], refl)
round_of-transient _ _ by_copy = ([], refl)
round_of-transient _ _ (by_limit {h}) = (h, refl)
round_of-transient _ _ (by_server {s} {h} k) = (h, ground arith)

-- the other way
not_zip :
    (b : Option Bytes)
    → (if validate_zip_magic b then saved b else failed download_not_found)
      ≡ failed download_not_found
    → validate_zip_magic b ≡ false
not_zip b e = ground arith

again_flag : {h r : Bytes} → again true h ≡ again false r → ⊥
again_flag e = cc

copy_round-IsGone :
    (h : Bytes) (c : Copy) → copy_round c ≡ failed download_not_found → IsGone (response 200 h c)
unfolding copy_round
copy_round-IsGone h (broken true) e = cc
copy_round-IsGone h (broken false) e = cc
copy_round-IsGone h (complete b false) e = cc
copy_round-IsGone h (complete b true) e = by_body (not_valid_zip b (not_zip b e))

copy_round-again :
    (h r : Bytes) (c : Copy) (t : Bool)
    → copy_round c ≡ again t r
    → IsTransient t (response 200 h c)
unfolding copy_round
copy_round-again h r (broken true) true e = by_copy
copy_round-again h r (broken true) false e = elim (again_flag e) [ ]
copy_round-again h r (broken false) t e = cc
copy_round-again h r (complete b false) t e = cc
copy_round-again h r (complete b true) t e = ground arith

permanent_status :
    (s : ℕ) → is_permanent_http_failure s ≡ true → ((s ≡ 400) ⊎ (s ≡ 403)) ⊎ ((s ≡ 404) ⊎ (s ≡ 410))
unfolding is_permanent_http_failure
permanent_status s h = ground arith

status_round-gone :
    (s : ℕ) (h : Bytes) (c : Copy)
    → status_round s h c ≡ failed download_not_found
    → (is_permanent_http_failure s ≡ true)
      ⊎ ((s ≡ 200) × (copy_round c ≡ failed download_not_found))
unfolding status_round
status_round-gone s h c e = ground arith

status_round-again :
    (s : ℕ) (h r : Bytes) (c : Copy) (t : Bool)
    → status_round s h c ≡ again t r
    → ((s ≡ 429) × (t ≡ false))
      ⊎ ((((500 ≤ s) × (t ≡ true)) ⊎ ((s ≡ 200) × (copy_round c ≡ again t r))))
unfolding status_round
status_round-again s h r c t e = ground arith

-- The server's answers: gone for good at attempt `a` or, behind transient failures, at a later one.
pub data GoneAt (net : ℕ → Exchange) : ℕ → ℕ → Type 0 where
  here : {a left : ℕ} → IsGone (net a) → GoneAt net a (suc left)
  later :
      {a left : ℕ} {t : Bool}
      → IsTransient t (net a)
      → GoneAt net (a + 1) left
      → GoneAt net a (suc left)

-- Every attempt fails for a while; the last flag is that of the last attempt.
pub data Fails (net : ℕ → Exchange) : ℕ → ℕ → Bool → Bool → Type 0 where
  end : {a : ℕ} {t : Bool} → Fails net a 0 t t
  retry :
      {a left : ℕ} {t u v : Bool}
      → IsTransient u (net a)
      → Fails net (a + 1) left u v
      → Fails net a (suc left) t v

pub IsGone-of : (x : Exchange) → round_of x ≡ failed download_not_found → IsGone x
unfolding round_of
IsGone-of malformed e = cc
IsGone-of no_response e = cc
IsGone-of (response s h c) e = elim (status_round-gone s h c e) [
  | inl k ↦ by_status (permanent_status s k)
  | inr (k, f) ↦ rw k (copy_round-IsGone h c f)
]

pub IsTransient-of :
    (t : Bool) (r : Bytes) (x : Exchange) → round_of x ≡ again t r → IsTransient t x
unfolding round_of
IsTransient-of t r malformed e = cc
IsTransient-of true r no_response e = by_transport
IsTransient-of false r no_response e = elim (again_flag e) [ ]
IsTransient-of t r (response s h c) e = elim (status_round-again s h r c t e) [
  | inl (k, f) ↦ rw (k, f) by_limit
  | inr (inl (k, f)) ↦ rw f (by_server k)
  | inr (inr (k, f)) ↦ rw k (copy_round-again h r c t f)
]

copy_round_unavailable : (c : Copy) → copy_round c ≢ failed download_unavailable
unfolding copy_round
copy_round_unavailable (broken true) e = cc
copy_round_unavailable (broken false) e = cc
copy_round_unavailable (complete b false) e = cc
copy_round_unavailable (complete b true) e = ground arith

-- only the end of the loop reports an unavailable URL
pub round_of_unavailable : (x : Exchange) → round_of x ≢ failed download_unavailable
unfolding round_of status_round
round_of_unavailable malformed e = cc
round_of_unavailable no_response e = cc
round_of_unavailable (response s h c) e = ground (arith, copy_round_unavailable c)
