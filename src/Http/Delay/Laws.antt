-- ===== src/Http/Delay/Laws.antt =====
-- The waits: within their caps, exact for a number of seconds that fits, negative behind an overflow.
use veloria.Base.{
  ℕ, zero, suc, ◌-◌, ◌*◌, ◌%◌, ◌^◌, ◌≤◌, ◌<◌, ◌≡◌, refl, true, false, Option, none, some, [], ◌∷◌,
  ltb, Bytes, arith, min, ap, ◌∙◌, lt→ltb,
}
use veloria.Base.Int.{ℤ, pos, negsuc, pos_part}
use veloria.Base.Atoi.{atoi, trim_space}
use veloria.Http.Delay.{
  second, max_delay, download_max_retry_wait, to_int64, capped, seconds_wait, header_wait,
  trimmed_wait, parse_retry_after_header, date_wait, delay_of,
}

capped_le : (limit : ℕ) (d : ℤ) → pos_part (capped limit d) ≤ limit
unfolding capped
capped_le limit (pos d) = ground arith
capped_le limit (negsuc d) = ground arith

header_wait_le :
    (w : ℤ) (o : Option ℤ)
    → pos_part w ≤ download_max_retry_wait
    → pos_part (header_wait w o) ≤ download_max_retry_wait
unfolding header_wait seconds_wait
header_wait_le w none h = h
header_wait_le w (some (negsuc n)) h = h
header_wait_le w (some (pos zero)) h = h
header_wait_le w (some (pos (suc n))) h = capped_le download_max_retry_wait _

trimmed_wait_le :
    (w : ℤ) (val : Bytes)
    → pos_part w ≤ download_max_retry_wait
    → pos_part (trimmed_wait w val) ≤ download_max_retry_wait
unfolding trimmed_wait
trimmed_wait_le w [] h = h
trimmed_wait_le w (c ∷ s) h = header_wait_le w (atoi (c ∷ s)) h

-- A wait between downloads is at most `downloadMaxRetryWait`, if the default wait is.
pub parse_retry_after_header_le :
    (w : ℤ) (val : Bytes)
    → pos_part w ≤ download_max_retry_wait
    → pos_part (parse_retry_after_header w val) ≤ download_max_retry_wait
unfolding parse_retry_after_header
parse_retry_after_header_le w val h = trimmed_wait_le w (trim_space val) h

date_wait_le :
    (w : ℤ) (u : Option ℤ) → pos_part w ≤ max_delay → pos_part (date_wait w u) ≤ max_delay
unfolding date_wait
date_wait_le w none h = h
date_wait_le w (some (negsuc n)) h = h
date_wait_le w (some (pos zero)) h = h
date_wait_le w (some (pos (suc n))) h = capped_le max_delay _

delay_of_le :
    (w : ℤ) (o u : Option ℤ) → pos_part w ≤ max_delay → pos_part (delay_of w o u) ≤ max_delay
unfolding delay_of seconds_wait
delay_of_le w (some (pos (suc n))) u h = capped_le max_delay _
delay_of_le w (some (pos zero)) u h = date_wait_le w u h
delay_of_le w (some (negsuc n)) u h = date_wait_le w u h
delay_of_le w none u h = date_wait_le w u h

pub to_int64-small : (n : ℕ) → n < 2 ^ 63 → to_int64 n ≡ pos n
unfolding to_int64
to_int64-small n h =
    let e : n % 18446744073709551616 ≡ n = omega arith in
    let t : ltb n 9223372036854775808 ≡ true = lt→ltb n _ h in rw (e, t)

pub to_int64-large : (n : ℕ) → 2 ^ 63 ≤ n → n < 2 ^ 64 → to_int64 n ≡ negsuc (2 ^ 64 - 1 - n)
unfolding to_int64
to_int64-large n h k =
    let e : n % 18446744073709551616 ≡ n = omega arith in
    let t : ltb n 9223372036854775808 ≡ false = ground arith in rw (e, t)

capped-min : (limit d : ℕ) → capped limit (pos d) ≡ pos (min d limit)
unfolding capped
capped-min limit d = ground arith

capped-negsuc : (limit n : ℕ) → capped limit (negsuc n) ≡ negsuc n
unfolding capped
capped-negsuc limit n = refl

atoi-nil : (z : ℤ) → atoi [] ≡ some z → ⊥
unfolding atoi
atoi-nil z h = cc

trimmed_wait-seconds :
    (w : ℤ) (val : Bytes) (n : ℕ)
    → atoi val ≡ some (pos (suc n))
    → trimmed_wait w val ≡ seconds_wait download_max_retry_wait (suc n)
unfolding trimmed_wait header_wait
trimmed_wait-seconds w [] n h = elim (atoi-nil _ h) [ ]
trimmed_wait-seconds w (c ∷ s) n h = ap (header_wait w) h

-- A positive number of seconds that fits a `time.Duration` is the wait, up to the cap.
parse_retry_after_header-seconds :
    (w : ℤ) (val : Bytes) (n : ℕ)
    → atoi (trim_space val) ≡ some (pos (suc n))
    → suc n * second < 2 ^ 63
    → parse_retry_after_header w val ≡ pos (min (suc n * second) download_max_retry_wait)
unfolding parse_retry_after_header seconds_wait
parse_retry_after_header-seconds w val n h k =
    trimmed_wait-seconds w (trim_space val) n h
    ∙ (ap (capped download_max_retry_wait) (to_int64-small (suc n * second) k)
        ∙ capped-min download_max_retry_wait (suc n * second))

-- A number of seconds whose nanoseconds reach 2^63 but not 2^64 gives a negative wait, which the cap
-- does not replace.
pub parse_retry_after_header_overflow :
    (w : ℤ) (val : Bytes) (n : ℕ)
    → atoi (trim_space val) ≡ some (pos (suc n))
    → 2 ^ 63 ≤ suc n * second
    → suc n * second < 2 ^ 64
    → parse_retry_after_header w val ≡ negsuc (2 ^ 64 - 1 - suc n * second)
unfolding parse_retry_after_header seconds_wait
parse_retry_after_header_overflow w val n h j k =
    trimmed_wait-seconds w (trim_space val) n h
    ∙ (ap (capped download_max_retry_wait) (to_int64-large (suc n * second) j k)
        ∙ capped-negsuc download_max_retry_wait _)
