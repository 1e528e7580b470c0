-- ===== src/Http/Delay.antt =====
-- `parseRetryAfterHeader` of cmd/veloria/index.go and `parseRetryAfter` of internal/repo/wp_http.go.
-- A `time.Duration` is an int64 of nanoseconds, and its product wraps around.
pub mod Laws
use veloria.Base.{
  ℕ, zero, suc, ◌+◌, ◌-◌, ◌*◌, ◌%◌, ◌^◌, Bool, true, false, Option, none, some, List, [], ◌∷◌, ltb,
  if◌then◌else◌, Bytes, codes,
}
use veloria.Base.Int.{ℤ, pos, negsuc}
use veloria.Base.Atoi.{atoi, trim_space}

-- `time.Second`
abbrev pub second : ℕ
second = 1000000000

-- `downloadMaxRetryWait`
abbrev pub download_max_retry_wait : ℕ
download_max_retry_wait = 60 * second

-- the `maxDelay` of `parseRetryAfter`
abbrev pub max_delay : ℕ
max_delay = 300 * second

-- the int64 with the bits of `n`
unfoldable pub to_int64 : ℕ → ℤ
to_int64 n = let m = n % 2 ^ 64 in if ltb m (2 ^ 63) then pos m else negsuc (2 ^ 64 - 1 - m)

-- `if d > limit { return limit }; return d`
unfoldable pub capped : ℕ → ℤ → ℤ
capped limit (pos d) = if ltb limit d then pos limit else pos d
capped limit (negsuc d) = negsuc d

-- `time.Duration(seconds) * time.Second`, capped
unfoldable pub seconds_wait : ℕ → ℕ → ℤ
seconds_wait limit seconds = capped limit (to_int64 (seconds * second))

unfoldable pub header_wait : ℤ → Option ℤ → ℤ
header_wait default_wait none = default_wait
header_wait default_wait (some (negsuc n)) = default_wait
header_wait default_wait (some (pos zero)) = default_wait
header_wait default_wait (some (pos (suc n))) = seconds_wait download_max_retry_wait (suc n)

-- the header's value behind `strings.TrimSpace`
unfoldable pub trimmed_wait : ℤ → Bytes → ℤ
trimmed_wait default_wait [] = default_wait
trimmed_wait default_wait (c ∷ s) = header_wait default_wait (atoi (c ∷ s))

-- `parseRetryAfterHeader`; its default is the variable `downloadDefaultRetryWait`
unfoldable pub parse_retry_after_header : ℤ → Bytes → ℤ
parse_retry_after_header default_wait val = trimmed_wait default_wait (trim_space val)

-- the HTTP date, of which `until` is the time left
unfoldable pub date_wait : ℤ → Option ℤ → ℤ
date_wait default_delay none = default_delay
date_wait default_delay (some (negsuc n)) = default_delay
date_wait default_delay (some (pos zero)) = default_delay
date_wait default_delay (some (pos (suc n))) = capped max_delay (pos (suc n))

unfoldable pub delay_of : ℤ → Option ℤ → Option ℤ → ℤ
delay_of default_delay (some (pos (suc n))) until = seconds_wait max_delay (suc n)
delay_of default_delay (some (pos zero)) until = date_wait default_delay until
delay_of default_delay (some (negsuc n)) until = date_wait default_delay until
delay_of default_delay none until = date_wait default_delay until

unfoldable pub trimmed_delay : (Bytes → Option ℤ) → Bytes → ℤ → ℤ
trimmed_delay until [] default_delay = default_delay
trimmed_delay until (c ∷ s) default_delay = delay_of default_delay (atoi (c ∷ s)) (until (c ∷ s))

-- `parseRetryAfter`; `until` is `http.ParseTime` with `time.Until`
unfoldable pub parse_retry_after : (Bytes → Option ℤ) → Bytes → ℤ → ℤ
parse_retry_after until header_val default_delay =
    trimmed_delay until (trim_space header_val) default_delay
