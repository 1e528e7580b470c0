-- ===== src/Examples/Fetching.antt =====
-- Downloads, API requests and paginations.
use veloria.Base.{
  ℕ, zero, suc, ◌-◌, ◌*◌, ◌^◌, ◌≡◌, ◌↔◌, refl, Bool, true, false, some, [], codes, arith, inr,
}
use veloria.Base.Int.{pos, negsuc}
use veloria.Base.Atoi.{atoi, trim_space}
use veloria.Http.Delay.{to_int64, second, parse_retry_after_header}
use veloria.Http.Delay.Laws.{parse_retry_after_header_overflow}
use veloria.Http.Download.{
  Exchange, response, broken, complete, plain, download_loop, finish_round, round_of, status_round,
  is_permanent_http_failure, exhausted, download_error, download_not_found, download_unavailable,
  download_zip, download_max_retries,
}
use veloria.Http.Download.Rounds.{GoneAt, Fails}
use veloria.Http.Download.Outcomes.{download_zip_outcomes}
use veloria.Http.Client.{Reply, throttled, body_of, fetch_json}
use veloria.Http.Client.Laws.{Delivers, fetch_json_value}
use veloria.Pagination.{Pagination, parse_pagination, paginate, pagination, parameter, positive}

three_centuries : atoi (trim_space (codes "9999999999")) ≡ some (pos 9999999999)
unfolding atoi trim_space
three_centuries = refl

parse_retry_after_header_overflow_example :
    parse_retry_after_header (pos (10 * second)) (codes "9999999999")
    ≡ negsuc (2 ^ 64 - 1 - 9999999999 * second)
parse_retry_after_header_overflow_example =
    parse_retry_after_header_overflow (pos (10 * second)) (codes "9999999999") 9999999998
      three_centuries (omega arith) (omega arith)

-- 503, and then 404
abbrev net : ℕ → Exchange
net zero = response 404 [] (complete (some []) true)
net (suc zero) = response 503 [] (complete (some []) true)
net (suc (suc n)) = response 404 [] (complete (some []) true)

download_zip_outcomes_example :
    ((download_zip true (pos (10 * second)) net).result ≡ download_error download_not_found
      ↔ ((true ≡ true) × GoneAt net 1 download_max_retries))
    × ((download_zip true (pos (10 * second)) net).result ≡ download_error download_unavailable
        ↔ ((true ≡ true) × Fails net 1 download_max_retries false true))
download_zip_outcomes_example = download_zip_outcomes (pos (10 * second)) net true

-- Two throttled attempts and a 503 give exit code 3; two 503s and a throttled attempt a plain error.
abbrev throttled_first : ℕ → Exchange
throttled_first (suc (suc (suc zero))) = response 503 [] (broken false)
throttled_first n = response 429 [] (broken false)

abbrev throttled_last : ℕ → Exchange
throttled_last (suc (suc (suc zero))) = response 429 [] (broken false)
throttled_last n = response 503 [] (broken false)

last_attempt_decides :
    ((download_zip true (pos second) throttled_first).result ≡ download_error download_unavailable)
    × ((download_zip true (pos second) throttled_last).result ≡ download_error plain)
unfolding download_zip download_loop finish_round round_of status_round is_permanent_http_failure
    exhausted
last_attempt_decides = (refl, refl)

-- throttled once
abbrev replies : ℕ → Reply
replies zero = throttled (pos second)
replies (suc n) = body_of (codes "{}")

abbrev always : ℕ → Bool
always n = true

fetch_json_value_example :
    ((fetch_json some replies always 3).value ≡ inr (codes "{}"))
    ↔ ((true ≡ true) × Delivers some replies always (codes "{}") 0 3)
fetch_json_value_example = fetch_json_value some replies always 3 (codes "{}")

abbrev third_page : Pagination
third_page = record { page = 3; per_page = 200; offset = pos 400; limit = 200 }

third_page_parsed : parse_pagination (codes "3") (codes "500") ≡ some third_page
unfolding parse_pagination atoi to_int64 paginate pagination parameter positive
third_page_parsed = refl
