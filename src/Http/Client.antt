-- ===== src/Http/Client.antt =====
-- `FetchJSON` of internal/repo/api_client.go, with `doRequest` and the size limits of
-- internal/repo/wp_http.go. The transport, the circuit breaker, the rate limiter with the context,
-- and the JSON decoder are parameters.
pub mod Laws
pub mod Requests
use veloria.Base.{
  inl, inr, ◌⊎◌, ℕ, zero, suc, ◌+◌, ◌*◌, Bool, true, false, ◌||◌, Option, none, some, List, [], ◌∷◌,
  length, leb, ltb, ◌==◌, if◌then◌else◌, Bytes, take,
}
use veloria.Base.Int.{ℤ}
use veloria.Http.Delay.{parse_retry_after}

-- `wpAPIResponseMaxBytes`
abbrev pub response_max_bytes : ℕ
response_max_bytes = 10 * 1024 * 1024

-- `wpAPIErrorMaxBytes`
abbrev pub error_max_bytes : ℕ
error_max_bytes = 4 * 1024

-- what ends a fetch without a result
pub data FetchError : Type 0 where
  transport_failed body_failed too_large nil_target cancelled bad_json : FetchError
  wp_api_error : ℕ → Bytes → FetchError
  breaker_open : FetchError
  exhausted_retries : FetchError

-- `httpClient.Do`: no response, or a status, the Retry-After header and the body, `none` where reading
-- it fails
pub data Response : Type 0 where
  no_response : Response
  answered : ℕ → Bytes → Option Bytes → Response

-- the result of a request: a body, `ErrThrottled` with its wait, or another error
pub data Reply : Type 0 where
  body_of : Bytes → Reply
  throttled : ℤ → Reply
  reply_error : FetchError → Reply

-- `readBodyWithLimit` on a body whose reading succeeds: at most one byte more than the limit is read
unfoldable pub read_body_with_limit : ℕ → Bytes → Option Bytes
read_body_with_limit max_bytes body =
    let b = take (max_bytes + 1) body in if ltb max_bytes (length b) then none else some b

-- `readBodySnippet`, an error of which is ignored; `fields` joins the words by spaces
unfoldable pub read_body_snippet : (Bytes → Bytes) → ℕ → Option Bytes → Bytes
read_body_snippet fields max_bytes none = []
read_body_snippet fields max_bytes (some body) = fields (take max_bytes body)

unfoldable pub limited_body : Option Bytes → Reply
limited_body none = reply_error too_large
limited_body (some b) = body_of b

unfoldable pub success_body : Option Bytes → Reply
success_body none = reply_error body_failed
success_body (some body) = limited_body (read_body_with_limit response_max_bytes body)

-- `doRequest`
unfoldable pub do_request : (Bytes → Option ℤ) → (Bytes → Bytes) → ℤ → Response → Reply
do_request until fields default_delay no_response = reply_error transport_failed
do_request until fields default_delay (answered status retry_after body) =
    if status == 429
    then throttled (parse_retry_after until retry_after default_delay)
    else if ltb status 200 || ltb 299 status
    then reply_error (wp_api_error status (read_body_snippet fields error_max_bytes body))
    else success_body body

-- the result of a fetch, the requests it made and its waits
pub record Fetched {ℓ} (A : Type ℓ) : Type ℓ where
  pub value : FetchError ⊎ A
  pub attempts : ℕ
  pub sleeps : List ℤ

unfoldable pub stopped {ℓ} : {A : Type ℓ} → FetchError → Fetched A
stopped e = record { value = inl e; attempts = 0; sleeps = [] }

unfoldable pub decoded {ℓ} : {A : Type ℓ} → Option A → FetchError ⊎ A
decoded none = inl bad_json
decoded (some a) = inr a

-- an attempt with reply `r`: behind a 429, `rest` goes on
unfoldable pub fetch_round {ℓ} :
    {A : Type ℓ} → (Bytes → Option A) → Reply → (ℤ → Fetched A) → Fetched A
fetch_round decode (body_of b) rest = record {
  value = decoded (decode b);
  attempts = 1;
  sleeps = [];
}
fetch_round decode (reply_error e) rest = record { value = inl e; attempts = 1; sleeps = [] }
fetch_round decode (throttled wait) rest = record {
  value = (rest wait).value;
  attempts = suc (rest wait).attempts;
  sleeps = (rest wait).sleeps;
}

-- the sleep and the next token, which the context may cut off
unfoldable pub back_off {ℓ} : {A : Type ℓ} → Bool → ℤ → Fetched A → Fetched A
back_off false wait rest = stopped cancelled
back_off true wait rest = record {
  value = rest.value;
  attempts = rest.attempts;
  sleeps = wait ∷ rest.sleeps;
}

-- The loop from attempt `a` on, with `left` retries left. `reply a` is what the breaker passes on of
-- attempt `a`, and `live a` tells whether the context outlives the waits in front of it.
unfoldable pub fetch_loop {ℓ} :
    {A : Type ℓ} → (Bytes → Option A) → (ℕ → Reply) → (ℕ → Bool) → ℕ → ℕ → Fetched A
fetch_loop decode reply live a zero =
    fetch_round decode (reply a) (λ wait. stopped exhausted_retries)
fetch_loop decode reply live a (suc left) =
    fetch_round decode (reply a)
      (λ wait. back_off (live (suc a)) wait (fetch_loop decode reply live (suc a) left))

unfoldable pub fetch_json {ℓ} :
    {A : Type ℓ} → (Bytes → Option A) → (ℕ → Reply) → (ℕ → Bool) → ℕ → Fetched A
fetch_json decode reply live max_retries =
    if live 0 then fetch_loop decode reply live 0 max_retries else stopped cancelled
