-- ===== src/Http/Download.antt =====
-- `downloadZip` of cmd/veloria/index.go. What one request gives is a parameter: the network, and
-- the temporary file.
pub mod Rounds
pub mod Outcomes
use veloria.Base.{
  ℕ, zero, suc, ◌+◌, Bool, true, false, ◌&&◌, ◌||◌, Option, none, some, List, [], ◌∷◌, leb, ◌==◌,
  if◌then◌else◌, Bytes, codes, starts_with,
}
use veloria.Base.Int.{ℤ}
use veloria.Http.Delay.{parse_retry_after_header}

abbrev pub download_max_retries : ℕ
download_max_retries = 3

-- The copy of a body into the file. It breaks off, and `truncateFile` may then fail too; or it is
-- complete, with what can be read back of the file, `none` where opening or reading it fails, and closing
-- the file may fail.
pub data Copy : Type 0 where
  broken : Bool → Copy
  complete : Option Bytes → Bool → Copy

-- The request is malformed; there is no response; or there is one, of a status, with its
-- Retry-After header and its body.
pub data Exchange : Type 0 where
  malformed no_response : Exchange
  response : ℕ → Bytes → Copy → Exchange

pub data DownloadError : Type 0 where
  plain download_not_found download_unavailable : DownloadError

-- `ExitCode` of the error, if it has one
unfoldable pub exit_code : DownloadError → Option ℕ
exit_code plain = none
exit_code download_not_found = some 2
exit_code download_unavailable = some 3

-- `isPermanentHTTPFailure`
unfoldable pub is_permanent_http_failure : ℕ → Bool
is_permanent_http_failure code = (code == 400 || code == 403) || (code == 404 || code == 410)

-- `validateZipMagic`, on what can be read of the file
unfoldable pub validate_zip_magic : Option Bytes → Bool
validate_zip_magic none = false
validate_zip_magic (some content) = starts_with (80 ∷ 75 ∷ 3 ∷ 4 ∷ []) content

-- how one round of the loop goes on: with the result, or another attempt behind a wait
pub data Round : Type 0 where
  saved : Option Bytes → Round
  failed : DownloadError → Round
  again : Bool → Bytes → Round

-- the body of a response with status 200
unfoldable pub copy_round : Copy → Round
copy_round (broken true) = again true []
copy_round (broken false) = failed plain
copy_round (complete content false) = failed plain
copy_round (complete content true) =
    if validate_zip_magic content then saved content else failed download_not_found

unfoldable pub status_round : ℕ → Bytes → Copy → Round
status_round status retry_after body =
    if is_permanent_http_failure status
    then failed download_not_found
    else if status == 429 || leb 500 status
    then again (leb 500 status) retry_after
    else if status == 200
    then copy_round body
    else failed plain

unfoldable pub round_of : Exchange → Round
round_of malformed = failed plain
round_of no_response = again true []
round_of (response status retry_after body) = status_round status retry_after body

pub data Result : Type 0 where
  zip : Option Bytes → Result
  download_error : DownloadError → Result

-- the result, the requests made and the waits between them
pub record Download : Type 0 where
  pub result : Result
  pub requests : ℕ
  pub waits : List ℤ

-- `waitBeforeRetry`
unfoldable pub wait_before_retry : ℤ → ℕ → Bytes → List ℤ → List ℤ
wait_before_retry default_wait attempt retry_after rest =
    if leb download_max_retries attempt
    then rest
    else parse_retry_after_header default_wait retry_after ∷ rest

-- behind the loop
unfoldable pub exhausted : Bool → DownloadError
exhausted true = download_unavailable
exhausted false = plain

-- a round whose loop goes on with `rest`
unfoldable pub finish_round : ℤ → ℕ → Round → (Bool → Download) → Download
finish_round default_wait attempt (saved content) rest = record {
  result = zip content;
  requests = 1;
  waits = [];
}
finish_round default_wait attempt (failed e) rest = record {
  result = download_error e;
  requests = 1;
  waits = [];
}
finish_round default_wait attempt (again transient retry_after) rest = record {
  result = (rest transient).result;
  requests = suc (rest transient).requests;
  waits = wait_before_retry default_wait attempt retry_after (rest transient).waits;
}

-- the loop, with `left` attempts left; `net n` is what attempt `n` gets
unfoldable pub download_loop : ℤ → (ℕ → Exchange) → ℕ → ℕ → Bool → Download
download_loop default_wait net attempt zero transient = record {
  result = download_error (exhausted transient);
  requests = 0;
  waits = [];
}
download_loop default_wait net attempt (suc left) transient =
    finish_round default_wait attempt (round_of (net attempt))
      (download_loop default_wait net (attempt + 1) left)

-- without a temporary file
abbrev pub no_file : Download
no_file = record { result = download_error plain; requests = 0; waits = [] }

-- `downloadZip`; the flag tells that `os.CreateTemp` succeeds
unfoldable pub download_zip : Bool → ℤ → (ℕ → Exchange) → Download
download_zip creates default_wait net =
    if creates then download_loop default_wait net 1 download_max_retries false else no_file
