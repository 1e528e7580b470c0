-- ===== src/Examples/Showing.antt =====
-- A health check in maintenance, and the lines around a match.
use veloria.Base.{
  ◌≡◌, ◌⊎◌, refl, leb, max, min, suc, ◌||◌, ◌+◌, ◌-◌, length, take, drop, true, false, none, some,
  List, [], ◌∷◌, arith, Bytes, codes, bytes_eq, if◌then◌else◌,
}
use veloria.Registry.{Registry, in_maintenance}
use veloria.Health.{
  Probes, check, status_code, is_healthy, is_unhealthy, lower, report, check_maintenance,
  check_ping, check_database, check_storage, check_breaker, check_sources, check_manager,
}
use veloria.Health.Verdict.{is_down, is_sound, check-verdict}
use veloria.Health.Components.{IsCovered, check-IsCovered}
use veloria.Web.{OpenFile, add_line, scan_lines, close_lines, read_context_lines}
use veloria.Web.Window.{marked, read_context_lines-window}

abbrev quiet : Probes
quiet = record {
  ping = λ db. none;
  breaker_state = λ m. codes "closed";
  source_health = λ m. [];
  stats = λ m name. none;
}

-- in maintenance, without storage
abbrev no_storage : Registry
no_storage = record {
  db = some 1;
  sql_db = some 1;
  s3 = none;
  manager = some 2;
  tasks = none;
  api_client = none;
  session = none;
  auth_handler = none;
  mcp_handler = none;
  maintenance = true;
}

-- The missing storage is reported as unhealthy, but the endpoint answers 200.
maintenance_hides_storage : status_code (check quiet no_storage) ≡ 200
unfolding status_code check check_manager check_sources check_breaker check_storage check_database
    check_ping check_maintenance in_maintenance report lower is_healthy is_unhealthy bytes_eq
maintenance_hides_storage = refl

check-verdict_example :
    (status_code (check quiet no_storage) ≡ (if is_down quiet no_storage then 503 else 200))
    × (is_healthy (check quiet no_storage).status ≡ is_sound quiet no_storage)
check-verdict_example = check-verdict quiet no_storage

check-IsCovered_example :
    IsCovered (check quiet no_storage) ⊎ (no_storage.maintenance ≡ true) × (no_storage.s3 ≡ none)
check-IsCovered_example = check-IsCovered quiet no_storage

abbrev five_lines : List Bytes
five_lines = codes "a" ∷ codes "b" ∷ codes "c" ∷ codes "d" ∷ codes "e" ∷ []

-- its last read, for the fifth line, fails
abbrev broken : OpenFile
broken = record { lines = five_lines; scan_error = λ n. leb 5 n; close_error = λ n. false }

read_context_lines-window_example : read_context_lines (some broken) 2 1 ≡ (
    let calls = suc (min (length five_lines) (2 + 1)) in
    let start = max (2 - 1) 1 in
    if broken.scan_error calls || broken.close_error calls
    then none
    else some (marked 2 start (drop (start - 1) (take (2 + 1) five_lines))))
read_context_lines-window_example = read_context_lines-window broken 2 1 (omega arith)

-- The window of the fourth line ends behind the failing read, and the page shows an error instead of
-- the lines that were read.
read_fails_behind_window : read_context_lines (some broken) 4 1 ≡ none
unfolding read_context_lines close_lines scan_lines add_line
read_fails_behind_window = refl
