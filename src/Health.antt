-- ===== src/Health.antt =====
-- The health check of internal/health/health.go, over the registry of services and the manager's state
-- of its sources. The references do not change during a check; what the database's ping, the circuit
-- breaker and the sources answer is a parameter.
pub mod Verdict
pub mod Components
use veloria.Base.{
  ℕ, ◌≡◌, Bool, true, false, not, Option, none, some, List, [], ◌∷◌, ◌++◌, leb, if◌then◌else◌,
  Bytes, codes, bytes_eq,
}
use veloria.Base.Maps.{insert}
use veloria.Manager.Updater.{SourceStatus}
use veloria.Registry.{Registry, in_maintenance}

pub data Status : Type 0 where
  healthy degraded unhealthy : Status

unfoldable pub is_healthy : Status → Bool
is_healthy healthy = true
is_healthy degraded = false
is_healthy unhealthy = false

unfoldable pub is_unhealthy : Status → Bool
is_unhealthy healthy = false
is_unhealthy degraded = false
is_unhealthy unhealthy = true

pub record ComponentStatus : Type 0 where
  pub status : Status
  pub message : Bytes

pub record SourceInfo : Type 0 where
  pub total : ℕ
  pub indexed : ℕ
  pub consecutive_failures : ℕ
  pub last_success : Option ℕ

pub record Response : Type 0 where
  pub status : Status
  pub components : List (Bytes × ComponentStatus)
  pub sources : List (Bytes × SourceInfo)

-- What the services answer: the error of a ping, the state of the manager's circuit breaker, its
-- sources, and the counts of a source.
pub record Probes : Type 0 where
  pub ping : ℕ → Option Bytes
  pub breaker_state : ℕ → Bytes
  pub source_health : ℕ → List (Bytes × SourceStatus)
  pub stats : ℕ → Bytes → Option (ℕ × ℕ)

-- `resp.Components[name] = ...`
unfoldable pub report : Bytes → Status → Bytes → Response → Response
report name st message resp = record resp {
  components = insert name (record { status = st; message = message }) resp.components;
}

-- `if resp.Status == StatusHealthy { resp.Status = ... }`
unfoldable pub lower : Status → Response → Response
lower st resp = if is_healthy resp.status then record resp { status = st } else resp

unfoldable pub check_maintenance : Bool → Response → Response
check_maintenance maintenance resp =
    if maintenance
    then record (report (codes "maintenance") degraded (codes "maintenance mode active") resp) {
      status = degraded;
    }
    else resp

-- behind the ping, with its error
unfoldable pub check_ping : Option Bytes → Response → Response
check_ping none resp = report (codes "database") healthy [] resp
check_ping (some err) resp = record (report (codes "database") unhealthy err resp) {
  status = unhealthy;
}

unfoldable pub check_database : Probes → Option ℕ → Response → Response
check_database p none resp =
    record (report (codes "database") unhealthy (codes "not configured") resp) {
      status = unhealthy;
    }
check_database p (some db) resp = check_ping (p.ping db) resp

unfoldable pub check_storage : Option ℕ → Response → Response
check_storage none resp =
    lower unhealthy (report (codes "storage") unhealthy (codes "not configured") resp)
check_storage (some s) resp = report (codes "storage") healthy [] resp

unfoldable pub check_breaker : Bytes → Response → Response
check_breaker state resp =
    if bytes_eq state (codes "open")
    then lower degraded
        (report (codes "circuit_breaker") degraded (codes "circuit breaker is open") resp)
    else report (codes "circuit_breaker") healthy state resp

-- the counts of a source that is not there are 0
unfoldable pub info_of : SourceStatus → Option (ℕ × ℕ) → SourceInfo
info_of sh none = record {
  total = 0;
  indexed = 0;
  consecutive_failures = sh.consecutive_failures;
  last_success = sh.last_success;
}
info_of sh (some (total, indexed)) = record {
  total = total;
  indexed = indexed;
  consecutive_failures = sh.consecutive_failures;
  last_success = sh.last_success;
}

unfoldable pub check_source : Bytes → SourceStatus → SourceInfo → Response → Response
check_source name sh info resp =
    let listed = record resp { sources = insert name info resp.sources } in
    if leb 3 sh.consecutive_failures
    then lower degraded
        (report (codes "source_" ++ name) degraded (codes "repeated update failures") listed)
    else listed

unfoldable pub check_sources :
    (Bytes → Option (ℕ × ℕ)) → List (Bytes × SourceStatus) → Response → Response
check_sources stats [] resp = resp
check_sources stats ((name, sh) ∷ shs) resp =
    check_sources stats shs (check_source name sh (info_of sh (stats name)) resp)

unfoldable pub check_manager : Probes → Option ℕ → Response → Response
check_manager p none resp =
    record (report (codes "manager") unhealthy (codes "not initialized") resp) {
      status = unhealthy;
    }
check_manager p (some m) resp =
    check_sources (p.stats m) (p.source_health m) (check_breaker (p.breaker_state m) resp)

abbrev pub no_components : Response
no_components = record { status = healthy; components = []; sources = [] }

-- `Check`
unfoldable pub check : Probes → Registry → Response
check p r = check_manager p r.manager (
    check_storage r.s3
      (check_database p r.sql_db (check_maintenance (in_maintenance r) no_components)))

-- the status code that `Handler` writes
unfoldable pub status_code : Response → ℕ
status_code resp = if is_unhealthy resp.status then 503 else 200
