-- ===== src/Health/Verdict.antt =====
-- What the status of a health check tells of the services and of the reported components.
use veloria.Base.{
  ℕ, ◌≡◌, refl, Bool, true, false, ◌&&◌, ◌||◌, not, Option, none, some, List, [], ◌∷◌, arith,
  is_some, leb, if◌then◌else◌, Bytes, codes, bytes_eq, Bool-cases,
}
use veloria.Manager.Updater.{SourceStatus}
use veloria.Registry.{Registry, in_maintenance}
use veloria.Health.{
  Status, healthy, degraded, unhealthy, is_healthy, is_unhealthy, SourceInfo, Response, Probes,
  report, lower, check_maintenance, check_ping, check_database, check_storage, check_breaker,
  info_of, check_source, check_sources, check_manager, no_components, check, status_code,
}

-- the database is there and answers
abbrev pub is_up : Probes → Option ℕ → Bool
is_up p none = false
is_up p (some db) = not (is_some (p.ping db))

abbrev pub any_failing : List (Bytes × SourceStatus) → Bool
any_failing [] = false
any_failing ((name, sh) ∷ shs) = leb 3 sh.consecutive_failures || any_failing shs

-- the manager's circuit breaker is open, or one of its sources fails again and again
abbrev pub is_troubled : Probes → ℕ → Bool
is_troubled p m = bytes_eq (p.breaker_state m) (codes "open") || any_failing (p.source_health m)

abbrev pub is_calm : Probes → Option ℕ → Bool
is_calm p none = false
is_calm p (some m) = not (is_troubled p m)

-- no database that answers, no manager, or no storage outside maintenance
abbrev pub is_down : Probes → Registry → Bool
is_down p r =
    not (is_up p r.sql_db) || (not (is_some r.manager) || (not (is_some r.s3) && not r.maintenance))

-- everything is there and well
abbrev pub is_sound : Probes → Registry → Bool
is_sound p r = not r.maintenance && (is_up p r.sql_db && (is_some r.s3 && is_calm p r.manager))

-- the status behind a mere lowering
abbrev lowered : Bool → Status → Status → Status
lowered b st s = if b && is_healthy s then st else s

lower-status :
    (st : Status) (resp : Response) → (lower st resp).status ≡ lowered true st resp.status
unfolding lower
lower-status st resp = ground (arith, Bool-cases (is_healthy resp.status))

check_source-status :
    (name : Bytes) (sh : SourceStatus) (info : SourceInfo) (resp : Response)
    → (check_source name sh info resp).status
      ≡ lowered (leb 3 sh.consecutive_failures) degraded resp.status
unfolding check_source report lower
check_source-status name sh info resp = ground arith

lowered_twice :
    (a b : Bool) (s : Status)
    → lowered b degraded (lowered a degraded s) ≡ lowered (a || b) degraded s
unfolding is_healthy
lowered_twice a b healthy = ground arith
lowered_twice a b degraded = ground arith
lowered_twice a b unhealthy = ground arith

check_sources-status :
    (stats : Bytes → Option (ℕ × ℕ)) (shs : List (Bytes × SourceStatus)) (resp : Response)
    → (check_sources stats shs resp).status ≡ lowered (any_failing shs) degraded resp.status
unfolding check_sources
check_sources-status stats [] resp = refl
check_sources-status stats ((name, sh) ∷ shs) resp =
    let r = check_source name sh (info_of sh (stats name)) resp in
    rw
      (check_sources-status stats shs r, check_source-status name sh (info_of sh (stats name)) resp)
      (lowered_twice (leb 3 sh.consecutive_failures) (any_failing shs) resp.status)

check_breaker-status :
    (state : Bytes) (resp : Response)
    → (check_breaker state resp).status
      ≡ lowered (bytes_eq state (codes "open")) degraded resp.status
unfolding check_breaker report lower
check_breaker-status state resp = ground arith

-- the status behind the manager's part
abbrev behind_manager : Probes → Option ℕ → Status → Status
behind_manager p none s = unhealthy
behind_manager p (some m) s = lowered (is_troubled p m) degraded s

check_manager-status :
    (p : Probes) (m : Option ℕ) (resp : Response)
    → (check_manager p m resp).status ≡ behind_manager p m resp.status
unfolding check_manager
check_manager-status p none resp = refl
check_manager-status p (some m) resp =
    rw
      (
        check_sources-status (p.stats m) (p.source_health m)
            (check_breaker (p.breaker_state m) resp),
        check_breaker-status (p.breaker_state m) resp,
      )
      (lowered_twice (bytes_eq (p.breaker_state m) (codes "open")) (any_failing (p.source_health m))
        resp.status)

abbrev behind_storage : Option ℕ → Status → Status
behind_storage none s = lowered true unhealthy s
behind_storage (some b) s = s

check_storage-status :
    (b : Option ℕ) (resp : Response) → (check_storage b resp).status ≡ behind_storage b resp.status
unfolding check_storage report lower
check_storage-status none resp = ground arith
check_storage-status (some b) resp = refl

-- the status behind the maintenance and the database
abbrev first_status : Bool → Bool → Status
first_status maintenance up = if up then (if maintenance then degraded else healthy) else unhealthy

check_ping-status :
    (err : Option Bytes) (maintenance : Bool)
    → (check_ping err (check_maintenance maintenance no_components)).status
      ≡ first_status maintenance (not (is_some err))
unfolding check_ping check_maintenance report
check_ping-status none maintenance = ground arith
check_ping-status (some e) maintenance = refl

check_database-status :
    (p : Probes) (db : Option ℕ) (maintenance : Bool)
    → (check_database p db (check_maintenance maintenance no_components)).status
      ≡ first_status maintenance (is_up p db)
unfolding check_database check_ping check_maintenance report
check_database-status p none maintenance = refl
check_database-status p (some db) maintenance = check_ping-status (p.ping db) maintenance

check-status :
    (p : Probes) (r : Registry)
    → (check p r).status
      ≡ behind_manager p r.manager
          (behind_storage r.s3 (first_status r.maintenance (is_up p r.sql_db)))
unfolding check in_maintenance
check-status p r =
    rw
      (
        check_manager-status p r.manager _,
        check_storage-status r.s3 _,
        check_database-status p r.sql_db r.maintenance,
      )
      refl

down_status :
    (p : Probes) (m b : Option ℕ) (maintenance up : Bool)
    → is_unhealthy (behind_manager p m (behind_storage b (first_status maintenance up)))
      ≡ (not up || (not (is_some m) || (not (is_some b) && not maintenance)))
unfolding is_healthy is_unhealthy
down_status p none b maintenance up = ground arith
down_status p (some m) none true true = ground arith
down_status p (some m) none false true = ground arith
down_status p (some m) none true false = ground arith
down_status p (some m) none false false = ground arith
down_status p (some m) (some b) true true = ground arith
down_status p (some m) (some b) false true = ground arith
down_status p (some m) (some b) true false = ground arith
down_status p (some m) (some b) false false = ground arith

sound_status :
    (p : Probes) (m b : Option ℕ) (maintenance up : Bool)
    → is_healthy (behind_manager p m (behind_storage b (first_status maintenance up)))
      ≡ (not maintenance && (up && (is_some b && is_calm p m)))
unfolding is_healthy
sound_status p none b maintenance up = ground arith
sound_status p (some m) none true true = ground arith
sound_status p (some m) none false true = ground arith
sound_status p (some m) none true false = ground arith
sound_status p (some m) none false false = ground arith
sound_status p (some m) (some b) true true = ground arith
sound_status p (some m) (some b) false true = ground arith
sound_status p (some m) (some b) true false = ground arith
sound_status p (some m) (some b) false false = ground arith

-- The health endpoint answers 503 exactly if the database is missing or does not answer, or there is no
-- manager, or there is no storage outside maintenance; and it tells `healthy` exactly outside
-- maintenance, with a database that answers, a storage, and a manager whose circuit breaker is not open
-- and none of whose sources has failed three times or more in a row.
pub check-verdict :
    (p : Probes) (r : Registry)
    → (status_code (check p r) ≡ (if is_down p r then 503 else 200))
      × (is_healthy (check p r).status ≡ is_sound p r)
unfolding status_code
check-verdict p r =
    let s = check-status p r in
    (
      rw (s, down_status p r.manager r.s3 r.maintenance (is_up p r.sql_db)) refl,
      rw s (sound_status p r.manager r.s3 r.maintenance (is_up p r.sql_db)),
    )
