-- ===== src/Health/Components.antt =====
-- The reported components of a health check beside its status.
use veloria.Base.{
  ℕ, ◌≡◌, ◌≢◌, ◌≤◌, ◌⊎◌, inl, inr, refl, Bool, true, false, Option, none, some, List, [], ◌∷◌, ◌++◌,
  arith, All, leb, Bytes, codes, bytes_eq, Bool-cases, Option-cases,
}
use veloria.Base.Maps.{insert, All-insert}
use veloria.Manager.Updater.{SourceStatus}
use veloria.Registry.{Registry, in_maintenance}
use veloria.Health.{
  Status, healthy, degraded, unhealthy, is_healthy, ComponentStatus, SourceInfo, Response, Probes,
  report, lower, check_maintenance, check_ping, check_database, check_storage, check_breaker,
  info_of, check_source, check_sources, check_manager, no_components, check,
}

abbrev pub rank : Status → ℕ
rank healthy = 0
rank degraded = 1
rank unhealthy = 2

-- no component is worse than a status
abbrev NoWorse : Status → Bytes × ComponentStatus → Type 0
NoWorse st kc = rank kc.1.status ≤ rank st

abbrev pub IsCovered : Response → Type 0
IsCovered resp = All (NoWorse resp.status) resp.components

rank_le : (s : Status) → rank s ≤ 2
rank_le healthy = omega arith
rank_le degraded = omega arith
rank_le unhealthy = omega arith

healthy_rank : (s : Status) → is_healthy s ≡ true → rank s ≤ 0
unfolding is_healthy
healthy_rank healthy h = omega arith
healthy_rank degraded h = cc
healthy_rank unhealthy h = cc

NoWorse-mono :
    (s t : Status) (m : List (Bytes × ComponentStatus))
    → rank s ≤ rank t
    → All (NoWorse s) m
    → All (NoWorse t) m
NoWorse-mono s t [] h k = tt
NoWorse-mono s t (c ∷ m) h k = (omega (arith, k.0, h), NoWorse-mono s t m h k.1)

All-unhealthy : (m : List (Bytes × ComponentStatus)) → All (NoWorse unhealthy) m
All-unhealthy [] = tt
All-unhealthy (c ∷ m) = (rank_le c.1.status, All-unhealthy m)

report-IsCovered :
    (name : Bytes) (st : Status) (msg : Bytes) (resp : Response)
    → rank st ≤ rank resp.status
    → IsCovered resp
    → IsCovered (report name st msg resp)
unfolding report
report-IsCovered name st msg resp h k = All-insert _ name _ resp.components h k

-- a component is reported, and the status is lowered for it unless it was low already
lower-report-IsCovered :
    (name : Bytes) (st : Status) (msg : Bytes) (resp : Response)
    → is_healthy resp.status ≡ true ⊎ rank st ≤ rank resp.status
    → IsCovered resp
    → IsCovered (lower st (report name st msg resp))
unfolding lower report
lower-report-IsCovered name st msg resp h k = elim (Bool-cases (is_healthy resp.status)) [
  | inl e ↦ rw e (
      All-insert _ name _ resp.components (omega arith)
        (NoWorse-mono resp.status st resp.components (omega (arith, healthy_rank resp.status e)) k))
  | inr e ↦
      rw e (All-insert _ name _ resp.components (elim h [ inl f ↦ cc (rw e at f) | inr f ↦ f ]) k)
]

low_or_healthy : (s : Status) → is_healthy s ≡ true ⊎ 1 ≤ rank s
unfolding is_healthy
low_or_healthy healthy = inl refl
low_or_healthy degraded = inr (omega arith)
low_or_healthy unhealthy = inr (omega arith)

check_source-IsCovered :
    (name : Bytes) (sh : SourceStatus) (info : SourceInfo) (resp : Response)
    → IsCovered resp
    → IsCovered (check_source name sh info resp)
unfolding check_source
check_source-IsCovered name sh info resp k = elim (Bool-cases (leb 3 sh.consecutive_failures)) [
  | inl e ↦ rw e (
      lower-report-IsCovered (codes "source_" ++ name) degraded (codes "repeated update failures")
        (record resp { sources = insert name info resp.sources }) (low_or_healthy resp.status) k)
  | inr e ↦ rw e k
]

check_sources-IsCovered :
    (stats : Bytes → Option (ℕ × ℕ)) (shs : List (Bytes × SourceStatus)) (resp : Response)
    → IsCovered resp
    → IsCovered (check_sources stats shs resp)
unfolding check_sources
check_sources-IsCovered stats [] resp k = k
check_sources-IsCovered stats ((name, sh) ∷ shs) resp k =
    check_sources-IsCovered stats shs (check_source name sh (info_of sh (stats name)) resp)
      (check_source-IsCovered name sh (info_of sh (stats name)) resp k)

check_breaker-IsCovered :
    (state : Bytes) (resp : Response) → IsCovered resp → IsCovered (check_breaker state resp)
unfolding check_breaker
check_breaker-IsCovered state resp k = elim (Bool-cases (bytes_eq state (codes "open"))) [
  | inl e ↦ rw e (lower-report-IsCovered _ degraded _ resp (low_or_healthy resp.status) k)
  | inr e ↦ rw e (report-IsCovered _ healthy state resp (omega arith) k)
]

check_manager-IsCovered :
    (p : Probes) (m : Option ℕ) (resp : Response)
    → IsCovered resp
    → IsCovered (check_manager p m resp)
unfolding check_manager
check_manager-IsCovered p none resp k = All-unhealthy _
check_manager-IsCovered p (some m) resp k =
    check_sources-IsCovered (p.stats m) (p.source_health m) (check_breaker (p.breaker_state m) resp)
      (check_breaker-IsCovered (p.breaker_state m) resp k)

check_storage-IsCovered :
    (b : Option ℕ) (resp : Response)
    → is_healthy resp.status ≡ true ⊎ 2 ≤ rank resp.status ⊎ (b ≢ none)
    → IsCovered resp
    → IsCovered (check_storage b resp)
unfolding check_storage
check_storage-IsCovered none resp h k =
    lower-report-IsCovered _ unhealthy _ resp
      (elim h [ inl e ↦ inl e | inr (inl e) ↦ inr e | inr (inr e) ↦ absurd (e refl) ]) k
check_storage-IsCovered (some s) resp h k = report-IsCovered _ healthy [] resp (omega arith) k

-- the maintenance and the database
check_ping-IsCovered :
    (err : Option Bytes) (resp : Response) → IsCovered resp → IsCovered (check_ping err resp)
unfolding check_ping
check_ping-IsCovered none resp k = report-IsCovered _ healthy [] resp (omega arith) k
check_ping-IsCovered (some e) resp k = All-unhealthy _

check_database-IsCovered :
    (p : Probes) (db : Option ℕ) (resp : Response)
    → IsCovered resp
    → IsCovered (check_database p db resp)
unfolding check_database
check_database-IsCovered p none resp k = All-unhealthy _
check_database-IsCovered p (some db) resp k = check_ping-IsCovered (p.ping db) resp k

check_maintenance-IsCovered :
    (maintenance : Bool) → IsCovered (check_maintenance maintenance no_components)
unfolding check_maintenance report insert
check_maintenance-IsCovered true = (omega arith, tt)
check_maintenance-IsCovered false = tt

-- outside maintenance the status is not `degraded` before the storage is looked at
not_degraded :
    (p : Probes) (db : Option ℕ) (maintenance : Bool)
    → maintenance ≡ false
    → is_healthy (check_database p db (check_maintenance maintenance no_components)).status ≡ true
      ⊎ 2 ≤ rank (check_database p db (check_maintenance maintenance no_components)).status
unfolding check_database check_ping check_maintenance report is_healthy
not_degraded p none maintenance h = inr (omega arith)
not_degraded p (some db) maintenance h = elim (Option-cases (p.ping db)) [
  | inl e ↦ rw (e, h) (inl refl)
  | inr (err, e) ↦ rw e (inr (omega arith))
]

check-IsCovered_outside :
    (p : Probes) (r : Registry) → r.maintenance ≡ false ⊎ (r.s3 ≢ none) → IsCovered (check p r)
unfolding check in_maintenance
check-IsCovered_outside p r h = check_manager-IsCovered p r.manager _ (
    check_storage-IsCovered r.s3 _
      (elim h [
        | inl e ↦ elim (not_degraded p r.sql_db r.maintenance e) [
          | inl f ↦ inl f
          | inr f ↦ inr (inl f)
        ]
        | inr e ↦ inr (inr e)
      ])
      (check_database-IsCovered p r.sql_db _ (check_maintenance-IsCovered r.maintenance)))

-- No component of a health check is reported worse than the overall status, unless the service is in
-- maintenance and has no storage.
pub check-IsCovered :
    (p : Probes) (r : Registry) → IsCovered (check p r) ⊎ (r.maintenance ≡ true) × (r.s3 ≡ none)
check-IsCovered p r = elim (Bool-cases r.maintenance) [
  | inr e ↦ inl (check-IsCovered_outside p r (inl e))
  | inl e ↦ elim (Option-cases r.s3) [
    | inl f ↦ inr (e, f)
    | inr (s, f) ↦ inl (check-IsCovered_outside p r (inr (λ g. cc)))
  ]
]
