-- ===== src/Registry.antt =====
-- The service references of internal/service/registry.go, and the search gate. A method holds the
-- lock for its whole body, so each is one step on the registry; a reference is a number.
use veloria.Base.{
  ℕ, ◌≡◌, ◌↔◌, refl, Bool, true, false, ◌&&◌, not, Option, none, some, [], Bytes, codes, is_some,
  if◌then◌else◌,
}

pub record Registry : Type 0 where
  pub db : Option ℕ
  pub sql_db : Option ℕ
  pub s3 : Option ℕ
  pub manager : Option ℕ
  pub tasks : Option ℕ
  pub api_client : Option ℕ
  pub session : Option ℕ
  pub auth_handler : Option ℕ
  pub mcp_handler : Option ℕ
  pub maintenance : Bool

-- the setters
pub data Setting : Type 0 where
  set_db : Option ℕ → Option ℕ → Setting
  set_s3 set_manager set_tasks set_api_client set_session set_auth set_mcp_handler :
      Option ℕ → Setting
  set_maintenance : Bool → Setting

unfoldable pub set : Setting → Registry → Registry
set (set_db db sql_db) r = record r { db = db; sql_db = sql_db }
set (set_s3 s) r = record r { s3 = s }
set (set_manager m) r = record r { manager = m }
set (set_tasks t) r = record r { tasks = t }
set (set_api_client c) r = record r { api_client = c }
set (set_session s) r = record r { session = s }
set (set_auth h) r = record r { auth_handler = h }
set (set_mcp_handler h) r = record r { mcp_handler = h }
set (set_maintenance enabled) r = record r { maintenance = enabled }

unfoldable pub in_maintenance : Registry → Bool
in_maintenance r = r.maintenance

unfoldable pub search_enabled : Registry → Bool
search_enabled r = not r.maintenance && (is_some r.db && (is_some r.s3 && is_some r.manager))

-- the `switch`
unfoldable pub missing_service : Option ℕ → Option ℕ → Option ℕ → Bytes
missing_service none s3 manager = codes "Database connection is unavailable."
missing_service (some d) none manager = codes "Search storage is unavailable."
missing_service (some d) (some s) none = codes "Search index is not ready."
missing_service (some d) (some s) (some m) = []

unfoldable pub search_disabled_reason : Registry → Bytes
search_disabled_reason r =
    if r.maintenance
    then codes "Service is undergoing maintenance."
    else missing_service r.db r.s3 r.manager

reason_empty :
    (maintenance : Bool) (db s3 manager : Option ℕ)
    → ((not maintenance && (is_some db && (is_some s3 && is_some manager))) ≡ true) ↔ (
        (if maintenance
          then codes "Service is undergoing maintenance."
          else missing_service db s3 manager)
        ≡ [])
unfolding missing_service
reason_empty true db s3 manager = ((λ h. cc), (λ h. cc))
reason_empty false none s3 manager = ((λ h. cc), (λ h. cc))
reason_empty false (some d) none manager = ((λ h. cc), (λ h. cc))
reason_empty false (some d) (some s) none = ((λ h. cc), (λ h. cc))
reason_empty false (some d) (some s) (some m) = ((λ h. refl), (λ h. refl))

-- Search is enabled exactly if there is no reason why it is not.
search_disabled_reason_empty :
    (r : Registry) → (search_enabled r ≡ true) ↔ (search_disabled_reason r ≡ [])
unfolding search_enabled search_disabled_reason
search_disabled_reason_empty r = reason_empty r.maintenance r.db r.s3 r.manager
