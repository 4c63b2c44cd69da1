-- ===== src/Audits/Routes.antt =====
-- backend/api/audits.py and backend/api/me.py: the owner's routes over the audits.
use chart_solar.Prelude.{ℕ, String, Bool, true, false, Option, none, some, Result, ok, err}
use chart_solar.Sql.{Sql}
use chart_solar.Entitlements.{require_authenticated}
use chart_solar.Audits.{
  Audit, AuditDb, ServiceError, find_audit_owned_by, delete_audit_owned_by,
  delete_pii_vault_for_user, set_user_aggregation_opt_out,
}

-- HTTP 401, 404, an exception that no handler catches, or the body of the answer
pub data Reply (A : Type 0) : Type 0 where
  unauthorized not_found server_error : Reply A
  reply : A → Reply A

-- `id`, `created_at`, `location_bucket` of the audit that is returned
pub record AuditView : Type 0 where
  pub id : ℕ
  pub created_at : ℕ
  pub location_bucket : Option String

abbrev pub view_of : Audit → AuditView
view_of a = record { id = a.id; created_at = a.created_at; location_bucket = a.location_bucket }

module _ (db : Sql) (parse_uuid : String → Option ℕ) {F : Type 0} where
  unfoldable pub get_audit : ℕ → String → AuditDb F → Reply AuditView
  unfolding find_audit_owned_by
  get_audit audit_id caller st = elim (require_authenticated caller) [
    | none ↦ unauthorized
    | some user_id ↦ elim (find_audit_owned_by db parse_uuid audit_id user_id st) [
      | err e ↦ server_error
      | ok none ↦ not_found
      | ok (some a) ↦ reply (view_of a)
    ]
  ]

  -- what the routes make of the service's result
  abbrev deleted_reply : ℕ → Result ServiceError Bool × AuditDb F → Reply ℕ × AuditDb F
  deleted_reply audit_id (err e, st) = (server_error, st)
  deleted_reply audit_id (ok true, st) = (reply audit_id, st)
  deleted_reply audit_id (ok false, st) = (not_found, st)

  abbrev answer : {A : Type 0} → Result ServiceError A × AuditDb F → Reply A × AuditDb F
  answer (err e, st) = (server_error, st)
  answer (ok a, st) = (reply a, st)

  unfoldable pub delete_audit : ℕ → String → AuditDb F → Reply ℕ × AuditDb F
  delete_audit audit_id caller st = elim (require_authenticated caller) [
    | none ↦ (unauthorized, st)
    | some user_id ↦
        deleted_reply audit_id (delete_audit_owned_by db parse_uuid audit_id user_id st)
  ]

  unfoldable pub delete_my_pii : String → AuditDb F → Reply ℕ × AuditDb F
  delete_my_pii caller st = elim (require_authenticated caller) [
    | none ↦ (unauthorized, st)
    | some user_id ↦ answer (delete_pii_vault_for_user db parse_uuid user_id st)
  ]

  unfoldable pub patch_my_aggregation : Bool → String → AuditDb F → Reply (Bool × ℕ) × AuditDb F
  patch_my_aggregation opt_out caller st = elim (require_authenticated caller) [
    | none ↦ (unauthorized, st)
    | some user_id ↦ answer (set_user_aggregation_opt_out db parse_uuid user_id opt_out st)
  ]
