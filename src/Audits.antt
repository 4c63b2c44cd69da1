-- ===== src/Audits.antt =====
-- backend/services/audit_service.py over backend/db/audit_models.py: the audits, their quotes and
-- the vault of personal data, with what the foreign keys do on a DELETE.
pub mod Rows
pub mod Routes
pub mod Deletes
pub mod Sound
pub mod Kept
pub mod Others
pub mod Owners
pub mod OptOut
mod Tests
use chart_solar.Prelude.{
  ℕ, String, Bool, true, false, not, ◌&&◌, Option, none, some, List, any, filter, ◌==◌, ltb, Result,
  ok, err, if◌then◌else◌,
}
use chart_solar.Sql.{Sql}
use chart_solar.Auth.{User}
use chart_solar.Stripe.Json.{Fields}

pub record UserPiiVault : Type 0 where
  pub id : ℕ
  pub user_id : ℕ
  pub full_name : Option String
  pub address_full : Option String
  pub phone : Option String
  pub email : Option String
  pub created_at : ℕ
  pub deletion_scheduled_at : Option ℕ

pub record Audit : Type 0 where
  pub id : ℕ
  pub user_id : Option ℕ
  pub created_at : ℕ
  pub location_bucket : Option String
  pub tariff_inputs : Fields
  pub user_pii_vault_id : Option ℕ

-- `F` is the type of the column `variance_score`.
pub record InstallerQuote (F : Type 0) : Type 0 where
  pub id : ℕ
  pub audit_id : ℕ
  pub installer_id : ℕ
  pub uploaded_at : ℕ
  pub raw_pdf_storage_url : Option String
  pub raw_pdf_sha256 : Option String
  pub raw_pdf_purged_at : Option ℕ
  pub extraction_status : String
  pub extraction_confidence : Fields
  pub quote_date : Option ℕ
  pub quote_expiry : Option ℕ
  pub rep_name : Option String
  pub location_country : Option String
  pub location_region : Option String
  pub location_bucket : Option String
  pub system_spec : Fields
  pub financials : Fields
  pub quoted_metrics : Fields
  pub our_forecast : Fields
  pub variance_score : Option F
  pub aggregation_opt_in : Bool

pub record AuditDb (F : Type 0) : Type 0 where
  pub users : List User
  pub vaults : List UserPiiVault
  pub audits : List Audit
  pub quotes : List (InstallerQuote F)

-- `uuid.UUID(user_id)` raises
pub data ServiceError : Type 0 where
  value_error : ServiceError

-- `Audit.user_id == user`, which SQL does not hold true of a NULL
abbrev pub is_of : ℕ → Audit → Bool
is_of user a = elim a.user_id [ none ↦ false | some u ↦ u == user ]

abbrev pub owned_by : ℕ → ℕ → Audit → Bool
owned_by audit_id user a = a.id == audit_id && is_of user a

-- `audit_id` of the quote is that of one of the audits.
abbrev pub quote_of : {F : Type 0} → List Audit → InstallerQuote F → Bool
quote_of audits q = any (λ a. a.id == q.audit_id) audits

-- The audit links to one of the vaults.
abbrev pub linked_to : List UserPiiVault → Audit → Bool
linked_to vaults a = elim a.user_pii_vault_id [
  | none ↦ false
  | some v ↦ any (λ p. p.id == v) vaults
]

abbrev pub unlink : Audit → Audit
unlink a = record a { user_pii_vault_id = none }

abbrev pub vault_of : ℕ → UserPiiVault → Bool
vault_of user p = p.user_id == user

-- `aggregation_opt_out IS NOT opt_out`, of a column that is not null
abbrev pub flips : ℕ → Bool → User → Bool
flips user opt_out u =
    u.id == user && (if opt_out then not u.aggregation_opt_out else u.aggregation_opt_out)

abbrev pub set_opt_out : Bool → User → User
set_opt_out opt_out u = record u { aggregation_opt_out = opt_out }

abbrev pub opt_out_quote : {F : Type 0} → InstallerQuote F → InstallerQuote F
opt_out_quote q = record q { aggregation_opt_in = false }

-- a quote of an audit of the user, which the aggregates still count
abbrev pub aggregated : {F : Type 0} → ℕ → List Audit → InstallerQuote F → Bool
aggregated user audits q = quote_of (filter (is_of user) audits) q && q.aggregation_opt_in

-- `parse_uuid` is `uuid.UUID(user_id)`, `none` where it raises.
abbrev coerce_user_uuid : (String → Option ℕ) → String → Result ServiceError ℕ
coerce_user_uuid parse_uuid user_id = elim (parse_uuid user_id) [
  | none ↦ err value_error
  | some u ↦ ok u
]

module _ (db : Sql) (parse_uuid : String → Option ℕ) {F : Type 0} where
  pub find_audit_owned_by : ℕ → String → AuditDb F → Result ServiceError (Option Audit)
  find_audit_owned_by audit_id user_id st = elim (coerce_user_uuid parse_uuid user_id) [
    | err e ↦ err e
    | ok user ↦ ok (db.get (owned_by audit_id user) st.audits)
  ]

  -- True if a row was deleted. The foreign key of the quotes is `ON DELETE CASCADE`.
  pub delete_audit_owned_by : ℕ → String → AuditDb F → Result ServiceError Bool × AuditDb F
  delete_audit_owned_by audit_id user_id st = elim (coerce_user_uuid parse_uuid user_id) [
    | err e ↦ (err e, st)
    | ok user ↦
        let gone = filter (owned_by audit_id user) st.audits in
        let (rowcount, audits) = db.delete (owned_by audit_id user) st.audits in
        let quotes = (db.delete (quote_of gone) st.quotes).1 in
        (ok (ltb 0 rowcount), record st { audits = audits; quotes = quotes })
  ]

  -- The number of rows deleted. The foreign key of the audits is `ON DELETE SET NULL`.
  pub delete_pii_vault_for_user : String → AuditDb F → Result ServiceError ℕ × AuditDb F
  delete_pii_vault_for_user user_id st = elim (coerce_user_uuid parse_uuid user_id) [
    | err e ↦ (err e, st)
    | ok user ↦
        let gone = filter (vault_of user) st.vaults in
        let (rowcount, vaults) = db.delete (vault_of user) st.vaults in
        let audits = (db.update (linked_to gone) unlink st.audits).1 in
        (ok rowcount, record st { vaults = vaults; audits = audits })
  ]

  -- The new flag and the number of quotes that were taken out.
  pub set_user_aggregation_opt_out :
      String → Bool → AuditDb F → Result ServiceError (Bool × ℕ) × AuditDb F
  set_user_aggregation_opt_out user_id opt_out st = elim (coerce_user_uuid parse_uuid user_id) [
    | err e ↦ (err e, st)
    | ok user ↦
        let (rowcount, users) = db.update (flips user opt_out) (set_opt_out opt_out) st.users in
        let st' = record st { users = users } in
        let (cascaded, quotes) = db.update (aggregated user st.audits) opt_out_quote st.quotes in
        if ltb 0 rowcount
        then (if opt_out
            then (ok (opt_out, cascaded), record st' { quotes = quotes })
            else (ok (opt_out, 0), st'))
        else (ok (opt_out, 0), st')
  ]
