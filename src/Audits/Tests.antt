-- ===== src/Audits/Tests.antt =====
-- The audits of two users at concrete inputs.
use chart_solar.Prelude.{
  ap, or_else, ℕ, String, ◌≡◌, ◌≢◌, refl, true, false, not, Option, none, some, List, [], ◌∷◌, any,
  filter, count, map, ok, str_eq, ◌==◌, arith, is_some, if◌then◌else◌,
}
use chart_solar.Sql.{IsRow, drop_all}
use chart_solar.Sql.Sample.{sample, sample-IsSql}
use chart_solar.Stripe.Json.{end}
use chart_solar.Entitlements.{anonymous_user_id, require_authenticated}
use chart_solar.Auth.{User}
use chart_solar.Audits.{
  Audit, UserPiiVault, InstallerQuote, AuditDb, aggregated, owned_by, linked_to, unlink, vault_of,
  delete_audit_owned_by, delete_pii_vault_for_user, set_user_aggregation_opt_out,
}
use chart_solar.Audits.Deletes.{
  without_audit, delete_audit_owned_by_lem, delete_pii_vault_for_user_lem,
}
use chart_solar.Audits.Sound
use chart_solar.Audits.Sound.{IsSound, perform_all, perform_all-IsSound}
use chart_solar.Audits.Kept.{IsKeyed, IsKept}
use chart_solar.Audits.Others.{perform_all-IsKept}
use chart_solar.Audits.OptOut.{quoted_for, set_user_aggregation_opt_out_lem}
use chart_solar.Audits.Owners.{delete_like, get_audit_own, delete_audit-get_audit}
use chart_solar.Audits.Routes.{view_of, AuditView, get_audit, delete_audit}

abbrev uuid : String → Option ℕ
uuid s = if str_eq s "u7" then some 7 else if str_eq s "u8" then some 8 else none

abbrev user : ℕ → User
user n = record { id = n; email = if n == 7 then "a@x" else "b@x"; aggregation_opt_out = false }

abbrev vault : UserPiiVault
vault = record {
  id = 1;
  user_id = 7;
  full_name = some "A";
  address_full = none;
  phone = none;
  email = none;
  created_at = 0;
  deletion_scheduled_at = none;
}

abbrev audit : ℕ → Option ℕ → Option ℕ → Audit
audit id owner link = record {
  id = id;
  user_id = owner;
  created_at = 5;
  location_bucket = some "941";
  tariff_inputs = end;
  user_pii_vault_id = link;
}

abbrev quote : ℕ → ℕ → InstallerQuote ℕ
quote id audit_id = record {
  id = id;
  audit_id = audit_id;
  installer_id = 1;
  uploaded_at = 5;
  raw_pdf_storage_url = none;
  raw_pdf_sha256 = none;
  raw_pdf_purged_at = none;
  extraction_status = "pending";
  extraction_confidence = end;
  quote_date = none;
  quote_expiry = none;
  rep_name = none;
  location_country = none;
  location_region = none;
  location_bucket = none;
  system_spec = end;
  financials = end;
  quoted_metrics = end;
  our_forecast = end;
  variance_score = none;
  aggregation_opt_in = true;
}

abbrev start : AuditDb ℕ
start = record {
  users = user 7 ∷ user 8 ∷ [];
  vaults = vault ∷ [];
  audits = audit 10 (some 7) (some 1) ∷ audit 11 (some 8) none ∷ audit 12 none none ∷ [];
  quotes = quote 20 10 ∷ quote 21 11 ∷ quote 22 10 ∷ [];
}

delete_audit_owned_by_lem_example : delete_audit_owned_by sample uuid 10 "u7" start ≡ (
    if any (owned_by 10 7) start.audits
    then (ok true, without_audit 10 7 start)
    else (ok false, start))
delete_audit_owned_by_lem_example =
    delete_audit_owned_by_lem sample sample-IsSql uuid 10 7 "u7" start refl

-- another user's delete of the same audit
foreign_delete : delete_audit_owned_by sample uuid 10 "u8" start ≡ (ok false, start)
unfolding delete_audit_owned_by
foreign_delete = refl

delete_pii_vault_for_user_lem_test :
    let (result, st') = delete_pii_vault_for_user sample uuid "u7" start in
    (result ≡ ok (count (vault_of 7) start.vaults))
    × (st'.vaults ≡ drop_all (vault_of 7) start.vaults)
    × (any (linked_to (filter (vault_of 7) start.vaults)) st'.audits ≡ false)
    × (map unlink st'.audits ≡ map unlink start.audits)
    × (st'.quotes ≡ start.quotes)
    × (st'.users ≡ start.users)
    × (delete_pii_vault_for_user sample uuid "u7" st' ≡ (ok 0, st'))
delete_pii_vault_for_user_lem_test =
    delete_pii_vault_for_user_lem sample sample-IsSql uuid 7 "u7" start refl

start-IsSound : IsSound start
start-IsSound = record {
  quotes_have_audits = (refl, (refl, (refl, tt)));
  links_have_rows =
      (λ v e. ground arith, (λ v e. absurd (ground arith), (λ v e. absurd (ground arith), tt)));
}

abbrev requests : List Sound.Request
requests = Sound.delete_audit 10 "u7" ∷ Sound.delete_pii "u7" ∷ Sound.set_opt_out "u8" true ∷ []

perform_all-IsSound_test : IsSound (perform_all sample uuid requests start)
perform_all-IsSound_test = perform_all-IsSound sample sample-IsSql uuid requests start start-IsSound

abbrev others : List Sound.Request
others = Sound.delete_audit 10 "u7" ∷ Sound.delete_pii "u7" ∷ Sound.set_opt_out "u7" true ∷ []

u7_not_8 : ◌≢◌ {A = Option ℕ} (uuid "u7") (some 8)
u7_not_8 p = absurd (omega (arith, ap (λ o. or_else o 0) p))

keyed : IsKeyed 8 start.audits
keyed id h = ground (arith, h)

perform_all-IsKept_example : IsKept 8 start (perform_all sample uuid others start)
perform_all-IsKept_example =
    perform_all-IsKept sample sample-IsSql uuid 8 others start
      (u7_not_8, (u7_not_8, (u7_not_8, tt))) keyed

set_user_aggregation_opt_out_lem_example :
    let (result, st') = set_user_aggregation_opt_out sample uuid "u7" true start in
    let (back, st'') = set_user_aggregation_opt_out sample uuid "u7" false st' in
    (result ≡ ok (true, count (aggregated 7 start.audits) start.quotes))
    × (any (aggregated 7 st'.audits) st'.quotes ≡ false)
    × (st'.audits ≡ start.audits)
    × (filter (λ q. not (quoted_for 7 start.audits q)) st'.quotes
        ≡ filter (λ q. not (quoted_for 7 start.audits q)) start.quotes)
    × (back ≡ ok (false, 0))
    × (st''.quotes ≡ st'.quotes)
    × (st''.audits ≡ start.audits)
set_user_aggregation_opt_out_lem_example =
    set_user_aggregation_opt_out_lem sample sample-IsSql uuid 7 "u7" start refl refl

-- two quotes of the first user were counted
two_taken_out : (set_user_aggregation_opt_out sample uuid "u7" true start).0 ≡ ok (true, 2)
unfolding set_user_aggregation_opt_out
two_taken_out = refl

abbrev seen : AuditView
seen = view_of (audit 10 (some 7) (some 1))

get_audit_own_example :
    ◌≢◌ {A = String} "u7" anonymous_user_id
    × ((a : Audit) × (IsRow a start.audits)
        × (a.id ≡ 10)
        × (a.user_id ≡ uuid "u7")
        × (is_some a.user_id ≡ true)
        × (view_of a ≡ seen))
unfolding get_audit require_authenticated
get_audit_own_example = get_audit_own sample sample-IsSql uuid 10 "u7" start seen refl

delete_audit-get_audit_test :
    (delete_audit sample uuid 11 "u7" start).0
    ≡ delete_like 11 (get_audit sample uuid 11 "u7" start)
delete_audit-get_audit_test = delete_audit-get_audit sample sample-IsSql uuid 11 "u7" start
