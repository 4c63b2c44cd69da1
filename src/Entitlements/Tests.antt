-- ===== src/Entitlements/Tests.antt =====
-- The tiers and the ledger of grants at concrete rows.
use chart_solar.Prelude.{
  ℕ, ◌≤◌, String, ◌≡◌, ◌⊎◌, ◌↔◌, refl, Bool, true, false, Option, none, some, List, [], ◌∷◌, any,
  All, arith, str_eq, if◌then◌else◌, leb,
}
use chart_solar.Sql.{IsRow}
use chart_solar.Sql.Sample.{sample, sample-IsSql}
use chart_solar.Entitlements.{
  Tier, free, decision_pack, founders, track, tier_value, tier_rank, features, lookup,
  try_parse_tier, anonymous_user_id, RequestState, current_user_id, current_tier, Guard, guard_for,
  allowed, payment_required, require_feature, feature_required_tier, tier_satisfies,
}
use chart_solar.Entitlements.Gate.{
  try_parse_tier_roundtrip, require_feature_lem, require_feature_mono, current_tier_memoised,
}
use chart_solar.Entitlements.Ledger.{
  UserEntitlement, is_active_of, grant_tier, revoke_by_event, tier_for_user,
}
use chart_solar.Entitlements.Ledger.Grants.{
  grant_once, revoke_once, tier_for_user_highest, Call, grant, revoke, IsLedger, apply_all,
  apply_all-IsLedger,
}

try_parse_tier_roundtrip_test : (try_parse_tier "track" ≡ some track) ↔ ("track" ≡ tier_value track)
try_parse_tier_roundtrip_test = try_parse_tier_roundtrip "track" track

abbrev tornado : Tier → Guard
tornado = guard_for "engine.tornado_chart" decision_pack

require_feature_lem_test :
    (required : Tier) × (lookup "engine.tornado_chart" features ≡ some required)
    × ((tornado free ≡ allowed) ↔ (tier_rank required ≤ tier_rank free))
    × ((tornado free ≡ allowed)
        ⊎ (tornado free ≡ payment_required "engine.tornado_chart" required free))
unfolding require_feature feature_required_tier
require_feature_lem_test = require_feature_lem "engine.tornado_chart" free tornado refl

require_feature_mono_test : tornado track ≡ allowed
unfolding require_feature feature_required_tier guard_for tier_satisfies
require_feature_mono_test =
    require_feature_mono "engine.tornado_chart" founders track tornado refl (omega arith) refl

abbrev fresh_request : RequestState
fresh_request = record { user_id = some "7"; tier = none }

current_tier_memoised_test :
    let (tier, request') = current_tier (λ u. track) fresh_request in
    (current_tier (λ u. free) request' ≡ (tier, request'))
    × (current_user_id fresh_request ≡ anonymous_user_id → fresh_request.tier ≡ none → tier ≡ free)
    × (current_user_id request' ≡ current_user_id fresh_request)
current_tier_memoised_test = current_tier_memoised (λ u. track) (λ u. free) fresh_request

-- the one user has the id 7
abbrev parse : String → Option ℕ
parse u = if str_eq u "7" then some 7 else none

abbrev known : ℕ → Bool
known u = leb u 9

abbrev row : UserEntitlement
row = record {
  id = 1;
  user_id = 7;
  tier = founders;
  granted_by = "evt_1";
  granted_at = 10;
  revoked_by = none;
  revoked_at = none;
}

grant_once_test :
    let rows' = (grant_tier sample parse known "7" track "evt_2" 2 20 (row ∷ [])).1 in
    grant_tier sample parse known "7" founders "evt_2" 3 30 rows' ≡ (false, rows')
unfolding grant_tier
grant_once_test =
    grant_once sample sample-IsSql parse known "7" "7" "evt_2" track founders 2 3 20 30 (row ∷ [])
      refl

revoke_once_test :
    let rows' = (revoke_by_event sample parse known "7" founders "evt_9" 20 (row ∷ [])).1 in
    revoke_by_event sample parse known "7" founders "evt_9" 30 rows' ≡ (false, rows')
unfolding revoke_by_event
revoke_once_test =
    revoke_once sample sample-IsSql parse known "7" "7" "evt_9" founders founders 20 30 (row ∷ [])
      refl

tier_for_user_highest_example :
    let tier = tier_for_user sample parse known "7" (row ∷ []) in
    All (λ r. is_active_of 7 r ≡ true → tier_rank r.tier ≤ tier_rank tier) (row ∷ [])
    × (((tier ≡ free) × (any (is_active_of 7) (row ∷ []) ≡ false))
        ⊎ ((r : UserEntitlement) × IsRow r (row ∷ [])
            × (is_active_of 7 r ≡ true)
            × (r.tier ≡ tier)))
tier_for_user_highest_example =
    tier_for_user_highest sample sample-IsSql parse known "7" 7 (row ∷ []) refl

abbrev calls : List Call
calls =
    grant "7" track "evt_2" 2 20 ∷ revoke "7" track "evt_3" 30 ∷ grant "7" track "evt_2" 4 40 ∷ []

apply_all-IsLedger_example : IsLedger (apply_all sample sample-IsSql parse known calls [])
apply_all-IsLedger_example =
    apply_all-IsLedger sample sample-IsSql parse known calls [] (λ e. omega arith)
