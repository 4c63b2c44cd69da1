-- ===== src/Entitlements.antt =====
-- backend/entitlements/features.py and guards.py: tiers, the features they unlock, and the gate of
-- a route.
pub mod Gate
pub mod Ledger
mod Tests
use chart_solar.Prelude.{
  ℕ, String, Bool, true, false, Option, none, some, List, [], ◌∷◌, Result, ok, err, leb, str_eq,
  not, if◌then◌else◌,
}

pub data Tier : Type 0 where
  free decision_pack founders track : Tier

abbrev pub tier_value : Tier → String
tier_value free = "free"
tier_value decision_pack = "decision_pack"
tier_value founders = "founders"
tier_value track = "track"

-- `TIER_RANK`
abbrev pub tier_rank : Tier → ℕ
tier_rank free = 0
tier_rank decision_pack = 1
tier_rank founders = 1
tier_rank track = 2

-- `FEATURES`, in the source's order
abbrev pub features : List (String × Tier)
features =
    ("engine.basic_forecast", free)
    ∷ ("engine.monte_carlo", free)
    ∷ ("engine.npv_irr", free)
    ∷ ("engine.tornado_chart", decision_pack)
    ∷ ("audit.proposal_extraction", decision_pack)
    ∷ ("audit.unlimited_runs", decision_pack)
    ∷ ("engine.battery.hourly_dispatch", decision_pack)
    ∷ ("engine.scenario.diff", decision_pack)
    ∷ ("track.bill_variance", track)
    ∷ ("track.alerts", track)
    ∷ ("track.degradation_curve", track)
    ∷ []

abbrev pub lookup {ℓ} : {V : Type ℓ} → String → List (String × V) → Option V
lookup key [] = none
lookup key ((k, v) ∷ rest) = if str_eq k key then some v else lookup key rest

-- `none` is the `KeyError` of a key that is not in the registry.
pub feature_required_tier : String → Option Tier
feature_required_tier key = lookup key features

pub tier_satisfies : Tier → Tier → Bool
tier_satisfies user required = leb (tier_rank required) (tier_rank user)

-- `Tier(raw)` compares with the value of each member.
unfoldable pub try_parse_tier : String → Option Tier
try_parse_tier raw =
    if str_eq raw (tier_value free)
    then some free
    else if str_eq raw (tier_value decision_pack)
    then some decision_pack
    else if str_eq raw (tier_value founders)
    then some founders
    else if str_eq raw (tier_value track)
    then some track
    else none

abbrev pub anonymous_user_id : String
anonymous_user_id = "anonymous"

-- `request.state`: what the session middleware and the guards stamped on it
pub record RequestState : Type 0 where
  pub user_id : Option String
  pub tier : Option Tier

-- `getattr(request.state, "user_id", ANONYMOUS_USER_ID) or ANONYMOUS_USER_ID`
pub current_user_id : RequestState → String
current_user_id request = elim request.user_id [
  | none ↦ anonymous_user_id
  | some u ↦ if str_eq u "" then anonymous_user_id else u
]

-- `require_authenticated` of backend/api/auth/__init__.py; `none` is HTTP 401.
unfoldable pub require_authenticated : String → Option String
require_authenticated user_id = if str_eq user_id anonymous_user_id then none else some user_id

-- The tier, and the request state that remembers it; `tier_of` is the read of the ledger.
pub current_tier : (String → Tier) → RequestState → Tier × RequestState
unfolding current_user_id
current_tier tier_of request = elim request.tier [
  | some cached ↦ (cached, request)
  | none ↦
      let user_id = current_user_id request in
      let tier = if str_eq user_id anonymous_user_id then free else tier_of user_id in
      (tier, record request { tier = some tier })
]

-- HTTP 402 with the two tiers; `allowed` is a guard that returns.
pub data Guard : Type 0 where
  allowed : Guard
  payment_required : String → Tier → Tier → Guard

-- the `_guard` that `require_feature` returns, for a caller's tier
pub guard_for : String → Tier → Tier → Guard
unfolding tier_satisfies
guard_for key required user =
    if tier_satisfies user required then allowed else payment_required key required user

-- `require_feature(key)` raises `KeyError` when the route is declared (`none`), or is a guard on
-- the caller's tier.
pub require_feature : String → Option (Tier → Guard)
require_feature key = elim (feature_required_tier key) [
  | none ↦ none
  | some required ↦ some (guard_for key required)
]
