-- ===== src/Entitlements/Gate.antt =====
-- backend/entitlements: who passes the gate of a feature.
use chart_solar.Prelude.{
  ◌≤◌, String, ◌≡◌, ◌↔◌, ◌⊎◌, inl, inr, sym, ◌∙◌, Option-cases, none, some, arith, eq_iff,
}
use mathlib.Core.Option.{some-injective}
use native.Mathlib.Nat.{le_trans}
use chart_solar.Entitlements.{
  Tier, free, decision_pack, founders, track, tier_value, tier_rank, features, lookup,
  feature_required_tier, try_parse_tier, anonymous_user_id, RequestState, current_user_id,
  current_tier, Guard, guard_for, allowed, payment_required, require_feature,
}

-- Parsing the value of a tier gives the tier back, and whatever parses is the value of its result.
pub try_parse_tier_roundtrip :
    (raw : String) (t : Tier) → (try_parse_tier raw ≡ some t) ↔ (raw ≡ tier_value t)
unfolding try_parse_tier
try_parse_tier_roundtrip raw t = (parsed t, printed t)
  where
    parsed : (t : Tier) → try_parse_tier raw ≡ some t → raw ≡ tier_value t
    parsed t h = ground (
      arith,
      eq_iff raw "free",
      eq_iff raw "decision_pack",
      eq_iff raw "founders",
      eq_iff raw "track",
    )

    printed : (t : Tier) → raw ≡ tier_value t → try_parse_tier raw ≡ some t
    printed free h = rw h
    printed decision_pack h = rw h
    printed founders h = rw h
    printed track h = rw h

declared_guard :
    (key : String) (required : Tier)
    → feature_required_tier key ≡ some required
    → require_feature key ≡ some (guard_for key required)
unfolding require_feature guard_for
declared_guard key required e = rw (e, require_feature)

-- The guard of a route lets a caller pass exactly if the registry has the feature's key and the
-- caller's tier ranks at least as high as the tier it is registered with; for any other key the
-- route cannot be declared. A caller who does not pass is told the feature and both tiers.
pub require_feature_lem :
    (key : String) (user : Tier) (guard : Tier → Guard)
    → require_feature key ≡ some guard
    → (required : Tier) × (lookup key features ≡ some required)
      × ((guard user ≡ allowed) ↔ (tier_rank required ≤ tier_rank user))
      × ((guard user ≡ allowed) ⊎ (guard user ≡ payment_required key required user))
unfolding require_feature
require_feature_lem key user guard declared = elim (Option-cases (feature_required_tier key)) [
  | inl unknown ↦ ground arith
  | inr (required, e) ↦
      let same : guard_for key required ≡ guard =
        some-injective _ _ (sym (declared_guard key required e) ∙ declared) in
      rw (← same) (
        required,
        unfold feature_required_tier in e,
        unfold guard_for in (λ p. ground arith, λ le. ground arith),
        unfold guard_for in ground arith,
      )
]

-- A higher tier never loses a feature: whoever ranks at least as high as somebody who passes, passes.
pub require_feature_mono :
    (key : String) (low high : Tier) (guard : Tier → Guard)
    → require_feature key ≡ some guard
    → tier_rank low ≤ tier_rank high
    → guard low ≡ allowed
    → guard high ≡ allowed
require_feature_mono key low high guard declared le pass =
    let (required, at, iff, other) = require_feature_lem key low guard declared in
    let (required', at', iff', other') = require_feature_lem key high guard declared in
    let same : required ≡ required' = some-injective _ _ (sym at ∙ at') in
    iff'.1 (rw (← same) (le_trans (iff.0 pass) le))

-- Whatever the ledger says, a caller without a user id has the free tier, and asking for the tier
-- again in the same request gives the same answer with no other change, though the ledger may have
-- changed in between.
pub current_tier_memoised :
    (tier_of tier_of' : String → Tier) (request : RequestState)
    → let (tier, request') = current_tier tier_of request in
      (current_tier tier_of' request' ≡ (tier, request'))
      × (current_user_id request ≡ anonymous_user_id → request.tier ≡ none → tier ≡ free)
      × (current_user_id request' ≡ current_user_id request)
unfolding current_tier current_user_id
current_tier_memoised tier_of tier_of' request = (
  elim (Option-cases request.tier) [ inl e ↦ ground arith | inr (t, e) ↦ ground arith ],
  λ anonymous fresh.
      ground (arith, (eq_iff (current_user_id request) anonymous_user_id).1 anonymous),
  ground arith,
)
