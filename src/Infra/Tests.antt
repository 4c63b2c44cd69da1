-- ===== src/Infra/Tests.antt =====
-- The event bus and the idempotency slots of backend/infra at concrete inputs.
use chart_solar.Prelude.{
  ℕ, String, ◌≡◌, refl, true, false, not, some, List, [], ◌∷◌, ◌++◌, any, filter, arith, str_eq, ok,
  err,
}
use chart_solar.Sql.Sample.{sample, sample-IsSql}
use chart_solar.Entitlements.{track}
use chart_solar.Infra.EventBus.{
  payment_succeeded_class, user_deleted_class, DomainEvent, payment_succeeded, Handler, Registry,
  subscribe, isolate, run_all, dispatch, dispatch_async,
}
use chart_solar.Infra.EventBus.Laws.{
  dispatch_async-subscribe, dispatch_async-subscribe_other, dispatch-eq-dispatch_async,
}
use chart_solar.Infra.Idempotency.{
  IdempotencyKey, JsonLib, StripeEvent, canonical_request_hash, Request, claim_idempotency_slot,
  record_stripe_event, claim_row, default_ttl_seconds,
}
use chart_solar.Infra.Idempotency.Claims.{
  canonical_request_hash-loads, claim_wins, claim_deduplicates, claim_expired_always_wins,
  record_stripe_event_once,
}

-- a handler that writes its name and then raises, and one that returns
abbrev broken : Handler (List String)
broken = record { is_async = false; run = λ e s. (err "boom", s ++ "broken" ∷ []) }

abbrev grants : Handler (List String)
grants = record { is_async = true; run = λ e s. (ok tt, s ++ "grants" ∷ []) }

abbrev bus : Registry (List String)
bus _ = broken ∷ []

abbrev paid : DomainEvent
paid = payment_succeeded "u" track "evt_1"

dispatch_async-subscribe_test :
    dispatch_async (subscribe payment_succeeded_class grants bus) paid []
    ≡ run_all (broken ∷ []) paid (isolate grants paid (run_all (broken ∷ []) paid []))
dispatch_async-subscribe_test = dispatch_async-subscribe bus grants paid []

dispatch_async-subscribe_other_test :
    dispatch_async (subscribe user_deleted_class grants bus) paid [] ≡ dispatch_async bus paid []
dispatch_async-subscribe_other_test =
    dispatch_async-subscribe_other bus user_deleted_class grants paid [] (λ e. cc) (λ e. cc)

dispatch-eq-dispatch_async_test :
    dispatch bus paid [] ≡ dispatch_async (λ c. filter (λ h. not h.is_async) (bus c)) paid []
dispatch-eq-dispatch_async_test = dispatch-eq-dispatch_async bus paid []

-- texts as bytes, where a text that is not empty loads as itself
abbrev texts : JsonLib
texts = record {
  Bytes = String;
  Value = String;
  is_empty = λ s. str_eq s "";
  nothing = "";
  sha256_hex = λ s. s;
  loads = λ s. some "{}";
  dumps_sorted = λ s. s;
}

canonical_request_hash-loads_test :
    canonical_request_hash texts "{ }" ≡ canonical_request_hash texts "{}"
canonical_request_hash-loads_test =
    canonical_request_hash-loads texts "{ }" "{}" "{}" refl refl refl refl

abbrev asks : String → ℕ → Request String
asks body now = record {
  route = "POST /api/forecast";
  key = "u:1";
  request_hash = "1";
  response_body = body;
  response_status = 200;
  ttl_seconds = default_ttl_seconds;
  now = now;
}

claim_wins_test :
    (claim_idempotency_slot sample (λ t. t) (asks "b" 50) (claim_row (asks "a" 0) ∷ [])).0
    ≡ (false, "a")
claim_wins_test = claim_wins sample sample-IsSql (asks "b" 50) (claim_row (asks "a" 0) ∷ [])

claim_deduplicates_test :
    let (reply, rows') = claim_idempotency_slot sample (λ t. t) (asks "a" 0) [] in
    (reply ≡ (true, "a"))
    × (claim_idempotency_slot sample (λ t. t) (asks "b" 50) rows' ≡ ((false, "a"), rows'))
claim_deduplicates_test =
    claim_deduplicates sample sample-IsSql (asks "a" 0) (asks "b" 50) [] refl refl refl
      (omega arith)

abbrev stale : List (IdempotencyKey String)
stale = claim_row (asks "a" 0) ∷ []

claim_expired_always_wins_example :
    let (reply, rows') = claim_idempotency_slot sample (λ t. t) (asks "b" 86_400) stale in
    (reply ≡ (true, "b"))
    × (rows' ≡ stale)
    × (claim_idempotency_slot sample (λ t. t) (asks "c" 86_401) rows' ≡ ((true, "c"), stale))
claim_expired_always_wins_example =
    claim_expired_always_wins sample sample-IsSql (asks "b" 86_400) (asks "c" 86_401) stale refl
      refl refl refl refl

record_stripe_event_once_test :
    let (recorded, rows') =
      record_stripe_event sample {P = String} "evt_1" "charge.refunded" "a" [] in
    (recorded ≡ not (any (λ (r : StripeEvent String). str_eq r.event_id "evt_1") []))
    × (record_stripe_event sample "evt_1" "charge.refunded" "b" rows' ≡ (false, rows'))
record_stripe_event_once_test =
    record_stripe_event_once sample sample-IsSql "evt_1" "charge.refunded" "charge.refunded" "a" "b"
      []
