-- ===== src/Stripe/Webhook.antt =====
-- backend/api/stripe_webhook.py with the subscribers of
-- backend/services/entitlements_subscribers.py: signature, dedupe, translation, dispatch.
pub mod Delivery
use chart_solar.Prelude.{
  ℕ, String, Bool, true, false, Option, none, some, List, Result, ok, err, if◌then◌else◌,
}
use chart_solar.Sql.{Sql}
use chart_solar.Infra.EventBus.{
  DomainEvent, payment_succeeded, payment_refunded, payment_succeeded_class, payment_refunded_class,
  Handler, Registry, subscribe, clear_subscribers, dispatch_async,
}
use chart_solar.Infra.Idempotency.{StripeEvent, record_stripe_event}
use chart_solar.Entitlements.Ledger.{UserEntitlement, grant_tier, revoke_by_event}
use chart_solar.Stripe.Json
use chart_solar.Stripe.Json.{Fields, as_str}
use chart_solar.Stripe.Router.{route_event}

pub record WebhookDb : Type 0 where
  pub events : List (StripeEvent Fields)
  pub ledger : List UserEntitlement

-- What a delivery meets: the id that a new row would get, the time, and whether the subscriber's
-- database session raises (before it commits anything).
pub record Circumstances : Type 0 where
  pub fresh_id : ℕ
  pub now : ℕ
  pub session_fails : Bool

-- The answers of the endpoint; `server_error` is an exception that no code catches.
pub data Reply : Type 0 where
  bad_signature malformed : Reply
  replay : String → Reply
  ignored : String → String → Reply
  dispatched : String → Reply
  server_error : String → Reply

module _ (db : Sql) (parse_uuid : String → Option ℕ) (is_user : ℕ → Bool) (c : Circumstances) where
  pub on_payment_succeeded : DomainEvent → WebhookDb → Result String (Unit {0}) × WebhookDb
  on_payment_succeeded (payment_succeeded user tier event_id) st =
      if c.session_fails then (err "database error", st) else (
        ok tt,
        record st {
          ledger =
              (grant_tier db parse_uuid is_user user tier event_id c.fresh_id c.now st.ledger).1;
        },
      )
  on_payment_succeeded _ st = (ok tt, st)

  pub on_payment_refunded : DomainEvent → WebhookDb → Result String (Unit {0}) × WebhookDb
  on_payment_refunded (payment_refunded user tier event_id) st =
      if c.session_fails then (err "database error", st) else (
        ok tt,
        record st {
          ledger = (revoke_by_event db parse_uuid is_user user tier event_id c.now st.ledger).1;
        },
      )
  on_payment_refunded _ st = (ok tt, st)

  -- `register_subscribers`, on a bus with no other subscriber
  pub register_subscribers : Registry WebhookDb → Registry WebhookDb
  register_subscribers bus =
      subscribe payment_refunded_class (record { is_async = true; run = on_payment_refunded })
        (subscribe payment_succeeded_class (record { is_async = true; run = on_payment_succeeded })
          bus)

  -- What follows the record of a new event, by what `route_event` returned.
  pub act : String → String → Result String (Option DomainEvent) → WebhookDb → Reply × WebhookDb
  act event_id event_type (err e) st = (server_error e, st)
  act event_id event_type (ok none) st = (ignored event_id event_type, st)
  act event_id event_type (ok (some d)) st =
      (dispatched event_id, dispatch_async (register_subscribers clear_subscribers) d st)

  -- `event` is what `construct_event` returns, `none` where it raises `StripeSignatureError`.
  pub stripe_webhook : Option Fields → WebhookDb → Reply × WebhookDb
  stripe_webhook none st = (bad_signature, st)
  stripe_webhook (some event) st = elim (as_str (Json.get "id" event)) [
    | none ↦ (malformed, st)
    | some event_id ↦ elim (as_str (Json.get "type" event)) [
      | none ↦ (malformed, st)
      | some event_type ↦
          let (recorded, events) = record_stripe_event db event_id event_type event st.events in
          let st' = record st { events = events } in
          if recorded
          then act event_id event_type (route_event event) st'
          else (replay event_id, st')
    ]
  ]
