-- ===== src/Stripe/Tests.antt =====
-- Deliveries of Stripe events at concrete inputs.
use chart_solar.Prelude.{
  ℕ, String, ◌≡◌, ◌↔◌, refl, Bool, true, false, Option, none, some, [], str_eq, ok, leb,
  if◌then◌else◌,
}
use chart_solar.Sql.Sample.{sample, sample-IsSql}
use chart_solar.Entitlements.{track, try_parse_tier}
use chart_solar.Entitlements.Ledger.{grant_tier}
use chart_solar.Infra.EventBus.{DomainEvent, payment_succeeded}
use chart_solar.Stripe.Json
use chart_solar.Stripe.Json.{Fields, field, end, str, dict}
use chart_solar.Stripe.Router.{is_handled, is_refund, payment_id, route_event, route_event_sound}
use chart_solar.Stripe.Webhook.{WebhookDb, Circumstances, dispatched, replay, stripe_webhook}
use chart_solar.Stripe.Webhook.Delivery.{webhook_once, webhook_grants, webhook_loses_grant}

abbrev checkout : Fields
checkout = field "id" (str "evt_1") (
    field "type" (str "checkout.session.completed") (
      field "data"
        (dict (
          field "object"
            (dict (
              field "client_reference_id" (str "7")
                (field "metadata" (dict (field "tier" (str "track") end)) end)))
            end))
        end))

abbrev paid : DomainEvent
paid = payment_succeeded "7" track "evt_1"

checkout_is_paid : route_event checkout ≡ ok (some paid)
unfolding route_event Json.get Json.or_empty Json.truthy try_parse_tier
checkout_is_paid = refl

-- a renewal, which carries no client_reference_id
abbrev invoice : Fields
invoice = field "id" (str "evt_1") (
    field "type" (str "invoice.payment_succeeded") (
      field "data"
        (dict (
          field "object"
            (dict (
              field "metadata" (dict (field "user_id" (str "7") (field "tier" (str "track") end)))
                end))
            end))
        end))

invoice_is_paid : route_event invoice ≡ ok (some paid)
unfolding route_event Json.get Json.or_empty Json.truthy try_parse_tier
invoice_is_paid = refl

route_event_sound_test :
    (event_type : String) × (event_id : String) × (Json.get "type" checkout ≡ str event_type)
    × (Json.get "id" checkout ≡ str event_id)
    × (is_handled event_type ≡ true)
    × (payment_id paid ≡ some event_id)
    × ((is_refund paid ≡ true) ↔ (event_type ≡ "charge.refunded"))
route_event_sound_test = route_event_sound checkout paid checkout_is_paid

abbrev parse : String → Option ℕ
parse u = if str_eq u "7" then some 7 else none

abbrev known : ℕ → Bool
known u = leb u 9

abbrev start : WebhookDb
start = record { events = []; ledger = [] }

abbrev works : Circumstances
works = record { fresh_id = 1; now = 10; session_fails = false }

abbrev fails : Circumstances
fails = record { fresh_id = 1; now = 10; session_fails = true }

webhook_once_example :
    let st' = (stripe_webhook sample parse known works (some checkout) start).1 in
    stripe_webhook sample parse known fails (some checkout) st' ≡ (replay "evt_1", st')
unfolding Json.get
webhook_once_example =
    webhook_once sample sample-IsSql parse known works fails checkout checkout "evt_1"
      "checkout.session.completed" "checkout.session.completed" start refl refl refl refl

webhook_grants_example :
    let (reply, st') = stripe_webhook sample parse known works (some invoice) start in
    (reply ≡ dispatched "evt_1")
    × (st'.ledger ≡ (grant_tier sample parse known "7" track "evt_1" 1 10 []).1)
unfolding Json.get
webhook_grants_example =
    webhook_grants sample sample-IsSql parse known works invoice "evt_1" "invoice.payment_succeeded"
      "7" track start refl refl refl invoice_is_paid refl

webhook_loses_grant_example :
    let (reply, st') = stripe_webhook sample parse known fails (some checkout) start in
    (reply ≡ dispatched "evt_1")
    × (st'.ledger ≡ [])
    × (stripe_webhook sample parse known works (some checkout) st' ≡ (replay "evt_1", st'))
unfolding Json.get
webhook_loses_grant_example =
    webhook_loses_grant sample sample-IsSql parse known fails works checkout checkout "evt_1"
      "checkout.session.completed" "checkout.session.completed" "7" track start refl refl refl
      checkout_is_paid refl refl refl
