-- ===== src/Stripe/Webhook/Delivery.antt =====
-- backend/api/stripe_webhook.py: what one delivery of an event does, and what a second one does.
use chart_solar.Prelude.{
  ℕ, String, ◌≡◌, refl, ap, ◌∙◌, Bool, true, false, not, Option, none, some, List, any, arith,
  str_eq, Result, ok, err,
}
use chart_solar.Sql.{Sql, IsSql}
use chart_solar.Infra.EventBus.{
  DomainEvent, forecast_completed, audit_completed, payment_succeeded, payment_refunded,
  user_deleted, subscribe, clear_subscribers, dispatch_async,
}
use chart_solar.Infra.Idempotency.{StripeEvent, record_stripe_event}
use chart_solar.Infra.Idempotency.Claims.{record_stripe_event_once}
use chart_solar.Entitlements.{Tier}
use chart_solar.Entitlements.Ledger.{grant_tier}
use chart_solar.Stripe.Json
use chart_solar.Stripe.Json.{Fields, as_str}
use chart_solar.Stripe.Router.{route_event}
use chart_solar.Stripe.Webhook.{
  WebhookDb, Circumstances, Reply, replay, dispatched, on_payment_succeeded, on_payment_refunded,
  register_subscribers, act, stripe_webhook,
}

module _ (db : Sql) (laws : IsSql db) (parse_uuid : String → Option ℕ) (is_user : ℕ → Bool) where
  -- what the bus does to a payment: the one subscriber of its class runs
  paid :
      (c : Circumstances) (user id : String) (tier : Tier) (st : WebhookDb)
      → dispatch_async
          (register_subscribers db parse_uuid is_user c clear_subscribers)
          (payment_succeeded user tier id)
          st
        ≡ (on_payment_succeeded db parse_uuid is_user c (payment_succeeded user tier id) st).1
  unfolding dispatch_async register_subscribers subscribe clear_subscribers
  paid c user id tier st = refl

  refunded :
      (c : Circumstances) (user id : String) (tier : Tier) (st : WebhookDb)
      → dispatch_async
          (register_subscribers db parse_uuid is_user c clear_subscribers)
          (payment_refunded user tier id)
          st
        ≡ (on_payment_refunded db parse_uuid is_user c (payment_refunded user tier id) st).1
  unfolding dispatch_async register_subscribers subscribe clear_subscribers
  refunded c user id tier st = refl

  abbrev bus : Circumstances → DomainEvent → WebhookDb → WebhookDb
  bus c = dispatch_async (register_subscribers db parse_uuid is_user c clear_subscribers)

  bus_keeps_events :
      (c : Circumstances) (d : DomainEvent) (st : WebhookDb) → (bus c d st).events ≡ st.events
  unfolding dispatch_async register_subscribers subscribe clear_subscribers on_payment_succeeded
      on_payment_refunded
  bus_keeps_events c (payment_succeeded u t id) st = ground arith
  bus_keeps_events c (payment_refunded u t id) st = ground arith
  bus_keeps_events c (forecast_completed j u k) st = refl
  bus_keeps_events c (audit_completed a u v) st = refl
  bus_keeps_events c (user_deleted u) st = refl

  abbrev webhook : Circumstances → Option Fields → WebhookDb → Reply × WebhookDb
  webhook = stripe_webhook db parse_uuid is_user

  abbrev recorded_by : String → String → Fields → WebhookDb → Bool × List (StripeEvent Fields)
  recorded_by id type event st = record_stripe_event db id type event st.events

  act_events :
      (c : Circumstances) (id type : String) (r : Result String (Option DomainEvent))
      (st : WebhookDb)
      → (act db parse_uuid is_user c id type r st).1.events ≡ st.events
  unfolding act
  act_events c id type (err e) st = refl
  act_events c id type (ok none) st = refl
  act_events c id type (ok (some d)) st = bus_keeps_events c d st

  -- whatever the delivery of a well-formed event does, its events are those of the record
  delivered_events :
      (c : Circumstances) (event : Fields) (id type : String) (st : WebhookDb)
      → as_str (Json.get "id" event) ≡ some id
      → as_str (Json.get "type" event) ≡ some type
      → (webhook c (some event) st).1.events ≡ (recorded_by id type event st).1
  unfolding stripe_webhook
  delivered_events c event id type st has_id has_type = ground (
    arith,
    act_events c id type (route_event event)
        (record st { events = (recorded_by id type event st).1 }),
  )

  replayed :
      (c : Circumstances) (event : Fields) (id type : String) (st : WebhookDb)
      → as_str (Json.get "id" event) ≡ some id
      → as_str (Json.get "type" event) ≡ some type
      → recorded_by id type event st ≡ (false, st.events)
      → webhook c (some event) st ≡ (replay id, st)
  unfolding stripe_webhook
  replayed c event id type st has_id has_type again = ground arith

  -- Of the deliveries of one event id, the first that passes the signature and is well formed is
  -- the only one that can act: any other with that id, whatever else it holds, is answered as a
  -- replay and changes nothing.
  pub webhook_once :
      (c c' : Circumstances) (event event' : Fields) (id type type' : String) (st : WebhookDb)
      → as_str (Json.get "id" event) ≡ some id
      → as_str (Json.get "type" event) ≡ some type
      → as_str (Json.get "id" event') ≡ some id
      → as_str (Json.get "type" event') ≡ some type'
      → let st' = (stripe_webhook db parse_uuid is_user c (some event) st).1 in
        stripe_webhook db parse_uuid is_user c' (some event') st' ≡ (replay id, st')
  webhook_once c c' event event' id type type' st has_id has_type has_id' has_type' =
      let st' = (webhook c (some event) st).1 in
      let events = delivered_events c event id type st has_id has_type in
      replayed c' event' id type' st' has_id' has_type'
        (rw events (record_stripe_event_once db laws id type type' event event' st.events).1)

  act_dispatch :
      (c : Circumstances) (id type : String) (d : DomainEvent) (st : WebhookDb)
      → act db parse_uuid is_user c id type (ok (some d)) st ≡ (dispatched id, bus c d st)
  unfolding act
  act_dispatch c id type d st = refl

  dispatched_lem :
      (c : Circumstances) (event : Fields) (id type : String) (d : DomainEvent) (st : WebhookDb)
      → as_str (Json.get "id" event) ≡ some id
      → as_str (Json.get "type" event) ≡ some type
      → (recorded_by id type event st).0 ≡ true
      → route_event event ≡ ok (some d)
      → webhook c (some event) st
        ≡ (dispatched id, bus c d (record st { events = (recorded_by id type event st).1 }))
  unfolding stripe_webhook
  dispatched_lem c event id type d st has_id has_type fresh routed = ground (
    arith,
    ap
        (λ r.
          act db parse_uuid is_user c id type r
            (record st { events = (recorded_by id type event st).1 }))
        routed,
    act_dispatch c id type d (record st { events = (recorded_by id type event st).1 }),
  )

  -- a new event that is a payment reaches the payment's subscriber
  paid_delivery :
      (c : Circumstances) (event : Fields) (id type user : String) (tier : Tier) (st : WebhookDb)
      → as_str (Json.get "id" event) ≡ some id
      → as_str (Json.get "type" event) ≡ some type
      → any (λ r. str_eq r.event_id id) st.events ≡ false
      → route_event event ≡ ok (some (payment_succeeded user tier id))
      → let st' : WebhookDb = record st { events = (recorded_by id type event st).1 } in
        webhook c (some event) st ≡ (
          dispatched id,
          (on_payment_succeeded db parse_uuid is_user c (payment_succeeded user tier id) st').1,
        )
  paid_delivery c event id type user tier st has_id has_type fresh routed =
      let st' : WebhookDb = record st { events = (recorded_by id type event st).1 } in
      let new =
        (record_stripe_event_once db laws id type type event event st.events).0 ∙ ap not fresh in
      dispatched_lem c event id type (payment_succeeded user tier id) st has_id has_type new routed
      ∙ ap (λ s. (dispatched id, s)) (paid c user id tier st')

  -- A payment whose subscriber finds its database working is granted: the reply is the dispatch,
  -- and the ledger is that of one `grant_tier` for the event's user, tier and id.
  pub webhook_grants :
      (c : Circumstances) (event : Fields) (id type user : String) (tier : Tier) (st : WebhookDb)
      → as_str (Json.get "id" event) ≡ some id
      → as_str (Json.get "type" event) ≡ some type
      → any (λ r. str_eq r.event_id id) st.events ≡ false
      → route_event event ≡ ok (some (payment_succeeded user tier id))
      → c.session_fails ≡ false
      → let (reply, st') = stripe_webhook db parse_uuid is_user c (some event) st in
        (reply ≡ dispatched id)
        × (st'.ledger
            ≡ (grant_tier db parse_uuid is_user user tier id c.fresh_id c.now st.ledger).1)
  webhook_grants c event id type user tier st has_id has_type fresh routed works =
      rw (paid_delivery c event id type user tier st has_id has_type fresh routed)
        (unfold on_payment_succeeded in ground arith)

  -- A payment whose subscriber raises is lost: the reply says that it was dispatched, the ledger is
  -- unchanged, and any later delivery of the same event id is a replay that grants nothing.
  pub webhook_loses_grant :
      (c c' : Circumstances) (event event' : Fields) (id type type' user : String) (tier : Tier)
      (st : WebhookDb)
      → as_str (Json.get "id" event) ≡ some id
      → as_str (Json.get "type" event) ≡ some type
      → any (λ r. str_eq r.event_id id) st.events ≡ false
      → route_event event ≡ ok (some (payment_succeeded user tier id))
      → c.session_fails ≡ true
      → as_str (Json.get "id" event') ≡ some id
      → as_str (Json.get "type" event') ≡ some type'
      → let (reply, st') = stripe_webhook db parse_uuid is_user c (some event) st in
        (reply ≡ dispatched id)
        × (st'.ledger ≡ st.ledger)
        × (stripe_webhook db parse_uuid is_user c' (some event') st' ≡ (replay id, st'))
  webhook_loses_grant c c' event event' id type type' user tier st has_id has_type fresh routed
        fails has_id' has_type' =
      let delivery = paid_delivery c event id type user tier st has_id has_type fresh routed in
      (
        ap (λ r. r.0) delivery,
        ap (λ r. r.1.ledger) delivery ∙ unfold on_payment_succeeded in ground arith,
        webhook_once c c' event event' id type type' st has_id has_type has_id' has_type',
      )
