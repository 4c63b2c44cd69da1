-- ===== src/Stripe/Router.antt =====
-- backend/services/stripe_webhook_router.py: from a verified Stripe event to a domain event.
use mathlib.Core.Bool.{false≢true}
use mathlib.Core.Option.{some-injective}
use chart_solar.Prelude.{
  ap, sym, ◌∙◌, Bool-cases, Option-cases, String, ◌≡◌, ◌↔◌, inl, inr, refl, Bool, true, false,
  Option, none, some, ◌||◌, str_eq, eq_iff, arith, Result, ok, err, if◌then◌else◌,
}
use chart_solar.Entitlements.{Tier, try_parse_tier}
use chart_solar.Infra.EventBus.{DomainEvent, payment_succeeded, payment_refunded}
use chart_solar.Stripe.Json
use chart_solar.Stripe.Json.{Json, Fields, dict, null, str, end, as_str, or_empty, truthy}

-- `HANDLED_EVENT_TYPES`
abbrev pub is_handled : String → Bool
is_handled t =
    str_eq t "checkout.session.completed"
    || (str_eq t "invoice.payment_succeeded" || str_eq t "charge.refunded")

-- What `_extract_user_and_tier` finds as metadata: the dict, or an empty one.
metadata_of : Fields → Fields
metadata_of obj = elim (Json.get "metadata" obj) [ dict d ↦ d | _ ↦ end ]

-- `a or b`
abbrev first_true : Json → Json → Json
first_true a b = if truthy a then a else b

non_empty : Json → Option String
non_empty (str s) = if str_eq s "" then none else some s
non_empty v = none

pub extract_user_and_tier : String → Fields → Option String × Option Tier
unfolding metadata_of non_empty
extract_user_and_tier event_type obj =
    let metadata = metadata_of obj in
    let tier : Option Tier = elim (as_str (Json.get "tier" metadata)) [
      | none ↦ none
      | some raw ↦ try_parse_tier raw
    ] in
    let user_id =
      if str_eq event_type "checkout.session.completed"
      then first_true (Json.get "client_reference_id" obj) (Json.get "user_id" metadata)
      else Json.get "user_id" metadata in
    (non_empty user_id, tier)

-- the payment event of a handled type
abbrev payment : String → String → String → Tier → DomainEvent
payment event_type event_id user tier =
    if str_eq event_type "charge.refunded"
    then payment_refunded user tier event_id
    else payment_succeeded user tier event_id

-- The object of the event, or `none` where the chained `get`s raise `AttributeError`.
event_object : Fields → Option Fields
event_object event = elim (or_empty (Json.get "data" event)) [
  | none ↦ none
  | some d ↦ or_empty (Json.get "object" d)
]

-- `err` is an `AttributeError`; `ok none` is an event that is not acted on.
unfoldable pub route_event : Fields → Result String (Option DomainEvent)
unfolding extract_user_and_tier event_object
route_event event = elim (as_str (Json.get "type" event)) [
  | none ↦ ok none
  | some event_type ↦ elim (as_str (Json.get "id" event)) [
    | none ↦ ok none
    | some event_id ↦
        if is_handled event_type
        then elim (event_object event) [
          | none ↦ err "AttributeError"
          | some obj ↦
              let found = extract_user_and_tier event_type obj in
              elim found.0 [
                | none ↦ ok none
                | some user ↦ elim found.1 [
                  | none ↦ ok none
                  | some tier ↦ ok (some (payment event_type event_id user tier))
                ]
              ]
        ]
        else ok none
  ]
]

-- the dedupe id, the user and the tier of a payment event
abbrev pub payment_id : DomainEvent → Option String
payment_id (payment_succeeded u t id) = some id
payment_id (payment_refunded u t id) = some id
payment_id _ = none

abbrev pub is_refund : DomainEvent → Bool
is_refund (payment_refunded u t id) = true
is_refund _ = false

as_str_inv : (j : Json) (s : String) → as_str j ≡ some s → j ≡ str s
as_str_inv (str x) s h = ap str (some-injective _ _ h)
as_str_inv null s h = cc
as_str_inv j s h = cc

payment_shape :
    (event_type id user : String) (tier : Tier)
    → (payment_id (payment event_type id user tier) ≡ some id)
      × ((is_refund (payment event_type id user tier) ≡ true) ↔ (event_type ≡ "charge.refunded"))
payment_shape event_type id user tier = elim (Bool-cases (str_eq event_type "charge.refunded")) [
  | inl e ↦ rw e (refl, (λ _. (eq_iff event_type "charge.refunded").0 e, λ _. refl))
  | inr e ↦ rw e (
    refl,
    (
      λ h. absurd (false≢true h),
      λ h. absurd (false≢true (sym e ∙ (eq_iff event_type "charge.refunded").1 h)),
    ),
  )
]

found_parts :
    (event : Fields) (event_type event_id : String) (d : DomainEvent)
    → as_str (Json.get "type" event) ≡ some event_type
    → as_str (Json.get "id" event) ≡ some event_id
    → is_handled event_type ≡ true
    → route_event event ≡ ok (some d)
    → (user : String) × (tier : Tier) × (payment event_type event_id user tier ≡ d)
unfolding route_event event_object extract_user_and_tier
found_parts event event_type event_id d typed ided handled h =
    elim (Option-cases (event_object event)) [
      | inl e ↦ absurd (ground arith)
      | inr (obj, e) ↦ elim (Option-cases (extract_user_and_tier event_type obj).0) [
        | inl u ↦ absurd (ground arith)
        | inr (user, u) ↦ elim (Option-cases (extract_user_and_tier event_type obj).1) [
          | inl t ↦ absurd (ground arith)
          | inr (tier, t) ↦ (user, tier, ground arith)
        ]
      ]
    ]

-- what the translation of an event has gone through
translated :
    (event : Fields) (d : DomainEvent)
    → route_event event ≡ ok (some d)
    → (event_type : String) × (event_id : String) × (user : String) × (tier : Tier) × (as_str
          (Json.get "type" event)
        ≡ some event_type)
      × (as_str (Json.get "id" event) ≡ some event_id)
      × (is_handled event_type ≡ true)
      × (payment event_type event_id user tier ≡ d)
unfolding route_event
translated event d h = elim (Option-cases (as_str (Json.get "type" event))) [
  | inl e ↦ absurd (ground arith)
  | inr (event_type, typed) ↦ elim (Option-cases (as_str (Json.get "id" event))) [
    | inl e ↦ absurd (ground arith)
    | inr (event_id, ided) ↦ elim (Bool-cases (is_handled event_type)) [
      | inr e ↦ absurd (ground arith)
      | inl handled ↦
          let (user, tier, same) = found_parts event event_type event_id d typed ided handled h in
          (event_type, event_id, user, tier, typed, ided, handled, same)
    ]
  ]
]

-- An event is translated only if its type is handled and both its type and its id are strings; the
-- domain event carries the Stripe event's id, and it is a refund exactly for `charge.refunded`.
pub route_event_sound :
    (event : Fields) (d : DomainEvent)
    → route_event event ≡ ok (some d)
    → (event_type : String) × (event_id : String) × (Json.get "type" event ≡ str event_type)
      × (Json.get "id" event ≡ str event_id)
      × (is_handled event_type ≡ true)
      × (payment_id d ≡ some event_id)
      × ((is_refund d ≡ true) ↔ (event_type ≡ "charge.refunded"))
route_event_sound event d h =
    let (event_type, event_id, user, tier, typed, ided, handled, same) = translated event d h in
    let shape = payment_shape event_type event_id user tier in
    (
      event_type,
      event_id,
      as_str_inv (Json.get "type" event) event_type typed,
      as_str_inv (Json.get "id" event) event_id ided,
      handled,
      rw same at shape.0,
      rw same at shape.1,
    )
