-- ===== src/Infra/EventBus.antt =====
-- backend/infra/eventbus.py: subscription, and dispatch to the handlers of an event's class and of
-- its base. The events are those of backend/domain/events.py.
pub mod Laws
use chart_solar.Prelude.{
  ℕ, String, Bool, true, false, Option, none, some, List, [], ◌∷◌, ◌++◌, Result, ok, err, ◌==◌,
  if◌then◌else◌,
}
use chart_solar.Entitlements.{Tier}
use chart_solar.Stripe.Json.{Fields}

-- the classes; every one but the base derives from the base alone
pub data EventClass : Type 0 where
  base_event forecast_completed_class audit_completed_class payment_succeeded_class
        payment_refunded_class user_deleted_class :
      EventClass

-- The payloads, the float `variance_score` by its `repr`; the shared metadata is used in log lines
-- alone.
pub data DomainEvent : Type 0 where
  forecast_completed : (job_id user_id : String) (result_summary : Fields) → DomainEvent
  audit_completed : (audit_id user_id variance_score : String) → DomainEvent
  payment_succeeded : (user_id : String) (tier : Tier) (stripe_event_id : String) → DomainEvent
  payment_refunded : (user_id : String) (tier : Tier) (stripe_event_id : String) → DomainEvent
  user_deleted : (user_id : String) → DomainEvent

abbrev pub class_of : DomainEvent → EventClass
class_of (forecast_completed _ _ _) = forecast_completed_class
class_of (audit_completed _ _ _) = audit_completed_class
class_of (payment_succeeded _ _ _) = payment_succeeded_class
class_of (payment_refunded _ _ _) = payment_refunded_class
class_of (user_deleted _) = user_deleted_class

-- `type(event).__mro__` without `object`
abbrev pub mro : DomainEvent → List EventClass
mro event = class_of event ∷ base_event ∷ []

abbrev pub class_code : EventClass → ℕ
class_code base_event = 0
class_code forecast_completed_class = 1
class_code audit_completed_class = 2
class_code payment_succeeded_class = 3
class_code payment_refunded_class = 4
class_code user_deleted_class = 5

-- A handler works on the state `S` of the process, and returns or raises; what it wrote before a
-- raise stays written.
pub record Handler (S : Type 0) : Type 0 where
  pub is_async : Bool
  pub run : DomainEvent → S → Result String (Unit {0}) × S

-- `_HANDLERS`, as a function from the class to its handlers in the order of registration
abbrev pub Registry : Type 0 → Type 0
Registry S = EventClass → List (Handler S)

module _ {S : Type 0} where
  -- `clear_subscribers`
  unfoldable pub clear_subscribers : Registry S
  clear_subscribers _ = []

  unfoldable pub subscribe : EventClass → Handler S → Registry S → Registry S
  subscribe cls handler handlers c =
      if class_code c == class_code cls then handlers c ++ handler ∷ [] else handlers c

  -- `_walk`
  pub walk_classes : List EventClass → Registry S → List (Handler S)
  walk_classes [] handlers = []
  walk_classes (c ∷ rest) handlers = handlers c ++ walk_classes rest handlers

  pub walk : DomainEvent → Registry S → List (Handler S)
  unfolding walk_classes
  walk event = walk_classes (mro event)

  -- One handler under `try` / `except Exception`: a raise is logged and dropped.
  pub isolate : Handler S → DomainEvent → S → S
  isolate h event s = (h.run event s).1

  pub run_all : List (Handler S) → DomainEvent → S → S
  unfolding isolate
  run_all [] event s = s
  run_all (h ∷ rest) event s = run_all rest event (isolate h event s)

  -- `dispatch` skips the asynchronous handlers.
  pub run_sync : List (Handler S) → DomainEvent → S → S
  unfolding isolate
  run_sync [] event s = s
  run_sync (h ∷ rest) event s = run_sync rest event (if h.is_async then s else isolate h event s)

  pub dispatch : Registry S → DomainEvent → S → S
  unfolding walk run_sync
  dispatch handlers event = run_sync (walk event handlers) event

  unfoldable pub dispatch_async : Registry S → DomainEvent → S → S
  unfolding walk run_all
  dispatch_async handlers event = run_all (walk event handlers) event
