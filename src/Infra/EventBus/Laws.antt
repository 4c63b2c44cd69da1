-- ===== src/Infra/EventBus/Laws.antt =====
-- backend/infra/eventbus.py: who is notified, in which order, and what a failing handler does.
use chart_solar.Prelude.{
  ◌≡◌, ◌≢◌, refl, ◌∙◌, true, false, List, [], ◌∷◌, ◌++◌, arith, filter, filter-append, not,
  Bool-cases, inl, inr, ◌==◌,
}
use mathlib.Core.List.{append-nil}
use chart_solar.Infra.EventBus.{
  EventClass, base_event, DomainEvent, class_of, class_code, Handler, Registry, subscribe, isolate,
  run_all, run_sync, dispatch, dispatch_async,
}

class_code-injective : (c d : EventClass) → class_code c ≡ class_code d → c ≡ d
class_code-injective c d h = ground arith

codes_self : (c : EventClass) → (class_code c == class_code c) ≡ true
codes_self c = ground arith

own_ne_base : (event : DomainEvent) → (class_code base_event == class_code (class_of event)) ≡ false
own_ne_base event = ground arith

codes_ne : (c d : EventClass) → c ≢ d → (class_code d == class_code c) ≡ false
codes_ne c d ne = elim (Bool-cases (class_code d == class_code c)) [
  | inl e ↦ absurd (ne (class_code-injective c d (ground arith)))
  | inr e ↦ e
]

module _ {S : Type 0} where
  run_all-append :
      (hs ks : List (Handler S)) (event : DomainEvent) (s : S)
      → run_all (hs ++ ks) event s ≡ run_all ks event (run_all hs event s)
  unfolding run_all
  run_all-append [] ks event s = refl
  run_all-append (h ∷ hs) ks event s = run_all-append hs ks event (isolate h event s)

  run_sync-filter :
      (hs : List (Handler S)) (event : DomainEvent) (s : S)
      → run_sync hs event s ≡ run_all (filter (λ h. not h.is_async) hs) event s
  unfolding run_sync run_all
  run_sync-filter [] event s = refl
  run_sync-filter (h ∷ hs) event s =
      ground (arith, run_sync-filter hs event s, run_sync-filter hs event (isolate h event s))

  added_last :
      (hc hb : List (Handler S)) (h : Handler S) (event : DomainEvent) (s : S)
      → run_all ((hc ++ h ∷ []) ++ (hb ++ [])) event s
        ≡ run_all hb event (isolate h event (run_all hc event s))
  added_last hc hb h event s = simp (append-nil, run_all-append) (unfold run_all in refl)

  -- Dispatch to all handlers runs those of the event's own class and then those of the base class,
  -- each in its order of registration; a handler registered last for the event's class runs after
  -- the others of that class and before those of the base.
  pub dispatch_async-subscribe :
      (handlers : Registry S) (h : Handler S) (event : DomainEvent) (s : S)
      → dispatch_async (subscribe (class_of event) h handlers) event s
        ≡ run_all
            (handlers base_event)
            event
            (isolate h event (run_all (handlers (class_of event)) event s))
  unfolding dispatch_async subscribe
  dispatch_async-subscribe handlers h event s =
      rw (codes_self (class_of event), own_ne_base event)
        (added_last (handlers (class_of event)) (handlers base_event) h event s)

  -- A handler registered for a class that is neither the event's own nor the base is never run.
  pub dispatch_async-subscribe_other :
      (handlers : Registry S) (cls : EventClass) (h : Handler S) (event : DomainEvent) (s : S)
      → cls ≢ class_of event
      → cls ≢ base_event
      → dispatch_async (subscribe cls h handlers) event s ≡ dispatch_async handlers event s
  unfolding dispatch_async subscribe
  dispatch_async-subscribe_other handlers cls h event s ne nb =
      rw (codes_ne cls (class_of event) ne, codes_ne cls base_event nb)

  -- Synchronous dispatch is dispatch to the synchronous handlers alone.
  pub dispatch-eq-dispatch_async :
      (handlers : Registry S) (event : DomainEvent) (s : S)
      → dispatch handlers event s
        ≡ dispatch_async (λ c. filter (λ h. not h.is_async) (handlers c)) event s
  unfolding dispatch dispatch_async
  dispatch-eq-dispatch_async handlers event s =
      run_sync-filter (handlers (class_of event) ++ (handlers base_event ++ [])) event s
      ∙ simp (filter-append, append-nil)
