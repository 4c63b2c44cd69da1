-- ===== src/Infra/Idempotency/Claims.antt =====
-- backend/infra/idempotency.py: who wins an idempotency slot.
use mathlib.Core.Path.{subst}
use chart_solar.Prelude.{
  not, ℕ, ◌+◌, ◌<◌, String, ◌≡◌, inl, inr, refl, sym, true, false, none, some, List, [], ◌∷◌, ◌++◌,
  arith, find, any, any-append, str_eq, eq_refl, Option-cases, Bool-cases,
}
use chart_solar.Sql.{Sql, IsSql, Top, tables, canonical}
use chart_solar.Sql.Rows.{find-append_new}
use chart_solar.Infra.Idempotency.{
  IdempotencyKey, StripeEvent, JsonLib, canonical_request_hash, in_slot, live_in_slot, Request,
  claim_row, lookup_idempotency_response, claim_idempotency_slot, record_stripe_event,
}

-- Two bodies that are not empty and load as the same JSON value have the same hash.
pub canonical_request_hash-loads :
    (lib : JsonLib) (a b : lib.Bytes) (v : lib.Value)
    → lib.is_empty a ≡ false
    → lib.is_empty b ≡ false
    → lib.loads a ≡ some v
    → lib.loads b ≡ some v
    → canonical_request_hash lib a ≡ canonical_request_hash lib b
unfolding canonical_request_hash
canonical_request_hash-loads lib a b v na nb la lb = rw (na, nb, la, lb)

module _ (top : Top) {B : Type 0} where
  -- a live row of the slot is a row of the slot
  live_any :
      (route key : String) (now : ℕ) (rows : List (IdempotencyKey B))
      → any (in_slot route key) rows ≡ false
      → find (live_in_slot route key now) rows ≡ none
  live_any route key now [] h = refl
  live_any route key now (r ∷ rows) h = ground (arith, live_any route key now rows)

  live_in :
      (route key : String) (now : ℕ) (rows : List (IdempotencyKey B)) (r : IdempotencyKey B)
      → find (live_in_slot route key now) rows ≡ some r
      → any (in_slot route key) rows ≡ true
  live_in route key now [] r h = cc
  live_in route key now (x ∷ rows) r h = ground (arith, live_in route key now rows r)

  claim_live :
      (q : Request B) (rows : List (IdempotencyKey B)) (r : IdempotencyKey B)
      → find (live_in_slot q.route q.key q.now) rows ≡ some r
      → claim_idempotency_slot (tables top) (λ t. t) q rows ≡ ((false, r.response_body), rows)
  unfolding claim_idempotency_slot lookup_idempotency_response
  claim_live q rows r h = ground (arith, live_in q.route q.key q.now rows r h)

  claim_free :
      (q : Request B) (rows : List (IdempotencyKey B))
      → any (in_slot q.route q.key) rows ≡ false
      → claim_idempotency_slot (tables top) (λ t. t) q rows
        ≡ ((true, q.response_body), rows ++ claim_row q ∷ [])
  unfolding claim_idempotency_slot
  claim_free q rows h = ground arith

  claim_expired :
      (q : Request B) (rows : List (IdempotencyKey B))
      → any (in_slot q.route q.key) rows ≡ true
      → find (live_in_slot q.route q.key q.now) rows ≡ none
      → claim_idempotency_slot (tables top) (λ t. t) q rows ≡ ((true, q.response_body), rows)
  unfolding claim_idempotency_slot lookup_idempotency_response
  claim_expired q rows h e = ground arith

  -- the row that a claim has put into a free slot is found until it expires
  claimed :
      (q : Request B) (rows : List (IdempotencyKey B)) (now : ℕ)
      → any (in_slot q.route q.key) rows ≡ false
      → now < q.now + q.ttl_seconds
      → find (live_in_slot q.route q.key now) (rows ++ claim_row q ∷ []) ≡ some (claim_row q)
  claimed q rows now free lt =
      find-append_new (live_in_slot q.route q.key now) rows (claim_row q)
        (live_any q.route q.key now rows free) (ground (arith, eq_refl q.route, eq_refl q.key))

module _ (db : Sql) (laws : IsSql db) {B : Type 0} where
  -- A claim that no other connection comes between wins exactly if the slot has no row that is
  -- still live; if it loses, it is handed the body of the live row that was found first.
  pub claim_wins :
      (q : Request B) (rows : List (IdempotencyKey B))
      → let (reply, rows') = claim_idempotency_slot db (λ t. t) q rows in
        reply ≡ elim (find (live_in_slot q.route q.key q.now) rows) [
          | none ↦ (true, q.response_body)
          | some r ↦ (false, r.response_body)
        ]
  claim_wins q rows =
      rw (canonical db laws) (elim (Option-cases (find (live_in_slot q.route q.key q.now) rows)) [
        | inr (r, live) ↦ rw (live, claim_live db.top q rows r live)
        | inl dead ↦ elim (Bool-cases (any (in_slot q.route q.key) rows)) [
          | inl taken ↦ rw (dead, claim_expired db.top q rows taken dead)
          | inr free ↦ rw (dead, claim_free db.top q rows free)
        ]
      ])

  -- The first claim of a slot without a row wins; every claim of the slot after it, whatever its
  -- body and hash, before the first one's lifetime is over, loses, gets the first one's body, and
  -- changes nothing.
  pub claim_deduplicates :
      (q q' : Request B) (rows : List (IdempotencyKey B))
      → any (in_slot q.route q.key) rows ≡ false
      → q'.route ≡ q.route
      → q'.key ≡ q.key
      → q'.now < q.now + q.ttl_seconds
      → let (reply, rows') = claim_idempotency_slot db (λ t. t) q rows in
        (reply ≡ (true, q.response_body))
        × (claim_idempotency_slot db (λ t. t) q' rows' ≡ ((false, q.response_body), rows'))
  claim_deduplicates q q' rows free same_route same_key lt =
      let here = claimed db.top q rows q'.now free lt in
      let there =
        subst
          (λ r. find (live_in_slot r q'.key q'.now) (rows ++ claim_row q ∷ []) ≡ some (claim_row q))
          (sym same_route)
          (subst
            (λ k.
              find (live_in_slot q.route k q'.now) (rows ++ claim_row q ∷ []) ≡ some (claim_row q))
            (sym same_key) here) in
      rw (canonical db laws, claim_free db.top q rows free)
        (refl, claim_live db.top q' (rows ++ claim_row q ∷ []) (claim_row q) there)

  -- Once the row of a slot has expired, the slot deduplicates no more: every claim, however many
  -- came before it, wins with its own body and leaves the expired row in place.
  pub claim_expired_always_wins :
      (q q' : Request B) (rows : List (IdempotencyKey B))
      → any (in_slot q.route q.key) rows ≡ true
      → find (live_in_slot q.route q.key q.now) rows ≡ none
      → q'.route ≡ q.route
      → q'.key ≡ q.key
      → find (live_in_slot q.route q.key q'.now) rows ≡ none
      → let (reply, rows') = claim_idempotency_slot db (λ t. t) q rows in
        (reply ≡ (true, q.response_body))
        × (rows' ≡ rows)
        × (claim_idempotency_slot db (λ t. t) q' rows' ≡ ((true, q'.response_body), rows))
  claim_expired_always_wins q q' rows taken dead same_route same_key dead' =
      rw (canonical db laws, claim_expired db.top q rows taken dead)
        (
          refl,
          refl,
          claim_expired db.top q' rows (rw (same_route, same_key) taken)
              (rw (same_route, same_key) dead'),
        )

module _ (db : Sql) (laws : IsSql db) {P : Type 0} where
  -- An event is recorded exactly if no row has its id; recording it again, with whatever type and
  -- payload, reports a replay and changes nothing.
  pub record_stripe_event_once :
      (id type type' : String) (payload payload' : P) (rows : List (StripeEvent P))
      → let (recorded, rows') = record_stripe_event db id type payload rows in
        (recorded ≡ not (any (λ r. str_eq r.event_id id) rows))
        × (record_stripe_event db id type' payload' rows' ≡ (false, rows'))
  unfolding record_stripe_event
  record_stripe_event_once id type type' payload payload' rows =
      rw (canonical db laws) (elim (Bool-cases (any (λ r. str_eq r.event_id id) rows)) [
        | inl there ↦ ground arith
        | inr absent ↦ ground (
          arith,
          eq_refl id,
          any-append (λ (r : StripeEvent P). str_eq r.event_id id) rows
              (record { event_id = id; event_type = type; payload = payload } ∷ []),
        )
      ])
