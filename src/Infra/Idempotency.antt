-- ===== src/Infra/Idempotency.antt =====
-- backend/infra/idempotency.py over backend/db/models.py: the claim of an idempotency slot, and
-- the dedupe ledger of Stripe events. Times are seconds.
pub mod Claims
use chart_solar.Prelude.{
  ℕ, ◌+◌, String, Bool, true, false, ◌&&◌, Option, none, some, List, ltb, str_eq, if◌then◌else◌,
}
use chart_solar.Sql.{Sql}

-- A row of `idempotency_keys`, with a response body of any type `B`.
pub record IdempotencyKey (B : Type 0) : Type 0 where
  pub key : String
  pub route : String
  pub request_hash : String
  pub response_status : ℕ
  pub response_body : B
  pub expires_at : ℕ

pub record StripeEvent (P : Type 0) : Type 0 where
  pub event_id : String
  pub event_type : String
  pub payload : P

-- What hashing a request takes from the standard library: `sha256_hex` of bytes, `json.loads`
-- (`none` where it raises `JSONDecodeError`) and `json.dumps` with sorted keys and no spaces.
pub record JsonLib : Type 1 where
  pub Bytes : Type 0
  pub Value : Type 0
  pub is_empty : Bytes → Bool
  pub nothing : Bytes
  pub sha256_hex : Bytes → String
  pub loads : Bytes → Option Value
  pub dumps_sorted : Value → Bytes

pub canonical_request_hash : (lib : JsonLib) → lib.Bytes → String
canonical_request_hash lib body =
    if lib.is_empty body then lib.sha256_hex lib.nothing else elim (lib.loads body) [
      | none ↦ lib.sha256_hex body
      | some parsed ↦ lib.sha256_hex (lib.dumps_sorted parsed)
    ]

module _ {B : Type 0} where
  -- the primary key
  abbrev pub in_slot : String → String → IdempotencyKey B → Bool
  in_slot route key r = str_eq r.route route && str_eq r.key key

  abbrev pub live_in_slot : String → String → ℕ → IdempotencyKey B → Bool
  live_in_slot route key now r = in_slot route key r && ltb now r.expires_at

  abbrev pub slot_clash : IdempotencyKey B → IdempotencyKey B → Bool
  slot_clash r = in_slot r.route r.key

-- What a claim is asked for.
pub record Request (B : Type 0) : Type 0 where
  pub route : String
  pub key : String
  pub request_hash : String
  pub response_body : B
  pub response_status : ℕ
  pub ttl_seconds : ℕ
  pub now : ℕ

abbrev pub default_ttl_seconds : ℕ
default_ttl_seconds = 86_400

abbrev pub claim_row : {B : Type 0} → Request B → IdempotencyKey B
claim_row q = record {
  key = q.key;
  route = q.route;
  request_hash = q.request_hash;
  response_status = q.response_status;
  response_body = q.response_body;
  expires_at = q.now + q.ttl_seconds;
}

module _ (db : Sql) {B : Type 0} where
  -- `_lookup`
  pub lookup_row : String → String → ℕ → List (IdempotencyKey B) → Option (IdempotencyKey B)
  lookup_row route key now rows = db.get (live_in_slot route key now) rows

  pub lookup_idempotency_response : String → String → ℕ → List (IdempotencyKey B) → Option B
  unfolding lookup_row
  lookup_idempotency_response route key now rows = elim (lookup_row route key now rows) [
    | none ↦ none
    | some r ↦ some r.response_body
  ]

  -- `(won, body)` and the rows. `others` is what other connections did to the rows between the
  -- commit of the INSERT and the SELECT.
  pub claim_idempotency_slot :
      (List (IdempotencyKey B) → List (IdempotencyKey B))
      → Request B
      → List (IdempotencyKey B)
      → (Bool × B) × List (IdempotencyKey B)
  claim_idempotency_slot others q rows = elim (db.insert slot_clash (claim_row q) rows) [
    | some rows' ↦ ((true, q.response_body), rows')
    | none ↦
        let rows' = others rows in
        elim (lookup_idempotency_response q.route q.key q.now rows') [
          | none ↦ ((true, q.response_body), rows')
          | some existing ↦ ((false, existing), rows')
        ]
  ]

-- the primary key
abbrev pub event_clash : {P : Type 0} → StripeEvent P → StripeEvent P → Bool
event_clash new old = str_eq old.event_id new.event_id

module _ (db : Sql) {P : Type 0} where
  -- True if the event is newly recorded, and the rows.
  pub record_stripe_event : String → String → P → List (StripeEvent P) → Bool × List (StripeEvent P)
  record_stripe_event event_id event_type payload rows =
      let row : StripeEvent P = record {
        event_id = event_id;
        event_type = event_type;
        payload = payload;
      } in
      elim (db.insert event_clash row rows) [ none ↦ (false, rows) | some rows' ↦ (true, rows') ]
