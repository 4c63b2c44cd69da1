-- ===== src/Entitlements/Ledger/Laws.antt =====
-- backend/services/entitlements_grants.py: what a grant and a revocation leave of the rows.
use mathlib.Core.Path.{subst}
use chart_solar.Prelude.{
  ℕ, String, ◌≡◌, ◌≢◌, inl, inr, refl, sym, ap, Bool, true, false, Option, none, some, List, [],
  ◌∷◌, ◌++◌, arith, is_some, any, count, any-append, All, str_eq, ◌==◌, eq_refl, Option-cases,
  Bool-cases,
}
use chart_solar.Sql.{Sql, Top, IsRow, tables, update_all}
use chart_solar.Entitlements.{Tier}
use chart_solar.Entitlements.Ledger.{
  UserEntitlement, grant_clash, is_active_grant, revoke_clash, revoke_mark, grant_tier,
  revoke_by_event,
}

-- `any` sees a row that is in the table.
pub row_any :
    {Row : Type 0} (p : Row → Bool) (t : List Row) (r : Row)
    → IsRow r t
    → p r ≡ true
    → any p t ≡ true
row_any p [] r h e = absurd h
row_any p (x ∷ t) r (inl same) e = ground (arith, ap p same)
row_any p (x ∷ t) r (inr later) e = ground (arith, row_any p t r later e)

pub row_all : {Row : Type 0} (P : Row → Type 0) (t : List Row) (r : Row) → IsRow r t → All P t → P r
row_all P [] r h a = absurd h
row_all P (x ∷ t) r (inl same) a = subst P (sym same) a.0
row_all P (x ∷ t) r (inr later) a = row_all P t r later a.1

-- After the update the revoked rows carry the event, so any other row clashes with it.
pub revoked_clash :
    (id other now : ℕ) (event : String) (rows : List UserEntitlement)
    → any (λ r. r.id == id) rows ≡ true
    → other ≢ id
    → any (revoke_clash other event) (update_all (λ r. r.id == id) (revoke_mark now event) rows)
      ≡ true
revoked_clash id other now event [] h ne = cc
revoked_clash id other now event (r ∷ rows) h ne =
    ground (arith, revoked_clash id other now event rows, eq_refl event)

-- A row that is active after the update has another id.
pub active_other :
    (id user now : ℕ) (event : String) (tier : Tier) (rows : List UserEntitlement)
    (c : UserEntitlement)
    → IsRow c (update_all (λ r. r.id == id) (revoke_mark now event) rows)
    → is_active_grant user tier c ≡ true
    → c.id ≢ id
active_other id user now event tier [] c h act = absurd h
active_other id user now event tier (r ∷ rows) c (inl same) act = ground (
  arith,
  ap (λ (x : UserEntitlement). x.id) same,
  ap (λ (x : UserEntitlement). is_some x.revoked_at) same,
)
active_other id user now event tier (r ∷ rows) c (inr later) act =
    active_other id user now event tier rows c later act

abbrev pub granted_with : String → UserEntitlement → Bool
granted_with event r = str_eq r.granted_by event

-- A revocation changes no grant's event.
pub count-revoke :
    (id now : ℕ) (event e : String) (rows : List UserEntitlement)
    → count (granted_with e) (update_all (λ r. r.id == id) (revoke_mark now event) rows)
      ≡ count (granted_with e) rows
count-revoke id now event e [] = refl
count-revoke id now event e (r ∷ rows) = ground (arith, count-revoke id now event e rows)

pub no_clash :
    (new : UserEntitlement) (rows : List UserEntitlement)
    → any (grant_clash new) rows ≡ false
    → count (granted_with new.granted_by) rows ≡ 0
no_clash new [] h = refl
no_clash new (r ∷ rows) h = ground (arith, no_clash new rows)

module _ (top : Top) (parse_uuid : String → Option ℕ) (is_user : ℕ → Bool) where
  abbrev sql : Sql
  sql = tables top

  abbrev grant : String → Tier → String → ℕ → ℕ → List UserEntitlement → Bool × List UserEntitlement
  grant = grant_tier sql parse_uuid is_user

  abbrev revoke : String → Tier → String → ℕ → List UserEntitlement → Bool × List UserEntitlement
  revoke = revoke_by_event sql parse_uuid is_user

  abbrev pub new_row : ℕ → Tier → String → ℕ → ℕ → UserEntitlement
  new_row user tier event id now = record {
    id = id;
    user_id = user;
    tier = tier;
    granted_by = event;
    granted_at = now;
    revoked_by = none;
    revoked_at = none;
  }

  pub grant_inv :
      (u event : String) (tier : Tier) (id now : ℕ) (rows : List UserEntitlement)
      → (grant u tier event id now rows).0 ≡ true
      → (user : ℕ) × (parse_uuid u ≡ some user)
        × (is_user user ≡ true)
        × (any (grant_clash (new_row user tier event id now)) rows ≡ false)
        × ((grant u tier event id now rows).1 ≡ rows ++ new_row user tier event id now ∷ [])
  unfolding grant_tier
  grant_inv u event tier id now rows h = elim (Option-cases (parse_uuid u)) [
    | inl bad ↦ ground arith
    | inr (user, e) ↦ elim (Bool-cases (any (grant_clash (new_row user tier event id now)) rows)) [
      | inl clash ↦ ground arith
      | inr fresh ↦ (user, e, ground arith, fresh, ground arith)
    ]
  ]

  any_clash :
      (user id now : ℕ) (tier : Tier) (event : String) (rows : List UserEntitlement)
      → any (granted_with event) rows ≡ true
      → any (grant_clash (new_row user tier event id now)) rows ≡ true
  any_clash user id now tier event [] h = cc
  any_clash user id now tier event (r ∷ rows) h =
      ground (arith, any_clash user id now tier event rows)

  pub grant_replay :
      (u event : String) (tier : Tier) (id now : ℕ) (rows : List UserEntitlement)
      → any (granted_with event) rows ≡ true
      → grant u tier event id now rows ≡ (false, rows)
  unfolding grant_tier
  grant_replay u event tier id now rows h = elim (Option-cases (parse_uuid u)) [
    | inl bad ↦ ground arith
    | inr (user, e) ↦ ground (arith, any_clash user id now tier event rows)
  ]

  pub grant_recorded :
      (u event : String) (tier : Tier) (id now : ℕ) (rows : List UserEntitlement)
      → (grant u tier event id now rows).0 ≡ true
      → any (granted_with event) (grant u tier event id now rows).1 ≡ true
  grant_recorded u event tier id now rows h =
      let (user, parsed, known, fresh, added) = grant_inv u event tier id now rows h in
      rw (added, any-append) (ground (arith, eq_refl event))

  pub revoke_inv :
      (u event : String) (tier : Tier) (now : ℕ) (rows : List UserEntitlement)
      → (revoke u tier event now rows).0 ≡ true
      → (user : ℕ) × (c : UserEntitlement) × (parse_uuid u ≡ some user)
        × (top UserEntitlement (is_active_grant user tier) (λ r. r.granted_at) rows ≡ some c)
        × ((revoke u tier event now rows).1
            ≡ update_all (λ r. r.id == c.id) (revoke_mark now event) rows)
  unfolding revoke_by_event
  revoke_inv u event tier now rows h = elim (Option-cases (parse_uuid u)) [
    | inl bad ↦ ground arith
    | inr (user, e) ↦
        elim (Option-cases
          (top UserEntitlement (is_active_grant user tier) (λ r. r.granted_at) rows)) [
            | inl absent ↦ ground arith
            | inr (c, found) ↦ (user, c, e, found, ground arith)
          ]
  ]

  pub revoke_clashes :
      (u event : String) (tier : Tier) (now : ℕ) (rows : List UserEntitlement)
      → ((user : ℕ) (c : UserEntitlement)
          → top UserEntitlement (is_active_grant user tier) (λ r. r.granted_at) rows ≡ some c
          → any (revoke_clash c.id event) rows ≡ true)
      → revoke u tier event now rows ≡ (false, rows)
  unfolding revoke_by_event
  revoke_clashes u event tier now rows clash = elim (Option-cases (parse_uuid u)) [
    | inl bad ↦ ground arith
    | inr (user, e) ↦
        elim (Option-cases
          (top UserEntitlement (is_active_grant user tier) (λ r. r.granted_at) rows)) [
            | inl absent ↦ ground arith
            | inr (c, found) ↦ ground (arith, clash user c found)
          ]
  ]

  pub grant-false :
      (u event : String) (tier : Tier) (id now : ℕ) (rows : List UserEntitlement)
      → (grant u tier event id now rows).0 ≡ false
      → (grant u tier event id now rows).1 ≡ rows
  unfolding grant_tier
  grant-false u event tier id now rows h = elim (Option-cases (parse_uuid u)) [
    | inl bad ↦ ground arith
    | inr (user, e) ↦ ground arith
  ]

  pub revoke-false :
      (u event : String) (tier : Tier) (now : ℕ) (rows : List UserEntitlement)
      → (revoke u tier event now rows).0 ≡ false
      → (revoke u tier event now rows).1 ≡ rows
  unfolding revoke_by_event
  revoke-false u event tier now rows h = elim (Option-cases (parse_uuid u)) [
    | inl bad ↦ ground arith
    | inr (user, e) ↦
        elim (Option-cases
          (top UserEntitlement (is_active_grant user tier) (λ r. r.granted_at) rows)) [
            | inl absent ↦ ground arith
            | inr (c, found) ↦ ground arith
          ]
  ]
