-- ===== src/Entitlements/Ledger.antt =====
-- backend/services/entitlements_grants.py over backend/db/entitlement_models.py: the rows of
-- `user_entitlements`, their grant, their revocation, and the tier they give.
mod Laws
pub mod Grants
use chart_solar.Prelude.{
  ℕ, String, Bool, true, false, not, ◌&&◌, ◌||◌, Option, none, some, List, any, ◌==◌, str_eq,
  is_some, if◌then◌else◌,
}
use chart_solar.Sql.{Sql}
use chart_solar.Entitlements.{Tier, free, tier_rank, tier_value}

pub record UserEntitlement : Type 0 where
  pub id : ℕ
  pub user_id : ℕ
  pub tier : Tier
  pub granted_by : String
  pub granted_at : ℕ
  pub revoked_by : Option String
  pub revoked_at : Option ℕ

-- `tier.value == tier.value`, as the column's text is compared
abbrev pub tier_eq : Tier → Tier → Bool
tier_eq a b = str_eq (tier_value a) (tier_value b)

-- the unique index on `granted_by_event_id`, and the primary key
abbrev pub grant_clash : UserEntitlement → UserEntitlement → Bool
grant_clash new old = str_eq old.granted_by new.granted_by || old.id == new.id

abbrev pub is_active_of : ℕ → UserEntitlement → Bool
is_active_of user r = r.user_id == user && not (is_some r.revoked_at)

abbrev pub is_active_grant : ℕ → Tier → UserEntitlement → Bool
is_active_grant user tier r = is_active_of user r && tier_eq r.tier tier

abbrev pub revoked_with : String → UserEntitlement → Bool
revoked_with event r = elim r.revoked_by [ none ↦ false | some e ↦ str_eq e event ]

-- another row than `id` holds the value in the unique index on `revoked_by_event_id`
abbrev pub revoke_clash : ℕ → String → UserEntitlement → Bool
revoke_clash id event r = not (r.id == id) && revoked_with event r

abbrev pub revoke_mark : ℕ → String → UserEntitlement → UserEntitlement
revoke_mark now event r = record r { revoked_at = some now; revoked_by = some event }

-- `parse_uuid` is `uuid.UUID(user_id)` of the standard library, `none` where it raises; `is_user`
-- says whether the `users` table holds the id, which is the foreign key's test.
module _ (db : Sql) (parse_uuid : String → Option ℕ) (is_user : ℕ → Bool) where
  -- True if a row was inserted, and the rows.
  unfoldable pub grant_tier :
      String → Tier → String → ℕ → ℕ → List UserEntitlement → Bool × List UserEntitlement
  grant_tier user_id tier event fresh_id now rows = elim (parse_uuid user_id) [
    | none ↦ (false, rows)
    | some user ↦
        let row : UserEntitlement = record {
          id = fresh_id;
          user_id = user;
          tier = tier;
          granted_by = event;
          granted_at = now;
          revoked_by = none;
          revoked_at = none;
        } in
        elim (db.insert grant_clash row rows) [
          | none ↦ (false, rows)
          | some rows' ↦ if is_user user then (true, rows') else (false, rows)
        ]
  ]

  -- True if an active grant was revoked, and the rows. The candidate is the latest active grant of
  -- the tier; without one the UPDATE matches no row.
  unfoldable pub revoke_by_event :
      String → Tier → String → ℕ → List UserEntitlement → Bool × List UserEntitlement
  revoke_by_event user_id tier event now rows = elim (parse_uuid user_id) [
    | none ↦ (false, rows)
    | some user ↦
        elim (db.top UserEntitlement (is_active_grant user tier) (λ r. r.granted_at) rows) [
          | none ↦ (false, rows)
          | some candidate ↦
              if any (revoke_clash candidate.id event) rows
              then (false, rows)
              else (true, (db.update (λ r. r.id == candidate.id) (revoke_mark now event) rows).1)
        ]
  ]

  -- The highest active grant, or the free tier.
  unfoldable pub tier_for_user : String → List UserEntitlement → Tier
  tier_for_user user_id rows = elim (parse_uuid user_id) [
    | none ↦ free
    | some user ↦ elim (db.top UserEntitlement (is_active_of user) (λ r. tier_rank r.tier) rows) [
      | none ↦ free
      | some r ↦ r.tier
    ]
  ]
