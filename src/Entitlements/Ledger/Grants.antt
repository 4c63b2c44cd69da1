-- ===== src/Entitlements/Ledger/Grants.antt =====
-- backend/services/entitlements_grants.py: what a Stripe event can do to the ledger, and the tier
-- that the ledger gives.
use chart_solar.Prelude.{
  ℕ, ◌≤◌, String, ◌≡◌, ◌⊎◌, inl, inr, refl, Bool, true, false, Option, none, some, List, [], ◌∷◌,
  arith, any, count, count-append, All, ◌==◌, eq_iff, Option-cases, Bool-cases,
}
use mathlib.Core.Bool.{false≢true}
use chart_solar.Sql.{Sql, IsSql, IsRow, tables, canonical, update_all}
use chart_solar.Entitlements.{Tier, free, tier_rank}
use chart_solar.Entitlements.Ledger.{
  UserEntitlement, is_active_of, is_active_grant, revoke_mark, grant_tier, revoke_by_event,
  tier_for_user,
}
use chart_solar.Entitlements.Ledger.Laws.{
  row_any, revoked_clash, active_other, granted_with, count-revoke, no_clash, grant_inv,
  grant_replay, grant_recorded, grant-false, revoke-false, revoke_inv, revoke_clashes, new_row,
}

-- A call of the ledger's operations.
pub data Call : Type 0 where
  grant : String → Tier → String → ℕ → ℕ → Call
  revoke : String → Tier → String → ℕ → Call

-- At most one row was granted by each event.
abbrev pub IsLedger : List UserEntitlement → Type 0
IsLedger rows = (e : String) → count (granted_with e) rows ≤ 1

-- where no row matches, every bound on the rows that match holds
none_matches :
    {Row : Type 0} (p : Row → Bool) (rank : Row → ℕ) (n : ℕ) (rows : List Row)
    → any p rows ≡ false
    → All (λ r. p r ≡ true → rank r ≤ n) rows
none_matches p rank n [] h = tt
none_matches p rank n (r ∷ rows) h =
    (λ e. absurd (false≢true (ground arith)), none_matches p rank n rows (ground arith))

module _ (db : Sql) (laws : IsSql db) (parse_uuid : String → Option ℕ) (is_user : ℕ → Bool) where
  -- Once an event has granted a tier, no later call with the same event grants anything, whoever
  -- the user and whatever the tier: it returns false and leaves the rows as they are.
  pub grant_once :
      (u u' event : String) (tier tier' : Tier) (id id' now now' : ℕ) (rows : List UserEntitlement)
      → (grant_tier db parse_uuid is_user u tier event id now rows).0 ≡ true
      → let rows' = (grant_tier db parse_uuid is_user u tier event id now rows).1 in
        grant_tier db parse_uuid is_user u' tier' event id' now' rows' ≡ (false, rows')
  grant_once u u' event tier tier' id id' now now' rows = rw (canonical db laws) λ h.
      grant_replay db.top parse_uuid is_user u' event tier' id' now'
        (grant_tier (tables db.top) parse_uuid is_user u tier event id now rows).1
        (grant_recorded db.top parse_uuid is_user u event tier id now rows h)

  -- Once an event has revoked a grant, no later call with the same event revokes another one, for
  -- any user and tier: it returns false and leaves the rows as they are.
  pub revoke_once :
      (u u' event : String) (tier tier' : Tier) (now now' : ℕ) (rows : List UserEntitlement)
      → (revoke_by_event db parse_uuid is_user u tier event now rows).0 ≡ true
      → let rows' = (revoke_by_event db parse_uuid is_user u tier event now rows).1 in
        revoke_by_event db parse_uuid is_user u' tier' event now' rows' ≡ (false, rows')
  revoke_once u u' event tier tier' now now' rows = rw (canonical db laws) λ h.
      let (user, c, parsed, found, updated) =
        revoke_inv db.top parse_uuid is_user u event tier now rows h in
      let (here, active, latest) =
        laws.top_some (is_active_grant user tier) (λ r. r.granted_at) rows c found in
      let changed = update_all (λ r. r.id == c.id) (revoke_mark now event) rows in
      rw updated (
        revoke_clashes db.top parse_uuid is_user u' event tier' now' changed λ user' c' found'.
          let (here', active', latest') =
            laws.top_some (is_active_grant user' tier') (λ r. r.granted_at) changed c' found' in
          revoked_clash c.id c'.id now event rows
            (row_any (λ r. r.id == c.id) rows c here (ground arith))
            (active_other c.id user' now event tier' rows c' here' active'))

  no_grant :
      (u : String) (user : ℕ) (rows : List UserEntitlement)
      → parse_uuid u ≡ some user
      → db.top UserEntitlement (is_active_of user) (λ r. tier_rank r.tier) rows ≡ none
      → tier_for_user db parse_uuid is_user u rows ≡ free
  unfolding tier_for_user
  no_grant u user rows parsed absent = ground arith

  best_grant :
      (u : String) (user : ℕ) (rows : List UserEntitlement) (r : UserEntitlement)
      → parse_uuid u ≡ some user
      → db.top UserEntitlement (is_active_of user) (λ r. tier_rank r.tier) rows ≡ some r
      → tier_for_user db parse_uuid is_user u rows ≡ r.tier
  unfolding tier_for_user
  best_grant u user rows r parsed found = ground arith

  -- The tier of a user ranks at least as high as every active grant of the user, and it is the tier
  -- of an active grant, or the free tier if there is none.
  pub tier_for_user_highest :
      (u : String) (user : ℕ) (rows : List UserEntitlement)
      → parse_uuid u ≡ some user
      → let tier = tier_for_user db parse_uuid is_user u rows in
        All (λ r. is_active_of user r ≡ true → tier_rank r.tier ≤ tier_rank tier) rows
        × (((tier ≡ free) × (any (is_active_of user) rows ≡ false))
            ⊎ ((r : UserEntitlement) × IsRow r rows
                × (is_active_of user r ≡ true)
                × (r.tier ≡ tier)))
  tier_for_user_highest u user rows parsed =
      elim (Option-cases
        (db.top UserEntitlement (is_active_of user) (λ r. tier_rank r.tier) rows)) [
          | inl absent ↦
              let nobody = laws.top_none (is_active_of user) (λ r. tier_rank r.tier) rows absent in
              rw (no_grant u user rows parsed absent) (
                none_matches (is_active_of user) (λ r. tier_rank r.tier) 0 rows nobody,
                inl (refl, nobody),
              )
          | inr (r, found) ↦
              let (here, active, highest) =
                laws.top_some (is_active_of user) (λ r. tier_rank r.tier) rows r found in
              rw (best_grant u user rows r parsed found) (highest, inr (r, here, active, refl))
        ]

  pub apply : Call → List UserEntitlement → List UserEntitlement
  apply (grant u tier event id now) rows =
      (grant_tier db parse_uuid is_user u tier event id now rows).1
  apply (revoke u tier event now) rows =
      (revoke_by_event db parse_uuid is_user u tier event now rows).1

  pub apply_all : List Call → List UserEntitlement → List UserEntitlement
  unfolding apply
  apply_all [] rows = rows
  apply_all (c ∷ calls) rows = apply_all calls (apply c rows)

  grant-IsLedger :
      (u event : String) (tier : Tier) (id now : ℕ) (rows : List UserEntitlement)
      → IsLedger rows
      → IsLedger (grant_tier db parse_uuid is_user u tier event id now rows).1
  grant-IsLedger u event tier id now rows h e =
      rw (canonical db laws)
        (elim (Bool-cases
          (grant_tier (tables db.top) parse_uuid is_user u tier event id now rows).0) [
            | inr refused ↦
                rw (grant-false db.top parse_uuid is_user u event tier id now rows refused) (h e)
            | inl granted ↦
                let (user, parsed, known, fresh, added) =
                  grant_inv db.top parse_uuid is_user u event tier id now rows granted in
                let none_yet =
                  no_clash (new_row db.top parse_uuid is_user user tier event id now) rows fresh in
                rw (added, count-append) (ground (arith, none_yet, h e, eq_iff event e))
          ])

  revoke-IsLedger :
      (u event : String) (tier : Tier) (now : ℕ) (rows : List UserEntitlement)
      → IsLedger rows
      → IsLedger (revoke_by_event db parse_uuid is_user u tier event now rows).1
  revoke-IsLedger u event tier now rows h e =
      rw (canonical db laws)
        (elim (Bool-cases
          (revoke_by_event (tables db.top) parse_uuid is_user u tier event now rows).0) [
            | inr refused ↦
                rw (revoke-false db.top parse_uuid is_user u event tier now rows refused) (h e)
            | inl revoked ↦
                let (user, c, parsed, found, updated) =
                  revoke_inv db.top parse_uuid is_user u event tier now rows revoked in
                rw (updated, count-revoke c.id now event e rows) (h e)
          ])

  -- Whatever grants and revocations are called in whatever order, from rows in which no event
  -- granted twice, each event has granted at most one row.
  pub apply_all-IsLedger :
      (calls : List Call) (rows : List UserEntitlement)
      → IsLedger rows
      → IsLedger (apply_all calls rows)
  unfolding apply_all
  apply_all-IsLedger [] rows h = h
  apply_all-IsLedger (grant u tier event id now ∷ calls) rows h =
      apply_all-IsLedger calls (grant_tier db parse_uuid is_user u tier event id now rows).1
        (grant-IsLedger u event tier id now rows h)
  apply_all-IsLedger (revoke u tier event now ∷ calls) rows h =
      apply_all-IsLedger calls (revoke_by_event db parse_uuid is_user u tier event now rows).1
        (revoke-IsLedger u event tier now rows h)
