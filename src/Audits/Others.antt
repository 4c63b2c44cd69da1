-- ===== src/Audits/Others.antt =====
-- backend/services/audit_service.py: what the operations of other users leave of a user's rows.
use chart_solar.Prelude.{
  ℕ, String, ◌≡◌, ◌≢◌, refl, ◌∙◌, sym, ap, false, ◌&&◌, Option, some, List, [], ◌∷◌, filter, All,
  arith, Option-cases, Bool-cases, inl, inr, ltb, count, ◌==◌,
}
use mathlib.Core.Path.{subst}
use chart_solar.Sql.{Sql, IsSql, Top, tables, canonical}
use chart_solar.Audits.{AuditDb, owned_by, linked_to, unlink, vault_of, flips}
use chart_solar.Audits.Sound.{
  Request, caller_of, delete_audit, delete_pii, set_opt_out, perform, perform_all, after_refused,
  after_delete, after_purge, after_opt_out,
}
use chart_solar.Audits.Kept.{
  foreign, IsKeyed, IsKept, none-drop, any-update, deleted-IsKept, purged-IsKept, opted_out-IsKept,
  kept, kept_trans,
}

-- What a step of another's leaves: the user's rows, and ids that are a key.
abbrev IsStep : {F : Type 0} → ℕ → AuditDb F → AuditDb F → Type 0
IsStep user st st' = IsKept user st st' × IsKeyed user st'.audits

module _ (top : Top) (parse_uuid : String → Option ℕ) {F : Type 0} (user other : ℕ)
    (differ : (other == user) ≡ false) where
  performed-IsStep :
      (r : Request) (st : AuditDb F)
      → parse_uuid (caller_of r) ≡ some other
      → IsKeyed user st.audits
      → IsStep user st (perform (tables top) parse_uuid r st)
  performed-IsStep (delete_audit id user_id) st e keyed =
      let h = deleted-IsKept user other differ st keyed id in
      subst (IsStep user st) (sym (after_delete top parse_uuid id other user_id st e)) (
        h,
        λ i some_owned.
            none-drop (foreign user i) (owned_by id other) st.audits
              (keyed i (sym (h.owned i) ∙ some_owned)),
      )
  performed-IsStep (delete_pii user_id) st e keyed =
      let h = purged-IsKept user other differ st keyed in
      let gone = filter (vault_of other) st.vaults in
      subst (IsStep user st) (sym (after_purge top parse_uuid other user_id st e)) (
        h,
        λ i some_owned.
            any-update (foreign user i) (linked_to gone) unlink st.audits (λ a. refl)
            ∙ keyed i (sym (h.owned i) ∙ some_owned),
      )
  performed-IsStep (set_opt_out user_id opt_out) st e keyed =
      subst (IsStep user st) (sym (after_opt_out top parse_uuid other user_id opt_out st e)) (
        opted_out-IsKept user other differ st keyed
            (ltb 0 (count (flips other opt_out) st.users) && opt_out) opt_out,
        keyed,
      )

-- No request is the user's.
abbrev pub AreOthers : (String → Option ℕ) → ℕ → List Request → Type 0
AreOthers parse_uuid user rs = All (λ r. parse_uuid (caller_of r) ≢ some user) rs

module _ (db : Sql) (laws : IsSql db) (parse_uuid : String → Option ℕ) {F : Type 0} where
  perform-IsStep :
      (user : ℕ) (r : Request) (st : AuditDb F)
      → parse_uuid (caller_of r) ≢ some user
      → IsKeyed user st.audits
      → IsStep user st (perform db parse_uuid r st)
  perform-IsStep user r st ne keyed =
      rw (canonical db laws) (elim (Option-cases (parse_uuid (caller_of r))) [
        | inl e ↦
            subst (IsStep user st) (sym (after_refused db.top parse_uuid (caller_of r) r st e refl))
              (kept user st, keyed)
        | inr (other, e) ↦ elim (Bool-cases (other == user)) [
          | inl same ↦ absurd (ne (e ∙ ap some (ground (arith, same))))
          | inr differ ↦ performed-IsStep db.top parse_uuid user other differ r st e keyed
        ]
      ])

  -- Whatever deletes, purges and opt-outs run, in whatever order, by callers none of whom is the
  -- user, from tables in which no other audit has the id of an audit of the user: the user's
  -- account, vault and audits, and the quotes of these audits, are what they were, but for the
  -- audits' links to the vault.
  pub perform_all-IsKept :
      (user : ℕ) (rs : List Request) (st : AuditDb F)
      → AreOthers parse_uuid user rs
      → IsKeyed user st.audits
      → IsKept user st (perform_all db parse_uuid rs st)
  perform_all-IsKept user [] st others keyed = kept user st
  perform_all-IsKept user (r ∷ rs) st others keyed =
      let st' = perform db parse_uuid r st in
      let (h, keyed') = perform-IsStep user r st others.0 keyed in
      kept_trans user st st' (perform_all db parse_uuid rs st') h
        (perform_all-IsKept user rs st' others.1 keyed')
