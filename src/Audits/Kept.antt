-- ===== src/Audits/Kept.antt =====
-- backend/services/audit_service.py: the rows of a user, and the one operation of another that runs.
use chart_solar.Prelude.{
  ℕ, ◌≡◌, refl, ◌∙◌, sym, ap, Bool, true, false, not, ◌&&◌, List, [], ◌∷◌, any, filter, map, arith,
  Option-cases, Bool-cases, inl, inr, ◌==◌, if◌then◌else◌,
}
use chart_solar.Sql.{update_all, drop_all}
use chart_solar.Auth.{User}
use chart_solar.Audits
use chart_solar.Audits.{
  Audit, UserPiiVault, InstallerQuote, AuditDb, is_of, owned_by, quote_of, linked_to, unlink,
  vault_of, flips, aggregated, opt_out_quote,
}
use chart_solar.Audits.Deletes.{without_pii}

-- an audit of that id of somebody else, or of nobody
abbrev pub foreign : ℕ → ℕ → Audit → Bool
foreign user id a = a.id == id && not (is_of user a)

-- The quote is of an audit of the user.
abbrev pub quote_for : {F : Type 0} → ℕ → List Audit → InstallerQuote F → Bool
quote_for user audits q = any (owned_by q.audit_id user) audits

abbrev pub row_of_user : ℕ → User → Bool
row_of_user user u = u.id == user

-- No audit has the id of an audit of the user, but that user's: the ids are a key.
abbrev pub IsKeyed : ℕ → List Audit → Type 0
IsKeyed user audits =
    (id : ℕ) → any (owned_by id user) audits ≡ true → any (foreign user id) audits ≡ false

-- The rows of the user are in `st'` what they are in `st`: the account, the vault, the audits but
-- for their links to the vault, and the quotes of these audits.
pub record IsKept {F : Type 0} (user : ℕ) (st st' : AuditDb F) : Type 0 where
  pub account : filter (row_of_user user) st'.users ≡ filter (row_of_user user) st.users
  pub vault : filter (vault_of user) st'.vaults ≡ filter (vault_of user) st.vaults
  pub audits :
      map unlink (filter (is_of user) st'.audits) ≡ map unlink (filter (is_of user) st.audits)
  pub owned : (id : ℕ) → any (owned_by id user) st'.audits ≡ any (owned_by id user) st.audits
  pub quotes :
      filter (quote_for user st.audits) st'.quotes ≡ filter (quote_for user st.audits) st.quotes

-- rows that no filter keeps may go, and rows that it drops may change
module _ {Row : Type 0} (keep : Row → Bool) where
  filter-drop :
      (p : Row → Bool) (t : List Row)
      → ((x : Row) → p x ≡ true → keep x ≡ false)
      → filter keep (drop_all p t) ≡ filter keep t
  filter-drop p [] h = refl
  filter-drop p (x ∷ t) h = elim (Bool-cases (p x)) [
    | inl e ↦ ground (arith, h x e, filter-drop p t h)
    | inr e ↦ ground (arith, filter-drop p t h)
  ]

  filter-update :
      (p : Row → Bool) (g : Row → Row) (t : List Row)
      → ((x : Row) → p x ≡ true → keep x ≡ false)
      → ((x : Row) → p x ≡ true → keep (g x) ≡ false)
      → filter keep (update_all p g t) ≡ filter keep t
  filter-update p g [] h k = refl
  filter-update p g (x ∷ t) h k = elim (Bool-cases (p x)) [
    | inl e ↦ ground (arith, h x e, k x e, filter-update p g t h k)
    | inr e ↦ ground (arith, filter-update p g t h k)
  ]

  any-drop :
      (p : Row → Bool) (t : List Row)
      → ((x : Row) → p x ≡ true → keep x ≡ false)
      → any keep (drop_all p t) ≡ any keep t
  any-drop p [] h = refl
  any-drop p (x ∷ t) h = elim (Bool-cases (p x)) [
    | inl e ↦ ground (arith, h x e, any-drop p t h)
    | inr e ↦ ground (arith, any-drop p t h)
  ]

  pub none-drop :
      (p : Row → Bool) (t : List Row) → any keep t ≡ false → any keep (drop_all p t) ≡ false
  none-drop p [] h = refl
  none-drop p (x ∷ t) h = ground (arith, none-drop p t)

  pub any-update :
      (p : Row → Bool) (g : Row → Row) (t : List Row)
      → ((x : Row) → keep (g x) ≡ keep x)
      → any keep (update_all p g t) ≡ any keep t
  any-update p g [] h = refl
  any-update p g (x ∷ t) h = ground (arith, h x, any-update p g t h)

module _ (user other : ℕ) (differ : (other == user) ≡ false) where
  other_audit : (a : Audit) → is_of other a ≡ true → is_of user a ≡ false
  other_audit a h = elim (Option-cases a.user_id) [
    | inl e ↦ ground (arith, e)
    | inr (u, e) ↦ ground (arith, e, differ)
  ]

  owned_is_foreign :
      (id i : ℕ) (a : Audit) → owned_by id other a ≡ true → (foreign user i a) ≡ (a.id == i)
  owned_is_foreign id i a h = ground (arith, other_audit a (ground arith))

  unlink-audits :
      (gone : List UserPiiVault) (audits : List Audit)
      → map unlink (filter (is_of user) (update_all (linked_to gone) unlink audits))
        ≡ map unlink (filter (is_of user) audits)
  unlink-audits gone [] = refl
  unlink-audits gone (a ∷ audits) = ground (arith, unlink-audits gone audits)

  -- a quote of the user's is of no audit of another's
  quote_of-foreign :
      (p : Audit → Bool) (audits : List Audit) {F : Type 0} (q : InstallerQuote F)
      → ((a : Audit) → p a ≡ true → is_of other a ≡ true)
      → any (foreign user q.audit_id) audits ≡ false
      → quote_of (filter p audits) q ≡ false
  quote_of-foreign p [] q h k = refl
  quote_of-foreign p (a ∷ audits) q h k = elim (Bool-cases (p a)) [
    | inl e ↦ ground (arith, other_audit a (h a e), quote_of-foreign p audits q h)
    | inr e ↦ ground (arith, quote_of-foreign p audits q h)
  ]

  not_quoted :
      (p : Audit → Bool) (audits : List Audit) {F : Type 0} (q : InstallerQuote F)
      → ((a : Audit) → p a ≡ true → is_of other a ≡ true)
      → IsKeyed user audits
      → quote_of (filter p audits) q ≡ true
      → quote_for user audits q ≡ false
  not_quoted p audits q h keyed k = elim (Bool-cases (quote_for user audits q)) [
    | inl e ↦ absurd (ground (arith, quote_of-foreign p audits q h (keyed q.audit_id e)))
    | inr e ↦ e
  ]

module _ {F : Type 0} (user other : ℕ) (differ : (other == user) ≡ false) (st : AuditDb F)
    (keyed : IsKeyed user st.audits) where
  pub deleted-IsKept :
      (id : ℕ)
      → IsKept user st (record st {
        audits = drop_all (owned_by id other) st.audits;
        quotes = drop_all (quote_of (filter (owned_by id other) st.audits)) st.quotes;
      })
  deleted-IsKept id =
      let theirs : (a : Audit) → owned_by id other a ≡ true → is_of other a ≡ true =
        λ a h. ground arith in
      let mine : (a : Audit) → owned_by id other a ≡ true → is_of user a ≡ false =
        λ a h. other_audit user other differ a (theirs a h) in
      record {
        account = refl;
        vault = refl;
        audits = ap (map unlink) (filter-drop (is_of user) (owned_by id other) st.audits mine);
        owned = λ i.
            any-drop (owned_by i user) (owned_by id other) st.audits
              (λ a h. ground (arith, mine a h));
        quotes =
            filter-drop (quote_for user st.audits) (quote_of (filter (owned_by id other) st.audits))
              st.quotes
              (λ q h. not_quoted user other differ (owned_by id other) st.audits q theirs keyed h);
      }

  pub purged-IsKept : IsKept user st (without_pii other st)
  purged-IsKept =
      let gone = filter (vault_of other) st.vaults in
      record {
        account = refl;
        vault =
            filter-drop (vault_of user) (vault_of other) st.vaults
              (λ p h. ground (arith, differ, h));
        audits = unlink-audits user other differ gone st.audits;
        owned = λ i. any-update (owned_by i user) (linked_to gone) unlink st.audits (λ a. refl);
        quotes = refl;
      }

  pub opted_out-IsKept :
      (touched opt_out : Bool)
      → IsKept user st (record st {
        users = update_all (flips other opt_out) (Audits.set_opt_out opt_out) st.users;
        quotes =
            if touched
            then update_all (aggregated other st.audits) opt_out_quote st.quotes
            else st.quotes;
      })
  opted_out-IsKept touched opt_out = record {
    account =
        filter-update (row_of_user user) (flips other opt_out) (Audits.set_opt_out opt_out) st.users
          (λ u h. other_row u h) (λ u h. other_row u h);
    vault = refl;
    audits = refl;
    owned = λ i. refl;
    quotes = elim (Bool-cases touched) [
      | inl e ↦ rw e (
          filter-update (quote_for user st.audits) (aggregated other st.audits) opt_out_quote
            st.quotes other_quote other_quote)
      | inr e ↦ rw e refl
    ];
  }
    where
      other_row : (u : User) → flips other opt_out u ≡ true → row_of_user user u ≡ false
      other_row u h = ground (arith, differ, h)

      other_quote :
          (q : InstallerQuote F)
          → aggregated other st.audits q ≡ true
          → quote_for user st.audits q ≡ false
      other_quote q h =
          not_quoted user other differ (is_of other) st.audits q (λ a e. e) keyed (ground arith)

module _ {F : Type 0} (user : ℕ) where
  pub kept : (st : AuditDb F) → IsKept user st st
  kept st = record { account = refl; vault = refl; audits = refl; owned = λ i. refl; quotes = refl }

  filter-same :
      (p q : InstallerQuote F → Bool) (t : List (InstallerQuote F))
      → ((x : InstallerQuote F) → p x ≡ q x)
      → filter p t ≡ filter q t
  filter-same p q [] h = refl
  filter-same p q (x ∷ t) h = rw (h x, filter-same p q t h) refl

  pub kept_trans : (a b c : AuditDb F) → IsKept user a b → IsKept user b c → IsKept user a c
  kept_trans a b c h k =
      let same : (q : InstallerQuote F) → quote_for user b.audits q ≡ quote_for user a.audits q =
        λ q. h.owned q.audit_id in
      record {
        account = k.account ∙ h.account;
        vault = k.vault ∙ h.vault;
        audits = k.audits ∙ h.audits;
        owned = λ i. k.owned i ∙ h.owned i;
        quotes =
            sym (filter-same (quote_for user b.audits) (quote_for user a.audits) c.quotes same)
            ∙ k.quotes
            ∙ filter-same (quote_for user b.audits) (quote_for user a.audits) b.quotes same
            ∙ h.quotes;
      }
