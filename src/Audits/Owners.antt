-- ===== src/Audits/Owners.antt =====
-- backend/api/audits.py: reads and deletes of an audit, by its owner and by others.
use chart_solar.Prelude.{
  ℕ, String, ◌≡◌, ◌≢◌, true, Option, some, find, count-any, is_some, arith, Option-cases,
  Bool-cases, inl, inr, str_eq, eq_iff,
}
use chart_solar.Sql.{Sql, IsSql, IsRow, Top, tables, canonical}
use chart_solar.Sql.Rows.{find_sound, find-any-true, any-find, find-IsRow}
use chart_solar.Audits.Rows.{count-any-true}
use chart_solar.Entitlements.{anonymous_user_id, require_authenticated}
use chart_solar.Audits.{Audit, AuditDb, is_of, owned_by, find_audit_owned_by, delete_audit_owned_by}
use chart_solar.Audits.Routes.{
  Reply, unauthorized, not_found, server_error, reply, AuditView, view_of, get_audit, delete_audit,
}

is_of_sound : (user : ℕ) (a : Audit) → is_of user a ≡ true → a.user_id ≡ some user
is_of_sound user a h = elim (Option-cases a.user_id) [
  | inl e ↦ absurd (ground arith)
  | inr (u, e) ↦ ground arith
]

-- How the delete of an audit answers, by how a read of it does.
abbrev pub delete_like : {A : Type 0} → ℕ → Reply A → Reply ℕ
delete_like id unauthorized = unauthorized
delete_like id not_found = not_found
delete_like id server_error = server_error
delete_like id (reply v) = reply id

module _ (top : Top) (parse_uuid : String → Option ℕ) {F : Type 0} where
  read :
      (id : ℕ) (caller : String) (st : AuditDb F) (v : AuditView)
      → get_audit (tables top) parse_uuid id caller st ≡ reply v
      → (caller ≢ anonymous_user_id)
        × ((user : ℕ) × (a : Audit) × (parse_uuid caller ≡ some user)
            × (find (owned_by id user) st.audits ≡ some a)
            × (view_of a ≡ v))
  unfolding get_audit find_audit_owned_by require_authenticated
  read id caller st v h = elim (Bool-cases (str_eq caller anonymous_user_id)) [
    | inl anon ↦ absurd (ground arith)
    | inr named ↦ (
      λ same. absurd (ground (arith, eq_iff caller anonymous_user_id)),
      elim (Option-cases (parse_uuid caller)) [
        | inl bad ↦ absurd (ground arith)
        | inr (user, e) ↦ elim (Option-cases (find (owned_by id user) st.audits)) [
          | inl absent ↦ absurd (ground arith)
          | inr (a, found) ↦ (user, a, e, found, ground arith)
        ]
      ],
    )
  ]

  delete_agrees :
      (id : ℕ) (caller : String) (st : AuditDb F)
      → (delete_audit (tables top) parse_uuid id caller st).0
        ≡ delete_like id (get_audit (tables top) parse_uuid id caller st)
  unfolding get_audit find_audit_owned_by require_authenticated delete_audit delete_audit_owned_by
  delete_agrees id caller st = elim (Bool-cases (str_eq caller anonymous_user_id)) [
    | inl anon ↦ ground arith
    | inr named ↦ elim (Option-cases (parse_uuid caller)) [
      | inl bad ↦ ground arith
      | inr (user, e) ↦ elim (Option-cases (find (owned_by id user) st.audits)) [
        | inl absent ↦ ground (
          arith,
          count-any (owned_by id user) st.audits (any-find (owned_by id user) st.audits absent),
        )
        | inr (a, found) ↦ ground (
          arith,
          count-any-true (owned_by id user) st.audits
              (find-any-true (owned_by id user) st.audits a found),
        )
      ]
    ]
  ]

module _ (db : Sql) (laws : IsSql db) (parse_uuid : String → Option ℕ) {F : Type 0} where
  -- A read of an audit that is answered with its view is by a signed-in caller whose id is that of
  -- the audit's owner, and the view is that of an audit of the table with the id asked for. An
  -- anonymous audit has no owner, so nobody reads it here.
  pub get_audit_own :
      (id : ℕ) (caller : String) (st : AuditDb F) (v : AuditView)
      → get_audit db parse_uuid id caller st ≡ reply v
      → (caller ≢ anonymous_user_id)
        × ((a : Audit) × (IsRow a st.audits)
            × (a.id ≡ id)
            × (a.user_id ≡ parse_uuid caller)
            × (is_some a.user_id ≡ true)
            × (view_of a ≡ v))
  get_audit_own id caller st v = rw (canonical db laws) (λ h.
      let (named, (user, a, e, found, same)) = read db.top parse_uuid id caller st v h in
      let owned = find_sound (owned_by id user) st.audits a found in
      let owner = is_of_sound user a (ground arith) in
      (
        named,
        (
          a,
          find-IsRow (owned_by id user) st.audits a found,
          ground arith,
          ground arith,
          ground arith,
          same,
        ),
      ))

  -- A delete of an audit answers as a read of it does, for every caller: both say that it is not
  -- there, or both refuse, or the audit is shown and deleted. So neither tells more about the
  -- audits of others than the other one.
  pub delete_audit-get_audit :
      (id : ℕ) (caller : String) (st : AuditDb F)
      → (delete_audit db parse_uuid id caller st).0
        ≡ delete_like id (get_audit db parse_uuid id caller st)
  delete_audit-get_audit id caller st =
      rw (canonical db laws) (delete_agrees db.top parse_uuid id caller st)
