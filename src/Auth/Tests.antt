-- ===== src/Auth/Tests.antt =====
-- A sign-in with a magic link, from the request to the sign-out, at concrete inputs.
use mathlib.Core.Bool.{false≢true}
use Prim.Native.String.{◌++◌}
use chart_solar.Prelude.{
  ℕ, ◌+◌, String, ◌≡◌, ◌≢◌, ◌↔◌, refl, false, none, some, [], ◌∷◌, Result, ok, err, leb, find,
  eq_iff, if◌then◌else◌,
}
use chart_solar.Sql.Sample.{sample, sample-IsSql}
use chart_solar.Auth.{
  User, MagicLink, Session, AuthDb, AuthError, already_consumed, link_expired, Lib, AuthSettings,
  PendingMagicLinkEmail, user_with, issue_magic_link, build_callback_url, magic_link_email_bodies,
  check_link, consume_writes, consume_magic_link, revoke_session, user_id_for_session_token,
  upsert_user,
}
use chart_solar.Auth.SignIn.{consume_once, issued_link, consume_signs_in}
use chart_solar.Auth.Sessions.{IsLive, lookup-IsLive, revoke_signs_out}
use chart_solar.Auth.Race.{new_row, consume_race}

-- a hash without collisions, and urls that are their own text
abbrev plain : Lib
plain = record {
  sha256_hex = λ s. s;
  normalise = λ s. s;
  Url = String;
  urlparse = λ s. s;
  urlunparse = λ s. s;
  query = λ s. "";
  with_query = λ u q. u ++ q;
  urlencode_token = λ t. t;
}

abbrev settings : AuthSettings
settings = record { magic_link_ttl = 900; session_ttl = 2_592_000; callback_url = "/auth" }

abbrev bob : User
bob = record { id = 7; email = "bob@x"; aggregation_opt_out = false }

abbrev link : MagicLink
link = record { token_hash = "t1"; email = "bob@x"; expires_at = 900; consumed_at = none }

abbrev start : AuthDb
start = record { users = bob ∷ []; links = link ∷ []; sessions = [] }

abbrev consumed : Result AuthError (User × String) × AuthDb
consumed = consume_magic_link sample plain settings "t1" 100 8 "s1" start

consume_once_example :
    consume_magic_link sample plain settings "t1" 200 9 "s2" consumed.1
    ≡ (err already_consumed, consumed.1)
unfolding consume_magic_link check_link consume_writes upsert_user
consume_once_example =
    consume_once sample sample-IsSql plain settings "t1" 100 8 "s1" start (bob, "s1") refl 200 9
      "s2"

abbrev pending : PendingMagicLinkEmail
pending =
    let bodies = magic_link_email_bodies (build_callback_url sample plain settings "/auth" "t2") in
    record {
      to = "eve@x";
      subject = "Your Chart Solar sign-in link";
      html_body = bodies.0;
      text_body = bodies.1;
    }

abbrev eve_link : MagicLink
eve_link = record { token_hash = "t2"; email = "eve@x"; expires_at = 950; consumed_at = none }

abbrev issued : AuthDb
issued = record start { links = link ∷ eve_link ∷ [] }

issued_link_test :
    (pending.to ≡ "eve@x")
    × (check_link sample plain settings "t2" 949 issued
        ≡ (if leb (50 + 900) 949 then err link_expired else ok eve_link))
    × (issued.users ≡ start.users)
    × (issued.sessions ≡ start.sessions)
unfolding issue_magic_link
issued_link_test =
    issued_link sample sample-IsSql plain settings "eve@x" none 50 949 "t2" start issued pending
      refl

consume_signs_in_example :
    (l : MagicLink) × (check_link sample plain settings "t1" 100 start ≡ ok l)
    × (find (user_with l.email) consumed.1.users ≡ some bob)
    × (◌≡◌ {A = String} "s1" "s1")
    × ((t : ℕ)
        → user_id_for_session_token sample plain settings "s1" t consumed.1
          ≡ (if leb (100 + 2_592_000) t then none else some 7))
unfolding consume_magic_link check_link consume_writes upsert_user
consume_signs_in_example =
    consume_signs_in sample sample-IsSql plain settings "t1" 100 8 "s1" start (bob, "s1") refl

abbrev session : Session
session = record { token_hash = "s1"; user_id = 7; expires_at = 500; revoked_at = none }

abbrev signed_in : AuthDb
signed_in = record { users = bob ∷ []; links = []; sessions = session ∷ [] }

lookup-IsLive_test :
    (user_id_for_session_token sample plain settings "s1" 100 signed_in ≡ some 7)
    ↔ IsLive plain "s1" 100 7 signed_in
lookup-IsLive_test = lookup-IsLive sample sample-IsSql plain settings "s1" 100 7 signed_in

s1≢s2 : ◌≢◌ {A = String} "s1" "s2"
s1≢s2 p = false≢true ((eq_iff "s1" "s2").1 p)

revoke_signs_out_test :
    let st' = (revoke_session sample plain settings "s1" 100 signed_in).1 in
    (user_id_for_session_token sample plain settings "s1" 200 st' ≡ none)
    × (revoke_session sample plain settings "s1" 200 st' ≡ (false, st'))
    × (user_id_for_session_token sample plain settings "s2" 200 st'
        ≡ user_id_for_session_token sample plain settings "s2" 200 signed_in)
revoke_signs_out_test =
    revoke_signs_out sample sample-IsSql plain settings "s1" "s2" 100 200 signed_in s1≢s2

consume_race_example :
    (a : AuthDb) × (b : AuthDb) × (consume_writes sample plain settings link
        (some bob)
        100
        8
        "s1"
        start
      ≡ ok ((bob, "s1"), a))
    × (consume_writes sample plain settings link (some bob) 101 9 "s2" a ≡ ok ((bob, "s2"), b))
    × (b.sessions ≡ new_row plain settings 100 "s1" bob ∷ new_row plain settings 101 "s2" bob ∷ [])
unfolding check_link
consume_race_example =
    consume_race sample sample-IsSql plain settings "t1" "s1" "s2" 100 101 8 9 start link bob refl
      refl refl refl refl s1≢s2
