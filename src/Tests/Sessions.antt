-- ===== src/Tests/Sessions.antt =====
-- Logging in, the limit on attempts, and administrators, over a Redis that is an association list.
use agntspark_gateway.Prelude.{
  ℕ, zero, suc, ◌+◌, ◌*◌, ◌/◌, ◌≤◌, ◌<◌, ◌≡◌, ◌↔◌, refl, sym, String, Bool, true, false, not,
  Option, some, none, List, [], ◌∷◌, find, lookup, insert, lookup-insert, cond, if◌then◌else◌, ◌==◌,
  ==_refl, nat_eq, ℕ_discrete, string_eq, string_dec, text_eq, is_none, arith, is_none,
}
use agntspark_gateway.Prelude.Characters.{codes, strip, is_space}
use agntspark_gateway.Errors.{rate_limit_exceeded}
use agntspark_gateway.Exec.{ok, err}
use agntspark_gateway.Models.{User, Text, Invite}
use agntspark_gateway.Invites.{active, create_invite, claim_invite, count_use}
use agntspark_gateway.Routes.Admin.{InviteCreateRequest, InviteOut, create_invite_route}
use agntspark_gateway.Routes.Admin.Invitations.{create_invite_route-claim_invite}
use agntspark_gateway.Roles.{Role, viewer, operator, admin}
use agntspark_gateway.World.{World, rollback}
use agntspark_gateway.RateLimit.{Redis, IsRedis, Answers, enforce}
use agntspark_gateway.RateLimit.Attempts.{enforce_iff, enforce-locked}
use agntspark_gateway.Jwt.{JwtLibrary, IsJwt, decode_access_token}
use agntspark_gateway.Access.{
  Decode, require_role, jwt, principal_of, get_active, get_current_principal,
}
use agntspark_gateway.Accounts.{authenticate_user}
use agntspark_gateway.Routes.Auth.{Visit, TokenResponse, login}
use agntspark_gateway.Routes.Auth.Session.{IsApart, login-principal}
use agntspark_gateway.Admin.Access.{IsAdmin}
use agntspark_gateway.Routes.Admin.Callers.{
  IsRoleTable, AdminCall, patch_user, all_administered, all_administered-HasAdmin,
}
use agntspark_gateway.Tests.{Fleet, platform, roles, ann, world}
use agntspark_gateway.Tests.Ingress.{settings}

-- a key's number, and whether it expires
abbrev Store : Type 0
Store = List (String × (ℕ × Bool))

abbrev entry : Option (ℕ × Bool) → ℕ × Bool
entry none = (0, false)
entry (some e) = e

abbrev count : String → Store → ℕ
count key s = (entry (lookup key s)).0

abbrev expires : String → Store → Bool
expires key s = (entry (lookup key s)).1

abbrev redis : Redis Store
redis = record {
  incr = λ key s. (some (suc (count key s)), insert key (suc (count key s), expires key s) s);
  expire = λ key t s. (some tt, insert key (count key s, true) s);
  ttl = λ key s. some (if expires key s then some 60 else none);
}

lookup-insert_same :
    (key : String) (e : ℕ × Bool) (s : Store) → lookup key (insert key e s) ≡ some e
lookup-insert_same key e s = ground (arith, lookup-insert key key e s, ==_refl key)

some_eq : {A : Type 0} (a b : A) → some a ≡ some b → b ≡ a
some_eq a b e = cc

redis-IsRedis : IsRedis redis count expires
redis-IsRedis = record {
  incr-answer = λ key s n e. some_eq (suc (count key s)) n e;
  count-incr = λ key s n e.
      rw (lookup-insert_same key (suc (count key s), expires key s) s, count)
        (sym (some_eq (suc (count key s)) n e));
  expires-incr =
      λ key s. rw (lookup-insert_same key (suc (count key s), expires key s) s, expires) refl;
  count-expire = λ key t s. rw (lookup-insert_same key (count key s, true) s, count) refl;
  ttl-none = λ key s t off e. some_eq none t (rw off at e);
}

redis-Answers : Answers redis
redis-Answers = record { incr = λ key s. refl; expire = λ key t s. refl; ttl = λ key s. refl }

enforce_iff_example :
    (((enforce redis settings true "k" []).0 ≡ ok tt)
      ↔ (count "k" [] < settings.login_rate_limit_max_attempts))
    × (count "k" (enforce redis settings true "k" []).1 ≡ suc (count "k" []))
enforce_iff_example = enforce_iff redis settings count expires redis-IsRedis redis-Answers "k" []

abbrev lost : Store
lost = ("k", (9, false)) ∷ []

lost_entry : (count "k" lost ≡ 9) × (expires "k" lost ≡ false)
unfolding string_eq string_dec
lost_entry = (refl, refl)

enforce-locked_example :
    let (out, s') = enforce redis settings true "k" lost in
    (out ≡ err (rate_limit_exceeded 1))
    × (expires "k" s' ≡ false)
    × (0 < count "k" s')
    × (settings.login_rate_limit_max_attempts ≤ count "k" s')
enforce-locked_example =
    enforce-locked redis settings count expires redis-IsRedis redis-Answers "k" lost lost_entry.1
      (rw lost_entry.0 (omega arith)) (rw lost_entry.0 (omega arith))

abbrev body : Option ℕ → Text
body none = []
body (some n) = n ∷ []

abbrev subject_in : Text → Option (Option ℕ)
subject_in [] = none
subject_in (c ∷ []) = some none
subject_in (c ∷ n ∷ rest) = some (some n)

abbrev lib : JwtLibrary
lib = record {
  encode = λ c secret. b'e' ∷ body c.sub;
  decode = λ now secret iss token. subject_in token;
}

read_back : (sub : Option ℕ) → subject_in (b'e' ∷ body sub) ≡ some sub
read_back none = refl
read_back (some n) = refl

lib-IsJwt : IsJwt lib
lib-IsJwt = record {
  decode-encode = λ now secret c from until. read_back c.sub;
  header = λ secret c. (body c.sub, refl);
}

settings-IsApart : IsApart settings
settings-IsApart = record {
  first = b'a';
  rest = codes "gnt_";
  prefix = refl;
  differs = ground arith;
}

abbrev visit : Visit
visit = record { host = some "10.0.0.9"; now = 5_000_000; jti = "t1" }

abbrev answer : TokenResponse
answer = record {
  access_token = b'e' ∷ 1 ∷ [];
  token_type = "bearer";
  expires_in = 3600;
  user = record {
    id = 1;
    name = "Ann";
    email = "ann@example.com";
    role = "developer";
    plan = "free";
  };
}

-- what is taken for an address
abbrev an_email : String → Bool
an_email s = not (s == "")

abbrev after_login : Store × World Fleet
after_login =
    (login platform redis true lib settings an_email visit "ann@example.com" "secret password"
      ([], world)).1

logged_in :
    login platform redis true lib settings an_email visit "ann@example.com" "secret password"
      ([], world)
    ≡ (ok answer, (after_login.0, after_login.1))
unfolding login agntspark_gateway.Schemas.Bodies.login_valid nat_eq ℕ_discrete string_eq string_dec
logged_in = refl

ann_authenticated : authenticate_user platform world.db "ann@example.com" "secret password" ≡ ok ann
unfolding authenticate_user string_eq string_dec
ann_authenticated = refl

ann_active : get_active world.db ann.id ≡ ok ann
unfolding nat_eq ℕ_discrete
ann_active = refl

login-principal_example :
    get_current_principal platform settings
      (decode_access_token lib settings 9_000_000)
      9_000_000
      world.db
      (some answer.access_token)
    ≡ principal_of platform settings
        (decode_access_token lib settings 9_000_000)
        9_000_000
        jwt
        none
        ann
login-principal_example =
    login-principal platform lib lib-IsJwt settings redis true an_email visit "ann@example.com"
      "secret password" [] after_login.0 world after_login.1 answer ann 9_000_000 world.db
      settings-IsApart logged_in ann_authenticated (omega arith) (omega arith) ann_active

roles-IsRoleTable : IsRoleTable roles
unfolding nat_eq ℕ_discrete
roles-IsRoleTable = record {
  can-admin = λ r e. only_admin r e;
  of_value-value = λ n r e. ground arith;
}
  where
    only_admin : (r : Role) → roles.can r admin ≡ true → r ≡ admin
    only_admin admin e = refl
    only_admin operator e = cc
    only_admin viewer e = cc

abbrev boss : User
boss = record ann { id = 7; email = "boss@example.com"; role = 30 }

abbrev bossed : World Fleet
bossed = record world { stored = record world.stored { users = boss ∷ ann ∷ [] } }

abbrev calls : List AdminCall
calls =
    record {
      creds = some (codes "ey");
      now = 5;
      change = patch_user 7 (record { role = some "viewer"; plan = none; is_active = none });
    }
    ∷ []

-- a token verifies, and names the administrator
abbrev decode : Decode
decode token = some (some 7)

abbrev bossed_session : World Fleet
bossed_session = rollback bossed

boss_there : find (λ x. x.id == 7) bossed.stored.users ≡ some boss
unfolding nat_eq ℕ_discrete
boss_there = refl

all_administered-HasAdmin_example :
    (id : ℕ) × IsAdmin platform id
      (all_administered platform settings decode calls bossed).stored.users
all_administered-HasAdmin_example =
    all_administered-HasAdmin platform settings decode roles-IsRoleTable calls bossed
      (7, (boss, boss_there, refl, refl))

abbrev invitation : InviteCreateRequest
invitation = record { note = codes " for Bea "; max_uses = 1; expires_in_days = none }

abbrev handed_out : InviteOut
handed_out = record {
  id = 3;
  code_prefix = codes "inv_abcdef";
  note = codes "for Bea";
  max_uses = 1;
  use_count = 0;
  status = active;
  expires_at = none;
  created_at = 5;
}

abbrev invited : World Fleet
invited =
    (create_invite_route platform settings decode 5 (some (codes "ey")) invitation 3
      (codes "abcdef") bossed_session).1

invite_made :
    create_invite_route platform settings decode 5
      (some (codes "ey"))
      invitation
      3
      (codes "abcdef")
      bossed_session
    ≡ (ok (handed_out, codes "inv_abcdef"), invited)
unfolding create_invite_route create_invite require_role nat_eq ℕ_discrete text_eq
    agntspark_gateway.Schemas.Bodies.invite_valid agntspark_gateway.Prelude.Characters.strip
invite_made = refl

trimmed : strip is_space (codes "inv_abcdef") ≡ codes "inv_abcdef"
unfolding agntspark_gateway.Prelude.Characters.strip nat_eq ℕ_discrete
trimmed = refl

create_invite_route-claim_invite_example :
    (i : Invite) × (i.id ≡ 3)
    × ((claim_invite platform 9 (codes "inv_abcdef") (rollback invited)).0 ≡ ok (count_use i))
create_invite_route-claim_invite_example =
    create_invite_route-claim_invite platform settings decode 5 (some (codes "ey")) invitation 3
      (codes "abcdef") 9 bossed_session invited (rollback invited) handed_out (codes "inv_abcdef")
      invite_made refl trimmed refl
