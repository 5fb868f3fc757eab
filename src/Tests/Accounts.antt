-- ===== src/Tests/Accounts.antt =====
-- Accounts and credentials, run at small instances.
use agntspark_gateway.Prelude.{
  ◌+◌, ◌≤◌, ◌≡◌, refl, true, none, some, [], ◌∷◌, ==_refl, find, length, string_dec, ◌==◌,
  string_eq, nat_eq, text_eq, option_eq, ℕ_discrete,
}
use agntspark_gateway.Prelude.Characters.{codes}
use agntspark_gateway.Errors.{authentication}
use agntspark_gateway.Exec.{ok, err}
use agntspark_gateway.External.{IsHashes}
use agntspark_gateway.Models.{Text, User, AgentAccessKey, ApiKey, Invite}
use agntspark_gateway.Roles.{operator}
use agntspark_gateway.Settings.{invite_only, open_registration}
use agntspark_gateway.World.{World, rollback, request}
use agntspark_gateway.Invites.Uses.{uses_left}
use agntspark_gateway.Accounts.{
  RegisterRequest, new_user, register_user, insert_user, authenticate_user,
}
use agntspark_gateway.Accounts.Registration.{
  Registers, register_user-Registers, registered, registered-accounts,
}
use agntspark_gateway.Accounts.Login.{register_user-authenticate}
use agntspark_gateway.Access.{
  Principal, Decode, jwt, api_key, principal_of, require_role, authenticate_api_key, revoke_api_key,
  create_api_key,
}
use agntspark_gateway.Access.Tokens.{IsAccount, Grounds, require_role-ok}
use agntspark_gateway.Access.Keys.{revoke_api_key-authenticate, create_api_key-authenticate}
use agntspark_gateway.AccessKeys.{create_access_key, delete_access_key}
use agntspark_gateway.Tests.{Fleet, platform, hashes, roles, ann, bot, world}
use agntspark_gateway.Tests.Ingress.{settings}

hashes-IsHashes : IsHashes hashes
unfolding string_eq string_dec
hashes-IsHashes = record { verify_password-hash_password = λ salt password. ==_refl password }

abbrev invite : Invite
invite = record {
  id = 1;
  code_hash = "digest";
  code_prefix = codes "inv_abc";
  note = [];
  created_by = none;
  max_uses = 1;
  use_count = 0;
  expires_at = none;
  revoked_at = none;
  created_at = 0;
}

abbrev invited : World Fleet
invited = record world {
  db = record world.db { invites = invite ∷ [] };
  stored = record world.stored { invites = invite ∷ [] };
}

abbrev bea : RegisterRequest
bea = record {
  email = "bea@example.com";
  password = "long password";
  name = "Bea";
  invite_code = some (codes "inv_abcdef");
  id = 2;
  salt = 0;
  now = 5;
}

register_user-Registers_example :
    Registers platform bea
      (rollback invited)
      (request (register_user platform invite_only bea) invited)
register_user-Registers_example = register_user-Registers platform bea invited

registered-accounts_example :
    length (registered platform (bea ∷ bea ∷ []) invited).stored.users
      + uses_left (registered platform (bea ∷ bea ∷ []) invited).stored.invites
    ≤ 1 + 1
registered-accounts_example = registered-accounts platform (bea ∷ bea ∷ []) invited

abbrev with_bea : World Fleet
with_bea = (register_user platform open_registration bea world).1

bea_registered :
    register_user platform open_registration bea world ≡ (ok (new_user platform bea), with_bea)
unfolding register_user insert_user nat_eq ℕ_discrete string_eq string_dec
bea_registered = refl

register_user-authenticate_example :
    authenticate_user platform with_bea.stored "bea@example.com" "long password"
    ≡ ok (new_user platform bea)
register_user-authenticate_example =
    register_user-authenticate platform hashes-IsHashes open_registration bea world with_bea
      (new_user platform bea) bea_registered

-- a token verifies, and names account 1
abbrev decode : Decode
decode token = some (some 1)

abbrev ann_session : Principal
ann_session = record {
  user_id = 1;
  email = "ann@example.com";
  role = operator;
  auth_method = jwt;
  api_key_id = none;
}

ann_logged_in :
    require_role platform settings decode 5 operator true world.db (some (codes "ey.token"))
    ≡ ok ann_session
unfolding require_role nat_eq ℕ_discrete
ann_logged_in = refl

require_role-ok_example :
    (roles.can operator operator ≡ true)
    × ((token : Text) × (some (codes "ey.token") ≡ some token)
        × Grounds platform settings decode 5 world.db true token ann_session
        × ((u : User) × IsAccount platform settings decode 5 world.db ann_session u))
require_role-ok_example =
    require_role-ok platform settings decode 5 world.db operator true (some (codes "ey.token"))
      ann_session ann_logged_in

abbrev live_key : ApiKey
live_key = record {
  id = 7;
  user_id = 1;
  label = "laptop";
  key_prefix = codes "agnt_abc";
  key_hash = "digest";
  scopes = [];
  created_at = 0;
  last_used_at = none;
  revoked_at = none;
  expires_at = none;
}

abbrev keyed : World Fleet
keyed = record world { db = record world.db { api_keys = live_key ∷ [] } }

abbrev unkeyed : World Fleet
unkeyed = (revoke_api_key 1 7 5 keyed).1

key_revoked : revoke_api_key 1 7 5 keyed ≡ (ok tt, unkeyed)
unfolding revoke_api_key nat_eq ℕ_discrete
key_revoked = refl

abbrev raw_key : Text
raw_key = codes "agnt_abcdef"

key_found :
    find (λ x. x.key_hash == platform.hashes.sha256 raw_key) keyed.db.api_keys ≡ some live_key
unfolding nat_eq ℕ_discrete string_eq string_dec text_eq
key_found = refl

revoke_api_key-authenticate_example :
    authenticate_api_key platform settings decode 9 unkeyed.stored raw_key ≡ err authentication
revoke_api_key-authenticate_example =
    revoke_api_key-authenticate platform settings decode 1 7 5 9 raw_key live_key keyed unkeyed
      key_revoked key_found refl

abbrev with_key : World Fleet
with_key = (create_api_key platform ann "laptop" [] 7 raw_key 5 world).1

abbrev made_key : ApiKey
made_key = record live_key { key_prefix = codes "agnt_abcdef"; created_at = 5 }

key_created :
    create_api_key platform ann "laptop" [] 7 raw_key 5 world ≡ (ok (made_key, raw_key), with_key)
unfolding create_api_key text_eq nat_eq ℕ_discrete
key_created = refl

ann_found : find (λ u. u.id == ann.id) world.db.users ≡ some ann
unfolding nat_eq ℕ_discrete
ann_found = refl

create_api_key-authenticate_example :
    authenticate_api_key platform settings decode 9 with_key.stored raw_key
    ≡ principal_of platform settings decode 9 api_key (some 7) ann
create_api_key-authenticate_example =
    create_api_key-authenticate platform settings decode ann "laptop" [] 7 raw_key 5 9 world
      with_key (made_key, raw_key) key_created ann_found refl

abbrev access_key : AgentAccessKey
access_key = record {
  id = 3;
  agent_id = "agt_1";
  label = "site";
  key_prefix = codes "agk_one";
  key_hash = "digest one";
  created_at = 5;
}

abbrev opened : World Fleet
opened = (create_access_key platform bot "site" 3 (codes "one") 5 world).1

access_created :
    create_access_key platform bot "site" 3 (codes "one") 5 world
    ≡ (ok (access_key, codes "agk_one"), opened)
unfolding create_access_key text_eq ℕ_discrete
access_created = refl

abbrev locked : World Fleet
locked = (delete_access_key "agt_1" 3 opened).1

access_deleted : delete_access_key "agt_1" 3 opened ≡ (ok tt, locked)
unfolding create_access_key delete_access_key nat_eq ℕ_discrete string_eq string_dec
access_deleted = refl
