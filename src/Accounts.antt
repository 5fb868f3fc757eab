-- ===== src/Accounts.antt =====
-- services/auth_service.py: registration and login. The new account's id, the salt and the time come
-- as arguments.
pub mod Registration
pub mod Login
use agntspark_gateway.Prelude.{
  ℕ, String, Bool, true, false, Option, none, some, List, [], ◌∷◌, ◌++◌, any, find, is_none, not,
  if◌then◌else◌, ◌==◌, ◌&&◌, ◌||◌, string_eq, nat_eq, text_eq,
}
use agntspark_gateway.Prelude.Characters.{strip, is_space}
use agntspark_gateway.Errors.{
  Error, authentication, email_already_registered, registration_closed, invalid_invite, unhandled,
}
use agntspark_gateway.Exec.{
  Exec, Result, ok, err, pure, raise, lift, reads, modify, refuse_if, ◌>>=◌, ◌>>◌,
}
use agntspark_gateway.Models.{Text, Database, User}
use agntspark_gateway.Roles.{operator}
use agntspark_gateway.Settings.{RegistrationMode, open_registration, invite_only, closed}
use agntspark_gateway.Invites.{claim_invite}
use agntspark_gateway.World.{World, Platform, commit, on_users}

pub record RegisterRequest : Type 0 where
  pub email : String
  pub password : String
  pub name : String
  pub invite_code : Option Text
  pub id : ℕ
  pub salt : ℕ
  pub now : ℕ

module _ {R : Type 0} (p : Platform R) where
  -- `User(...)` with the column defaults
  abbrev pub new_user : RegisterRequest → User
  new_user r = record {
    id = r.id;
    email = r.email;
    password_hash = p.hashes.hash_password r.salt r.password;
    name = r.name;
    role = p.roles.value operator;
    plan = "free";
    stripe_customer_id = none;
    stripe_subscription_id = none;
    subscription_status = none;
    is_active = true;
    created_at = r.now;
  }

  abbrev pub is_taken_by : RegisterRequest → User → Bool
  is_taken_by r u = u.id == r.id || u.email == r.email

  -- `db.add` and the commit, which fails on a key that is taken
  unfoldable pub insert_user : RegisterRequest → Exec (World R) User
  insert_user r = do
    reads (λ w. refuse_if (any (is_taken_by r) w.db.users) unhandled)
    modify (on_users (λ rows. rows ++ new_user r ∷ []))
    commit
    pure (new_user r)

  -- the invite of an invite-only registration: no code, and a blank one, are invalid
  abbrev pub claim : ℕ → Option Text → Exec (World R) (Unit {0})
  claim now none = raise invalid_invite
  claim now (some code) =
      if strip is_space code == []
      then raise invalid_invite
      else (do claim_invite p now code; pure tt)

  -- the part of `register_user` that depends on the mode
  unfoldable pub check_invite : RegistrationMode → RegisterRequest → Exec (World R) (Unit {0})
  unfolding claim_invite strip
  check_invite open_registration r = pure tt
  check_invite invite_only r = claim r.now r.invite_code
  check_invite closed r = raise registration_closed

  abbrev pub is_closed : RegistrationMode → Bool
  is_closed closed = true
  is_closed _ = false

  -- `register_user`
  unfoldable pub register_user : RegistrationMode → RegisterRequest → Exec (World R) User
  unfolding check_invite insert_user
  register_user mode r = do
    lift (refuse_if (is_closed mode) registration_closed)
    reads (λ w.
        refuse_if (not (is_none (find (λ u. u.email == r.email) w.db.users)))
          (email_already_registered r.email))
    check_invite mode r
    insert_user r

  abbrev pub checked : String → Option User → Result User
  checked password none = err authentication
  checked password (some u) =
      if not u.is_active || not (p.hashes.verify_password password u.password_hash)
      then err authentication
      else ok u

  -- `authenticate_user`
  unfoldable pub authenticate_user : Database → String → String → Result User
  authenticate_user db email password = checked password (find (λ u. u.email == email) db.users)
