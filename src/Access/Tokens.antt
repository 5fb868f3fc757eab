-- ===== src/Access/Tokens.antt =====
-- What a token of security/dependencies.py gives access to.
use agntspark_gateway.Prelude.{
  ℕ, ◌≡◌, ◌⊎◌, inl, inr, refl, sym, ap, subst, ◌∙◌, Bool, true, false, Option, none, some, [], ◌∷◌,
  arith, find, find-test, if◌then◌else◌, ◌==◌, nat_eq, string_eq, Bool-cases,
}
use agntspark_gateway.Exec.{ok_eq, Result, ok, err, and_then}
use agntspark_gateway.Errors.{Error}
use agntspark_gateway.Models.{Text, Database, User, ApiKey}
use agntspark_gateway.Roles.{Role}
use agntspark_gateway.Quota.{role_enum}
use agntspark_gateway.Settings.{GatewaySettings}
use agntspark_gateway.World.{Platform}
use agntspark_gateway.Access.{
  AuthMethod, jwt, api_key, Principal, Decode, is_active_key, is_api_key, active_user, get_active,
  active_key, subject, credentials, principal_of, authenticate_api_key, authenticate_jwt,
  get_current_principal, require_jwt_principal, require_role,
}

-- both steps of a chain that returned
and_then-ok :
    {A B : Type 0} (r : Result A) (f : A → Result B) (b : B)
    → and_then r f ≡ ok b
    → (a : A) × (r ≡ ok a) × (f a ≡ ok b)
and_then-ok (ok a) f b h = (a, refl, h)
and_then-ok (err e) f b h = cc

id_test : (id : ℕ) (u : User) → (u.id == id) ≡ true → u.id ≡ id
id_test id u h = ground arith

active_user-ok :
    (o : Option User) (u : User) → active_user o ≡ ok u → (o ≡ some u) × (u.is_active ≡ true)
active_user-ok none u h = cc
active_user-ok (some v) u h = ground arith

active_key-ok :
    (now : ℕ) (o : Option ApiKey) (k : ApiKey)
    → active_key now o ≡ ok k
    → (o ≡ some k) × (is_active_key now k ≡ true)
active_key-ok now none k h = cc
active_key-ok now (some l) k h = ground arith

subject-ok : (o : Option (Option ℕ)) (id : ℕ) → subject o ≡ ok id → o ≡ some (some id)
subject-ok none id h = cc
subject-ok (some none) id h = cc
subject-ok (some (some j)) id h = cc

credentials-ok : (o : Option Text) (t : Text) → credentials o ≡ ok t → o ≡ some t
credentials-ok none t h = cc
credentials-ok (some []) t h = cc
credentials-ok (some (c ∷ s)) t h = cc

module _ {R : Type 0} (p : Platform R) (cfg : GatewaySettings) (decode : Decode) (now : ℕ)
    (db : Database) where
  -- the account, active now, that a principal stands for, with its present role
  pub record IsAccount (who : Principal) (u : User) : Type 0 where
    pub found : find (λ x. x.id == who.user_id) db.users ≡ some u
    pub active : u.is_active ≡ true
    pub role : role_enum p.roles u ≡ ok who.role

  -- a live API key of the account, where keys are accepted, or a session's token for it
  abbrev pub Grounds : Bool → Text → Principal → Type 0
  Grounds jwt_only token who =
      ((jwt_only ≡ false)
        × (is_api_key cfg token ≡ true)
        × (who.auth_method ≡ api_key)
        × ((k : ApiKey) × (find (λ x. x.key_hash == p.hashes.sha256 token) db.api_keys ≡ some k)
            × (is_active_key now k ≡ true)
            × (k.user_id ≡ who.user_id)))
      ⊎ ((is_api_key cfg token ≡ false)
          × (who.auth_method ≡ jwt)
          × (decode token ≡ some (some who.user_id)))

  -- the account behind an id
  account :
      (id : ℕ) (method : AuthMethod) (key_id : Option ℕ) (who : Principal)
      → and_then (get_active db id) (λ u. principal_of p cfg decode now method key_id u) ≡ ok who
      → (who.user_id ≡ id) × (who.auth_method ≡ method) × ((u : User) × IsAccount who u)
  account id method key_id who h =
      let (u, e, made) =
        and_then-ok (get_active db id) (λ u. principal_of p cfg decode now method key_id u) who h in
      let (found, on) = active_user-ok (find (λ x. x.id == id) db.users) u e in
      let (role, ranked, built) = and_then-ok (role_enum p.roles u) _ who made in
      let eq = ok_eq _ who built in
      let same = id_test id u (find-test (λ x. x.id == id) db.users u found) in
      let back : who.user_id ≡ id = sym (ap (λ w. w.user_id) eq) ∙ same in
      (
        back,
        sym (ap (λ w. w.auth_method) eq),
        (
          u,
          record {
            found = subst (λ i. find (λ x. x.id == i) db.users ≡ some u) (sym back) found;
            active = on;
            role = subst (λ r. role_enum p.roles u ≡ ok r) (ap (λ w. w.role) eq) ranked;
          },
        ),
      )

  by_key :
      (token : Text) (who : Principal)
      → is_api_key cfg token ≡ true
      → authenticate_api_key p cfg decode now db token ≡ ok who
      → Grounds false token who × ((u : User) × IsAccount who u)
  unfolding authenticate_api_key
  by_key token who is h =
      let (k, e, rest) =
        and_then-ok (active_key now (find (λ k. k.key_hash == p.hashes.sha256 token) db.api_keys)) _
          who h in
      let (found, on) =
        active_key-ok now (find (λ k. k.key_hash == p.hashes.sha256 token) db.api_keys) k e in
      let (same, method, acc) = account k.user_id api_key (some k.id) who rest in
      (inl (refl, is, method, (k, found, on, sym same)), acc)

  by_jwt :
      (jwt_only : Bool) (token : Text) (who : Principal)
      → is_api_key cfg token ≡ false
      → authenticate_jwt p cfg decode now db token ≡ ok who
      → Grounds jwt_only token who × ((u : User) × IsAccount who u)
  unfolding authenticate_jwt
  by_jwt jwt_only token who is h =
      let (id, e, rest) = and_then-ok (subject (decode token)) _ who h in
      let (same, method, acc) = account id jwt none who rest in
      (inr (is, method, subject-ok (decode token) id e ∙ ap (λ i. some (some i)) (sym same)), acc)

  current-ok :
      (creds : Option Text) (who : Principal)
      → get_current_principal p cfg decode now db creds ≡ ok who
      → (token : Text) × (creds ≡ some token)
        × Grounds false token who
        × ((u : User) × IsAccount who u)
  unfolding get_current_principal
  current-ok creds who h =
      let (token, e, rest) = and_then-ok (credentials creds) _ who h in
      let given = credentials-ok creds token e in
      elim (Bool-cases (is_api_key cfg token)) [
        | inl is ↦ let got = by_key token who is (rw is at rest) in (token, given, got.0, got.1)
        | inr not_key ↦
            let got = by_jwt false token who not_key (rw not_key at rest) in
            (token, given, got.0, got.1)
      ]

  session-ok :
      (creds : Option Text) (who : Principal)
      → require_jwt_principal p cfg decode now db creds ≡ ok who
      → (token : Text) × (creds ≡ some token)
        × Grounds true token who
        × ((u : User) × IsAccount who u)
  unfolding require_jwt_principal
  session-ok creds who h =
      let (token, e, rest) = and_then-ok (credentials creds) _ who h in
      let given = credentials-ok creds token e in
      elim (Bool-cases (is_api_key cfg token)) [
        | inl is ↦ cc (is, rest)
        | inr not_key ↦
            let got = by_jwt true token who not_key (rw not_key at rest) in
            (token, given, got.0, got.1)
      ]

  guard-ok :
      (b : Bool) (a who : Principal) (e : Error)
      → (if b then ok a else err e) ≡ ok who
      → (b ≡ true) × (a ≡ who)
  guard-ok true a who e h = (refl, ok_eq a who h)
  guard-ok false a who e h = cc

  -- Whoever passes a check for a role holds a credential that stands for an account of the database,
  -- active now, whose present role suffices: a live API key of that account, unless the check is for
  -- sessions only, or a session's token that verifies and names it.
  pub require_role-ok :
      (minimum : Role) (jwt_only : Bool) (creds : Option Text) (who : Principal)
      → require_role p cfg decode now minimum jwt_only db creds ≡ ok who
      → (p.roles.can who.role minimum ≡ true)
        × ((token : Text) × (creds ≡ some token)
            × Grounds jwt_only token who
            × ((u : User) × IsAccount who u))
  unfolding require_role
  require_role-ok minimum true creds who h =
      let (a, e, rest) = and_then-ok (require_jwt_principal p cfg decode now db creds) _ who h in
      let (may, same) = guard-ok _ a who _ rest in
      (
        subst (λ x. p.roles.can x.role minimum ≡ true) same may,
        session-ok creds who (e ∙ ap ok same),
      )
  require_role-ok minimum false creds who h =
      let (a, e, rest) = and_then-ok (get_current_principal p cfg decode now db creds) _ who h in
      let (may, same) = guard-ok _ a who _ rest in
      (
        subst (λ x. p.roles.can x.role minimum ≡ true) same may,
        current-ok creds who (e ∙ ap ok same),
      )
