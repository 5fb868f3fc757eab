-- ===== src/Access/Keys.antt =====
-- The life of an API key: what services/api_key_service.py makes and revokes, and whom the key then
-- authenticates.
use agntspark_gateway.Prelude.{
  ℕ, String, ◌≡◌, ◌⊎◌, inl, inr, refl, sym, ap, subst, ◌∙◌, true, false, Option, none, some, List,
  [], ◌∷◌, ◌++◌, arith, find, find-test, find-modify, modified, any, modify_where, take, cond, ◌==◌,
  ◌&&◌, ◌||◌, nat_eq, string_eq, ==_refl, Bool-cases,
}
use agntspark_gateway.Exec.{Result-cases, ok, err}
use agntspark_gateway.Errors.{authentication, api_key_not_found}
use agntspark_gateway.Models.{Text, User, ApiKey}
use agntspark_gateway.Quota.{role_enum}
use agntspark_gateway.Settings.{GatewaySettings}
use agntspark_gateway.World.{World, Platform}
use agntspark_gateway.Access.{
  Decode, is_active_key, api_key, principal_of, authenticate_api_key, create_api_key,
  revoke_api_key, revocable,
}

abbrev revoke : ℕ → ApiKey → ApiKey
revoke now k = record k { revoked_at = some now }

revocable-ok :
    (now key_id : ℕ) (o : Option ApiKey)
    → (revocable now key_id o ≡ err (api_key_not_found key_id))
      ⊎ ((k : ApiKey) × (o ≡ some k) × (revocable now key_id o ≡ ok k))
unfolding revocable
revocable-ok now key_id none = inl refl
revocable-ok now key_id (some k) = elim (Bool-cases (is_active_key now k)) [
  | inl on ↦ inr (k, refl, rw on refl)
  | inr off ↦ inl (rw off refl)
]

owned_test :
    (key_id user_id : ℕ) (k : ApiKey)
    → (k.id == key_id && k.user_id == user_id) ≡ true
    → k.id ≡ key_id
owned_test key_id user_id k h = ground arith

module _ {R : Type 0} (p : Platform R) (cfg : GatewaySettings) (decode : Decode) where
  revoked_rows :
      (user_id key_id now : ℕ) (w w' : World R)
      → revoke_api_key user_id key_id now w ≡ (ok tt, w')
      → w'.stored.api_keys ≡ modify_where (λ k. k.id == key_id) (revoke now) w.db.api_keys
  unfolding revoke_api_key
  revoked_rows user_id key_id now w w' done =
      elim (revocable-ok now key_id
        (find (λ k. k.id == key_id && k.user_id == user_id) w.db.api_keys)) [
          | inl refused ↦ cc (rw refused at done)
          | inr (j, found, e) ↦
              let same =
                owned_test key_id user_id j
                  (find-test (λ k. k.id == key_id && k.user_id == user_id) w.db.api_keys j found) in
              sym (ap (λ x. x.1.stored.api_keys) (rw e at done))
              ∙ ap (λ i. modify_where (λ k. k.id == i) (revoke now) w.db.api_keys) same
        ]

  -- Once its owner has revoked a key, it authenticates nobody, at any later time.
  pub revoke_api_key-authenticate :
      (user_id key_id now later : ℕ) (token : Text) (k : ApiKey) (w w' : World R)
      → revoke_api_key user_id key_id now w ≡ (ok tt, w')
      → find (λ x. x.key_hash == p.hashes.sha256 token) w.db.api_keys ≡ some k
      → k.id ≡ key_id
      → authenticate_api_key p cfg decode later w'.stored token ≡ err authentication
  unfolding authenticate_api_key
  revoke_api_key-authenticate user_id key_id now later token k w w' done mine same =
      let q = λ (x : ApiKey). x.key_hash == p.hashes.sha256 token in
      let t = λ (x : ApiKey). x.id == key_id in
      let moved = find-modify t q (revoke now) w.db.api_keys (kept_hash token key_id now) in
      let hit : t k ≡ true = subst (λ i. (k.id == i) ≡ true) same (==_refl k.id) in
      let now_revoked : find q w'.stored.api_keys ≡ some (revoke now k) =
        ap (λ rows. find q rows) (revoked_rows user_id key_id now w w' done)
        ∙ moved
        ∙ ap (modified t (revoke now)) mine
        ∙ ap (λ b. some (cond b (revoke now k) k)) hit in
      rw now_revoked refl
    where
      kept_hash :
          (token : Text) (key_id now : ℕ) (x : ApiKey)
          → ((cond (x.id == key_id) (revoke now x) x).key_hash == p.hashes.sha256 token)
            ≡ (x.key_hash == p.hashes.sha256 token)
      kept_hash token key_id now x = ground arith

  abbrev new_key : User → String → List String → ℕ → Text → ℕ → ApiKey
  new_key user label scopes id raw_key now = record {
    id = id;
    user_id = user.id;
    label = label;
    key_prefix = take 12 raw_key;
    key_hash = p.hashes.sha256 raw_key;
    scopes = scopes;
    created_at = now;
    last_used_at = none;
    revoked_at = none;
    expires_at = none;
  }

  find-add :
      (h : String) (rows : List ApiKey) (id : ℕ) (k : ApiKey)
      → any (λ x. x.id == id || x.key_hash == h) rows ≡ false
      → k.key_hash ≡ h
      → find (λ x. x.key_hash == h) (rows ++ k ∷ []) ≡ some k
  find-add h [] id k free e = ground arith
  find-add h (x ∷ rows) id k free e = ground (arith, find-add h rows id k)

  -- A new key authenticates the active account that it was made for, with the account's present
  -- role, at any time after.
  pub create_api_key-authenticate :
      (user : User) (label : String) (scopes : List String) (id : ℕ) (raw_key : Text)
      (now later : ℕ) (w w' : World R) (made : ApiKey × Text)
      → create_api_key p user label scopes id raw_key now w ≡ (ok made, w')
      → find (λ u. u.id == user.id) w.db.users ≡ some user
      → user.is_active ≡ true
      → authenticate_api_key p cfg decode later w'.stored raw_key
        ≡ principal_of p cfg decode later api_key (some id) user
  unfolding create_api_key authenticate_api_key
  create_api_key-authenticate user label scopes id raw_key now later w w' made done there on =
      elim (Result-cases (role_enum p.roles user)) [
        | inr (e, failed) ↦ cc (rw failed at done)
        | inl (role, ranked) ↦
            elim (Bool-cases
              (any (λ x. x.id == id || x.key_hash == p.hashes.sha256 raw_key) w.db.api_keys)) [
                | inl taken ↦ cc (rw (ranked, taken) at done)
                | inr free ↦
                    let k = new_key user label scopes id raw_key now in
                    let e = ap (λ x. x.1.stored) (rw (ranked, free) at done) in
                    let found = find-add (p.hashes.sha256 raw_key) w.db.api_keys id k free refl in
                    subst
                      (λ d.
                        authenticate_api_key p cfg decode later d raw_key
                        ≡ principal_of p cfg decode later api_key (some id) user)
                      e (rw found (rw there (rw on refl)))
              ]
      ]
