-- ===== src/Accounts/Login.antt =====
-- Login of services/auth_service.py: who it lets in.
use agntspark_gateway.Prelude.{
  String, ◌≡◌, ◌↔◌, ◌⊎◌, inl, inr, refl, subst, Bool, true, false, not, Option, none, some, List,
  [], ◌∷◌, ◌++◌, arith, find, any, ◌==◌, ◌||◌, nat_eq, string_eq, text_eq, Option-cases, Bool-cases,
  ==_refl,
}
use agntspark_gateway.Errors.{authentication}
use agntspark_gateway.Exec.{Result, ok, err, continue}
use agntspark_gateway.External.{IsHashes}
use agntspark_gateway.Models.{Database, User}
use agntspark_gateway.World.{World, Platform}
use agntspark_gateway.Settings.{RegistrationMode, open_registration, invite_only, closed}
use agntspark_gateway.Accounts.{
  RegisterRequest, new_user, is_taken_by, insert_user, check_invite, register_user,
  authenticate_user, checked,
}

result-cases : {A : Type 0} (r : Result A) → ((a : A) × (r ≡ ok a)) ⊎ ((e : _) × (r ≡ err e))
result-cases (ok a) = inl (a, refl)
result-cases (err e) = inr (e, refl)

module _ {R : Type 0} (p : Platform R) where
  checked_iff :
      (password : String) (u : User) (o : Option User)
      → ((checked p password o ≡ ok u) ↔ (
          (o ≡ some u)
          × (u.is_active ≡ true)
          × (p.hashes.verify_password password u.password_hash ≡ true)))
        × ((checked p password o ≡ err authentication)
            ⊎ ((v : User) × (checked p password o ≡ ok v)))
  checked_iff password u none = ((λ h. cc, λ h. cc), inl refl)
  checked_iff password u (some v) =
      elim (Bool-cases
        (not v.is_active || not (p.hashes.verify_password password v.password_hash))) [
          | inl bad ↦ rw bad ((λ h. cc, λ h. ground arith), inl refl)
          | inr good ↦ rw good ((λ h. ground arith, λ h. ground arith), inr (v, refl))
        ]

  -- Login succeeds exactly for the account of that address, if it is active and the password verifies;
  -- it fails with the same error whichever of these does not hold.
  pub authenticate_user_iff :
      (db : Database) (email password : String) (u : User)
      → ((authenticate_user p db email password ≡ ok u) ↔ (
          (find (λ x. x.email == email) db.users ≡ some u)
          × (u.is_active ≡ true)
          × (p.hashes.verify_password password u.password_hash ≡ true)))
        × ((authenticate_user p db email password ≡ err authentication)
            ⊎ ((v : User) × (authenticate_user p db email password ≡ ok v)))
  unfolding authenticate_user
  authenticate_user_iff db email password u =
      checked_iff password u (find (λ x. x.email == email) db.users)

  find-add :
      (q : User → Bool) (rows : List User) (u : User)
      → find q rows ≡ none
      → q u ≡ true
      → find q (rows ++ u ∷ []) ≡ some u
  find-add q [] u h t = ground arith
  find-add q (x ∷ rows) u h t = ground (arith, find-add q rows u)

  find-taken :
      (r : RegisterRequest) (rows : List User)
      → any (is_taken_by p r) rows ≡ false
      → find (λ u. u.email == r.email) rows ≡ none
  find-taken r [] h = refl
  find-taken r (u ∷ rows) h = ground (arith, find-taken r rows)

  -- a registration that returned
  abbrev LogsIn : RegisterRequest → Result User × World R → Type 0
  LogsIn r (ok u, w') = authenticate_user p w'.stored r.email r.password ≡ ok u
  LogsIn r (err e, w') = Unit

  inserted-LogsIn :
      (laws : IsHashes p.hashes) (r : RegisterRequest) (x : Result (Unit {0}) × World R)
      → LogsIn r (continue x.0 (λ _. insert_user p r) x.1)
  unfolding insert_user authenticate_user
  inserted-LogsIn laws r (err e, w') = tt
  inserted-LogsIn laws r (ok _, w') = elim (Bool-cases (any (is_taken_by p r) w'.db.users)) [
    | inl taken ↦ rw taken tt
    | inr free ↦
        let added =
          find-add (λ u. u.email == r.email) w'.db.users (new_user p r)
            (find-taken r w'.db.users free) (==_refl r.email) in
        rw (free, added) (rw (laws.verify_password-hash_password r.salt r.password) refl)
  ]

  register-LogsIn :
      (laws : IsHashes p.hashes) (mode : RegistrationMode) (r : RegisterRequest) (w : World R)
      → LogsIn r (register_user p mode r w)
  unfolding register_user
  register-LogsIn laws closed r w = tt
  register-LogsIn laws open_registration r w =
      elim (Option-cases (find (λ u. u.email == r.email) w.db.users)) [
        | inl absent ↦ rw absent (inserted-LogsIn laws r (check_invite p open_registration r w))
        | inr (u, found) ↦ rw found tt
      ]
  register-LogsIn laws invite_only r w =
      elim (Option-cases (find (λ u. u.email == r.email) w.db.users)) [
        | inl absent ↦ rw absent (inserted-LogsIn laws r (check_invite p invite_only r w))
        | inr (u, found) ↦ rw found tt
      ]

  -- Whoever has registered, in whatever mode, can log in with the same address and password, and is
  -- the account that was returned.
  pub register_user-authenticate :
      (laws : IsHashes p.hashes) (mode : RegistrationMode) (r : RegisterRequest) (w w' : World R)
      (u : User)
      → register_user p mode r w ≡ (ok u, w')
      → authenticate_user p w'.stored r.email r.password ≡ ok u
  register_user-authenticate laws mode r w w' u h =
      subst (LogsIn r) h (register-LogsIn laws mode r w)
