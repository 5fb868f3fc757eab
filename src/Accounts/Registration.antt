-- ===== src/Accounts/Registration.antt =====
-- What a registration of services/auth_service.py commits, and how many accounts invites admit.
use agntspark_gateway.Prelude.{
  ℕ, ◌+◌, ◌≤◌, ◌≡◌, ◌⊎◌, inl, inr, refl, ap, subst, Option, none, some, List, [], ◌∷◌, ◌++◌, arith,
  find, any, length, length-append, ◌==◌, nat_eq, string_eq, text_eq, Option-cases, Bool-cases,
}
use agntspark_gateway.Prelude.Characters.{strip, is_space}
use agntspark_gateway.Errors.{invalid_invite}
use agntspark_gateway.Exec.{Result, ok, err, continue}
use agntspark_gateway.Models.{Text, User, Invite}
use agntspark_gateway.World.{World, Platform, rollback, request}
use agntspark_gateway.Settings.{invite_only}
use agntspark_gateway.Invites.{
  InviteStatus, invite_status, active, revoked, expired, used, usable, code_hash_of, claim_invite,
}
use agntspark_gateway.Invites.Uses.{uses_left, uses_left-count_use, active-left}
use agntspark_gateway.Accounts.{
  RegisterRequest, new_user, is_taken_by, insert_user, claim, check_invite, register_user,
}

module _ {R : Type 0} (p : Platform R) where
  -- a claim that returns has taken a use away; one that raises has done nothing
  abbrev Claims : World R → Result (Unit {0}) × World R → Type 0
  Claims w (ok _, w') =
      (uses_left w'.db.invites + 1 ≤ uses_left w.db.invites)
      × (w'.db.users ≡ w.db.users)
      × (w'.stored ≡ w.stored)
  Claims w (err e, w') = w' ≡ w

  usable-active :
      (now : ℕ) (o : Option Invite)
      → ((i : Invite) × (o ≡ some i) × (invite_status now i ≡ active) × (usable now o ≡ ok i))
        ⊎ (usable now o ≡ err invalid_invite)
  usable-active now none = inr refl
  usable-active now (some i) = by_status (invite_status now i) refl
    where
      by_status :
          (s : InviteStatus)
          → invite_status now i ≡ s
          → ((j : Invite) × (some i ≡ some j)
              × (invite_status now j ≡ active)
              × (usable now (some i) ≡ ok j))
            ⊎ (usable now (some i) ≡ err invalid_invite)
      by_status active e = inl (i, refl, e, rw (e, usable) refl)
      by_status revoked e = inr (rw (e, usable) refl)
      by_status expired e = inr (rw (e, usable) refl)
      by_status used e = inr (rw (e, usable) refl)

  claim-Claims : (now : ℕ) (code : Option Text) (w : World R) → Claims w (claim p now code w)
  unfolding claim_invite
  claim-Claims now none w = refl
  claim-Claims now (some code) w = elim (Bool-cases (strip is_space code == [])) [
    | inl blank ↦ rw blank refl
    | inr given ↦
        elim (usable-active now (find (λ i. i.code_hash == code_hash_of p code) w.db.invites)) [
          | inl (i, found, on, e) ↦
              rw (given, e)
                (
                  uses_left-count_use (λ i. i.code_hash == code_hash_of p code) w.db.invites i found
                      (active-left now i on),
                  refl,
                  refl,
                )
          | inr e ↦ rw (given, e) refl
        ]
  ]

  -- an invite-only registration that returns has committed the account and the use of an invite
  -- together; one that raises has committed nothing
  abbrev pub Registers : RegisterRequest → World R → Result User × World R → Type 0
  Registers r w (ok u, w') =
      (w'.stored.users ≡ w.db.users ++ new_user p r ∷ [])
      × (uses_left w'.stored.invites + 1 ≤ uses_left w.db.invites)
  Registers r w (err e, w') = w'.stored ≡ w.stored

  inserted :
      (r : RegisterRequest) (w : World R) (x : Result (Unit {0}) × World R)
      → Claims w x
      → Registers r w (continue x.0 (λ _. insert_user p r) x.1)
  unfolding insert_user
  inserted r w (err e, w') h = ap (λ v. v.stored) h
  inserted r w (ok _, w') h = elim (Bool-cases (any (is_taken_by p r) w'.db.users)) [
    | inl taken ↦ rw taken h.2
    | inr free ↦ rw free (ap (λ us. us ++ new_user p r ∷ []) h.1, h.0)
  ]

  register-Registers :
      (r : RegisterRequest) (w : World R) → Registers r w (register_user p invite_only r w)
  unfolding register_user check_invite
  register-Registers r w = elim (Option-cases (find (λ u. u.email == r.email) w.db.users)) [
    | inl absent ↦
        rw absent
          (inserted r w (claim p r.now r.invite_code w) (claim-Claims r.now r.invite_code w))
    | inr (u, found) ↦ rw found refl
  ]

  request-Registers :
      (r : RegisterRequest) (w v : World R) (x : Result User × World R)
      → Registers r w x
      → Registers r w (x.0, rollback x.1)
  request-Registers r w v (ok u, w') h = h
  request-Registers r w v (err e, w') h = h

  -- Where registration takes an invite, a request to register commits the account and the use of an
  -- invite together, or it raises and commits neither: a failed registration burns no use.
  pub register_user-Registers :
      (r : RegisterRequest) (w : World R)
      → Registers r (rollback w) (request (register_user p invite_only r) w)
  register_user-Registers r w =
      request-Registers r (rollback w) w (register_user p invite_only r (rollback w))
        (register-Registers r (rollback w))

  -- the requests, one after the other
  abbrev pub registered : List RegisterRequest → World R → World R
  registered [] w = w
  registered (r ∷ rs) w = registered rs (request (register_user p invite_only r) w).1

  one_registered :
      (r : RegisterRequest) (w : World R) (x : Result User × World R)
      → Registers r w x
      → length x.1.stored.users + uses_left x.1.stored.invites
          ≤ length w.db.users + uses_left w.db.invites
        ⊎ (x.1.stored ≡ w.stored)
  one_registered r w (ok u, w') h =
      inl (rw h.0 (omega (arith, h.1, length-append {0} w.db.users (new_user p r ∷ []))))
  one_registered r w (err e, w') h = inr h

  pub registered-accounts :
      (rs : List RegisterRequest) (w : World R)
      → length (registered rs w).stored.users + uses_left (registered rs w).stored.invites
        ≤ length w.stored.users + uses_left w.stored.invites
  registered-accounts [] w = omega arith
  registered-accounts (r ∷ rs) w =
      let x = request (register_user p invite_only r) w in
      let rest = registered-accounts rs x.1 in
      elim (one_registered r (rollback w) x (register_user-Registers r w)) [
        | inl le ↦ omega (arith, rest, le)
        | inr same ↦
            subst
              (λ d.
                length (registered rs x.1).stored.users
                  + uses_left (registered rs x.1).stored.invites
                ≤ length d.users + uses_left d.invites)
              same rest
      ]
