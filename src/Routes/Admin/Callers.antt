-- ===== src/Routes/Admin/Callers.antt =====
-- Who may administer, and that the platform does not lose its last administrator.
use agntspark_gateway.Prelude.{
  ℕ, ◌≡◌, refl, sym, ap, ◌∙◌, subst, true, false, Option, some, List, [], ◌∷◌, find, any, ◌==◌,
  ◌&&◌, ◌||◌, string_eq, nat_eq, Option-cases, Bool-cases, inl, inr, is_none, ◌++◌,
}
use agntspark_gateway.Prelude.Characters.{strip, is_space}
use agntspark_gateway.Errors.{Error, unhandled}
use agntspark_gateway.Exec.{
  Exec, Result, ok, err, pure, or_raise, lift, continue, ◌>>=◌, Result-cases, ok_eq,
}
use agntspark_gateway.Exec.Keeps.{checked-Holds}
use agntspark_gateway.Models.{Database, Invite, Text, User}
use agntspark_gateway.Roles.{Role, RoleTable, admin}
use agntspark_gateway.Quota.{role_enum}
use agntspark_gateway.Schemas.Bodies.{invite_valid}
use agntspark_gateway.Settings.{GatewaySettings}
use agntspark_gateway.World.{World, Platform, rollback}
use agntspark_gateway.Access.{Decode, Principal, require_role}
use agntspark_gateway.Access.Tokens.{require_role-ok}
use agntspark_gateway.Admin.{
  AdminUserUpdate, known_plan, takes_access, new_role, updated, update_user,
}
use agntspark_gateway.Admin.Access.{IsAdmin, update_user-IsAdmin}
use agntspark_gateway.Invites.{create_invite, invite_prefix, revoke_invite}
use agntspark_gateway.Routes.Admin.{
  AdminUserOut, InviteOut, InviteCreateRequest, require_admin, admin_user_out, invite_out,
  create_invite_route, revoke_invite_route, update_user_route,
}

-- The requests of /v1/admin that change something, and when and with which token they are made.
pub data AdminChange : Type 0 where
  post_invite : InviteCreateRequest → ℕ → Text → AdminChange
  remove_invite : ℕ → AdminChange
  patch_user : ℕ → AdminUserUpdate → AdminChange

pub record AdminCall : Type 0 where
  pub creds : Option Text
  pub now : ℕ
  pub change : AdminChange

-- What the gateway relies on of `Role`: only an administrator can do what asks for one, and a role's
-- value reads back as that role.
pub record IsRoleTable (roles : RoleTable) : Type 0 where
  pub can-admin : (r : Role) → roles.can r admin ≡ true → r ≡ admin
  pub of_value-value : (n : ℕ) (r : Role) → roles.of_value n ≡ some r → n ≡ roles.value r

module _ {R : Type 0} (p : Platform R) (cfg : GatewaySettings) (decode : Decode) where
  -- the state after the handler's run
  abbrev pub administer : Option Text → ℕ → AdminChange → World R → World R
  administer creds now (post_invite body id token) w =
      (create_invite_route p cfg decode now creds body id token w).1
  administer creds now (remove_invite id) w = (revoke_invite_route p cfg decode now creds id w).1
  administer creds now (patch_user id body) w =
      (update_user_route p cfg decode now creds id body w).1

  -- a request, in a session of its own
  abbrev pub administered : AdminCall → World R → World R
  administered c w = rollback (administer c.creds c.now c.change (rollback w))

  abbrev pub all_administered : List AdminCall → World R → World R
  all_administered [] w = w
  all_administered (c ∷ calls) w = all_administered calls (administered c w)

  abbrev pub HasAdmin : Database → Type 0
  HasAdmin db = (id : ℕ) × IsAdmin p id db.users

  refused :
      {A : Type 0} (now : ℕ) (creds : Option Text) (e : Error) (f : Principal → Exec (World R) A)
      (w : World R)
      → require_role p cfg decode now admin false w.db creds ≡ err e
      → (require_admin p cfg decode now creds >>= f) w ≡ (err e, w)
  unfolding require_admin
  refused now creds e f w denied = rw denied refl

  let_in :
      {A : Type 0} (now : ℕ) (creds : Option Text) (who : Principal)
      (f : Principal → Exec (World R) A) (w : World R)
      → require_role p cfg decode now admin false w.db creds ≡ ok who
      → (require_admin p cfg decode now creds >>= f) w ≡ f who w
  unfolding require_admin
  let_in now creds who f w passed = rw passed refl

  create_invite-users :
      (by : ℕ) (note : Text) (uses : ℕ) (days : Option ℕ) (id : ℕ) (token : Text) (now : ℕ)
      (w : World R)
      → w.stored.users ≡ w.db.users
      → (create_invite p by note uses days id token now w).1.stored.users ≡ w.db.users
  unfolding create_invite
  create_invite-users by note uses days id token now w same =
      elim (Bool-cases (
        any (λ i. i.id == id || i.code_hash == p.hashes.sha256 (invite_prefix ++ token))
          w.db.invites)) [ inl taken ↦ rw taken same | inr free ↦ rw free refl ]

  revoke_invite-users :
      (id now : ℕ) (w : World R)
      → w.stored.users ≡ w.db.users
      → (revoke_invite id now w).1.stored.users ≡ w.db.users
  unfolding revoke_invite
  revoke_invite-users id now w same = elim (Option-cases (find (λ i. i.id == id) w.db.invites)) [
    | inl absent ↦ rw absent same
    | inr (i, found) ↦ elim (Bool-cases (is_none i.revoked_at)) [
      | inl live ↦ rw found (rw live refl)
      | inr over ↦ rw found (rw over same)
    ]
  ]

  -- what is committed after an update is what the session has
  update_user-stored :
      (by id : ℕ) (body : AdminUserUpdate) (w : World R)
      → w.stored.users ≡ w.db.users
      → (update_user p by id body w).1.stored.users ≡ (update_user p by id body w).1.db.users
  unfolding update_user
  update_user-stored by id body w same = elim (Option-cases (find (λ u. u.id == id) w.db.users)) [
    | inl absent ↦ rw absent same
    | inr (user, found) ↦ elim (Bool-cases (user.id == by && takes_access body)) [
      | inl own ↦ rw found (rw own same)
      | inr other ↦ elim (Result-cases (new_role p.roles.value body user)) [
        | inr (e, bad) ↦ rw found (rw other (rw bad same))
        | inl (role, made) ↦ elim (Result-cases (role_enum p.roles (updated body role user))) [
          | inr (e, bad) ↦ rw found (rw other (rw made (rw bad refl)))
          | inl (r, ranked) ↦ rw found (rw other (rw made (rw ranked refl)))
        ]
      ]
    ]
  ]

  -- what only looks at a result leaves the state as it is
  continue-state :
      {A B : Type 0} (r : Result A) (f : A → Exec (World R) B) (w : World R)
      → ((a : A) → (f a w).1 ≡ w)
      → (continue r f w).1 ≡ w
  continue-state (ok a) f w h = h a
  continue-state (err e) f w h = refl

  -- Without an administrator's role nothing is changed: neither invites, nor accounts, nor anything
  -- else.
  pub administer-refused :
      (creds : Option Text) (now : ℕ) (c : AdminChange) (e : Error) (w : World R)
      → require_role p cfg decode now admin false w.db creds ≡ err e
      → administer creds now c w ≡ w
  unfolding create_invite_route revoke_invite_route update_user_route
  administer-refused creds now (post_invite body id token) e w denied =
      ap (λ o. o.1) (refused now creds e _ w denied)
  administer-refused creds now (remove_invite id) e w denied =
      ap (λ o. o.1) (refused now creds e _ w denied)
  administer-refused creds now (patch_user id body) e w denied =
      ap (λ o. o.1) (refused now creds e _ w denied)

  module _ (law : IsRoleTable p.roles) where
    role_of :
        (n : ℕ) (r : Role)
        → or_raise (p.roles.of_value n) unhandled ≡ ok r
        → p.roles.of_value n ≡ some r
    role_of n r h = elim (Option-cases (p.roles.of_value n)) [
      | inl absent ↦ cc (rw absent at h)
      | inr (x, e) ↦ e ∙ ap some (ok_eq x r (rw e at h))
    ]

    principal-IsAdmin :
        (now : ℕ) (creds : Option Text) (who : Principal) (db : Database)
        → require_role p cfg decode now admin false db creds ≡ ok who
        → IsAdmin p who.user_id db.users
    unfolding role_enum
    principal-IsAdmin now creds who db passed =
        let (may, (token, e, grounds, (u, a))) =
          require_role-ok p cfg decode now db admin false creds who passed in
        let ranked = role_of u.role who.role a.role in
        let value = law.of_value-value u.role who.role ranked in
        (u, a.found, a.active, value ∙ ap p.roles.value (law.can-admin who.role may))

    admitted-HasAdmin :
        (creds : Option Text) (now : ℕ) (c : AdminChange) (who : Principal) (w : World R)
        → w.stored.users ≡ w.db.users
        → require_role p cfg decode now admin false w.db creds ≡ ok who
        → IsAdmin p who.user_id w.db.users
        → IsAdmin p who.user_id (administer creds now c w).stored.users
    unfolding create_invite_route revoke_invite_route update_user_route
    admitted-HasAdmin creds now (post_invite body id token) who w same passed is =
        let make =
          create_invite p who.user_id (strip is_space body.note) body.max_uses body.expires_in_days
            id token now in
        let shown : Invite × Text → Exec (World R) (InviteOut × Text) =
          λ made. pure (invite_out now made.0, made.1) in
        let kept =
          checked-Holds (λ v. v.stored.users ≡ w.db.users)
            (invite_valid body.note body.max_uses body.expires_in_days) (make >>= shown) w same
            (ap (λ v. v.stored.users) (continue-state (make w).0 shown (make w).1 (λ a. refl))
              ∙ create_invite-users who.user_id (strip is_space body.note) body.max_uses
                  body.expires_in_days id token now w same) in
        subst (IsAdmin p who.user_id)
          (sym (ap (λ o. o.1.stored.users) (let_in now creds who _ w passed) ∙ kept)) is
    admitted-HasAdmin creds now (remove_invite id) who w same passed is =
        subst (IsAdmin p who.user_id)
          (sym (
            ap (λ o. o.1.stored.users) (let_in now creds who _ w passed)
            ∙ revoke_invite-users id now w same))
          is
    admitted-HasAdmin creds now (patch_user id body) who w same passed is =
        let change = update_user p who.user_id id body in
        let shown : User × ℕ → Exec (World R) AdminUserOut =
          λ c. lift (admin_user_out p cfg decode now c.0 c.1) in
        let kept =
          checked-Holds (λ v. IsAdmin p who.user_id v.stored.users) (known_plan body)
            (change >>= shown) w (subst (IsAdmin p who.user_id) (sym same) is)
            (subst (IsAdmin p who.user_id)
              (sym (
                ap (λ v. v.stored.users)
                  (continue-state (change w).0 shown (change w).1 (λ a. refl))
                ∙ update_user-stored who.user_id id body w same))
              (update_user-IsAdmin p who.user_id id body w is)) in
        subst (IsAdmin p who.user_id)
          (sym (ap (λ o. o.1.stored.users) (let_in now creds who _ w passed))) kept

    administered-HasAdmin :
        (c : AdminCall) (w : World R) → HasAdmin w.stored → HasAdmin (administered c w).stored
    administered-HasAdmin c w has =
        elim (Result-cases (require_role p cfg decode c.now admin false w.stored c.creds)) [
          | inl (who, passed) ↦ (
            who.user_id,
            admitted-HasAdmin c.creds c.now c.change who (rollback w) refl passed
                (principal-IsAdmin c.now c.creds who w.stored passed),
          )
          | inr (e, denied) ↦
              subst (λ v. HasAdmin v.stored)
                (sym (administer-refused c.creds c.now c.change e (rollback w) denied)) has
        ]

    -- Whatever administrators ask for, in whatever order, and whoever else tries: a platform with an
    -- active administrator committed always has one, if only that role passes a check for it.
    pub all_administered-HasAdmin :
        (calls : List AdminCall) (w : World R)
        → HasAdmin w.stored
        → HasAdmin (all_administered calls w).stored
    all_administered-HasAdmin [] w has = has
    all_administered-HasAdmin (c ∷ calls) w has =
        all_administered-HasAdmin calls (administered c w) (administered-HasAdmin c w has)
