-- ===== src/Admin/Access.antt =====
-- An administrator keeps their own access, whatever routers/admin.py is asked.
use agntspark_gateway.Prelude.{
  ℕ, String, ◌≡◌, inl, inr, refl, sym, ap, subst, ◌∙◌, Bool, true, false, not, Option, none, some,
  List, arith, find, find-test, find-modify, modified, modify_where, cond, ◌==◌, ◌&&◌, ◌||◌,
  string_eq, nat_eq, Option-cases, Bool-cases, ==_iff,
}
use agntspark_gateway.Exec.{Result-cases, ok_eq, ok}
use agntspark_gateway.Models.{User}
use agntspark_gateway.Roles.{admin, str_to_role}
use agntspark_gateway.Quota.{role_enum}
use agntspark_gateway.World.{World, Platform}
use agntspark_gateway.Admin.{AdminUserUpdate, takes_access, new_role, updated, update_user}

admin_name : str_to_role "admin" ≡ ok admin
unfolding str_to_role string_eq
admin_name = refl

or_left : (a b : Bool) → (a || b) ≡ false → a ≡ false
or_left false b h = refl
or_left true b h = cc

or_right : (a b : Bool) → (a || b) ≡ false → b ≡ false
or_right false b h = h
or_right true b h = cc

named : (name : String) → not (name == "admin") ≡ false → name ≡ "admin"
named name h = ground arith

some_eq : (a b : User) → some a ≡ some b → a ≡ b
some_eq a b h = cc

module _ {R : Type 0} (p : Platform R) where
  -- an active account with the administrators' role
  abbrev pub IsAdmin : ℕ → List User → Type 0
  IsAdmin id users =
      (u : User) × (find (λ x. x.id == id) users ≡ some u)
      × (u.is_active ≡ true)
      × (u.role ≡ p.roles.value admin)

  kept_active :
      (on : Option Bool) (was : Bool)
      → elim on [ none ↦ false | some b ↦ not b ] ≡ false
      → was ≡ true
      → elim on [ none ↦ was | some b ↦ b ] ≡ true
  kept_active none was h w = w
  kept_active (some true) was h w = refl
  kept_active (some false) was h w = cc

  kept_role :
      (body : AdminUserUpdate) (u : User) (name : Option String) (role : ℕ)
      → body.role ≡ name
      → elim name [ none ↦ false | some r ↦ not (r == "admin") ] ≡ false
      → new_role p.roles.value body u ≡ ok role
      → u.role ≡ p.roles.value admin
      → role ≡ p.roles.value admin
  unfolding new_role
  kept_role body u none role e h made is = sym (ok_eq u.role role (rw e at made)) ∙ is
  kept_role body u (some name) role e h made is =
      sym (ok_eq (p.roles.value admin) role (rw (e, named name h, admin_name) at made))

  -- an update that takes no access leaves an active administrator one
  kept :
      (body : AdminUserUpdate) (u : User) (role : ℕ)
      → takes_access body ≡ false
      → new_role p.roles.value body u ≡ ok role
      → u.is_active ≡ true
      → u.role ≡ p.roles.value admin
      → ((updated body role u).is_active ≡ true)
        × ((updated body role u).role ≡ p.roles.value admin)
  kept body u role keeps made on is =
      let first : Bool = elim body.role [ none ↦ false | some r ↦ not (r == "admin") ] in
      let second : Bool = elim body.is_active [ none ↦ false | some b ↦ not b ] in
      (
        kept_active body.is_active u.is_active (or_right first second keeps) on,
        kept_role body u body.role role refl (or_left first second keeps) made is,
      )

  same_id :
      (body : AdminUserUpdate) (role id target : ℕ) (x : User)
      → ((cond (x.id == target) (updated body role x) x).id == id) ≡ (x.id == id)
  same_id body role id target x = ground arith

  same_user :
      (u user : User) (principal_id : ℕ) (users : List User)
      → find (λ x. x.id == principal_id) users ≡ some u
      → find (λ x. x.id == user.id) users ≡ some user
      → (u.id == user.id) ≡ true
      → (user.id ≡ principal_id) × (u ≡ user)
  same_user u user principal_id users found there target =
      let here : u.id ≡ principal_id =
        (==_iff u.id principal_id).0 (find-test (λ x. x.id == principal_id) users u found) in
      let same : u.id ≡ user.id = (==_iff u.id user.id).0 target in
      let e : user.id ≡ principal_id = sym same ∙ here in
      (e, some_eq u user (sym found ∙ ap (λ i. find (λ x. x.id == i) users) (sym e) ∙ there))

  own_access : (a b : ℕ) (t : Bool) → a ≡ b → (a == b && t) ≡ false → t ≡ false
  own_access a b t e h = ground arith

  written :
      (principal_id : ℕ) (body : AdminUserUpdate) (role : ℕ) (user : User) (users : List User)
      → (user.id == principal_id && takes_access body) ≡ false
      → find (λ x. x.id == user.id) users ≡ some user
      → new_role p.roles.value body user ≡ ok role
      → IsAdmin principal_id users
      → IsAdmin principal_id (modify_where (λ x. x.id == user.id) (updated body role) users)
  written principal_id body role user users keeps there made (u, found, on, is) =
      let moved =
        find-modify (λ x. x.id == user.id) (λ x. x.id == principal_id) (updated body role) users
          (same_id body role principal_id user.id)
        ∙ ap (modified (λ x. x.id == user.id) (updated body role)) found in
      elim (Bool-cases (u.id == user.id)) [
        | inr other ↦ (u, moved ∙ ap (λ b. some (cond b (updated body role u) u)) other, on, is)
        | inl target ↦
            let mine = same_user u user principal_id users found there target in
            let keeps' : takes_access body ≡ false =
              own_access user.id principal_id (takes_access body) mine.0 keeps in
            let stays =
              kept body user role keeps' made (subst (λ x. x.is_active ≡ true) mine.1 on)
                (subst (λ x. x.role ≡ p.roles.value admin) mine.1 is) in
            (
              updated body role user,
              moved
                  ∙ ap (λ b. some (cond b (updated body role u) u)) target
                  ∙ ap (λ x. some (updated body role x)) mine.1,
              stays.0,
              stays.1,
            )
      ]

  -- An active administrator who updates an account, their own or another, is an active administrator
  -- afterwards too, whatever the update asks for and however the request ends.
  pub update_user-IsAdmin :
      (principal_id user_id : ℕ) (body : AdminUserUpdate) (w : World R)
      → IsAdmin principal_id w.db.users
      → IsAdmin principal_id (update_user p principal_id user_id body w).1.db.users
  unfolding update_user
  update_user-IsAdmin principal_id user_id body w h =
      elim (Option-cases (find (λ u. u.id == user_id) w.db.users)) [
        | inl absent ↦ rw absent h
        | inr (user, found) ↦
            let here : user.id ≡ user_id =
              (==_iff user.id user_id).0 (find-test (λ u. u.id == user_id) w.db.users user found) in
            let there =
              subst (λ i. find (λ u. u.id == i) w.db.users ≡ some user) (sym here) found in
            elim (Bool-cases (user.id == principal_id && takes_access body)) [
              | inl refused ↦ rw found (rw refused h)
              | inr keeps ↦ elim (Result-cases (new_role p.roles.value body user)) [
                | inr (e, bad) ↦ rw found (rw keeps (rw bad h))
                | inl (role, made) ↦
                    elim (Result-cases (role_enum p.roles (updated body role user))) [
                      | inr (e, bad) ↦ rw found (
                          rw keeps (
                            rw made (
                              rw bad (
                                written principal_id body role user w.db.users keeps there made
                                  h))))
                      | inl (r, ranked) ↦ rw found (
                          rw keeps (
                            rw made (
                              rw ranked (
                                written principal_id body role user w.db.users keeps there made
                                  h))))
                    ]
              ]
            ]
      ]
