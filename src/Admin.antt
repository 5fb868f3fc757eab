-- ===== src/Admin.antt =====
-- routers/admin.py: `update_user`, once `require_role` has let the administrator in.
pub mod Access
use agntspark_gateway.Prelude.{
  lookup, is_none, ℕ, String, Bool, true, false, not, Option, none, some, List, [], ◌∷◌, find,
  modify_where, length, select, if◌then◌else◌, ◌==◌, ◌&&◌, ◌||◌, string_eq, nat_eq,
}
use agntspark_gateway.Errors.{Error, user_not_found, authorisation}
use agntspark_gateway.Exec.{
  Exec, Result, ok, err, pure, reads, gets, lift, modify, or_raise, refuse_if, and_then, ◌>>=◌,
  ◌>>◌,
}
use agntspark_gateway.Models.{Database, User}
use agntspark_gateway.Plans.{plans}
use agntspark_gateway.Roles.{Role, str_to_role}
use agntspark_gateway.Quota.{owned, role_enum}
use agntspark_gateway.World.{World, Platform, commit, on_users}

pub record AdminUserUpdate : Type 0 where
  pub role : Option String
  pub plan : Option String
  pub is_active : Option Bool

-- `_known_plan`
unfoldable pub known_plan : AdminUserUpdate → Bool
known_plan body = elim body.plan [ none ↦ true | some plan ↦ not (is_none (lookup plan plans)) ]

-- the update takes admin access away
abbrev pub takes_access : AdminUserUpdate → Bool
takes_access body =
    elim body.role [ none ↦ false | some r ↦ not (r == "admin") ]
    || elim body.is_active [ none ↦ false | some on ↦ not on ]

-- the value that `user.role` takes; a name that is no role is a ValueError
unfoldable pub new_role : (Role → ℕ) → AdminUserUpdate → User → Result ℕ
unfolding str_to_role
new_role value body user = elim body.role [
  | none ↦ ok user.role
  | some name ↦ and_then (str_to_role name) (λ r. ok (value r))
]

abbrev pub updated : AdminUserUpdate → ℕ → User → User
updated body role user = record user {
  role = role;
  plan = elim body.plan [ none ↦ user.plan | some plan ↦ plan ];
  is_active = elim body.is_active [ none ↦ user.is_active | some on ↦ on ];
}

module _ {R : Type 0} (p : Platform R) where
  -- `update_user`: the user, and the number of their agents
  unfoldable pub update_user : ℕ → ℕ → AdminUserUpdate → Exec (World R) (User × ℕ)
  unfolding new_role owned role_enum
  update_user principal_id user_id body = do
    user ← reads (λ w. or_raise (find (λ u. u.id == user_id) w.db.users) (user_not_found user_id))
    lift (refuse_if (user.id == principal_id && takes_access body) (authorisation principal_id))
    role ← lift (new_role p.roles.value body user)
    modify (on_users (modify_where (λ u. u.id == user.id) (updated body role)))
    commit
    lift (role_enum p.roles (updated body role user))
    agents ← gets (λ w. length (owned user.id w.db.agents))
    pure (updated body role user, agents)
