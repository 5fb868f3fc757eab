-- ===== src/Roles.antt =====
-- roles.py. `Role` is an enumeration of agntspark_core with the three members that roles.py names;
-- its values and its order are parameters.
use agntspark_gateway.Prelude.{ℕ, String, Bool, Option, List, [], ◌∷◌}
use agntspark_gateway.Prelude.{Eq, lookup, string_eq}
use agntspark_gateway.Exec.{Result, or_raise}
use agntspark_gateway.Errors.{unhandled}

pub data Role : Type 0 where
  viewer operator admin : Role

role_discrete : Discrete Role
role_discrete = hlevel

instance unfoldable pub role_eq : Eq Role
unfolding role_discrete
role_eq = record { dec = role_discrete }

-- agntspark_core.auth.Role: `int(role)`, `Role(value)` (none is the ValueError) and `role.can`.
pub record RoleTable : Type 0 where
  pub value : Role → ℕ
  pub of_value : ℕ → Option Role
  pub can : Role → Role → Bool

abbrev pub role_names : List (Role × String)
role_names = (viewer, "viewer") ∷ (operator, "developer") ∷ (admin, "admin") ∷ []

-- `{v: k for k, v in _ROLE_TO_STR.items()}`
abbrev pub inverse : List (Role × String) → List (String × Role)
inverse [] = []
inverse ((r, name) ∷ rest) = (name, r) ∷ inverse rest

unfoldable pub role_to_str : Role → Result String
unfolding role_eq
role_to_str r = or_raise (lookup r role_names) unhandled

unfoldable pub str_to_role : String → Result Role
str_to_role name = or_raise (lookup name (inverse role_names)) unhandled
