-- ===== src/Quota/Sums.antt =====
-- The sums of quota_service.current_usage, when one agent's row is written.
use agntspark_gateway.Prelude.{
  ℕ, ◌+◌, ◌≤◌, ◌≡◌, ◌≢◌, refl, subst, true, none, some, List, [], ◌∷◌, arith, ◌==◌, find, sum_of,
  All, nat_eq, string_eq,
}
use agntspark_gateway.Models.{Agent, write}
use agntspark_gateway.Quota.{active, is_active_status, round3, whole}

-- no two rows have one id
abbrev pub HasUniqueIds : List Agent → Type 0
HasUniqueIds [] = Unit
HasUniqueIds (a ∷ rest) = All (λ b. b.id ≢ a.id) rest × HasUniqueIds rest

-- a row for which `user_id` is charged
abbrev pub IsCharged : ℕ → Agent → Type 0
IsCharged user_id b = (b.user_id ≡ user_id) × (is_active_status b.status ≡ true)

module _ (user_id : ℕ) (f : Agent → ℕ) (b : Agent) where
  sum-active-absent :
      (rows : List Agent)
      → All (λ a. a.id ≢ b.id) rows
      → sum_of f (active user_id none (write b rows)) ≡ sum_of f (active user_id (some b.id) rows)
  unfolding active
  sum-active-absent [] h = refl
  sum-active-absent (a ∷ rows) h = ground (arith, sum-active-absent rows h.1)

  -- Once the row is written, the user is charged for it beside its other agents.
  pub sum-active-write :
      (rows : List Agent) (old : Agent)
      → HasUniqueIds rows
      → find (λ a. a.id == b.id) rows ≡ some old
      → IsCharged user_id b
      → sum_of f (active user_id none (write b rows))
        ≡ sum_of f (active user_id (some b.id) rows) + f b
  unfolding active
  sum-active-write [] old u e c = cc
  sum-active-write (a ∷ rows) old u e c = elim (string_eq.dec a.id b.id) [
    | yes p ↦
        let absent = sum-active-absent rows (subst (λ i. All (λ x. x.id ≢ i) rows) p u.0) in
        ground arith
    | no n ↦ ground (arith, sum-active-write rows old u.1)
  ]

pub round3-whole : (a b : ℕ) → round3 (whole a + whole b) ≡ whole (a + b)
unfolding round3
round3-whole a b = ground arith

pub round3-add : (a b : ℕ) → round3 (round3 a + round3 b) ≡ round3 a + round3 b
unfolding round3
round3-add a b = ground arith

-- `round(x, 3)` is off by half a thousandth at most.
pub round3_bounds : (x : ℕ) → (x ≤ round3 x + 500) × (round3 x ≤ x + 500)
unfolding round3
round3_bounds x = ground arith
