-- ===== src/Agents/Rows.antt =====
-- The table of agents after a row is added or deleted.
use agntspark_gateway.Prelude.{
  ℕ, String, ◌≡◌, ◌≢◌, refl, true, false, cond, List, [], ◌∷◌, ◌++◌, arith, All, delete_where, ◌==◌,
  string_eq, nat_eq, text_eq, dite,
}
use agntspark_gateway.Models.{Agent}
use agntspark_gateway.Quota.Sums.{HasUniqueIds}
use agntspark_gateway.Agents.{is_taken}
use agntspark_gateway.Agents.Ownership.{others, IsOwn}

module _ (user_id : ℕ) (id : String) where
  pub others-delete :
      (rows : List Agent)
      → IsOwn user_id id rows
      → others user_id (delete_where (λ a. a.id == id) rows) ≡ others user_id rows
  others-delete [] h = refl
  others-delete (a ∷ rows) h = ground (arith, others-delete rows h.1, h.0)

  pub IsOwn-delete :
      (rows : List Agent)
      → IsOwn user_id id rows
      → IsOwn user_id id (delete_where (λ a. a.id == id) rows)
  IsOwn-delete [] h = tt
  IsOwn-delete (a ∷ rows) h =
      elim (string_eq.dec a.id id)
        as (λ d. IsOwn user_id id (
          cond (dite d (λ _. true) (λ _. false)) (delete_where (λ x. x.id == id) rows)
            (a ∷ delete_where (λ x. x.id == id) rows))) [
              | yes e ↦ IsOwn-delete rows h.1
              | no n ↦ (h.0, IsOwn-delete rows h.1)
            ]

  All-ne-delete :
      (j : String) (rows : List Agent)
      → All (λ x. x.id ≢ j) rows
      → All (λ x. x.id ≢ j) (delete_where (λ a. a.id == id) rows)
  All-ne-delete j [] h = tt
  All-ne-delete j (a ∷ rows) h =
      elim (string_eq.dec a.id id)
        as (λ d.
          All (λ x. x.id ≢ j)
            (cond (dite d (λ _. true) (λ _. false)) (delete_where (λ x. x.id == id) rows)
              (a ∷ delete_where (λ x. x.id == id) rows))) [
                | yes e ↦ All-ne-delete j rows h.1
                | no n ↦ (h.0, All-ne-delete j rows h.1)
              ]

  pub HasUniqueIds-delete :
      (rows : List Agent) → HasUniqueIds rows → HasUniqueIds (delete_where (λ a. a.id == id) rows)
  HasUniqueIds-delete [] h = tt
  HasUniqueIds-delete (a ∷ rows) h =
      elim (string_eq.dec a.id id)
        as (λ d. HasUniqueIds (
          cond (dite d (λ _. true) (λ _. false)) (delete_where (λ x. x.id == id) rows)
            (a ∷ delete_where (λ x. x.id == id) rows))) [
              | yes e ↦ HasUniqueIds-delete rows h.1
              | no n ↦ (All-ne-delete a.id rows h.0, HasUniqueIds-delete rows h.1)
            ]

pub others-add :
    (user_id : ℕ) (rows : List Agent) (a : Agent)
    → a.user_id ≡ user_id
    → others user_id (rows ++ a ∷ []) ≡ others user_id rows
others-add user_id [] a h = ground arith
others-add user_id (b ∷ rows) a h = ground (arith, others-add user_id rows a h)

All-ne-add :
    (id : String) (rows : List Agent) (a : Agent)
    → All (λ x. x.id ≢ id) rows
    → a.id ≢ id
    → All (λ x. x.id ≢ id) (rows ++ a ∷ [])
All-ne-add id [] a h n = (n, tt)
All-ne-add id (b ∷ rows) a h n = (h.0, All-ne-add id rows a h.1 n)

pub HasUniqueIds-add :
    (rows : List Agent) (a : Agent)
    → HasUniqueIds rows
    → is_taken a rows ≡ false
    → HasUniqueIds (rows ++ a ∷ [])
unfolding is_taken
HasUniqueIds-add [] a u h = (tt, tt)
HasUniqueIds-add (b ∷ rows) a u h =
    let ne : a.id ≢ b.id = ground arith in
    (All-ne-add b.id rows a u.0 ne, HasUniqueIds-add rows a u.1 (ground arith))
