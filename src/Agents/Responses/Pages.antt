-- ===== src/Agents/Responses/Pages.antt =====
-- The pages of `list_agents` taken together.
use agntspark_gateway.Prelude.{
  ℕ, zero, suc, ◌+◌, ◌-◌, ◌*◌, ◌≤◌, ◌≡◌, refl, sym, ap, ◌∙◌, String, true, false, Option, List, [],
  ◌∷◌, ◌++◌, length, select, take, drop, ltb, arith,
}
use native.Mathlib.Numerals.{unary_clauses}
use agntspark_gateway.Models.{Agent}
use agntspark_gateway.Agents.Responses.{Order, IsOrder, is_listed, list_agents}

suc_add : (m n : ℕ) → suc m + n ≡ suc (m + n)
suc_add m n = omega arith

module _ {ℓ} {A : Type ℓ} where
  take-add : (m n : ℕ) (xs : List A) → take (m + n) xs ≡ take m xs ++ take n (drop m xs)
  take-add zero n xs = ap (λ k. take k xs) (omega arith)
  take-add (suc m) zero [] = simp unary_clauses
  take-add (suc m) (suc n) [] = simp unary_clauses
  take-add (suc m) n (x ∷ xs) =
      ap (λ k. take k (x ∷ xs)) (suc_add m n) ∙ ap (λ t. x ∷ t) (take-add m n xs)

  take-all : (n : ℕ) (xs : List A) → length xs ≤ n → take n xs ≡ xs
  take-all zero [] h = refl
  take-all (suc n) [] h = refl
  take-all zero (x ∷ xs) h = absurd (omega (arith, h))
  take-all (suc n) (x ∷ xs) h = ap (λ t. x ∷ t) (take-all n xs (omega (arith, h)))

  length-select-all : (xs : List A) → length (select (λ _. true) xs) ≡ length xs
  length-select-all [] = refl
  length-select-all (x ∷ xs) = ap suc (length-select-all xs)

module _ (order : Order) (user_id : ℕ) (status tag : Option String) (size : ℕ)
    (rows : List Agent) where
  -- what a client has seen after the first `n` pages
  unfoldable pub seen : ℕ → List Agent
  seen zero = []
  seen (suc n) = seen n ++ (list_agents order user_id status tag (suc n) size rows).0

  -- all agents that the listing is about, newest first
  abbrev pub listed : List Agent
  listed = order (select (is_listed user_id status tag) rows)

  zero_times : 0 ≡ 0 * size
  zero_times = omega arith

  page_offset : (n : ℕ) → (suc n - 1) * size ≡ n * size
  page_offset n = ap (λ k. k * size) (omega arith)

  seen-take : (n : ℕ) → seen n ≡ take (n * size) listed
  unfolding seen list_agents
  seen-take zero = ap (λ k. take k listed) zero_times
  seen-take (suc n) = rw (seen-take n) (
      ap (λ k. take (n * size) listed ++ take size (drop k listed)) (page_offset n)
      ∙ sym (take-add (n * size) size listed)
      ∙ ap (λ k. take k listed) (omega arith))

  pub list_agents-pages :
      IsOrder order
      → (n : ℕ)
      → (seen n ≡ take (n * size) listed)
        × (ltb (n * size) (list_agents order user_id status tag n size rows).1 ≡ false
            → seen n ≡ listed)
  unfolding list_agents
  list_agents-pages o n =
      let meeting = select (is_listed user_id status tag) rows in
      let count : length listed ≡ length meeting =
        sym (length-select-all listed) ∙ o.same (λ _. true) meeting ∙ length-select-all meeting in
      (seen-take n, λ last. seen-take n ∙ take-all (n * size) listed (ground (arith, last, count)))
