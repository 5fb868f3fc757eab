-- ===== src/Prelude/Equality.antt =====
-- Python's `==` and `in`, for every type whose equality is decidable.
use Prim.Native.Nat.{ℕ}
use Prim.Native.String.{String}
use mathlib.Core.Path.{◌≡◌, refl, ap}
use mathlib.Core.Logic.{ite, dite, ◌↔◌}
use mathlib.Core.Bool.{Bool, true, false, ◌||◌, cond, not, Bool-discrete}
use mathlib.Core.List.{List, [], ◌∷◌}
use mathlib.Core.Option.{Option, none, some, none-ne-some, some-ne-none, some-injective}
use native.Mathlib.Decide.{ℕ_discrete}
use native.Mathlib.Omega.{arith}
use text.Mathlib.Text
use text.Mathlib.TextEquality.{eq_iff}

pub record Eq {ℓ} (A : Type ℓ) : Type ℓ where
  pub dec : Discrete A

module _ {ℓ} {A : Type ℓ} ⦃e : Eq A⦄ where
  infix 50 ◌==◌
  abbrev pub ◌==◌ : A → A → Bool
  a == b = ite (e.dec a b) true false

  abbrev pub contains : List A → A → Bool
  contains [] a = false
  contains (x ∷ xs) a = a == x || contains xs a

  pub ==_iff : (a b : A) → ((a == b) ≡ true) ↔ (a ≡ b)
  ==_iff a b = ground arith

  pub ==_refl : (a : A) → (a == a) ≡ true
  ==_refl a = ground arith

  -- a dict's `get`, and a table's row by its key
  abbrev pub lookup {κ} : {V : Type κ} → A → List (A × V) → Option V
  lookup k [] = none
  lookup k ((j, v) ∷ d) = cond (k == j) (some v) (lookup k d)

  -- `d[k] = v`, which keeps a present key's place
  abbrev pub insert {κ} : {V : Type κ} → A → V → List (A × V) → List (A × V)
  insert k v [] = (k, v) ∷ []
  insert k v ((j, w) ∷ d) = let rest = insert k v d in cond (k == j) ((k, v) ∷ d) ((j, w) ∷ rest)

  pub lookup-insert {κ} :
      {V : Type κ} (j k : A) (v : V) (d : List (A × V))
      → lookup j (insert k v d) ≡ cond (j == k) (some v) (lookup j d)
  lookup-insert j k v [] = refl
  lookup-insert j k v ((i, w) ∷ d) = ground (arith, lookup-insert j k v d)

  option_dec : Discrete (Option A)
  option_dec none none = yes refl
  option_dec none (some b) = no (none-ne-some b)
  option_dec (some a) none = no (some-ne-none a)
  option_dec (some a) (some b) =
      dite (e.dec a b) (λ p. yes (ap some p)) (λ n. no (λ p. n (some-injective a b p)))

  instance unfoldable pub option_eq : Eq (Option A)
  unfolding option_dec
  option_eq = record { dec = option_dec }

instance unfoldable pub nat_eq : Eq ℕ
nat_eq = record { dec = ℕ_discrete }

unfoldable pub string_dec : Discrete String
string_dec s t =
    dite (Bool-discrete (Text.◌==◌ s t) true) (λ same. yes ((eq_iff s t).0 same))
      (λ differ. no (λ p. differ ((eq_iff s t).1 p)))

instance unfoldable pub string_eq : Eq String
unfolding string_dec
string_eq = record { dec = string_dec }

-- the truth of a text that may be absent
abbrev pub is_set : Option String → Bool
is_set none = false
is_set (some s) = not (s == "")

text_dec : Discrete (List ℕ)
text_dec [] [] = yes refl
text_dec [] (y ∷ t) = no (λ p. cc)
text_dec (x ∷ s) [] = no (λ p. cc)
text_dec (x ∷ s) (y ∷ t) =
    dite (ℕ_discrete x y)
      (λ p. dite (text_dec s t) (λ q. yes (cons_eq p q)) (λ n. no (λ r. n (tail_eq r))))
      (λ n. no (λ r. n (head_eq r)))
  where
    cons_eq : x ≡ y → s ≡ t → x ∷ s ≡ y ∷ t
    cons_eq p q = cc

    tail_eq : x ∷ s ≡ y ∷ t → s ≡ t
    tail_eq r = cc

    head_eq : x ∷ s ≡ y ∷ t → x ≡ y
    head_eq r = cc

instance unfoldable pub text_eq : Eq (List ℕ)
unfolding text_dec
text_eq = record { dec = text_dec }
