-- ===== src/Exec/Yields.antt =====
-- What holds of the value and the state that an action returns with; nothing is asked of a raise.
use agntspark_gateway.Prelude.{◌≡◌, refl, subst, Bool, true, false}
use agntspark_gateway.Exec.{Exec, checked, Result, ok, err, pure, continue, ◌>>=◌}

module _ {ℓ κ} {S A : Type ℓ} (P : A → S → Type κ) where
  abbrev pub Yields : Result A × S → Type κ
  Yields (ok a, s) = P a s
  Yields (err e, s) = Unit

  pub Yields-ok : (out : Result A × S) (a : A) (s : S) → out ≡ (ok a, s) → Yields out → P a s
  Yields-ok out a s e h = subst Yields e h

  pub record Returns (m : Exec S A) : Type (ℓ ⊔ κ) where
    pub after : (s : S) → Yields (m s)

  pub Returns-checked : (valid : Bool) (m : Exec S A) → Returns m → Returns (checked valid m)
  Returns-checked true m h = h
  Returns-checked false m h = record { after = λ s. tt }

module _ {ℓ κ} {S A B : Type ℓ} (P : B → S → Type κ) where
  continue-Yields :
      (r : Result A) (f : A → Exec S B) (s : S)
      → ((a : A) → r ≡ ok a → Yields P (f a s))
      → Yields P (continue r f s)
  continue-Yields (ok a) f s k = k a refl
  continue-Yields (err e) f s k = tt

  -- what is asked of the rest, for each value that the first action returns
  pub Returns-bind :
      (m : Exec S A) (f : A → Exec S B)
      → ((a : A) (s : S) → (m s).0 ≡ ok a → Returns P (f a))
      → Returns P (m >>= f)
  Returns-bind m f k = record {
    after = λ s. continue-Yields (m s).0 f (m s).1 (λ a e. (k a s e).after (m s).1);
  }

  map-Yields :
      (Q : A → S → Type κ) (g : A → B) (r : Result A) (s : S)
      → ((a : A) (t : S) → Q a t → P (g a) t)
      → Yields Q (r, s)
      → Yields P (continue r (λ a. pure (g a)) s)
  map-Yields Q g (ok a) s k h = k a s h
  map-Yields Q g (err e) s k h = tt

  pub Returns-map :
      (Q : A → S → Type κ) (m : Exec S A) (g : A → B)
      → ((a : A) (t : S) → Q a t → P (g a) t)
      → Returns Q m
      → Returns P (m >>= λ a. pure (g a))
  Returns-map Q m g k h = record { after = λ s. map-Yields Q g (m s).0 (m s).1 k (h.after s) }
