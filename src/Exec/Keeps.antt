-- ===== src/Exec/Keeps.antt =====
-- A predicate on the state that an action keeps, whether it returns or raises.
use agntspark_gateway.Prelude.{◌≡◌, refl, Bool, true, false}
use agntspark_gateway.Errors.{Error}
use agntspark_gateway.Exec.{
  Exec, Result, checked, ok, err, pure, raise, lift, reads, gets, continue, ◌>>=◌, ◌>>◌, refuse_if,
}

pub record Keeps {ℓ κ} {S A : Type ℓ} (P : S → Type κ) (m : Exec S A) : Type (ℓ ⊔ κ) where
  pub after : (s : S) → P s → P (m s).1

module _ {ℓ κ} {S A : Type ℓ} (P : S → Type κ) where
  -- behind a check of its body
  pub checked-Holds :
      (valid : Bool) (m : Exec S A) (s : S) → P s → P (m s).1 → P (checked valid m s).1
  checked-Holds true m s before after = after
  checked-Holds false m s before after = before

module _ {ℓ κ} {S A : Type ℓ} {P : S → Type κ} where
  pub Keeps-pure : (a : A) → Keeps P (pure a)
  Keeps-pure a = record { after = λ s h. h }

  pub Keeps-raise : (e : Error) → Keeps P (raise {A = A} e)
  Keeps-raise e = record { after = λ s h. h }

  pub Keeps-lift : (r : Result A) → Keeps P (lift r)
  Keeps-lift r = record { after = λ s h. h }

  pub Keeps-reads : (f : S → Result A) → Keeps P (reads f)
  Keeps-reads f = record { after = λ s h. h }

  pub Keeps-gets : (f : S → A) → Keeps P (gets f)
  Keeps-gets f = record { after = λ s h. h }

module _ {ℓ κ} {S A B : Type ℓ} {P : S → Type κ} where
  pub Keeps-continue :
      (r : Result A) (f : A → Exec S B)
      → ((a : A) → r ≡ ok a → Keeps P (f a))
      → Keeps P (continue r f)
  Keeps-continue (ok a) f k = k a refl
  Keeps-continue (err e) f k = Keeps-raise e

  pub Keeps-bind :
      (m : Exec S A) (f : A → Exec S B) → Keeps P m → ((a : A) → Keeps P (f a)) → Keeps P (m >>= f)
  Keeps-bind m f km kf = record {
    after = λ s h. let (r, s') = m s in (Keeps-continue r f (λ a _. kf a)).after s' (km.after s h);
  }

module _ {κ} {S A : Type 0} {P : S → Type κ} where
  pub Keeps-guard :
      (test : Bool) (e : Error) (m : Exec S A) → Keeps P m → Keeps P (lift (refuse_if test e) >> m)
  Keeps-guard true e m k = Keeps-raise e
  Keeps-guard false e m k = k

pub ruleset keeps_rules = (Keeps-pure, Keeps-raise, Keeps-lift, Keeps-reads, Keeps-gets, Keeps-bind)
