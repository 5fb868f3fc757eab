-- ===== src/Ingress/Sends.antt =====
-- Responses that send a request on, and the container that is drawn from a list.
use agntspark_gateway.Prelude.{
  ℕ, zero, suc, ◌≡◌, ◌≢◌, ◌⊎◌, inl, inr, refl, subst, Bool, true, false, cond, List, [], ◌∷◌,
  select, if◌then◌else◌, text_eq,
}
use agntspark_gateway.Exec.{Result, ok, err}
use agntspark_gateway.External.{Container}
use agntspark_gateway.World.{World}
use agntspark_gateway.Ingress.{Response, choose}

-- a container of the list
abbrev pub IsIn : Container → List Container → Type 0
IsIn c [] = ⊥
IsIn c (d ∷ rest) = (d ≡ c) ⊎ IsIn c rest

pub choose-IsIn :
    (n : ℕ) (c : Container) (rest : List Container) → IsIn (choose n c rest) (c ∷ rest)
unfolding choose
choose-IsIn n c [] = inl refl
choose-IsIn zero c (d ∷ rest) = inl refl
choose-IsIn (suc n) c (d ∷ rest) = inr (choose-IsIn n d rest)

IsIn-cond :
    (b : Bool) (c d : Container) (rows : List Container)
    → IsIn c (cond b (d ∷ rows) rows)
    → ((d ≡ c) × (b ≡ true)) ⊎ IsIn c rows
IsIn-cond true c d rows (inl e) = inl (e, refl)
IsIn-cond true c d rows (inr r) = inr r
IsIn-cond false c d rows h = inr h

pub select-IsIn :
    (q : Container → Bool) (c : Container) (rows : List Container)
    → IsIn c (select q rows)
    → IsIn c rows × (q c ≡ true)
select-IsIn q c [] h = elim h [ ]
select-IsIn q c (d ∷ rows) h = elim (IsIn-cond (q d) c d (select q rows) h) [
  | inl (e, yes_q) ↦ (inl e, subst (λ x. q x ≡ true) e yes_q)
  | inr r ↦ let done = select-IsIn q c rows r in (inr done.0, done.1)
]

pub not_sent : {A : Type 0} {status : ℕ} → status ≢ 204 → status ≡ 204 → A
not_sent differ same = elim (differ same) [ ]

-- what holds of the response and the state where the status is 204
abbrev pub Sends : {R : Type 0} → (Response → World R → Type 0) → Result Response × World R → Type 0
Sends P (ok r, w') = r.status ≡ 204 → P r w'
Sends P (err e, w') = Unit

pub Sends-map :
    {R : Type 0} (P Q : Response → World R → Type 0) (x : Result Response × World R)
    → ((r : Response) (w : World R) → P r w → Q r w)
    → Sends P x
    → Sends Q x
Sends-map P Q (ok r, w) f h = λ sent. f r w (h sent)
Sends-map P Q (err e, w) f h = tt

pub Sends-if :
    {R : Type 0} (P : Response → World R → Type 0) (b : Bool) (x y : Result Response × World R)
    → (b ≡ true → Sends P x)
    → (b ≡ false → Sends P y)
    → Sends P (if b then x else y)
Sends-if P true x y f g = f refl
Sends-if P false x y f g = g refl
