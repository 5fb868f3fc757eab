-- ===== src/Slug/Label.antt =====
-- A slug is a DNS label.
use agntspark_gateway.Prelude.{
  ℕ, zero, suc, ◌≤◌, ◌≡◌, refl, Bool, true, false, not, [], ◌∷◌, ◌++◌, arith, take, length,
  length-append, length-take-le, ◌||◌, ◌&&◌, nat_eq, text_eq, ◌∙◌,
}
use agntspark_gateway.Prelude.Characters.{codes, is_slug_char, lower, lstrip, rstrip, strip}
use agntspark_gateway.Models.{Text}
use agntspark_gateway.Slug.{is_dash, dashed, or_text, choice, suffix, new_slug}

abbrev pub every : (ℕ → Bool) → Text → Bool
every p [] = true
every p (c ∷ s) = p c && every p s

abbrev pub is_label_char : ℕ → Bool
is_label_char c = is_slug_char c || is_dash c

abbrev pub first_is : (ℕ → Bool) → Text → Bool
first_is p [] = false
first_is p (c ∷ s) = p c

abbrev pub last_is : (ℕ → Bool) → Text → Bool
last_is p [] = false
last_is p (c ∷ []) = p c
last_is p (c ∷ d ∷ s) = last_is p (d ∷ s)

-- RFC 1035: letters, digits and hyphens, no hyphen at either end, 63 at most
pub record IsLabel (s : Text) : Type 0 where
  pub chars : every is_label_char s ≡ true
  pub first : first_is is_slug_char s ≡ true
  pub last : last_is is_slug_char s ≡ true
  pub size : length s ≤ 63

every-dashed : (b : Bool) (s : Text) → every is_label_char (dashed b s) ≡ true
unfolding dashed
every-dashed b [] = refl
every-dashed b (c ∷ s) = ground (arith, every-dashed (not (is_slug_char c)) s)

module _ (p : ℕ → Bool) where
  every-take : (n : ℕ) (s : Text) → every p s ≡ true → every p (take n s) ≡ true
  every-take zero s h = refl
  every-take (suc n) [] h = refl
  every-take (suc n) (c ∷ s) h = ground (arith, every-take n s)

  every-append : (s t : Text) → every p s ≡ true → every p t ≡ true → every p (s ++ t) ≡ true
  every-append [] t h k = k
  every-append (c ∷ s) t h k = ground (arith, every-append s t)

  module _ (q : ℕ → Bool) where
    every-lstrip : (s : Text) → every p s ≡ true → every p (lstrip q s) ≡ true
    unfolding lstrip
    every-lstrip [] h = refl
    every-lstrip (c ∷ s) h = ground (arith, every-lstrip s)

    every-rstrip : (s : Text) → every p s ≡ true → every p (rstrip q s) ≡ true
    unfolding rstrip
    every-rstrip [] h = refl
    every-rstrip (c ∷ s) h = ground (arith, every-rstrip s)

    pub every-strip : (s : Text) → every p s ≡ true → every p (strip q s) ≡ true
    unfolding strip
    every-strip s h = every-rstrip (lstrip q s) (every-lstrip s h)

-- the first character, if there is one
abbrev starts : (ℕ → Bool) → Text → Bool
starts p [] = true
starts p (c ∷ s) = p c

starts-lstrip : (q : ℕ → Bool) (s : Text) → starts (λ c. not (q c)) (lstrip q s) ≡ true
unfolding lstrip
starts-lstrip q [] = refl
starts-lstrip q (c ∷ s) = ground (arith, starts-lstrip q s)

starts-rstrip : (p q : ℕ → Bool) (s : Text) → starts p s ≡ true → starts p (rstrip q s) ≡ true
unfolding rstrip
starts-rstrip p q [] h = refl
starts-rstrip p q (c ∷ s) h = ground arith

starts-strip : (q : ℕ → Bool) (s : Text) → starts (λ c. not (q c)) (strip q s) ≡ true
unfolding strip
starts-strip q s = starts-rstrip (λ c. not (q c)) q (lstrip q s) (starts-lstrip q s)

length-rstrip : (q : ℕ → Bool) (s : Text) → length (rstrip q s) ≤ length s
unfolding rstrip
length-rstrip q [] = omega arith
length-rstrip q (c ∷ s) = ground (arith, length-rstrip q s)

length-lstrip : (q : ℕ → Bool) (s : Text) → length (lstrip q s) ≤ length s
unfolding lstrip
length-lstrip q [] = omega arith
length-lstrip q (c ∷ s) = ground (arith, length-lstrip q s)

length-strip : (q : ℕ → Bool) (s : Text) → length (strip q s) ≤ length s
unfolding strip
length-strip q s = omega (arith, length-rstrip q (lstrip q s), length-lstrip q s)

-- what `slug_base` needs of the text before its default
or_text-first :
    (s : Text)
    → every is_label_char s ≡ true
    → starts (λ c. not (is_dash c)) s ≡ true
    → first_is is_slug_char (or_text s (codes "agent")) ≡ true
or_text-first [] h k = refl
or_text-first (c ∷ s) h k = ground arith

or_text-every :
    (s : Text)
    → every is_label_char s ≡ true
    → every is_label_char (or_text s (codes "agent")) ≡ true
or_text-every [] h = refl
or_text-every (c ∷ s) h = h

or_text-length : (s : Text) → length s ≤ 40 → length (or_text s (codes "agent")) ≤ 40
or_text-length [] h = omega arith
or_text-length (c ∷ s) h = h

choice-slug_char : (i : ℕ) → is_slug_char (choice i) ≡ true
choice-slug_char i = ground arith

suffix-chars : (draws : ℕ → ℕ) → every is_label_char (b'-' ∷ suffix draws) ≡ true
suffix-chars draws = ground (
  arith,
  choice-slug_char (draws 0),
  choice-slug_char (draws 1),
  choice-slug_char (draws 2),
  choice-slug_char (draws 3),
  choice-slug_char (draws 4),
  choice-slug_char (draws 5),
)

last-append :
    (p : ℕ → Bool) (s : Text) (c : ℕ) (t : Text) → last_is p (s ++ c ∷ t) ≡ last_is p (c ∷ t)
last-append p [] c t = refl
last-append p (d ∷ []) c t = refl
last-append p (d ∷ e ∷ s) c t = last-append p (e ∷ s) c t

first-append : (p : ℕ → Bool) (s t : Text) → first_is p s ≡ true → first_is p (s ++ t) ≡ true
first-append p [] t h = cc
first-append p (c ∷ s) t h = h

-- Whatever the agent's name and the random draws, its slug is a DNS label of 47 characters at most.
pub new_slug-IsLabel :
    (table : ℕ → Text) (name : Text) (draws : ℕ → ℕ)
    → IsLabel (new_slug table name draws) × (length (new_slug table name draws) ≤ 47)
unfolding new_slug
new_slug-IsLabel table name draws =
    let inner = strip is_dash (dashed false (lower table name)) in
    let cut = strip is_dash (take 40 inner) in
    let chars = every-strip is_label_char is_dash (take 40 inner) (
      every-take is_label_char 40 inner (
        every-strip is_label_char is_dash (dashed false (lower table name))
          (every-dashed false (lower table name)))) in
    let base = or_text cut (codes "agent") in
    let short : length base ≤ 40 =
      or_text-length cut
        (omega (arith, length-strip is_dash (take 40 inner), length-take-le 40 inner)) in
    let size : length (base ++ b'-' ∷ suffix draws) ≤ 47 =
      omega (arith, length-append {0} base (b'-' ∷ suffix draws)) in
    (
      record {
        chars =
            every-append is_label_char base (b'-' ∷ suffix draws) (or_text-every cut chars)
              (suffix-chars draws);
        first =
            first-append is_slug_char base (b'-' ∷ suffix draws)
              (or_text-first cut chars (starts-strip is_dash (take 40 inner)));
        last = last-append is_slug_char base b'-' (suffix draws) ∙ choice-slug_char (draws 5);
        size = omega arith;
      },
      size,
    )
