-- ===== src/Slug/Host.antt =====
-- Which hosts routers/ingress.py takes for an agent's, and that it finds the slug of a public URL.
use agntspark_gateway.Prelude.{
  ℕ, zero, suc, ◌+◌, ◌-◌, ◌≡◌, ◌≢◌, ◌↔◌, refl, sym, ap, ◌∙◌, Bool, true, false, not, some, [], ◌∷◌,
  ◌++◌, arith, take, drop, length, length-append, ◌||◌, nat_eq, text_eq, append_assoc, append-nil,
}
use agntspark_gateway.Prelude.Characters.{codes, lower, rstrip, before, has_char}
use agntspark_gateway.Models.{Text}
use agntspark_gateway.Slug.{
  is_dot, new_slug, public_url, normal_host, domain_suffix, slug_under, slug_from_host,
}
use agntspark_gateway.Slug.Label.{IsLabel, new_slug-IsLabel, every, is_label_char, last_is}

take-append : (s t : Text) → take (length s) (s ++ t) ≡ s
take-append [] t = refl
take-append (c ∷ s) t = ap (◌∷◌ c) (take-append s t)

drop-append : (s t : Text) → drop (length s) (s ++ t) ≡ t
drop-append [] t = refl
drop-append (c ∷ s) t = drop-append s t

take-append-drop : (n : ℕ) (s : Text) → take n s ++ drop n s ≡ s
take-append-drop zero s = refl
take-append-drop (suc n) [] = refl
take-append-drop (suc n) (c ∷ s) = ap (◌∷◌ c) (take-append-drop n s)

-- the hosts under a domain are the labels before it
slug_under_iff :
    (host domain s : Text)
    → (slug_under host domain ≡ some s)
      ↔ ((host ≡ s ++ domain) × (s ≢ []) × (has_char b'.' s ≡ false))
unfolding slug_under
slug_under_iff host domain s = (
  λ h. let cut = length host - length domain in ground (arith, take-append-drop cut host),
  λ h.
      let size : length host ≡ length s + length domain = ap length h.0 ∙ length-append s domain in
      let cut : length host - length domain ≡ length s = omega arith in
      ground (arith, cut, take-append s domain, drop-append s domain, h.0),
)

before_nil : before b':' [] ≡ []
unfolding before
before_nil = refl

before_sep : (rest : Text) → before b':' (b':' ∷ rest) ≡ []
unfolding before
before_sep rest = ground arith

-- With a base domain set, a host is an agent's exactly if, without its port, trailing dots and
-- upper case, it is one non-empty label before a dot and the base domain; that label is the slug.
pub slug_from_host_iff :
    (table : ℕ → Text) (c : ℕ) (base host s : Text)
    → (slug_from_host table (some (c ∷ base)) host ≡ some s) ↔ (
        (normal_host table host ≡ s ++ domain_suffix table (c ∷ base))
        × (s ≢ [])
        × (has_char b'.' s ≡ false))
unfolding slug_from_host
slug_from_host_iff table c base host s =
    slug_under_iff (normal_host table host) (domain_suffix table (c ∷ base)) s

-- A configured base domain: no port, and no trailing dot.
pub record IsDomain (table : ℕ → Text) (base : Text) : Type 0 where
  pub no_port : has_char b':' base ≡ false
  pub no_final_dot : last_is (λ c. not (is_dot c)) base ≡ true
  pub no_final_dot_lower : last_is (λ c. not (is_dot c)) (lower table base) ≡ true

before-append :
    (sep : ℕ) (s t : Text) → has_char sep s ≡ false → before sep (s ++ t) ≡ s ++ before sep t
unfolding before has_char
before-append sep [] t h = refl
before-append sep (c ∷ s) t h = ground (arith, before-append sep s t)

rstrip-last : (p : ℕ → Bool) (s : Text) → last_is (λ c. not (p c)) s ≡ true → rstrip p s ≡ s
unfolding rstrip
rstrip-last p [] h = refl
rstrip-last p (c ∷ []) h = ground arith
rstrip-last p (c ∷ d ∷ s) h = rw (rstrip-last p (d ∷ s) h)

lower-append :
    (table : ℕ → Text) (s t : Text) → lower table (s ++ t) ≡ lower table s ++ lower table t
unfolding lower
lower-append table [] t = refl
lower-append table (c ∷ s) t = simp (lower-append table s t, append_assoc)

lower-label : (table : ℕ → Text) (s : Text) → every is_label_char s ≡ true → lower table s ≡ s
unfolding lower
lower-label table [] h = refl
lower-label table (c ∷ s) h = ground (arith, lower-label table s)

has_char-label :
    (d : ℕ) (s : Text)
    → is_label_char d ≡ false
    → every is_label_char s ≡ true
    → has_char d s ≡ false
unfolding has_char
has_char-label d [] k h = refl
has_char-label d (c ∷ s) k h = ground (arith, has_char-label d s k)

has_char-append : (d : ℕ) (s t : Text) → has_char d (s ++ t) ≡ (has_char d s || has_char d t)
unfolding has_char
has_char-append d [] t = refl
has_char-append d (c ∷ s) t = ground (arith, has_char-append d s t)

last_is-cons : (p : ℕ → Bool) (c : ℕ) (s : Text) → last_is p s ≡ true → last_is p (c ∷ s) ≡ true
last_is-cons p c [] h = cc
last_is-cons p c (d ∷ s) h = h

last_is-append : (p : ℕ → Bool) (s t : Text) → last_is p t ≡ true → last_is p (s ++ t) ≡ true
last_is-append p [] t h = h
last_is-append p (c ∷ s) t h = last_is-cons p c (s ++ t) (last_is-append p s t h)

module _ (table : ℕ → Text) (s base : Text) (label : IsLabel s) (domain : IsDomain table base) where
  host_no_port : has_char b':' (s ++ b'.' ∷ base) ≡ false
  unfolding has_char
  host_no_port = ground (
    arith,
    has_char-append b':' s (b'.' ∷ base),
    has_char-label b':' s (ground arith) label.chars,
    domain.no_port,
  )

  before_port :
      (rest : Text)
      → before b':' rest ≡ []
      → before b':' ((s ++ b'.' ∷ base) ++ rest) ≡ s ++ b'.' ∷ base
  before_port rest e =
      rw (before-append b':' (s ++ b'.' ∷ base) rest host_no_port) (rw e (rw append-nil))

  normal_host_public :
      (rest : Text)
      → before b':' rest ≡ []
      → normal_host table ((s ++ b'.' ∷ base) ++ rest) ≡ s ++ domain_suffix table base
  unfolding normal_host domain_suffix
  normal_host_public rest e =
      let kept = rstrip-last is_dot (s ++ b'.' ∷ base) (
        last_is-append (λ c. not (is_dot c)) s (b'.' ∷ base)
          (last_is-cons (λ c. not (is_dot c)) b'.' base domain.no_final_dot)) in
      rw (before_port rest e) (
        rw kept (
          rw (lower-append table s (b'.' ∷ base)) (
            rw (lower-label table s label.chars) (
              rw (rstrip-last is_dot (lower table base) domain.no_final_dot_lower)
                (ground arith)))))

  label-nonempty : s ≢ []
  label-nonempty = ground (arith, label.first)

-- The host of an agent's public URL, with or without a port, is routed to the agent's slug.
pub slug_from_host-public_url :
    (table : ℕ → Text) (name : Text) (draws : ℕ → ℕ) (c : ℕ) (base port : Text)
    → IsDomain table (c ∷ base)
    → let slug = new_slug table name draws in
      let host = slug ++ b'.' ∷ c ∷ base in
      (public_url (some (c ∷ base)) slug ≡ some (codes "https://" ++ host))
      × (slug_from_host table (some (c ∷ base)) host ≡ some slug)
      × (slug_from_host table (some (c ∷ base)) (host ++ b':' ∷ port) ≡ some slug)
unfolding public_url
slug_from_host-public_url table name draws c base port domain =
    let slug = new_slug table name draws in
    let label = (new_slug-IsLabel table name draws).0 in
    let normal = normal_host_public table slug (c ∷ base) label domain in
    let shape : (slug ≢ []) × (has_char b'.' slug ≡ false) = (
      label-nonempty table slug (c ∷ base) label domain,
      has_char-label b'.' slug (ground arith) label.chars,
    ) in
    (
      refl,
      (slug_from_host_iff table c base (slug ++ b'.' ∷ c ∷ base) slug).1 (
        ap (normal_host table) (sym (append-nil (slug ++ b'.' ∷ c ∷ base))) ∙ normal [] before_nil,
        shape.0,
        shape.1,
      ),
      (slug_from_host_iff table c base ((slug ++ b'.' ∷ c ∷ base) ++ b':' ∷ port) slug).1
          (normal (b':' ∷ port) (before_sep port), shape.0, shape.1),
    )
