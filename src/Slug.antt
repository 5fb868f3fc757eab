-- ===== src/Slug.antt =====
-- Public hostnames: `_new_slug` and `_public_url` of services/agent_service.py, `slug_from_host` of
-- routers/ingress.py, and `_bearer_token` there.
pub mod Label
pub mod Host
use agntspark_gateway.Prelude.{
  ℕ, ◌+◌, ◌-◌, ◌%◌, Bool, true, false, not, Option, none, some, List, [], ◌∷◌, ◌++◌, ltb, take,
  length, if◌then◌else◌, ◌==◌, ◌||◌, nat_eq, text_eq,
}
use agntspark_gateway.Prelude.Characters.{
  codes, is_slug_char, is_space, lower, rstrip, strip, before, after, has_char, ends_with,
}
use agntspark_gateway.Models.{Text}

abbrev pub is_dash : ℕ → Bool
is_dash c = c == b'-'

abbrev pub is_dot : ℕ → Bool
is_dot c = c == b'.'

-- `re.sub(r"[^a-z0-9]+", "-", s)`; the flag says that a run is being replaced
unfoldable pub dashed : Bool → Text → Text
dashed in_run [] = []
dashed in_run (c ∷ s) =
    let rest = dashed (not (is_slug_char c)) s in
    if is_slug_char c then c ∷ rest else if in_run then rest else b'-' ∷ rest

-- `s or default`
abbrev pub or_text : Text → Text → Text
or_text [] default = default
or_text (c ∷ s) default = c ∷ s

-- `secrets.choice(_SLUG_SUFFIX_ALPHABET)` at a random number
abbrev pub choice : ℕ → ℕ
choice i = let k = i % 36 in if ltb k 26 then b'a' + k else b'0' + (k - 26)

-- six choices; `draws` are the random numbers
abbrev pub suffix : (ℕ → ℕ) → Text
suffix draws =
    choice (draws 0)
    ∷ choice (draws 1)
    ∷ choice (draws 2)
    ∷ choice (draws 3)
    ∷ choice (draws 4)
    ∷ choice (draws 5)
    ∷ []

unfoldable pub slug_base : (ℕ → Text) → Text → Text
unfolding lower dashed strip
slug_base table name =
    or_text (strip is_dash (take 40 (strip is_dash (dashed false (lower table name)))))
      (codes "agent")

unfoldable pub new_slug : (ℕ → Text) → Text → (ℕ → ℕ) → Text
unfolding slug_base
new_slug table name draws = slug_base table name ++ b'-' ∷ suffix draws

-- `_public_url`; an empty base domain counts as unset
unfoldable pub public_url : Option Text → Text → Option Text
public_url none slug = none
public_url (some []) slug = none
public_url (some (c ∷ base)) slug = some (codes "https://" ++ slug ++ b'.' ∷ c ∷ base)

-- `host.split(":", 1)[0].rstrip(".").lower()`
unfoldable pub normal_host : (ℕ → Text) → Text → Text
unfolding before rstrip lower
normal_host table host = lower table (rstrip is_dot (before b':' host))

-- `"." + base.lower().rstrip(".")`
unfoldable pub domain_suffix : (ℕ → Text) → Text → Text
unfolding rstrip lower
domain_suffix table base = b'.' ∷ rstrip is_dot (lower table base)

unfoldable pub slug_under : Text → Text → Option Text
unfolding has_char ends_with
slug_under host domain =
    let slug = take (length host - length domain) host in
    if not (ends_with host domain)
    then none
    else if slug == [] || has_char b'.' slug
    then none
    else some slug

unfoldable pub slug_from_host : (ℕ → Text) → Option Text → Text → Option Text
unfolding normal_host domain_suffix slug_under
slug_from_host table none host = none
slug_from_host table (some []) host = none
slug_from_host table (some (c ∷ base)) host =
    slug_under (normal_host table host) (domain_suffix table (c ∷ base))

unfoldable pub bearer_token : (ℕ → Text) → Text → Text
unfolding before after lower strip
bearer_token table authorization =
    if lower table (before b' ' authorization) == codes "bearer"
    then strip is_space (after b' ' authorization)
    else []
