-- ===== src/Prelude/Characters.antt =====
-- The methods of Python's `str` that the code takes texts apart with, over code points. What
-- `lower` does outside ASCII is Unicode's table, a parameter.
use Prim.Native.Nat.{ℕ, ◌+◌, ◌-◌}
use Prim.Native.String.{String}
use Prim.Native.Char.{code}
use mathlib.Core.Bool.{Bool, true, false, ◌&&◌, ◌||◌}
use mathlib.Core.List.{List, [], ◌∷◌, ◌++◌}
use agntspark_gateway.Prelude.Tests.{ltb, leb, if◌then◌else◌}
use agntspark_gateway.Prelude.Equality.{◌==◌, nat_eq, text_eq}
use agntspark_gateway.Prelude.Lists.{length, drop}

abbrev pub codes : String → List ℕ
codes String.[] = []
codes (String.◌∷◌ c s) = code c ∷ codes s

abbrev pub is_lower : ℕ → Bool
is_lower c = leb b'a' c && leb c b'z'

abbrev pub is_upper : ℕ → Bool
is_upper c = leb b'A' c && leb c b'Z'

abbrev pub is_digit : ℕ → Bool
is_digit c = leb b'0' c && leb c b'9'

-- `[a-z0-9]`
abbrev pub is_slug_char : ℕ → Bool
is_slug_char c = is_lower c || is_digit c

-- what `str.isspace` holds of, which `strip()` removes
abbrev pub is_space : ℕ → Bool
is_space c =
    (leb 0x09 c && leb c 0x0d)
    || (leb 0x1c c && leb c 0x20)
    || c == 0x85
    || c == 0xa0
    || c == 0x1680
    || (leb 0x2000 c && leb c 0x200a)
    || c == 0x2028
    || c == 0x2029
    || c == 0x202f
    || c == 0x205f
    || c == 0x3000

-- `s.lower()`
unfoldable pub lower : (ℕ → List ℕ) → List ℕ → List ℕ
lower table [] = []
lower table (c ∷ s) =
    (if ltb c 128 then (if is_upper c then (c + 32) ∷ [] else c ∷ []) else table c) ++ lower table s

-- `s.upper()`
unfoldable pub upper : (ℕ → List ℕ) → List ℕ → List ℕ
upper table [] = []
upper table (c ∷ s) =
    (if ltb c 128 then (if is_lower c then (c - 32) ∷ [] else c ∷ []) else table c) ++ upper table s

-- `s.lstrip(...)` and `s.rstrip(...)` of the characters that pass the test
unfoldable pub lstrip : (ℕ → Bool) → List ℕ → List ℕ
lstrip p [] = []
lstrip p (c ∷ s) = let rest = lstrip p s in if p c then rest else c ∷ s

abbrev pub cons_unless : Bool → ℕ → List ℕ → List ℕ
cons_unless b c [] = if b then [] else c ∷ []
cons_unless b c (d ∷ s) = c ∷ d ∷ s

unfoldable pub rstrip : (ℕ → Bool) → List ℕ → List ℕ
rstrip p [] = []
rstrip p (c ∷ s) = cons_unless (p c) c (rstrip p s)

unfoldable pub strip : (ℕ → Bool) → List ℕ → List ℕ
unfolding lstrip rstrip
strip p s = rstrip p (lstrip p s)

-- what stands before the first `sep`, and after it: `s.split(sep, 1)[0]`, `s.partition(sep)`
unfoldable pub before : ℕ → List ℕ → List ℕ
before sep [] = []
before sep (c ∷ s) = let rest = before sep s in if c == sep then [] else c ∷ rest

unfoldable pub after : ℕ → List ℕ → List ℕ
after sep [] = []
after sep (c ∷ s) = let rest = after sep s in if c == sep then s else rest

-- `c in s`
unfoldable pub has_char : ℕ → List ℕ → Bool
has_char d [] = false
has_char d (c ∷ s) = c == d || has_char d s

unfoldable pub starts_with : List ℕ → List ℕ → Bool
starts_with s [] = true
starts_with [] (d ∷ p) = false
starts_with (c ∷ s) (d ∷ p) = c == d && starts_with s p

-- `p in s`
unfoldable pub has_text : List ℕ → List ℕ → Bool
unfolding starts_with
has_text p [] = starts_with [] p
has_text p (c ∷ s) = starts_with (c ∷ s) p || has_text p s

unfoldable pub ends_with : List ℕ → List ℕ → Bool
unfolding text_eq
ends_with s suffix = leb (length suffix) (length s) && drop (length s - length suffix) s == suffix
