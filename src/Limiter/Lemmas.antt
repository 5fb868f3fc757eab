-- ===== src/Limiter/Lemmas.antt =====
-- Facts about one hit of security/ingress_limits.py.
use native.Mathlib.Nat.{le-div_iff_mul-le, div-mul-le_self}
use agntspark_gateway.Prelude.{
  ℕ, zero, suc, ◌+◌, ◌*◌, ◌≤◌, String, ◌≡◌, none, some, List, [], ◌∷◌, arith, is_none, ◌&&◌,
  if◌then◌else◌, ◌==◌, string_eq, option_eq, nat_eq,
}
use agntspark_gateway.Limiter.{Limiter, micro, put, count_of, window_at, enter, hit}

pub count_of-put :
    (key k : String) (c : ℕ) (counts : List (String × ℕ))
    → count_of k (put key c counts) ≡ (if key == k then c else count_of k counts)
unfolding count_of put
count_of-put key k c [] = ground arith
count_of-put key k c ((j, n) ∷ rest) = ground (arith, count_of-put key k c rest)

-- the length of a window
pub window_mono : (w s t : ℕ) → s ≤ t → window_at w s ≤ window_at w t
unfolding window_at
window_mono zero s t h = ground arith
window_mono (suc w) s t h =
    (le-div_iff_mul-le (omega arith)).1 (omega (arith, div-mul-le_self s (suc w * micro)))

-- the hits of a key that the limiter has counted in window `n`
unfoldable pub used : String → ℕ → Limiter → ℕ
used key n l = if l.window == some n then count_of key l.counts else 0

-- the limiter has seen no window after `n`
abbrev pub IsBy : Limiter → ℕ → Type 0
IsBy l n = elim l.window [ none ↦ Unit | some m ↦ m ≤ n ]

pub window_seconds-hit :
    (key : String) (limit now : ℕ) (l : Limiter)
    → (hit key limit now l).1.window_seconds ≡ l.window_seconds
unfolding hit
window_seconds-hit key limit now l = ground arith

pub window-hit :
    (key : String) (limit now : ℕ) (l : Limiter)
    → (hit key limit now l).1.window ≡ some (window_at l.window_seconds now)
unfolding hit
window-hit key limit now l = ground arith

-- one hit for the key in window `n` that passed
abbrev pub admitted : String → ℕ → String → ℕ → ℕ → Limiter → ℕ
admitted k n key limit now l =
    if is_none (hit key limit now l).0 && key == k && window_at l.window_seconds now == n
    then 1
    else 0

pub used-hit :
    (k : String) (n : ℕ) (key : String) (limit now : ℕ) (l : Limiter)
    → IsBy l (window_at l.window_seconds now)
    → window_at l.window_seconds now ≤ n
    → used k n (hit key limit now l).1 ≡ admitted k n key limit now l + used k n l
unfolding hit used enter
used-hit k n key limit now l by le =
    ground (arith, count_of-put key k (count_of key l.counts + 1) l.counts)
