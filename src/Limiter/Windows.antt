-- ===== src/Limiter/Windows.antt =====
-- `FixedWindowLimiter.hit` against the history of calls: what a window admits.
use native.Mathlib.Nat.{
  le-div_iff_mul-le, div-mul-le_self, lt-div-mul-add, div-lt_iff_lt-mul, le_trans,
}
use agntspark_gateway.Prelude.{
  ℕ, suc, ◌+◌, ◌-◌, ◌*◌, ◌/◌, ◌<◌, ◌≤◌, String, ◌≡◌, refl, none, some, List, [], ◌∷◌, arith,
  string_eq, option_eq, nat_eq, ◌↔◌, ◌≢◌,
}
use agntspark_gateway.Limiter.{Limiter, micro, window_at, enter, retry_after, hit, new_limiter}
use agntspark_gateway.Limiter.Lemmas.{
  used, IsBy, admitted, used-hit, window-hit, window_seconds-hit, window_mono,
}

-- One call of `hit`, with the clock's reading.
pub record Call : Type 0 where
  pub key : String
  pub limit : ℕ
  pub now : ℕ

-- The limiter after a history of calls.
abbrev pub replay : List Call → Limiter → Limiter
replay [] l = l
replay (c ∷ cs) l = replay cs (hit c.key c.limit c.now l).1

-- How many hits of the key passed in window `n`.
abbrev pub passed : String → ℕ → List Call → Limiter → ℕ
passed k n [] l = 0
passed k n (c ∷ cs) l =
    admitted k n c.key c.limit c.now l + passed k n cs (hit c.key c.limit c.now l).1

-- The clock does not go back: the calls come from instant `t` on, in order, and end by `u`.
abbrev pub IsOrdered : ℕ → ℕ → List Call → Type 0
IsOrdered t u [] = t ≤ u
IsOrdered t u (c ∷ cs) = (t ≤ c.now) × IsOrdered c.now u cs

IsOrdered-le : (t u : ℕ) (cs : List Call) → IsOrdered t u cs → t ≤ u
IsOrdered-le t u [] h = h
IsOrdered-le t u (c ∷ cs) h = le_trans h.0 (IsOrdered-le c.now u cs h.1)

used-replay :
    (k : String) (n t u : ℕ) (cs : List Call) (l : Limiter)
    → IsOrdered t u cs
    → IsBy l (window_at l.window_seconds t)
    → window_at l.window_seconds u ≤ n
    → used k n (replay cs l) ≡ passed k n cs l + used k n l
used-replay k n t u [] l o by le = omega arith
used-replay k n t u (c ∷ cs) l o by le =
    let w = l.window_seconds in
    let l' = (hit c.key c.limit c.now l).1 in
    let same = window_seconds-hit c.key c.limit c.now l in
    let early = window_mono w t c.now o.0 in
    let late = window_mono w c.now u (IsOrdered-le c.now u cs o.1) in
    ground (
      arith,
      used-hit k n c.key c.limit c.now l,
      window-hit c.key c.limit c.now l,
      used-replay k n c.now u cs l' o.1,
      same,
      early,
      late,
    )

used-new : (w n : ℕ) (k : String) → used k n (new_limiter w) ≡ 0
unfolding used option_eq
used-new w n k = refl

window_seconds-replay :
    (cs : List Call) (l : Limiter) → (replay cs l).window_seconds ≡ l.window_seconds
window_seconds-replay [] l = refl
window_seconds-replay (c ∷ cs) l = ground (
  arith,
  window_seconds-hit c.key c.limit c.now l,
  window_seconds-replay cs (hit c.key c.limit c.now l).1,
)

hit-none_iff :
    (key : String) (limit now : ℕ) (l : Limiter)
    → ((hit key limit now l).0 ≡ none) ↔ (used key (window_at l.window_seconds now) l < limit)
unfolding hit used enter
hit-none_iff key limit now l = ground arith

-- With a clock that does not go back, a hit passes exactly if fewer hits of its key than its limit
-- have passed in its window, whatever other keys and earlier windows saw.
pub hit-admits :
    (w : ℕ) (cs : List Call) (key : String) (limit now : ℕ)
    → IsOrdered 0 now cs
    → ((hit key limit now (replay cs (new_limiter w))).0 ≡ none)
      ↔ (passed key (window_at w now) cs (new_limiter w) < limit)
hit-admits w cs key limit now o = ground (
  arith,
  used-replay key (window_at w now) 0 now cs (new_limiter w) o tt,
  window_seconds-replay cs (new_limiter w),
  used-new w (window_at w now) key,
  hit-none_iff key limit now (replay cs (new_limiter w)),
)

passed_past :
    (k : String) (n t u : ℕ) (cs : List Call) (l : Limiter)
    → IsOrdered t u cs
    → n < window_at l.window_seconds t
    → passed k n cs l ≡ 0
passed_past k n t u [] l o h = refl
passed_past k n t u (c ∷ cs) l o h = ground (
  arith,
  window_seconds-hit c.key c.limit c.now l,
  window_mono l.window_seconds t c.now o.0,
  passed_past k n c.now u cs (hit c.key c.limit c.now l).1 o.1,
)

-- every call for the key asks for at most `bound`
abbrev pub LimitsBy : String → ℕ → List Call → Type 0
LimitsBy k bound [] = Unit
LimitsBy k bound (c ∷ cs) = (c.key ≡ k → c.limit ≤ bound) × LimitsBy k bound cs

passed-add-used :
    (k : String) (n bound t u : ℕ) (cs : List Call) (l : Limiter)
    → IsOrdered t u cs
    → LimitsBy k bound cs
    → IsBy l (window_at l.window_seconds t)
    → used k n l ≤ bound
    → passed k n cs l + used k n l ≤ bound
passed-add-used k n bound t u [] l o lim by h = omega arith
passed-add-used k n bound t u (c ∷ cs) l o lim by h = ground (
  arith,
  window_seconds-hit c.key c.limit c.now l,
  window-hit c.key c.limit c.now l,
  window_mono l.window_seconds t c.now o.0,
  used-hit k n c.key c.limit c.now l,
  hit-none_iff c.key c.limit c.now l,
  passed_past k n c.now u cs (hit c.key c.limit c.now l).1 o.1,
  passed-add-used k n bound c.now u cs (hit c.key c.limit c.now l).1 o.1 lim.1,
)

-- In no window do more hits of a key pass than the largest limit that its callers give.
pub passed-le :
    (w : ℕ) (k : String) (n bound u : ℕ) (cs : List Call)
    → IsOrdered 0 u cs
    → LimitsBy k bound cs
    → passed k n cs (new_limiter w) ≤ bound
passed-le w k n bound u cs o lim =
    let fresh = used-new w n k in
    omega (arith, passed-add-used k n bound 0 u cs (new_limiter w) o lim tt (omega arith))

-- the ceiling of `retry_after` in whole seconds
retry_ceiling :
    (w now r : ℕ)
    → 0 < w
    → retry_after w (window_at w now) now ≡ r
    → (1 ≤ r)
      × (r ≤ w)
      × ((window_at w now + 1) * (w * micro) ≤ now + r * micro)
      × (now + (r - 1) * micro < (window_at w now + 1) * (w * micro))
unfolding retry_after window_at
retry_ceiling w now r pos e =
    let below = div-mul-le_self now (w * micro) in
    let above = lt-div-mul-add {a = now} {b = w * micro} (omega arith) in omega arith

hit-some :
    (key : String) (limit now r : ℕ) (l : Limiter)
    → (hit key limit now l).0 ≡ some r
    → (retry_after l.window_seconds (window_at l.window_seconds now) now ≡ r)
      × (limit ≤ used key (window_at l.window_seconds now) (hit key limit now l).1)
unfolding hit used enter
hit-some key limit now r l e = ground arith

used-other : (k : String) (n m : ℕ) (l : Limiter) → l.window ≡ some m → m ≢ n → used k n l ≡ 0
unfolding used
used-other k n m l e ne = ground arith

next_window : (w n later : ℕ) → 0 < w → (n + 1) * (w * micro) ≤ later → suc n ≤ window_at w later
unfolding window_at
next_window w n later pos h = (le-div_iff_mul-le (omega arith)).1 (omega arith)

this_window : (w n soon : ℕ) → 0 < w → soon < (n + 1) * (w * micro) → window_at w soon ≤ n
unfolding window_at
this_window w n soon pos h =
    let width : 0 < w * micro = omega arith in
    let before : soon / (w * micro) < n + 1 = (div-lt_iff_lt-mul width).1 h in omega arith

-- A refused caller is told a wait of 1 to `window_seconds` seconds. After that wait, or later, a
-- hit with a positive limit passes; a second less, and the same hit is still refused.
pub hit-retry :
    (key : String) (limit now r : ℕ) (l : Limiter)
    → 0 < l.window_seconds
    → (hit key limit now l).0 ≡ some r
    → (1 ≤ r)
      × (r ≤ l.window_seconds)
      × ((later : ℕ)
          → now + r * micro ≤ later
          → 0 < limit
          → (hit key limit later (hit key limit now l).1).0 ≡ none)
      × ((soon : ℕ)
          → now ≤ soon
          → soon ≤ now + (r - 1) * micro
          → (hit key limit soon (hit key limit now l).1).0 ≢ none)
hit-retry key limit now r l pos e =
    let w = l.window_seconds in
    let n = window_at w now in
    let l' = (hit key limit now l).1 in
    let same = window_seconds-hit key limit now l in
    let refused = hit-some key limit now r l e in
    let bounds = retry_ceiling w now r pos refused.0 in
    (
      bounds.0,
      bounds.1,
      λ later h p. (hit-none_iff key limit later l').1 (
          let moved : suc n ≤ window_at w later = next_window w n later pos (omega arith) in
          let other =
            used-other key (window_at w later) n l' (window-hit key limit now l) (omega arith) in
          rw same (rw other p)),
      λ soon h h' q.
          let stays : window_at w soon ≤ n = this_window w n soon pos (omega arith) in
          let starts = window_mono w now soon h in
          let eq : window_at w soon ≡ n = omega arith in
          let under = (hit-none_iff key limit soon l').0 q in
          absurd (omega (arith, refused.1, (rw (same, eq) at under))),
    )
