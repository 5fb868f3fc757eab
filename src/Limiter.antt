-- ===== src/Limiter.antt =====
-- security/ingress_limits.py: `FixedWindowLimiter`. The clock gives microseconds, and a window of
-- `window_seconds` begins at each multiple of it. `_window = -1`, which no clock reading has, is
-- `none`.
mod Lemmas
pub mod Windows
use agntspark_gateway.Prelude.{
  ℕ, ◌+◌, ◌-◌, ◌*◌, ◌/◌, String, Option, none, some, List, [], ◌∷◌, max, leb, if◌then◌else◌, ◌==◌,
  lookup, string_eq, option_eq, nat_eq,
}

pub record Limiter : Type 0 where
  pub window_seconds : ℕ
  pub window : Option ℕ
  pub counts : List (String × ℕ)

abbrev pub micro : ℕ
micro = 1_000_000

abbrev pub new_limiter : ℕ → Limiter
new_limiter window_seconds = record { window_seconds = window_seconds; window = none; counts = [] }

-- `self._counts[key] = count`
unfoldable pub put : String → ℕ → List (String × ℕ) → List (String × ℕ)
put key count [] = (key, count) ∷ []
put key count ((k, c) ∷ rest) =
    if key == k then (key, count) ∷ rest else (k, c) ∷ put key count rest

-- `self._counts.get(key, 0)`
unfoldable pub count_of : String → List (String × ℕ) → ℕ
count_of key counts = elim (lookup key counts) [ none ↦ 0 | some c ↦ c ]

-- `int(now // self._window_seconds)`
unfoldable pub window_at : ℕ → ℕ → ℕ
window_at window_seconds now = now / (window_seconds * micro)

-- the table is emptied when the window has changed
unfoldable pub enter : ℕ → Limiter → Limiter
enter window l =
    if l.window == some window then l else record l { window = some window; counts = [] }

-- `math.ceil((window + 1) * self._window_seconds - now)`, not below 1
unfoldable pub retry_after : ℕ → ℕ → ℕ → ℕ
retry_after window_seconds window now =
    max 1 (((window + 1) * window_seconds * micro - now + (micro - 1)) / micro)

unfoldable pub hit : String → ℕ → ℕ → Limiter → Option ℕ × Limiter
unfolding window_at enter count_of put retry_after
hit key limit now l =
    let window = window_at l.window_seconds now in
    let l' = enter window l in
    let count = count_of key l'.counts in
    if leb limit count
    then (some (retry_after l.window_seconds window now), l')
    else (none, record l' { counts = put key (count + 1) l'.counts })

unfoldable pub reset : Limiter → Limiter
reset l = record l { counts = [] }
