-- ===== src/RateLimit.antt =====
-- security/rate_limit.py: the limit on logins and registrations of one client. Redis is a parameter:
-- its commands on its own state, each of which may raise a `RedisError`.
pub mod Attempts
use agntspark_gateway.Prelude.{
  ℕ, suc, ◌<>◌, ◌≡◌, String, Bool, true, false, Option, none, some, ltb, max, is_none,
  if◌then◌else◌, ◌==◌, nat_eq,
}
use agntspark_gateway.Errors.{rate_limit_exceeded}
use agntspark_gateway.Exec.{Exec, Result, ok, err}
use agntspark_gateway.Settings.{GatewaySettings}

-- `incr`, `expire` and `ttl` of redis.asyncio: `none` is a `RedisError`, and a TTL is `none` inside it
-- where Redis answers that the key has no expiry.
pub record Redis (S : Type 0) : Type 0 where
  pub incr : String → S → Option ℕ × S
  pub expire : String → ℕ → S → Option (Unit {0}) × S
  pub ttl : String → S → Option (Option ℕ)

-- What the commands do to one key, as Redis documents it: its number (0 where it is missing), and
-- whether it expires.
pub record IsRedis {S : Type 0} (r : Redis S) (count : String → S → ℕ) (expires : String → S → Bool)
    : Type 0 where
  pub incr-answer :
      (key : String) (s : S) (n : ℕ) → (r.incr key s).0 ≡ some n → n ≡ suc (count key s)
  pub count-incr :
      (key : String) (s : S) (n : ℕ) → (r.incr key s).0 ≡ some n → count key (r.incr key s).1 ≡ n
  pub expires-incr : (key : String) (s : S) → expires key (r.incr key s).1 ≡ expires key s
  pub count-expire : (key : String) (t : ℕ) (s : S) → count key (r.expire key t s).1 ≡ count key s
  pub ttl-none :
      (key : String) (s : S) (t : Option ℕ)
      → expires key s ≡ false
      → r.ttl key s ≡ some t
      → t ≡ none

-- Redis can be reached: no command raises.
pub record Answers {S : Type 0} (r : Redis S) : Type 0 where
  pub incr : (key : String) (s : S) → is_none (r.incr key s).0 ≡ false
  pub expire : (key : String) (t : ℕ) (s : S) → is_none (r.expire key t s).0 ≡ false
  pub ttl : (key : String) (s : S) → is_none (r.ttl key s) ≡ false

-- `max(ttl, 1)`; no expiry is a negative TTL
abbrev pub retry_after : Option ℕ → ℕ
retry_after none = 1
retry_after (some t) = max t 1

module _ {S : Type 0} (r : Redis S) (cfg : GatewaySettings) where
  -- the test of the count, which asks for the TTL where it fails
  unfoldable pub refuse_over : String → ℕ → S → Result (Unit {0}) × S
  refuse_over key count s =
      if ltb cfg.login_rate_limit_max_attempts count
      then (
        elim (r.ttl key s) [ none ↦ ok tt | some t ↦ err (rate_limit_exceeded (retry_after t)) ],
        s,
      )
      else (ok tt, s)

  -- the first attempt starts the window
  unfoldable pub after_expire : String → ℕ → Option (Unit {0}) → S → Result (Unit {0}) × S
  unfolding refuse_over
  after_expire key count none s = (ok tt, s)
  after_expire key count (some _) s = refuse_over key count s

  unfoldable pub after_incr : String → Option ℕ → S → Result (Unit {0}) × S
  unfolding refuse_over after_expire
  after_incr key none s = (ok tt, s)
  after_incr key (some count) s =
      let expired = r.expire key cfg.login_rate_limit_window_seconds s in
      if count == 1 then after_expire key count expired.0 expired.1 else refuse_over key count s

  -- `_enforce`; a client of Redis is there where `redis_url` is set
  unfoldable pub enforce : Bool → String → Exec S (Unit {0})
  unfolding after_incr
  enforce false key s = (ok tt, s)
  enforce true key s = let counted = r.incr key s in after_incr key counted.0 counted.1

-- `enforce_login_rate_limit`'s key
abbrev pub login_key : Option String → String
login_key none = "ratelimit:login:unknown"
login_key (some host) = "ratelimit:login:" <> host
