-- ===== src/RateLimit/Attempts.antt =====
-- Which attempts pass, and what becomes of a counter without an expiry.
use agntspark_gateway.Prelude.{
  ℕ, suc, ◌≡◌, ◌<◌, ◌≤◌, ◌↔◌, refl, ap, ◌∙◌, String, Bool, true, false, Option, none, some, ltb,
  is_none, arith, ◌==◌, nat_eq, Bool-cases, inl, inr,
}
use agntspark_gateway.Errors.{rate_limit_exceeded}
use agntspark_gateway.Exec.{ok, err}
use agntspark_gateway.Settings.{GatewaySettings}
use agntspark_gateway.RateLimit.{
  Redis, IsRedis, Answers, retry_after, refuse_over, after_expire, after_incr, enforce,
}

answered : {A : Type 0} (o : Option A) → is_none o ≡ false → (a : A) × (o ≡ some a)
answered none h = cc
answered (some a) h = (a, refl)

module _ {S : Type 0} (r : Redis S) (cfg : GatewaySettings) (count : String → S → ℕ)
    (expires : String → S → Bool) (law : IsRedis r count expires) where
  refuse_over_iff :
      Answers r
      → (key : String) (n : ℕ) (s : S)
      → ((refuse_over r cfg key n s).0 ≡ ok tt) ↔ (n ≤ cfg.login_rate_limit_max_attempts)
  unfolding refuse_over
  refuse_over_iff up key n s = elim (Bool-cases (ltb cfg.login_rate_limit_max_attempts n)) [
    | inl over ↦
        let (t, e) = answered (r.ttl key s) (up.ttl key s) in
        rw (over, e) ((λ h. cc), λ le. absurd (ground (arith, over, le)))
    | inr under ↦ rw under ((λ _. ground arith), λ _. refl)
  ]

  state-refuse_over : (key : String) (n : ℕ) (s : S) → (refuse_over r cfg key n s).1 ≡ s
  unfolding refuse_over
  state-refuse_over key n s = ground arith

  passes :
      Answers r
      → (key : String) (n : ℕ) (s : S) (before : ℕ) → n ≡ suc before
      → ((refuse_over r cfg key n s).0 ≡ ok tt) ↔ (before < cfg.login_rate_limit_max_attempts)
  passes up key n s before one_more =
      let (there, back) = refuse_over_iff up key n s in
      (λ h. omega (arith, there h, one_more), λ lt. back (omega (arith, lt, one_more)))

  refuse_lost :
      Answers r
      → (key : String) (n : ℕ) (s : S) → expires key s ≡ false
      → cfg.login_rate_limit_max_attempts < n
      → refuse_over r cfg key n s ≡ (err (rate_limit_exceeded 1), s)
  unfolding refuse_over
  refuse_lost up key n s lost over =
      let (t, e) = answered (r.ttl key s) (up.ttl key s) in
      let over_b : ltb cfg.login_rate_limit_max_attempts n ≡ true = ground (arith, over) in
      rw (over_b, e)
        (ap (λ x. (err (rate_limit_exceeded (retry_after x)), s)) (law.ttl-none key s t lost e))

  pub enforce_iff :
      Answers r
      → (key : String) (s : S)
      → (((enforce r cfg true key s).0 ≡ ok tt) ↔ (count key s < cfg.login_rate_limit_max_attempts))
        × (count key (enforce r cfg true key s).1 ≡ suc (count key s))
  unfolding enforce after_incr after_expire
  enforce_iff up key s =
      let (n, e) = answered (r.incr key s).0 (up.incr key s) in
      let s' = (r.incr key s).1 in
      let one_more = law.incr-answer key s n e in
      elim (Bool-cases (n == 1)) [
        | inl first ↦
            let expired = r.expire key cfg.login_rate_limit_window_seconds s' in
            let (u, done) =
              answered expired.0 (up.expire key cfg.login_rate_limit_window_seconds s') in
            rw (e, first, done)
              (
                passes up key n expired.1 (count key s) one_more,
                ap (count key) (state-refuse_over key n expired.1)
                    ∙ law.count-expire key cfg.login_rate_limit_window_seconds s'
                    ∙ law.count-incr key s n e
                    ∙ one_more,
              )
        | inr later ↦
            rw (e, later)
              (
                passes up key n s' (count key s) one_more,
                ap (count key) (state-refuse_over key n s') ∙ law.count-incr key s n e ∙ one_more,
              )
      ]

  -- Where Redis cannot count, every attempt passes.
  pub enforce-open :
      (key : String) (s : S) → (r.incr key s).0 ≡ none → (enforce r cfg true key s).0 ≡ ok tt
  unfolding enforce after_incr
  enforce-open key s down = rw down refl

  -- A counter that has lost its expiry (the first attempt's `expire` raised) never gets one again:
  -- past the allowed number every attempt of the client is refused, told to retry after a second, and
  -- leaves the counter as bad as it was.
  pub enforce-locked :
      Answers r
      → (key : String) (s : S) → expires key s ≡ false
      → 0 < count key s
      → cfg.login_rate_limit_max_attempts ≤ count key s
      → let (out, s') = enforce r cfg true key s in
        (out ≡ err (rate_limit_exceeded 1))
        × (expires key s' ≡ false)
        × (0 < count key s')
        × (cfg.login_rate_limit_max_attempts ≤ count key s')
  unfolding enforce after_incr
  enforce-locked up key s lost some_counted over =
      let (n, e) = answered (r.incr key s).0 (up.incr key s) in
      let s' = (r.incr key s).1 in
      let one_more = law.incr-answer key s n e in
      let counted = law.count-incr key s n e in
      let still_lost = law.expires-incr key s ∙ lost in
      let not_first : (n == 1) ≡ false = ground (arith, one_more, some_counted) in
      let refused = refuse_lost up key n s' still_lost (omega (arith, one_more, over)) in
      rw (e, not_first, refused)
        (refl, still_lost, omega (arith, counted, one_more), omega (arith, counted, one_more, over))
