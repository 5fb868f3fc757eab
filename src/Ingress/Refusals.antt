-- ===== src/Ingress/Refusals.antt =====
-- What a request that routers/ingress.py refuses leaves as it was.
use agntspark_gateway.Prelude.{
  ◌%◌, ◌≡◌, ◌⊎◌, inl, inr, refl, Bool, true, false, not, Option, none, some, List, [], ◌∷◌, arith,
  select, length, ℕ_discrete, if◌then◌else◌, ◌==◌, ◌&&◌, ◌||◌, nat_eq, text_eq, Option-cases,
}
use agntspark_gateway.Exec.{Result-cases, Result, ok, err}
use agntspark_gateway.External.{Container}
use agntspark_gateway.Models.{User, Agent}
use agntspark_gateway.Settings.{GatewaySettings}
use agntspark_gateway.Limiter.{Limiter, hit}
use agntspark_gateway.Plans.{limits_for}
use agntspark_gateway.Quota.{is_exempt}
use agntspark_gateway.Metering.{count_request}
use agntspark_gateway.AccessKeys.{is_valid_access_key}
use agntspark_gateway.Slug.{bearer_token}
use agntspark_gateway.World.{World, Platform}
use agntspark_gateway.Ingress.{
  Response, plain, forward, Headers, Surroundings, or_number, client_key, choose, is_private,
  is_edge, agent_and_owner, dispatch, within_plan, with_key, per_caller, routed, route,
}

abbrev pub is_sent : Result Response → Bool
is_sent (ok r) = r.status == 204
is_sent (err e) = false

-- refused before the agent's own allowance is asked
abbrev pub is_turned_away : Result Response → Bool
is_turned_away (ok r) = r.status == 401 || r.status == 403 || r.status == 404
is_turned_away (err e) = false

found_cases :
    (o : Option (Agent × User)) → (o ≡ none) ⊎ ((a : Agent) × (u : User) × (o ≡ some (a, u)))
found_cases none = inl refl
found_cases (some (a, u)) = inr (a, u, refl)

module _ {R : Type 0} (p : Platform R) (cfg : GatewaySettings) (env : Surroundings) where
  pub record Rests (w : World R) (x : Result Response × World R) : Type 0 where
    pub rows : (x.1.db ≡ w.db) × (x.1.stored ≡ w.stored)
    pub runtime : x.1.runtime ≡ w.runtime
    pub uncounted : is_sent x.0 ≡ false → x.1.pending ≡ w.pending
    pub unspent : is_turned_away x.0 ≡ true → x.1.per_agent ≡ w.per_agent

  -- a response that changes nothing
  same : (w : World R) (r : Result Response) → Rests w (r, w)
  same w r = record {
    rows = (refl, refl);
    runtime = refl;
    uncounted = λ h. refl;
    unspent = λ h. refl;
  }

  dispatch-Rests : (a : Agent) (w : World R) → Rests w (dispatch p cfg env a w)
  unfolding dispatch count_request
  dispatch-Rests a w =
      sent (select (λ c. not (c.ip_address == [])) (p.engine.get_containers a.id w.runtime))
    where
      sent :
          (rows : List Container)
          → Rests w (elim rows [
            | [] ↦ (ok (plain 503), w)
            | c ∷ rest ↦ (
              ok (forward (choose (env.draw % length (c ∷ rest)) c rest) a.port),
              count_request a env.count_now w,
            )
          ])
      sent [] = same w (ok (plain 503))
      sent (c ∷ rest) = record {
        rows = (refl, refl);
        runtime = refl;
        uncounted = λ h. ground arith;
        unspent = λ h. refl;
      }

  dispatch_serves : (a : Agent) (w : World R) → is_turned_away (dispatch p cfg env a w).0 ≡ false
  unfolding dispatch nat_eq ℕ_discrete
  dispatch_serves a w =
      serves (select (λ c. not (c.ip_address == [])) (p.engine.get_containers a.id w.runtime))
    where
      serves :
          (rows : List Container)
          → is_turned_away
              (elim rows as (λ x. Result Response × World R) [
                | [] ↦ (ok (plain 503), w)
                | c ∷ rest ↦ (
                  ok (forward (choose (env.draw % length (c ∷ rest)) c rest) a.port),
                  count_request a env.count_now w,
                )
              ]).0
            ≡ false
      serves [] = refl
      serves (c ∷ rest) = refl

  -- the agent's own allowance is asked, which no request that was turned away does
  asked :
      (w : World R) (l : Limiter) (x : Result Response × World R)
      → Rests (record w { per_agent = l }) x
      → is_turned_away x.0 ≡ false
      → Rests w x
  asked w l x h n = record {
    rows = h.rows;
    runtime = h.runtime;
    uncounted = h.uncounted;
    unspent = λ t. cc (t, n);
  }

  within_plan-Rests : (a : Agent) (u : User) (w : World R) → Rests w (within_plan p cfg env a u w)
  unfolding within_plan nat_eq ℕ_discrete
  within_plan-Rests a u w =
      let key_hit = hit a.id (limits_for u.plan).max_agent_rpm env.agent_now w.per_agent in
      let spent : World R = record w { per_agent = key_hit.1 } in
      elim (Result-cases (is_exempt p.roles u)) [
        | inl (true, e) ↦ rw e (dispatch-Rests a w)
        | inl (false, e) ↦ elim (Option-cases key_hit.0) [
          | inl none_e ↦
              rw (e, none_e)
                (asked w key_hit.1 (dispatch p cfg env a spent) (dispatch-Rests a spent)
                  (dispatch_serves a spent))
          | inr (n, some_e) ↦
              rw (e, some_e)
                (record {
                  rows = (refl, refl);
                  runtime = refl;
                  uncounted = λ h. refl;
                  unspent = λ h. cc h;
                })
        ]
        | inr (x, e) ↦ rw e (same w (err x))
      ]

  with_key-Rests :
      (h : Headers) (a : Agent) (u : User) (w : World R) → Rests w (with_key p cfg env h a u w)
  unfolding with_key
  with_key-Rests h a u w = either (
      is_private a.access
      && not (is_valid_access_key p w.db a.id (bearer_token env.lower_table h.authorization)))
    where
      either : (b : Bool) → Rests w (if b then (ok (plain 401), w) else within_plan p cfg env a u w)
      either true = same w (ok (plain 401))
      either false = within_plan-Rests a u w

  -- the allowance of one caller is asked
  asked_caller :
      (w : World R) (l : Limiter) (x : Result Response × World R)
      → Rests (record w { per_client = l }) x
      → Rests w x
  asked_caller w l x h = record {
    rows = h.rows;
    runtime = h.runtime;
    uncounted = h.uncounted;
    unspent = h.unspent;
  }

  per_caller-Rests :
      (h : Headers) (a : Agent) (u : User) (w : World R) → Rests w (per_caller p cfg env h a u w)
  unfolding per_caller
  per_caller-Rests h a u w =
      let key_hit =
        hit (client_key a h.client_ip) (or_number a.rate_limit_rpm cfg.ingress_default_rpm_per_ip)
          env.client_now w.per_client in
      let spent : World R = record w { per_client = key_hit.1 } in
      elim (Option-cases key_hit.0) [
        | inl none_e ↦
            rw none_e (
              asked_caller w key_hit.1 (with_key p cfg env h a u spent)
                (with_key-Rests h a u spent))
        | inr (n, some_e) ↦ rw some_e (record {
          rows = (refl, refl);
          runtime = refl;
          uncounted = λ t. refl;
          unspent = λ t. refl;
        })
      ]

  -- Routing a request changes no row and nothing in the runtime. A request that is not sent on is not
  -- counted, and one that is turned away, by 401, 403 or 404, spends nothing of the allowance that the
  -- agent's callers share.
  pub route-Rests : (h : Headers) (w : World R) → Rests w (route p cfg env h w)
  unfolding route routed
  route-Rests h w = elim (Result-cases (is_edge cfg.ingress_internal_token h.internal_token)) [
    | inl (true, e) ↦ elim (found_cases (agent_and_owner env.lower_table cfg w.db h.host)) [
      | inl none_e ↦ rw (e, routed, none_e) (same w (ok (plain 404)))
      | inr (a, u, found) ↦ rw (e, routed, found) (per_caller-Rests h a u w)
    ]
    | inl (false, e) ↦ rw e (same w (ok (plain 403)))
    | inr (x, e) ↦ rw e (same w (err x))
  ]
