-- ===== src/Ingress/Route.antt =====
-- Which requests routers/ingress.py sends on to a container.
use agntspark_gateway.Prelude.{
  ℕ, ◌%◌, ◌≡◌, sym, ◌⊎◌, inl, inr, refl, subst, Bool, true, false, not, Option, none, some, List,
  [], ◌∷◌, arith, select, length, ◌==◌, ◌&&◌, text_eq, Option-cases,
}
use agntspark_gateway.Ingress.Sends.{
  IsIn, choose-IsIn, select-IsIn, not_sent, Sends, Sends-map, Sends-if,
}
use agntspark_gateway.Exec.{Result-cases, ok}
use agntspark_gateway.External.{Container}
use agntspark_gateway.Models.{User, Agent}
use agntspark_gateway.Settings.{GatewaySettings}
use agntspark_gateway.Limiter.{hit}
use agntspark_gateway.Plans.{limits_for}
use agntspark_gateway.Quota.{is_exempt}
use agntspark_gateway.Metering.{count_request, add_count, hour_start_of}
use agntspark_gateway.AccessKeys.{is_valid_access_key}
use agntspark_gateway.Slug.{bearer_token}
use agntspark_gateway.World.{World, Platform, Pending}
use agntspark_gateway.Ingress.{
  Response, plain, forward, Headers, Surroundings, or_number, client_key, choose, is_private,
  is_edge, agent_and_owner, dispatch, within_plan, with_key, per_caller, routed, route,
}

module _ {R : Type 0} (p : Platform R) (cfg : GatewaySettings) (env : Surroundings) where
  -- sent to a container of the agent that has an address, and counted once
  pub record IsDispatched (agent : Agent) (runtime : R) (pending : Pending) (r : Response)
      (w' : World R) : Type 0 where
    pub target : Container
    pub of_agent : IsIn target (p.engine.get_containers agent.id runtime)
    pub addressed : (target.ip_address == []) ≡ false
    pub forwarded : r ≡ forward target agent.port
    pub counted :
        w'.pending ≡ add_count (agent.id, agent.user_id, hour_start_of env.count_now) 1 pending

  not-true : (b : Bool) → not b ≡ true → b ≡ false
  not-true true h = cc
  not-true false h = refl

  dispatch-Sends :
      (agent : Agent) (w : World R)
      → Sends (IsDispatched agent w.runtime w.pending) (dispatch p cfg env agent w)
  unfolding dispatch count_request
  dispatch-Sends agent w =
      sent (select (λ c. not (c.ip_address == [])) (p.engine.get_containers agent.id w.runtime))
        refl
    where
      sent :
          (rows : List Container)
          → select (λ c. not (c.ip_address == [])) (p.engine.get_containers agent.id w.runtime)
            ≡ rows
          → Sends (IsDispatched agent w.runtime w.pending) (elim rows [
            | [] ↦ (ok (plain 503), w)
            | c ∷ rest ↦ (
              ok (forward (choose (env.draw % length (c ∷ rest)) c rest) agent.port),
              count_request agent env.count_now w,
            )
          ])
      sent [] e = λ h. not_sent (omega arith) h
      sent (c ∷ rest) e =
          let n : ℕ = env.draw % length (c ∷ rest) in
          let inside = subst (IsIn (choose n c rest)) (sym e) (choose-IsIn n c rest) in
          let of =
            select-IsIn (λ d. not (d.ip_address == [])) (choose n c rest)
              (p.engine.get_containers agent.id w.runtime) inside in
          λ _. record {
            target = choose n c rest;
            of_agent = of.0;
            addressed = not-true _ of.1;
            forwarded = refl;
            counted = refl;
          }

  -- and within the ceiling of its owner's plan, where the owner is not exempt
  abbrev pub IsWithinPlan : Agent → User → World R → Response → World R → Type 0
  IsWithinPlan agent owner w r w' =
      IsDispatched agent w.runtime w.pending r w'
      × (is_exempt p.roles owner ≡ ok false
          → (hit agent.id (limits_for owner.plan).max_agent_rpm env.agent_now w.per_agent).0 ≡ none)

  within_plan-Sends :
      (agent : Agent) (owner : User) (w : World R)
      → Sends (IsWithinPlan agent owner w) (within_plan p cfg env agent owner w)
  unfolding within_plan
  within_plan-Sends agent owner w = elim (Result-cases (is_exempt p.roles owner)) [
    | inl (true, e) ↦ rw e (
        Sends-map (IsDispatched agent w.runtime w.pending) (IsWithinPlan agent owner w)
          (dispatch p cfg env agent w) (λ r w' d. (d, λ n. cc)) (dispatch-Sends agent w))
    | inl (false, e) ↦
        elim (Option-cases
          (hit agent.id (limits_for owner.plan).max_agent_rpm env.agent_now w.per_agent).0) [
            | inl none_e ↦
                rw (e, none_e)
                  (Sends-map (IsDispatched agent w.runtime w.pending) (IsWithinPlan agent owner w)
                    (dispatch p cfg env agent (record w {
                      per_agent =
                          (hit agent.id (limits_for owner.plan).max_agent_rpm env.agent_now
                            w.per_agent).1;
                    }))
                    (λ r w' d. (d, λ n. none_e))
                    (dispatch-Sends agent (record w {
                      per_agent =
                          (hit agent.id (limits_for owner.plan).max_agent_rpm env.agent_now
                            w.per_agent).1;
                    })))
            | inr (n, some_e) ↦ rw (e, some_e) (λ sent. not_sent (omega arith) sent)
          ]
    | inr (x, e) ↦ rw e tt
  ]

  -- and with a valid key, where the agent is private
  abbrev pub IsKeyed : Headers → Agent → User → World R → Response → World R → Type 0
  IsKeyed h agent owner w r w' =
      IsWithinPlan agent owner w r w'
      × (is_private agent.access ≡ true
          → is_valid_access_key p w.db agent.id (bearer_token env.lower_table h.authorization)
            ≡ true)

  key_checked : (b v : Bool) → b && not v ≡ false → b ≡ true → v ≡ true
  key_checked true true e priv = refl
  key_checked true false e priv = cc
  key_checked false v e priv = cc

  with_key-Sends :
      (h : Headers) (agent : Agent) (owner : User) (w : World R)
      → Sends (IsKeyed h agent owner w) (with_key p cfg env h agent owner w)
  unfolding with_key
  with_key-Sends h agent owner w =
      Sends-if (IsKeyed h agent owner w)
        (is_private agent.access
          && not
              (is_valid_access_key p w.db agent.id (bearer_token env.lower_table h.authorization)))
        (ok (plain 401), w) (within_plan p cfg env agent owner w)
        (λ _. λ sent. not_sent (omega arith) sent)
        (λ passed.
          Sends-map (IsWithinPlan agent owner w) (IsKeyed h agent owner w)
            (within_plan p cfg env agent owner w)
            (λ r w' d. (
              d,
              key_checked (is_private agent.access)
                  (is_valid_access_key p w.db agent.id
                    (bearer_token env.lower_table h.authorization))
                  passed,
            ))
            (within_plan-Sends agent owner w))

  abbrev pub IsAllowed : Headers → Agent → User → World R → Response → World R → Type 0
  IsAllowed h agent owner w r w' =
      IsKeyed h agent owner w r w'
      × ((hit (client_key agent h.client_ip)
            (or_number agent.rate_limit_rpm cfg.ingress_default_rpm_per_ip) env.client_now
            w.per_client).0
          ≡ none)

  per_caller-Sends :
      (h : Headers) (agent : Agent) (owner : User) (w : World R)
      → Sends (IsAllowed h agent owner w) (per_caller p cfg env h agent owner w)
  unfolding per_caller
  per_caller-Sends h agent owner w =
      elim (Option-cases
        (hit (client_key agent h.client_ip)
          (or_number agent.rate_limit_rpm cfg.ingress_default_rpm_per_ip) env.client_now
          w.per_client).0) [
            | inl none_e ↦ rw none_e (
                Sends-map (IsKeyed h agent owner w) (IsAllowed h agent owner w)
                  (with_key p cfg env h agent owner (record w {
                    per_client =
                        (hit (client_key agent h.client_ip)
                          (or_number agent.rate_limit_rpm cfg.ingress_default_rpm_per_ip)
                          env.client_now w.per_client).1;
                  }))
                  (λ r w' d. (d, none_e))
                  (with_key-Sends h agent owner (record w {
                    per_client =
                        (hit (client_key agent h.client_ip)
                          (or_number agent.rate_limit_rpm cfg.ingress_default_rpm_per_ip)
                          env.client_now w.per_client).1;
                  })))
            | inr (n, some_e) ↦ rw some_e (λ sent. not_sent (omega arith) sent)
          ]

  pub record IsAdmitted (h : Headers) (w : World R) (r : Response) (w' : World R) : Type 0 where
    pub agent : Agent
    pub owner : User
    pub found : agent_and_owner env.lower_table cfg w.db h.host ≡ some (agent, owner)
    pub from_edge : is_edge cfg.ingress_internal_token h.internal_token ≡ ok true
    pub allowed : IsAllowed h agent owner w r w'

  found_cases :
      (o : Option (Agent × User)) → (o ≡ none) ⊎ ((a : Agent) × (u : User) × (o ≡ some (a, u)))
  found_cases none = inl refl
  found_cases (some (a, u)) = inr (a, u, refl)

  route-Sends : (h : Headers) (w : World R) → Sends (IsAdmitted h w) (route p cfg env h w)
  unfolding route routed
  route-Sends h w = elim (Result-cases (is_edge cfg.ingress_internal_token h.internal_token)) [
    | inl (true, e) ↦ elim (found_cases (agent_and_owner env.lower_table cfg w.db h.host)) [
      | inl none_e ↦ rw (e, routed, none_e) (λ sent. not_sent (omega arith) sent)
      | inr (a, u, found) ↦
          rw (e, routed, found)
            (Sends-map (IsAllowed h a u w) (IsAdmitted h w) (per_caller p cfg env h a u w)
              (λ r w' d. record { agent = a; owner = u; found = found; from_edge = e; allowed = d })
              (per_caller-Sends h a u w))
    ]
    | inl (false, e) ↦ rw e (λ sent. not_sent (omega arith) sent)
    | inr (x, e) ↦ rw e tt
  ]

  -- A request is sent on, with the status 204, only if the edge sent it, its host names an agent, the
  -- caller is within the agent's limit for one address, a private agent's key is valid, and an owner
  -- who is not exempt is within the plan's ceiling; it goes to a container of that agent that has an
  -- address, at the agent's port, and is counted once.
  pub route-IsAdmitted :
      (h : Headers) (w w' : World R) (r : Response)
      → route p cfg env h w ≡ (ok r, w')
      → r.status ≡ 204
      → IsAdmitted h w r w'
  route-IsAdmitted h w w' r returned sent =
      subst (Sends (IsAdmitted h w)) returned (route-Sends h w) sent
