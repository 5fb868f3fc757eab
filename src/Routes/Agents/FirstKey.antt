-- ===== src/Routes/Agents/FirstKey.antt =====
-- The access key that comes with a new private agent.
use agntspark_gateway.Prelude.{
  ℕ, String, ◌≡◌, refl, sym, subst, true, Option, none, some, Bool-cases, inl, inr,
}
use agntspark_gateway.Exec.{Result, ok, err, Result-cases, ok_eq}
use agntspark_gateway.Exec.Yields.{
  Yields, Yields-ok, Returns, Returns-bind, Returns-checked, Returns-map,
}
use agntspark_gateway.Models.{Agent, AgentAccess, AgentAccessKey, Text, everyone, private}
use agntspark_gateway.Schemas.{AgentConfigIn}
use agntspark_gateway.Schemas.Bodies.{agent_config_valid}
use agntspark_gateway.AgentConfig.{deploy_config_from_agent}
use agntspark_gateway.Settings.{GatewaySettings}
use agntspark_gateway.World.{World, Platform}
use agntspark_gateway.Access.{Decode}
use agntspark_gateway.AccessKeys.{create_access_key, is_valid_access_key}
use agntspark_gateway.AccessKeys.Validity.{create_access_key-is_valid}
use agntspark_gateway.Agents.{Fresh, create_agent}
use agntspark_gateway.Agents.Responses.{
  AgentResponse, has_deploy_config, response_with, to_agent_response,
}
use agntspark_gateway.Routes.Agents.{
  NewKey, require_developer, shown, with_first_key, create_agent_route,
}

-- what a response with no key says of an agent
record IsResponseTo (a : Agent) (r : AgentResponse) : Type 0 where
  id : r.id ≡ a.id
  access : r.access ≡ a.access
  access_key : r.access_key ≡ none

IsResponseTo-response_with :
    (base : Option Text) (a : Agent) (d : _) → IsResponseTo a (response_with base a d)
IsResponseTo-response_with base a d = record { id = refl; access = refl; access_key = refl }

to_agent_response-IsResponseTo :
    (base : Option Text) (a : Agent) (r : AgentResponse)
    → to_agent_response base a ≡ ok r
    → IsResponseTo a r
unfolding to_agent_response
to_agent_response-IsResponseTo base a r made = elim (Bool-cases (has_deploy_config a)) [
  | inr bare ↦
      subst (IsResponseTo a) (ok_eq (response_with base a none) r (rw bare at made))
        (IsResponseTo-response_with base a none)
  | inl deployed ↦ elim (Result-cases (deploy_config_from_agent a)) [
    | inl (d, e) ↦
        subst (IsResponseTo a)
          (ok_eq (response_with base a (some d)) r (rw e at (rw deployed at made)))
          (IsResponseTo-response_with base a (some d))
    | inr (x, e) ↦ cc (rw e at (rw deployed at made))
  ]
]

module _ {R : Type 0} (p : Platform R) (cfg : GatewaySettings) (decode : Decode) (now : ℕ) where
  -- an agent that anyone may call comes without a key, a private one with a key that is valid for it
  pub record IsReachable (r : AgentResponse) (w : World R) : Type 0 where
    pub keyless : r.access ≡ everyone → r.access_key ≡ none
    pub keyed :
        r.access ≡ private
        → (raw_key : Text) × (r.access_key ≡ some raw_key)
          × (is_valid_access_key p w.stored r.id raw_key ≡ true)

  -- what a new key is good for
  abbrev IsGood : String → AgentAccessKey × Text → World R → Type 0
  IsGood id made w = is_valid_access_key p w.stored id made.1 ≡ true

  create_access_key-IsGood :
      (a : Agent) (new : NewKey)
      → Returns (IsGood a.id) (create_access_key p a "default" new.id new.token now)
  create_access_key-IsGood a new = record {
    after = λ w. good w (create_access_key p a "default" new.id new.token now w) refl;
  }
    where
      good :
          (w : World R) (out : Result (AgentAccessKey × Text) × World R)
          → create_access_key p a "default" new.id new.token now w ≡ out
          → Yields (IsGood a.id) out
      good w (ok (k, raw_key), w') e =
          create_access_key-is_valid p a "default" new.id new.token now w w' k raw_key e
      good w (err x, w') e = tt

  with_first_key-IsReachable :
      (access : AgentAccess) (new : NewKey) (a : Agent) (r : AgentResponse)
      → a.access ≡ access
      → IsResponseTo a r
      → Returns IsReachable (with_first_key p cfg decode now access new a r)
  unfolding with_first_key
  with_first_key-IsReachable everyone new a r e shown = record {
    after = λ w. record { keyless = λ _. shown.access_key; keyed = λ q. cc (shown.access) };
  }
  with_first_key-IsReachable private new a r e shown =
      Returns-map IsReachable (IsGood a.id) (create_access_key p a "default" new.id new.token now)
        (λ made. record r { access_key = some made.1 })
        (λ made w good. record {
          keyless = λ q. cc (shown.access);
          keyed = λ _. (
            made.1,
            refl,
            subst (λ id. is_valid_access_key p w.stored id made.1 ≡ true) (sym shown.id) good,
          );
        })
        (create_access_key-IsGood a new)

  route-IsReachable :
      (creds : Option Text) (fresh : Fresh) (new : NewKey) (body : AgentConfigIn)
      → Returns IsReachable (create_agent_route p cfg decode now creds fresh new body)
  unfolding create_agent_route
  route-IsReachable creds fresh new body =
      Returns-bind IsReachable (require_developer p cfg decode now creds) _ λ who _ _.
        Returns-checked IsReachable (agent_config_valid body) _ (
          Returns-bind IsReachable (create_agent p fresh who.user_id body) _ λ a _ _.
            Returns-bind IsReachable (shown p cfg decode now a)
              (with_first_key p cfg decode now a.access new a)
              λ r _ e.
                with_first_key-IsReachable a.access new a r refl
                  (to_agent_response-IsResponseTo cfg.agent_base_domain a r e))

  pub create_agent_route-IsReachable :
      (creds : Option Text) (fresh : Fresh) (new : NewKey) (body : AgentConfigIn) (w w' : World R)
      (r : AgentResponse)
      → create_agent_route p cfg decode now creds fresh new body w ≡ (ok r, w')
      → IsReachable r w'
  create_agent_route-IsReachable creds fresh new body w w' r done =
      Yields-ok IsReachable (create_agent_route p cfg decode now creds fresh new body w) r w' done
        ((route-IsReachable creds fresh new body).after w)
