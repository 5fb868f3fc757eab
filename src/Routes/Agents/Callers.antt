-- ===== src/Routes/Agents/Callers.antt =====
-- Who may use the handlers of routers/agents.py, and on what.
use agntspark_gateway.Prelude.{
  ℕ, String, ◌≡◌, ap, refl, Bool, false, Option, List, ◌++◌, Bool-cases, Option-cases, inl, inr,
  any, find, ◌==◌, ◌||◌, string_eq, nat_eq, sym, subst,
}
use agntspark_gateway.Errors.{Error}
use agntspark_gateway.Exec.{checked, Exec, Result, ok, err, ◌>>=◌, continue}
use agntspark_gateway.Exec.Keeps.{
  Keeps, checked-Holds, Keeps-bind, Keeps-pure, Keeps-lift, Keeps-reads, Keeps-continue,
}
use agntspark_gateway.External.{ScaleDirection}
use agntspark_gateway.Models.{Agent, AgentAccess, Text, everyone, private}
use agntspark_gateway.Roles.{operator}
use agntspark_gateway.Quota.Sums.{HasUniqueIds}
use agntspark_gateway.Schemas.{AgentConfigIn, AgentUpdate, DeployConfig}
use agntspark_gateway.Schemas.Bodies.{
  optional_deploy_valid, agent_config_valid, agent_update_valid, access_key_valid, scale_valid,
}
use agntspark_gateway.Settings.{GatewaySettings}
use agntspark_gateway.World.{World, Platform}
use agntspark_gateway.Access.{Decode, Principal, require_role}
use agntspark_gateway.AccessKeys.{key_prefix, create_access_key, owned_key, delete_access_key}
use agntspark_gateway.Agents.{
  Fresh, get_owned, create_agent, update_agent, deploy_agent, scale_agent,
}
use agntspark_gateway.Agents.Requests.{
  create, deploy, update, scale, delete, Spares, perform, perform-Spares,
}
use agntspark_gateway.Agents.Responses.{AgentResponse}
use agntspark_gateway.Routes.Agents.{
  NewKey, label_of, require_developer, shown, with_first_key, create_agent_route,
  update_agent_route, create_access_key_route, delete_access_key_route, delete_agent_route,
  deploy_agent_route, scale_agent_route,
}

-- The requests of /v1/agents that change something, and those that only look.
pub data Change : Type 0 where
  post_agent : Fresh → NewKey → AgentConfigIn → Change
  patch_agent : String → AgentUpdate → Change
  post_deploy : ℕ → String → Option DeployConfig → Change
  post_scale : String → ScaleDirection → ℕ → Change
  remove_agent : String → Change
  post_access_key : String → Option String → NewKey → Change
  remove_access_key : String → ℕ → Change

module _ {R : Type 0} where
  create_access_key-Leaves :
      (p : Platform R) (a : Agent) (label : String) (id : ℕ) (token : Text) (now : ℕ) (w : World R)
      → (create_access_key p a label id token now w).1.db.agents ≡ w.db.agents
  unfolding create_access_key
  create_access_key-Leaves p a label id token now w =
      elim (Bool-cases (
        any (λ k. k.id == id || k.key_hash == p.hashes.sha256 (key_prefix ++ token))
          w.db.access_keys)) [ inl taken ↦ rw taken refl | inr free ↦ rw free refl ]

  delete_access_key-Leaves :
      (id : String) (key_id : ℕ) (w : World R)
      → (delete_access_key id key_id w).1.db.agents ≡ w.db.agents
  unfolding delete_access_key
  delete_access_key-Leaves id key_id w =
      elim (Option-cases (owned_key id (find (λ k. k.id == key_id) w.db.access_keys))) [
        | inl absent ↦ rw absent refl
        | inr (k, e) ↦ rw e refl
      ]

module _ {R : Type 0} (p : Platform R) (cfg : GatewaySettings) (decode : Decode) (now : ℕ)
    (creds : Option Text) where
  -- the state after a request that changes something
  abbrev pub serve : Change → World R → World R
  serve (post_agent fresh new body) w =
      (create_agent_route p cfg decode now creds fresh new body w).1
  serve (patch_agent id body) w = (update_agent_route p cfg decode now creds id body w).1
  serve (post_deploy nonce id d) w = (deploy_agent_route p cfg decode now creds nonce id d w).1
  serve (post_scale id direction count) w =
      (scale_agent_route p cfg decode now creds id direction count w).1
  serve (remove_agent id) w = (delete_agent_route p cfg decode now creds id w).1
  serve (post_access_key id label new) w =
      (create_access_key_route p cfg decode now creds id label new w).1
  serve (remove_access_key id key_id) w =
      (delete_access_key_route p cfg decode now creds id key_id w).1

  -- a caller that `require_developer` refuses, and one that it lets in
  refused :
      {A : Type 0} (e : Error) (f : Principal → Exec (World R) A) (w : World R)
      → require_role p cfg decode now operator false w.db creds ≡ err e
      → (require_developer p cfg decode now creds >>= f) w ≡ (err e, w)
  unfolding require_developer
  refused e f w denied = rw denied refl

  let_in :
      {A : Type 0} (who : Principal) (f : Principal → Exec (World R) A) (w : World R)
      → require_role p cfg decode now operator false w.db creds ≡ ok who
      → Spares who.user_id w.db.agents (f who w).1.db.agents
      → Spares who.user_id w.db.agents
          ((require_developer p cfg decode now creds >>= f) w).1.db.agents
  unfolding require_developer
  let_in who f w passed h = rw passed h

  -- Without a developer's role nothing is changed: a request of a caller that `require_role` refuses
  -- leaves the database, the container runtime and the process as they were.
  pub serve-refused :
      (e : Error) (c : Change) (w : World R)
      → require_role p cfg decode now operator false w.db creds ≡ err e
      → serve c w ≡ w
  unfolding create_agent_route update_agent_route deploy_agent_route scale_agent_route
      delete_agent_route create_access_key_route delete_access_key_route require_developer
  serve-refused e (post_agent fresh new body) w denied = ap (λ o. o.1) (refused e _ w denied)
  serve-refused e (patch_agent id body) w denied = ap (λ o. o.1) (refused e _ w denied)
  serve-refused e (post_deploy nonce id d) w denied = ap (λ o. o.1) (refused e _ w denied)
  serve-refused e (post_scale id direction count) w denied = ap (λ o. o.1) (refused e _ w denied)
  serve-refused e (remove_agent id) w denied = ap (λ o. o.1) (refused e _ w denied)
  serve-refused e (post_access_key id label new) w denied = ap (λ o. o.1) (refused e _ w denied)
  serve-refused e (remove_access_key id key_id) w denied = ap (λ o. o.1) (refused e _ w denied)

  module _ (who : Principal) (before : List Agent) where
    abbrev Safe : World R → Type 0
    Safe w = Spares who.user_id before w.db.agents

    -- an action that does not touch the agents
    abbrev Leaves : {A : Type 0} → Exec (World R) A → Type 0
    Leaves m = (w : World R) → (m w).1.db.agents ≡ w.db.agents

    Leaves-Safe : {A : Type 0} (m : Exec (World R) A) → Leaves m → Keeps Safe m
    Leaves-Safe m same = record {
      after = λ w h. subst (λ rows. Spares who.user_id before rows) (sym (same w)) h;
    }

    shown-Safe : (a : Agent) → Keeps Safe (shown p cfg decode now a)
    shown-Safe a = Keeps-lift _

    create_access_key-Safe :
        (a : Agent) (label : String) (new : NewKey)
        → Keeps Safe (create_access_key p a label new.id new.token now)
    create_access_key-Safe a label new =
        Leaves-Safe _ (create_access_key-Leaves p a label new.id new.token now)

    with_first_key-Safe :
        (access : AgentAccess) (new : NewKey) (a : Agent) (r : AgentResponse)
        → Keeps Safe (with_first_key p cfg decode now access new a r)
    unfolding with_first_key
    with_first_key-Safe everyone new a r = Keeps-pure r
    with_first_key-Safe private new a r =
        Keeps-bind _ _ (create_access_key-Safe a "default" new) (λ made. Keeps-pure _)

    delete_access_key-Safe : (id : String) (key_id : ℕ) → Keeps Safe (delete_access_key id key_id)
    delete_access_key-Safe id key_id = Leaves-Safe _ (delete_access_key-Leaves id key_id)

    get_owned-Safe : (id : String) → Keeps Safe (get_owned p who.user_id id)
    unfolding get_owned
    get_owned-Safe id = Keeps-reads _

    start : HasUniqueIds before → Spares who.user_id before before
    start u = record { unique = u; apart = refl }

    -- what follows a request that spares the others
    then_shown :
        {A B : Type 0} (r : Result A) (f : A → Exec (World R) B) (w : World R)
        → Safe w
        → ((a : A) → Keeps Safe (f a))
        → Safe (continue r f w).1
    then_shown r f w h keeps = (Keeps-continue r f (λ a _. keeps a)).after w h

  -- a caller that is let in, with a body that is checked
  let_in_checked :
      {A : Type 0} (who : Principal) (valid : Bool) (m : Principal → Exec (World R) A) (w : World R)
      → require_role p cfg decode now operator false w.db creds ≡ ok who
      → HasUniqueIds w.db.agents
      → Spares who.user_id w.db.agents (m who w).1.db.agents
      → Spares who.user_id w.db.agents
          ((require_developer p cfg decode now creds >>= λ x. checked valid (m x)) w).1.db.agents
  let_in_checked who valid m w passed u h =
      let_in who (λ x. checked valid (m x)) w passed
        (checked-Holds (Safe who w.db.agents) valid (m who) w (start who w.db.agents u) h)

  -- A developer's request changes nothing of the other users' agents, whichever request it is and
  -- however it ends, and no two agents come to share an id.
  pub serve-Spares :
      (who : Principal) (c : Change) (w : World R)
      → require_role p cfg decode now operator false w.db creds ≡ ok who
      → HasUniqueIds w.db.agents
      → Spares who.user_id w.db.agents (serve c w).db.agents
  unfolding create_agent_route update_agent_route deploy_agent_route scale_agent_route
      delete_agent_route create_access_key_route delete_access_key_route require_developer perform
  serve-Spares who (post_agent fresh new body) w passed u =
      let made = create_agent p fresh who.user_id body w in
      let_in_checked who (agent_config_valid body) _ w passed u (
        then_shown who w.db.agents made.0
          (λ a. shown p cfg decode now a >>= with_first_key p cfg decode now a.access new a) made.1
          (perform-Spares p who.user_id (create fresh body) w u)
          (λ a.
            Keeps-bind (shown p cfg decode now a) (with_first_key p cfg decode now a.access new a)
              (shown-Safe who w.db.agents a) (with_first_key-Safe who w.db.agents a.access new a)))
  serve-Spares who (patch_agent id body) w passed u =
      let out = update_agent p who.user_id id body w in
      let_in_checked who (agent_update_valid body) _ w passed u (
        then_shown who w.db.agents out.0 (shown p cfg decode now) out.1
          (perform-Spares p who.user_id (update id body) w u) (shown-Safe who w.db.agents))
  serve-Spares who (post_deploy nonce id d) w passed u =
      let out = deploy_agent p nonce who.user_id id d w in
      let_in_checked who (optional_deploy_valid d) _ w passed u (
        then_shown who w.db.agents out.0 (shown p cfg decode now) out.1
          (perform-Spares p who.user_id (deploy nonce id d) w u) (shown-Safe who w.db.agents))
  serve-Spares who (post_scale id direction count) w passed u =
      let out = scale_agent p who.user_id id direction count w in
      let_in_checked who (scale_valid count) _ w passed u (
        then_shown who w.db.agents out.0 _ out.1
          (perform-Spares p who.user_id (scale id direction count) w u) (λ _. Keeps-pure _))
  serve-Spares who (remove_agent id) w passed u =
      let_in who _ w passed (perform-Spares p who.user_id (delete id) w u)
  serve-Spares who (post_access_key id label new) w passed u =
      let_in_checked who (access_key_valid label) _ w passed u (
        then_shown who w.db.agents (get_owned p who.user_id id w).0 _
          (get_owned p who.user_id id w).1
          ((get_owned-Safe who w.db.agents id).after w (start who w.db.agents u))
          (λ a.
            Keeps-bind _ _ (create_access_key-Safe who w.db.agents a (label_of label) new)
              (λ _. Keeps-pure _)))
  serve-Spares who (remove_access_key id key_id) w passed u = let_in who _ w passed (
      then_shown who w.db.agents (get_owned p who.user_id id w).0 _ (get_owned p who.user_id id w).1
        ((get_owned-Safe who w.db.agents id).after w (start who w.db.agents u))
        (λ a. delete_access_key-Safe who w.db.agents a.id key_id))
