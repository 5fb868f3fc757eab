-- ===== src/AccessKeys/Validity.antt =====
-- Which keys services/access_key_service.py takes for valid.
use agntspark_gateway.Prelude.{
  ℕ, String, ◌≡◌, ◌⊎◌, inl, inr, refl, ap, subst, Bool, true, false, not, Option, none, some, List,
  [], ◌∷◌, ◌++◌, arith, any, find, find-test, delete_where, take, All, if◌then◌else◌, ◌==◌, ◌&&◌,
  ◌||◌, string_eq, nat_eq, Bool-cases, ==_iff,
}
use agntspark_gateway.Prelude.Characters.{starts_with}
use agntspark_gateway.Exec.{Result, ok, err}
use agntspark_gateway.Models.{Text, Agent, AgentAccessKey}
use agntspark_gateway.World.{World, Platform}
use agntspark_gateway.AccessKeys.{
  key_prefix, create_access_key, is_valid_access_key, owned_key, delete_access_key,
}

starts_append : (s t : Text) → starts_with (s ++ t) s ≡ true
unfolding starts_with
starts_append [] t = refl
starts_append (c ∷ s) t = ground (arith, starts_append s t)

module _ (agent_id h : String) where
  abbrev matches : AgentAccessKey → Bool
  matches k = k.agent_id == agent_id && k.key_hash == h

  any-add :
      (rows : List AgentAccessKey) (k : AgentAccessKey)
      → matches k ≡ true
      → any matches (rows ++ k ∷ []) ≡ true
  any-add [] k m = ground arith
  any-add (x ∷ rows) k m = ground (arith, any-add rows k m)

  any-delete :
      (id : ℕ) (rows : List AgentAccessKey)
      → All (λ k. k.key_hash ≡ h → k.id ≡ id) rows
      → any matches (delete_where (λ k. k.id == id) rows) ≡ false
  any-delete id [] all = refl
  any-delete id (x ∷ rows) all = ground (arith, any-delete id rows, all.0)

owned_key-ok :
    (agent_id : String) (o : Option AgentAccessKey)
    → (owned_key agent_id o ≡ none)
      ⊎ ((k : AgentAccessKey) × (o ≡ some k) × (owned_key agent_id o ≡ some k))
owned_key-ok agent_id none = inl refl
owned_key-ok agent_id (some k) = elim (Bool-cases (k.agent_id == agent_id)) [
  | inl mine ↦ inr (k, refl, rw mine refl)
  | inr other ↦ inl (rw other refl)
]

module _ {R : Type 0} (p : Platform R) where
  abbrev IsValidIn : String → Result (AgentAccessKey × Text) × World R → Type 0
  IsValidIn id (ok (k, raw_key), w) = is_valid_access_key p w.stored id raw_key ≡ true
  IsValidIn id (err e, w) = Unit

  abbrev made : Agent → String → ℕ → Text → ℕ → AgentAccessKey
  made agent label id token now = record {
    id = id;
    agent_id = agent.id;
    label = label;
    key_prefix = take 12 (key_prefix ++ token);
    key_hash = p.hashes.sha256 (key_prefix ++ token);
    created_at = now;
  }

  valid_if : (b c : Bool) → c ≡ false → (if not b then false else c) ≡ false
  valid_if true c h = h
  valid_if false c h = refl

  -- A new access key is valid for its agent as soon as it is committed.
  pub create_access_key-is_valid :
      (agent : Agent) (label : String) (id : ℕ) (token : Text) (now : ℕ) (w w' : World R)
      (k : AgentAccessKey) (raw_key : Text)
      → create_access_key p agent label id token now w ≡ (ok (k, raw_key), w')
      → is_valid_access_key p w'.stored agent.id raw_key ≡ true
  unfolding create_access_key is_valid_access_key
  create_access_key-is_valid agent label id token now w w' k raw_key done =
      elim (Bool-cases (
        any (λ x. x.id == id || x.key_hash == p.hashes.sha256 (key_prefix ++ token))
          w.db.access_keys)) [
            | inl taken ↦ cc (rw taken at done)
            | inr free ↦ subst (IsValidIn agent.id) (rw free at done) (
                rw (starts_append key_prefix token) (
                  any-add agent.id (p.hashes.sha256 (key_prefix ++ token)) w.db.access_keys
                    (made agent label id token now) (ground arith)))
          ]

  -- Once an access key is deleted, the text that it was made from is not valid for any agent, if no
  -- other key has its hash.
  pub delete_access_key-is_valid :
      (agent_id other : String) (key_id : ℕ) (raw_key : Text) (w w' : World R)
      → delete_access_key agent_id key_id w ≡ (ok tt, w')
      → All (λ k. k.key_hash ≡ p.hashes.sha256 raw_key → k.id ≡ key_id) w.db.access_keys
      → is_valid_access_key p w'.stored other raw_key ≡ false
  unfolding delete_access_key is_valid_access_key
  delete_access_key-is_valid agent_id other key_id raw_key w w' done alone =
      elim (owned_key-ok agent_id (find (λ k. k.id == key_id) w.db.access_keys)) [
        | inl absent ↦ cc (rw absent at done)
        | inr (k, found, e) ↦
            let same =
              (==_iff k.id key_id).0 (find-test (λ x. x.id == key_id) w.db.access_keys k found) in
            let stored = ap (λ x. x.1.stored) (rw e at done) in
            let gone = any-delete other (p.hashes.sha256 raw_key) key_id w.db.access_keys alone in
            subst (λ d. is_valid_access_key p d other raw_key ≡ false) stored
              (rw same (valid_if (starts_with raw_key key_prefix) _ gone))
      ]
