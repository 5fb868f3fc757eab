-- ===== src/AccessKeys.antt =====
-- services/access_key_service.py: the keys of private agents. Only a key's hash is stored; ids,
-- tokens and the time come as arguments.
pub mod Validity
use agntspark_gateway.Prelude.{
  ℕ, String, Bool, true, false, Option, none, some, List, [], ◌∷◌, ◌++◌, any, find, select,
  delete_where, take, if◌then◌else◌, ◌==◌, ◌&&◌, ◌||◌, string_eq, nat_eq, not,
}
use agntspark_gateway.Prelude.Characters.{codes, starts_with}
use agntspark_gateway.Errors.{access_key_not_found, unhandled}
use agntspark_gateway.Exec.{
  Exec, ok, err, pure, raise, reads, modify, or_raise, refuse_if, and_then, ◌>>=◌, ◌>>◌,
}
use agntspark_gateway.Models.{Text, Database, Agent, AgentAccessKey}
use agntspark_gateway.World.{World, Platform, commit, on_access_keys}

abbrev pub key_prefix : Text
key_prefix = codes "agk_"

module _ {R : Type 0} (p : Platform R) where
  -- `create_access_key`; a hash that is taken fails the commit
  unfoldable pub create_access_key :
      Agent → String → ℕ → Text → ℕ → Exec (World R) (AgentAccessKey × Text)
  create_access_key agent label id token now =
      let raw_key : Text = key_prefix ++ token in
      let key : AgentAccessKey = record {
        id = id;
        agent_id = agent.id;
        label = label;
        key_prefix = take 12 raw_key;
        key_hash = p.hashes.sha256 raw_key;
        created_at = now;
      } in
      do
        reads (λ w.
            refuse_if (any (λ k. k.id == id || k.key_hash == key.key_hash) w.db.access_keys)
              unhandled)
        modify (on_access_keys (λ rows. rows ++ key ∷ []))
        commit
        pure (key, raw_key)

  -- `is_valid_access_key`
  unfoldable pub is_valid_access_key : Database → String → Text → Bool
  unfolding starts_with
  is_valid_access_key db agent_id raw_key =
      if not (starts_with raw_key key_prefix)
      then false
      else any (λ k. k.agent_id == agent_id && k.key_hash == p.hashes.sha256 raw_key) db.access_keys

abbrev pub owned_key : String → Option AgentAccessKey → Option AgentAccessKey
owned_key agent_id none = none
owned_key agent_id (some k) = if k.agent_id == agent_id then some k else none

module _ {R : Type 0} where
  -- `delete_access_key`
  unfoldable pub delete_access_key : String → ℕ → Exec (World R) (Unit {0})
  delete_access_key agent_id key_id = do
    key ← reads (λ w.
        or_raise (owned_key agent_id (find (λ k. k.id == key_id) w.db.access_keys))
          (access_key_not_found key_id))
    modify (on_access_keys (delete_where (λ k. k.id == key.id)))
    commit

-- `list_access_keys`, whose rows are in the order of creation
unfoldable pub list_access_keys : Database → String → List AgentAccessKey
list_access_keys db agent_id = select (λ k. k.agent_id == agent_id) db.access_keys
