-- ===== src/AgentConfig/Env.antt =====
-- What becomes of an agent's environment: secrets at rest and in responses, the container's plain
-- values, and the keys that a redeploy keeps.
use agntspark_gateway.Prelude.{
  ℕ, suc, String, ◌≡◌, refl, Bool, false, not, List, [], ◌∷◌, ◌++◌, select, contains, insert, ◌==◌,
  ◌&&◌, if◌then◌else◌, string_eq, arith, Bool-cases, inl, inr, append-nil,
}
use agntspark_gateway.Exec.{ok}
use agntspark_gateway.External.{Cipher, IsCipher}
use agntspark_gateway.Models.{Agent, EnvEntry}
use agntspark_gateway.Schemas.{EnvVar, DeployConfig}
use agntspark_gateway.AgentConfig.{
  provider_keys, keys, env_to_storage, env_loop, env_for_container, apply_deploy_config,
  env_from_storage_masked,
}

-- Two environments that a caller may tell apart only by the values of secrets.
abbrev pub SameBesideSecrets : List EnvVar → List EnvVar → Type 0
SameBesideSecrets [] [] = Unit
SameBesideSecrets (e ∷ env) (f ∷ env') =
    (e.key ≡ f.key)
    × (e.secret ≡ f.secret)
    × (e.secret ≡ false → e.value ≡ f.value)
    × SameBesideSecrets env env'
SameBesideSecrets _ _ = ⊥

-- A response shows nothing of a secret's value: environments that differ only there give the same
-- response, under any cipher and nonces.
pub masked_hides_secrets :
    (cipher : Cipher) (n m : ℕ) (env env' : List EnvVar)
    → SameBesideSecrets env env'
    → env_from_storage_masked (env_to_storage cipher n env)
      ≡ env_from_storage_masked (env_to_storage cipher m env')
unfolding env_from_storage_masked env_to_storage
masked_hides_secrets cipher n m [] [] h = refl
masked_hides_secrets cipher n m [] (f ∷ env') h = elim h [ ]
masked_hides_secrets cipher n m (e ∷ env) [] h = elim h [ ]
masked_hides_secrets cipher n m (e ∷ env) (f ∷ env') h =
    ground (arith, masked_hides_secrets cipher (suc n) (suc m) env env' h.3)

-- the plain environment as the container gets it: a later entry of a key wins
abbrev pub plain_from : List EnvVar → List (String × String) → List (String × String)
plain_from [] plain = plain
plain_from (e ∷ env) plain = plain_from env (insert e.key e.value plain)

env_loop-to_storage :
    (cipher : Cipher)
    → IsCipher cipher
    → (n : ℕ) (env : List EnvVar) (plain : List (String × String))
    → env_loop cipher (env_to_storage cipher n env) plain ≡ ok (plain_from env plain)
unfolding env_loop env_to_storage
env_loop-to_storage cipher law n [] plain = refl
env_loop-to_storage cipher law n (e ∷ env) plain =
    let rest = env_loop-to_storage cipher law (suc n) env (insert e.key e.value plain) in
    elim (Bool-cases e.secret) [
      | inl yes_secret ↦ rw (yes_secret) (rw (law.decrypt-encrypt n e.value) rest)
      | inr plain_text ↦ rw plain_text rest
    ]

-- Encrypted at rest, the environment reaches the container with the values that the caller sent.
pub env_for_container-to_storage :
    (cipher : Cipher) (n : ℕ) (env : List EnvVar)
    → IsCipher cipher
    → env_for_container cipher (env_to_storage cipher n env) ≡ ok (plain_from env [])
unfolding env_for_container
env_for_container-to_storage cipher n env law = env_loop-to_storage cipher law n env []

-- the stored entries of one key
abbrev pub entries_of : String → List EnvEntry → List EnvEntry
entries_of k = select (λ e. e.key == k)

entries_of-append :
    (k : String) (s t : List EnvEntry) → entries_of k (s ++ t) ≡ entries_of k s ++ entries_of k t
entries_of-append k [] t = refl
entries_of-append k (e ∷ s) t = ground (arith, entries_of-append k s t)

entries_of-select :
    (k : String) (p : String → Bool) (env : List EnvEntry)
    → entries_of k (select (λ e. p e.key) env) ≡ (if p k then entries_of k env else [])
entries_of-select k p [] = ground arith
entries_of-select k p (e ∷ env) = ground (arith, entries_of-select k p env)

entries_of-absent :
    (k : String) (env : List EnvEntry) → contains (keys env) k ≡ false → entries_of k env ≡ []
entries_of-absent k [] h = refl
entries_of-absent k (e ∷ env) h = ground (arith, entries_of-absent k env)

kept_beside :
    (k : String) (special : String → Bool) (new_env old : List EnvEntry)
    → entries_of k
        (new_env ++ select (λ e. special e.key && not (contains (keys new_env) e.key)) old)
      ≡ (if special k && not (contains (keys new_env) k)
          then entries_of k old
          else entries_of k new_env)
kept_beside k special new_env old = ground (
  arith,
  entries_of-append k new_env
      (select (λ e. special e.key && not (contains (keys new_env) e.key)) old),
  entries_of-select k (λ j. special j && not (contains (keys new_env) j)) old,
  entries_of-absent k new_env,
  append-nil (entries_of k new_env),
)

-- A redeploy replaces the environment, but a provider's key that it does not set is kept as it was.
pub apply_deploy_config-entries :
    (cipher : Cipher) (n : ℕ) (deploy : DeployConfig) (agent : Agent) (k : String)
    → let new_env = env_to_storage cipher n deploy.env in
      entries_of k (apply_deploy_config cipher n deploy agent).env ≡ (
        if contains provider_keys k && not (contains (keys new_env) k)
        then entries_of k agent.env
        else entries_of k new_env)
unfolding apply_deploy_config
apply_deploy_config-entries cipher n deploy agent k =
    let new_env = env_to_storage cipher n deploy.env in
    kept_beside k (λ j. contains provider_keys j) new_env agent.env
