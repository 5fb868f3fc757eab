-- ===== src/Tests/Limits.antt =====
-- Runs of the limiter, the meter, slugs and the environment.
use agntspark_gateway.Prelude.{
  ◌*◌, ◌<◌, ◌≡◌, ◌≢◌, ◌↔◌, refl, String, none, some, List, [], ◌∷◌, ◌++◌, true, false, arith,
  option_eq, nat_eq, ℕ_discrete, string_eq,
}
use agntspark_gateway.Prelude.Characters.{codes, has_char, lower}
use agntspark_gateway.Exec.{ok}
use agntspark_gateway.Models.{Agent}
use agntspark_gateway.Schemas.{EnvVar, DeployConfig}
use agntspark_gateway.AgentConfig.{env_to_storage, env_for_container}
use agntspark_gateway.AgentConfig.Env.{plain_from, env_for_container-to_storage}
use agntspark_gateway.Limiter.{Limiter, hit, new_limiter, window_at, micro}
use agntspark_gateway.Limiter.Windows.{Call, replay, passed, hit-admits}
use agntspark_gateway.Metering.Flush.{flush_requests-Flushed, Flushed, counting, count_all}
use agntspark_gateway.Metering.{flush_requests}
use agntspark_gateway.Slug.{new_slug, slug_from_host, normal_host, domain_suffix, public_url}
use agntspark_gateway.Slug.Host.{slug_from_host_iff, slug_from_host-public_url, IsDomain}
use agntspark_gateway.Tests.{bot, world, ascii, cipher, cipher-IsCipher}

abbrev once : List Call
once = record { key = "bob"; limit = 1; now = 5 } ∷ []

hit-admits_example :
    ((hit "bob" 1 7 (replay once (new_limiter 60))).0 ≡ none)
    ↔ (passed "bob" (window_at 60 7) once (new_limiter 60) < 1)
hit-admits_example = hit-admits 60 once "bob" 1 7 (omega arith)

abbrev full : Limiter
full = record { window_seconds = 60; window = some 0; counts = ("bob", 1) ∷ [] }

refused_hit : (hit "bob" 1 (30 * micro) full).0 ≡ some 30
unfolding hit option_eq nat_eq ℕ_discrete string_eq
refused_hit = refl

flush_requests-Flushed_example :
    let w = record world { pending = (("agt_1", 1, 0), 3) ∷ [] } in
    Flushed w.pending
      (record w { pending = count_all (("agt_1", 1, 0) ∷ []) [] })
      (flush_requests none (counting (("agt_1", 1, 0) ∷ [])) w)
flush_requests-Flushed_example =
    flush_requests-Flushed none (("agt_1", 1, 0) ∷ [])
      (record world { pending = (("agt_1", 1, 0), 3) ∷ [] })

slug_from_host_iff_example :
    (slug_from_host ascii (some (codes "run.io")) (codes "bot.run.io") ≡ some (codes "bot")) ↔ (
      (normal_host ascii (codes "bot.run.io") ≡ codes "bot" ++ domain_suffix ascii (codes "run.io"))
      × (codes "bot" ≢ [])
      × (has_char b'.' (codes "bot") ≡ false))
slug_from_host_iff_example =
    slug_from_host_iff ascii b'r' (codes "un.io") (codes "bot.run.io") (codes "bot")

run_io-IsDomain : IsDomain ascii (codes "run.io")
unfolding has_char nat_eq ℕ_discrete lower
run_io-IsDomain = record { no_port = refl; no_final_dot = refl; no_final_dot_lower = refl }

slug_from_host-public_url_example :
    let slug = new_slug ascii (codes "Bot") (λ i. i) in
    let host = slug ++ b'.' ∷ codes "run.io" in
    (public_url (some (codes "run.io")) slug ≡ some (codes "https://" ++ host))
    × (slug_from_host ascii (some (codes "run.io")) host ≡ some slug)
    × (slug_from_host ascii (some (codes "run.io")) (host ++ b':' ∷ codes "443") ≡ some slug)
slug_from_host-public_url_example =
    slug_from_host-public_url ascii (codes "Bot") (λ i. i) b'r' (codes "un.io") (codes "443")
      run_io-IsDomain

abbrev plain_var : EnvVar
plain_var = record { key = "MODE"; value = "fast"; secret = false }

abbrev secret_var : String → EnvVar
secret_var value = record { key = "TOKEN"; value = value; secret = true }

env_for_container-to_storage_example :
    env_for_container cipher (env_to_storage cipher 0 (plain_var ∷ secret_var "one" ∷ []))
    ≡ ok (plain_from (plain_var ∷ secret_var "one" ∷ []) [])
env_for_container-to_storage_example =
    env_for_container-to_storage cipher 0 (plain_var ∷ secret_var "one" ∷ []) cipher-IsCipher

abbrev redeploy : DeployConfig
redeploy = record {
  replicas = 1;
  resources = record {
    cpu = 500_000;
    memory_mb = 256;
    gpu = 0;
    gpu_type = none;
    disk_gb = 10;
    ephemeral_storage_gb = 5;
  };
  env = plain_var ∷ [];
  image = none;
  build_path = none;
  command = none;
  args = [];
  health_check_path = none;
  auto_scale = false;
  min_replicas = 1;
  max_replicas = 10;
  port = 8080;
}

abbrev keyed_bot : Agent
keyed_bot = record bot { env = record { key = "OPENAI_API_KEY"; value = "k"; secret = true } ∷ [] }
