-- ===== src/Config/Valid.antt =====
-- What validate of internal/config/config.go accepts, said without its loops.
use heave.Prelude.{
  refl, inl, Bool, not, ◌&&◌, ◌||◌, List, [], ◌∷◌, map, arith, length, ◌==◌, Bytes, str_eq, has,
  Dict,
}
use heave.Firewall.Local.{is_empty}
use heave.Config.{
  Config, Provider, Model, Client, Result, ok, err, Error, ◌>>=◌, ◌>>◌, refuse, provider_incomplete,
  unknown_type, duplicate_provider,
}
use heave.Config
use heave.Config.Checks.{
  is_negative, is_known_type, check_provider, check_providers, check_model, check_models,
  check_fallbacks, check_all_fallbacks, is_hex, check_client, check_clients, is_nil,
  validate_clients, check_patterns, check_limits,
}
use heave.Config.Lists.{
  Decides, Decides-refuse, Decides->>=, Decides-eq, all, distinct, apart, onto, apart-cons,
  apart-nil,
}

pub is_provider : Provider → Bool
is_provider p =
    not (is_empty p.name || is_empty p.provider_type)
    && is_known_type p.provider_type
    && not (is_negative p.rate_limit_rpm || is_negative p.rate_limit_tpm)

abbrev pub provider_names : List Provider → List Bytes
provider_names ps = map (λ p. p.name) ps

abbrev pub model_ids : List Model → List Bytes
model_ids ms = map (λ m. m.id) ms

pub is_client : Client → Bool
is_client cl =
    not (is_empty cl.name)
    && (length cl.key_sha256 == 64)
    && is_hex cl.key_sha256
    && not (is_negative cl.monthly_budget_usd || is_negative cl.rate_limit_rpm)

-- A fallback is another configured model.
abbrev pub is_fallback : List Bytes → Model → Bytes → Bool
is_fallback ids m fb = not (str_eq fb m.id) && has fb ids

check_provider_lem :
    (p : Provider) (names : List Bytes)
    → Decides (is_provider p && not (has p.name names)) (check_provider p names) tt
unfolding check_provider is_provider
check_provider_lem p names = ground arith

pub check_providers_lem :
    (ps : List Provider) (names : List Bytes)
    → Decides
        (all is_provider ps && (distinct (provider_names ps) && apart (provider_names ps) names))
        (check_providers ps names)
        (onto (provider_names ps) names)
unfolding check_providers
check_providers_lem [] names = inl (refl, refl)
check_providers_lem (p ∷ ps) names =
    Decides-eq _ _ _ _ (ground (arith, apart-cons (provider_names ps) names p.name)) (
      Decides->>= _ _ (check_provider p names) (λ _. check_providers ps (p.name ∷ names)) tt _
        (check_provider_lem p names) (check_providers_lem ps (p.name ∷ names)))

check_model_lem :
    (m : Model) (providers aliases : List Bytes)
    → Decides
        (not (is_empty m.id) && (not (has m.id aliases) && has m.provider providers))
        (check_model m providers aliases)
        tt
unfolding check_model
check_model_lem m providers aliases = ground arith

pub check_models_lem :
    (ms : List Model) (providers aliases : List Bytes)
    → Decides
        (all (λ m. not (is_empty m.id)) ms
          && (all (λ m. has m.provider providers) ms
              && (distinct (model_ids ms) && apart (model_ids ms) aliases)))
        (check_models ms providers aliases)
        (onto (model_ids ms) aliases)
unfolding check_models
check_models_lem [] providers aliases = inl (refl, refl)
check_models_lem (m ∷ ms) providers aliases =
    Decides-eq _ _ _ _ (ground (arith, apart-cons (model_ids ms) aliases m.id)) (
      Decides->>= _ _ (check_model m providers aliases)
        (λ _. check_models ms providers (m.id ∷ aliases)) tt _ (check_model_lem m providers aliases)
        (check_models_lem ms providers (m.id ∷ aliases)))

check_fallbacks_lem :
    (m : Model) (fallbacks aliases : List Bytes)
    → Decides (all (is_fallback aliases m) fallbacks) (check_fallbacks m.id fallbacks aliases) tt
unfolding check_fallbacks
check_fallbacks_lem m [] aliases = inl (refl, refl)
check_fallbacks_lem m (fb ∷ fallbacks) aliases =
    ground (arith, check_fallbacks_lem m fallbacks aliases)

pub check_all_fallbacks_lem :
    (ms : List Model) (aliases : List Bytes)
    → Decides
        (all (λ m. all (is_fallback aliases m) m.fallbacks) ms)
        (check_all_fallbacks ms aliases)
        tt
unfolding check_all_fallbacks
check_all_fallbacks_lem [] aliases = inl (refl, refl)
check_all_fallbacks_lem (m ∷ ms) aliases =
    Decides->>= _ _ (check_fallbacks m.id m.fallbacks aliases) (λ _. check_all_fallbacks ms aliases)
      tt tt (check_fallbacks_lem m m.fallbacks aliases) (check_all_fallbacks_lem ms aliases)

check_client_lem :
    (cl : Client) (names hashes : List Bytes)
    → Decides
        (is_client cl && (not (has cl.name names) && not (has cl.key_sha256 hashes)))
        (check_client cl names hashes)
        tt
unfolding check_client is_client
check_client_lem cl names hashes = ground arith

abbrev pub client_names : List Client → List Bytes
client_names cls = map (λ cl. cl.name) cls

abbrev pub client_keys : List Client → List Bytes
client_keys cls = map (λ cl. cl.key_sha256) cls

check_clients_lem :
    (cls : List Client) (names hashes : List Bytes)
    → Decides
        (all is_client cls
          && ((distinct (client_names cls) && apart (client_names cls) names)
              && (distinct (client_keys cls) && apart (client_keys cls) hashes)))
        (check_clients cls names hashes)
        tt
unfolding check_clients
check_clients_lem [] names hashes = inl (refl, refl)
check_clients_lem (cl ∷ cls) names hashes =
    Decides-eq _ _ _ _
      (ground (
        arith,
        apart-cons (client_names cls) names cl.name,
        apart-cons (client_keys cls) hashes cl.key_sha256,
      ))
      (Decides->>= _ _ (check_client cl names hashes)
        (λ _. check_clients cls (cl.name ∷ names) (cl.key_sha256 ∷ hashes)) tt tt
        (check_client_lem cl names hashes)
        (check_clients_lem cls (cl.name ∷ names) (cl.key_sha256 ∷ hashes)))

pub check_patterns_lem :
    (compiles : Bytes → Bool) (patterns : Dict Bytes)
    → Decides (all (λ e. compiles e.1) patterns) (check_patterns compiles patterns) tt
unfolding check_patterns
check_patterns_lem compiles [] = inl (refl, refl)
check_patterns_lem compiles ((name, pattern_text) ∷ rest) =
    ground (arith, check_patterns_lem compiles rest)

pub has_limits : Config → Bool
has_limits c =
    not (is_negative c.failover.consecutive_failures)
    && not (
        is_negative c.firewall.max_usd_per_min
        || is_negative c.firewall.max_tokens_per_min
        || is_negative c.firewall.max_concurrent
        || is_negative c.firewall.loop_threshold
        || is_negative c.firewall.max_usd_per_run)
    && not (is_negative c.firewall.kill_ttl)

pub check_limits_lem : (c : Config) → Decides (has_limits c) (check_limits c) tt
unfolding check_limits has_limits
check_limits_lem c = ground arith

-- The clients of a valid configuration.
pub has_clients : Config → Bool
has_clients c =
    not (c.auth.enabled && is_nil c.clients)
    && all is_client c.clients
    && distinct (client_names c.clients)
    && distinct (client_keys c.clients)

pub validate_clients_lem : (c : Config) → Decides (has_clients c) (validate_clients c) tt
unfolding validate_clients has_clients
validate_clients_lem c =
    Decides-eq _ _ _ _
      (ground (arith, apart-nil (client_names c.clients), apart-nil (client_keys c.clients)))
      (Decides->>= _ _ (refuse (c.auth.enabled && is_nil c.clients) Config.no_clients)
        (λ _. check_clients c.clients [] []) tt tt (Decides-refuse _ _)
        (check_clients_lem c.clients [] []))

-- A valid configuration: there are providers and models, all complete and named apart; every model has
-- a configured provider, and its fallbacks are other configured models; so is the default model, if
-- there is one; and clients, patterns and limits are valid.
unfoldable pub is_valid : (Bytes → Bool) → Config → Bool
is_valid compiles c =
    let ids = model_ids c.models in
    not (is_nil c.providers)
    && not (is_nil c.models)
    && all is_provider c.providers
    && distinct (provider_names c.providers)
    && all (λ m. not (is_empty m.id)) c.models
    && all (λ m. has m.provider (provider_names c.providers)) c.models
    && distinct ids
    && all (λ m. all (is_fallback ids m) m.fallbacks) c.models
    && (is_empty c.routing.default_model || has c.routing.default_model ids)
    && has_clients c
    && all (λ e. compiles e.1) c.redaction.custom_patterns
    && has_limits c
