-- ===== src/Config/Checks.antt =====
-- validate and validateClients of internal/config/config.go. The maps of names that were seen are
-- lists of them. Whether a pattern compiles is an argument; the file and its YAML are, too.
use heave.Prelude.{
  ℕ, ◌*◌, Bool, true, false, not, ◌&&◌, ◌||◌, Option, none, some, List, [], ◌∷◌, ℤ, pos, ltb_ℤ, leb,
  ◌==◌, if◌then◌else◌, length, Bytes, bytes, str_eq, Dict, has,
}
use heave.Firewall.Local.{is_empty}
use heave.Config.{
  Config, Provider, Model, Client, Server, Result, ok, err, ◌>>=◌, ◌>>◌, refuse, unreadable,
  unparsable, no_providers, no_models, provider_incomplete, unknown_type, duplicate_provider,
  negative_provider_rate, model_incomplete, duplicate_model, unknown_provider, own_fallback,
  unknown_fallback, unknown_default, no_clients, client_incomplete, duplicate_client,
  bad_key_length, bad_key_hex, duplicate_key, negative_client_limit, bad_pattern, negative_failures,
  negative_firewall, negative_kill_ttl,
}

abbrev pub is_negative : ℤ → Bool
is_negative x = ltb_ℤ x (pos 0)

-- `if x <= 0 { x = d }`
abbrev pub default_to : ℕ → ℤ → ℤ
default_to d x = if ltb_ℤ (pos 0) x then x else pos d

unfoldable pub server_defaults : Server → Server
server_defaults s = record {
  addr = if is_empty s.addr then bytes ":8080" else s.addr;
  request_timeout = default_to (120 * 1000000000) s.request_timeout;
  max_request_bytes = default_to 1048576 s.max_request_bytes;
}

unfoldable pub with_defaults : Config → Config
unfolding server_defaults
with_defaults c = record c { server = server_defaults c.server }

abbrev pub is_known_type : Bytes → Bool
is_known_type t = str_eq t (bytes "anthropic") || str_eq t (bytes "openai")

-- The checks of one provider against the names before it.
unfoldable pub check_provider : Provider → List Bytes → Result (Unit {0})
check_provider p names = do
  refuse (is_empty p.name || is_empty p.provider_type) provider_incomplete
  refuse (not (is_known_type p.provider_type)) unknown_type
  refuse (has p.name names) duplicate_provider
  refuse (is_negative p.rate_limit_rpm || is_negative p.rate_limit_tpm) negative_provider_rate

-- The loop over the providers; it returns the names.
unfoldable pub check_providers : List Provider → List Bytes → Result (List Bytes)
unfolding check_provider
check_providers [] names = ok names
check_providers (p ∷ ps) names = check_provider p names >> check_providers ps (p.name ∷ names)

unfoldable pub check_model : Model → List Bytes → List Bytes → Result (Unit {0})
check_model m providers aliases = do
  refuse (is_empty m.id) model_incomplete
  refuse (has m.id aliases) duplicate_model
  refuse (not (has m.provider providers)) unknown_provider

unfoldable pub check_models : List Model → List Bytes → List Bytes → Result (List Bytes)
unfolding check_model
check_models [] providers aliases = ok aliases
check_models (m ∷ ms) providers aliases =
    check_model m providers aliases >> check_models ms providers (m.id ∷ aliases)

unfoldable pub check_fallbacks : Bytes → List Bytes → List Bytes → Result (Unit {0})
check_fallbacks id [] aliases = ok tt
check_fallbacks id (fb ∷ fallbacks) aliases = do
  refuse (str_eq fb id) own_fallback
  refuse (not (has fb aliases)) unknown_fallback
  check_fallbacks id fallbacks aliases

unfoldable pub check_all_fallbacks : List Model → List Bytes → Result (Unit {0})
unfolding check_fallbacks
check_all_fallbacks [] aliases = ok tt
check_all_fallbacks (m ∷ ms) aliases =
    check_fallbacks m.id m.fallbacks aliases >> check_all_fallbacks ms aliases

abbrev pub is_hex_digit : ℕ → Bool
is_hex_digit c = leb b'0' c && leb c b'9' || leb b'a' c && leb c b'f' || leb b'A' c && leb c b'F'

-- `hex.DecodeString` succeeds.
unfoldable pub is_hex : Bytes → Bool
is_hex [] = true
is_hex (a ∷ []) = false
is_hex (a ∷ b ∷ s) = is_hex_digit a && (is_hex_digit b && is_hex s)

unfoldable pub check_client : Client → List Bytes → List Bytes → Result (Unit {0})
unfolding is_hex
check_client cl names hashes = do
  refuse (is_empty cl.name) client_incomplete
  refuse (has cl.name names) duplicate_client
  refuse (not (length cl.key_sha256 == 64)) bad_key_length
  refuse (not (is_hex cl.key_sha256)) bad_key_hex
  refuse (has cl.key_sha256 hashes) duplicate_key
  refuse (is_negative cl.monthly_budget_usd || is_negative cl.rate_limit_rpm) negative_client_limit

unfoldable pub check_clients : List Client → List Bytes → List Bytes → Result (Unit {0})
unfolding check_client
check_clients [] names hashes = ok tt
check_clients (cl ∷ cls) names hashes =
    check_client cl names hashes >> check_clients cls (cl.name ∷ names) (cl.key_sha256 ∷ hashes)

abbrev pub is_nil {ℓ} : {A : Type ℓ} → List A → Bool
is_nil [] = true
is_nil (a ∷ l) = false

unfoldable pub validate_clients : Config → Result (Unit {0})
unfolding check_clients
validate_clients c = do
  refuse (c.auth.enabled && is_nil c.clients) no_clients
  check_clients c.clients [] []

-- The order of a Go map's entries does not matter here: the error is the same.
unfoldable pub check_patterns : (Bytes → Bool) → Dict Bytes → Result (Unit {0})
check_patterns compiles [] = ok tt
check_patterns compiles ((name, pattern_text) ∷ rest) =
    refuse (not (compiles pattern_text)) bad_pattern >> check_patterns compiles rest

unfoldable pub check_limits : Config → Result (Unit {0})
check_limits c = do
  refuse (is_negative c.failover.consecutive_failures) negative_failures
  refuse
      (is_negative c.firewall.max_usd_per_min
        || is_negative c.firewall.max_tokens_per_min
        || is_negative c.firewall.max_concurrent
        || is_negative c.firewall.loop_threshold
        || is_negative c.firewall.max_usd_per_run)
      negative_firewall
  refuse (is_negative c.firewall.kill_ttl) negative_kill_ttl

unfoldable pub validate : (Bytes → Bool) → Config → Result Config
unfolding check_providers check_models check_all_fallbacks validate_clients check_patterns
    check_limits with_defaults
validate compiles c = do
  refuse (is_nil c.providers) no_providers
  refuse (is_nil c.models) no_models
  providers ← check_providers c.providers []
  aliases ← check_models c.models providers []
  check_all_fallbacks c.models aliases
  refuse (not (is_empty c.routing.default_model) && not (has c.routing.default_model aliases))
      unknown_default
  validate_clients c
  check_patterns compiles c.redaction.custom_patterns
  check_limits c
  ok (with_defaults c)

-- The file's bytes and the YAML decoder are parameters.
unfoldable pub load :
    (Bytes → Bool) → (Bytes → Option Bytes) → (Bytes → Option Config) → Bytes → Result Config
unfolding validate
load compiles read_file unmarshal path = elim (read_file path) [
  | none ↦ err unreadable
  | some text ↦ elim (unmarshal text) [ none ↦ err unparsable | some c ↦ validate compiles c ]
]
