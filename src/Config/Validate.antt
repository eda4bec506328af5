-- ===== src/Config/Validate.antt =====
-- validate of internal/config/config.go as a whole.
use heave.Prelude.{
  ◌≡◌, refl, inl, ◌⊎◌, Bool, true, false, not, ◌&&◌, List, [], ◌∷◌, arith, Bytes, has,
}
use heave.Firewall.Local.{is_empty}
use heave.Config
use heave.Config.{Config, Model, Error, Result, ok, err, ◌>>=◌, ◌>>◌, refuse}
use heave.Config.Checks.{
  check_providers, check_models, check_all_fallbacks, is_nil, validate_clients, check_patterns,
  check_limits, validate, with_defaults,
}
use heave.Config.Lists.{
  is_ok, Decides, Decides-refuse, Decides->>=, Decides-eq, all, onto, apart-nil, has-onto,
  all-has-apart,
}
use heave.Config.Valid.{
  provider_names, model_ids, is_fallback, check_providers_lem, check_models_lem,
  check_all_fallbacks_lem, check_patterns_lem, check_limits_lem, validate_clients_lem, has_limits,
  has_clients, is_valid,
}

onto-nil : (xs : List Bytes) (k : Bytes) → has k (onto xs []) ≡ has k xs
onto-nil xs k = ground (arith, has-onto xs [] k)

is_fallback_eq :
    (s t : List Bytes) (m : Model) (fallbacks : List Bytes)
    → ((k : Bytes) → has k s ≡ has k t)
    → all (is_fallback s m) fallbacks ≡ all (is_fallback t m) fallbacks
is_fallback_eq s t m [] h = refl
is_fallback_eq s t m (fb ∷ fallbacks) h = ground (arith, h fb, is_fallback_eq s t m fallbacks h)

all_fallbacks_eq :
    (s t : List Bytes) (ms : List Model)
    → ((k : Bytes) → has k s ≡ has k t)
    → all (λ m. all (is_fallback s m) m.fallbacks) ms
      ≡ all (λ m. all (is_fallback t m) m.fallbacks) ms
all_fallbacks_eq s t [] h = refl
all_fallbacks_eq s t (m ∷ ms) h =
    ground (arith, is_fallback_eq s t m m.fallbacks h, all_fallbacks_eq s t ms h)

abbrev default_known : List Bytes → Config → Bool
default_known ids c =
    not (not (is_empty c.routing.default_model) && not (has c.routing.default_model ids))

-- What runs once the models' ids are known.
after_models : (Bytes → Bool) → Config → List Bytes → Result Config
after_models compiles c aliases = do
  check_all_fallbacks c.models aliases
  refuse (not (is_empty c.routing.default_model) && not (has c.routing.default_model aliases))
      Config.unknown_default
  validate_clients c
  check_patterns compiles c.redaction.custom_patterns
  check_limits c
  ok (with_defaults c)

after_models_lem :
    (compiles : Bytes → Bool) (c : Config) (aliases : List Bytes)
    → Decides
        (all (λ m. all (is_fallback aliases m) m.fallbacks) c.models
          && (default_known aliases c
              && (has_clients c
                  && (all (λ e. compiles e.1) c.redaction.custom_patterns
                      && (has_limits c && true)))))
        (after_models compiles c aliases)
        (with_defaults c)
unfolding after_models
after_models_lem compiles c aliases =
    Decides->>= _ _ (check_all_fallbacks c.models aliases) _ tt _
      (check_all_fallbacks_lem c.models aliases)
      (Decides->>= _ _
        (refuse
          (not (is_empty c.routing.default_model) && not (has c.routing.default_model aliases))
          Config.unknown_default)
        _ tt _ (Decides-refuse _ _)
        (Decides->>= _ _ (validate_clients c) _ tt _ (validate_clients_lem c) (
          Decides->>= _ _ (check_patterns compiles c.redaction.custom_patterns) _ tt _
            (check_patterns_lem compiles c.redaction.custom_patterns)
            (Decides->>= _ _ (check_limits c) _ tt _ (check_limits_lem c) (inl (refl, refl))))))

-- Validation accepts exactly the valid configurations, where valid is a condition written without
-- the loops and their sets of names seen, and returns them with the defaults filled in; it refuses
-- every other with an error.
pub validate-is_valid :
    (compiles : Bytes → Bool) (c : Config)
    → ((is_valid compiles c ≡ true) × (validate compiles c ≡ ok (with_defaults c)))
      ⊎ ((is_valid compiles c ≡ false) × (is_ok (validate compiles c) ≡ false))
unfolding validate after_models is_valid
validate-is_valid compiles c =
    let names = onto (provider_names c.providers) [] in
    let ids = onto (model_ids c.models) [] in
    Decides-eq _ _ _ _
      (ground (
        arith,
        apart-nil (provider_names c.providers),
        apart-nil (model_ids c.models),
        all-has-apart (λ (m : Model). m.provider) c.models names (provider_names c.providers)
            (onto-nil (provider_names c.providers)),
        all_fallbacks_eq ids (model_ids c.models) c.models (onto-nil (model_ids c.models)),
        onto-nil (model_ids c.models) c.routing.default_model,
      ))
      (Decides->>= _ _ (refuse (is_nil c.providers) Config.no_providers) _ tt _ (Decides-refuse _ _)
        (Decides->>= _ _ (refuse (is_nil c.models) Config.no_models) _ tt _ (Decides-refuse _ _) (
          Decides->>= _ _ (check_providers c.providers []) _ names _
            (check_providers_lem c.providers [])
            (Decides->>= _ _ (check_models c.models names []) _ ids _
              (check_models_lem c.models names []) (after_models_lem compiles c ids)))))
