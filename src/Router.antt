-- ===== src/Router.antt =====
-- The model router of internal/router/router.go. Prices are whole numbers of their unit; the error of
-- an unknown alias is `none`, without its text.
pub mod Candidates
use heave.Prelude.{
  ℕ, Bool, true, false, ◌||◌, Option, none, some, List, [], ◌∷◌, if◌then◌else◌, ℤ, Bytes, Dict,
  lookup, insert, has,
}
use heave.Firewall.Local.{is_empty}

pub record Price : Type 0 where
  pub input_per_mtok : ℕ
  pub output_per_mtok : ℕ

pub record Decision : Type 0 where
  pub provider : Bytes
  pub upstream : Bytes
  pub alias : Bytes
  pub price : Price
  pub max_output_tokens : ℤ
  pub accepts_sampling : Bool

pub record ModelConfig : Type 0 where
  pub alias : Bytes
  pub provider : Bytes
  pub upstream : Bytes
  pub price : Price
  pub max_output_tokens : ℤ
  pub accepts_sampling : Bool
  pub fallbacks : List Bytes

pub record Router : Type 0 where
  pub models : Dict ModelConfig
  pub default_alias : Bytes

unfoldable pub add_models : Dict ModelConfig → List ModelConfig → Dict ModelConfig
add_models m [] = m
add_models m (mc ∷ models) = add_models (insert mc.alias mc m) models

unfoldable pub new : List ModelConfig → Bytes → Router
unfolding add_models
new models default_alias = record { models = add_models [] models; default_alias = default_alias }

unfoldable pub decision_for : ModelConfig → Decision
decision_for mc = record {
  provider = mc.provider;
  upstream = mc.upstream;
  alias = mc.alias;
  price = mc.price;
  max_output_tokens = mc.max_output_tokens;
  accepts_sampling = mc.accepts_sampling;
}

abbrev pub alias_or_default : Router → Bytes → Bytes
alias_or_default r alias = if is_empty alias then r.default_alias else alias

unfoldable pub route : Router → Bytes → Option Decision
unfolding decision_for
route r alias = elim (lookup (alias_or_default r alias) r.models) [
  | none ↦ none
  | some mc ↦ some (decision_for mc)
]

-- The loop over the fallbacks.
unfoldable pub add_fallbacks : Router → List Bytes → List Bytes → List Decision
add_fallbacks r seen [] = []
add_fallbacks r seen (fb ∷ fallbacks) =
    let skip = add_fallbacks r seen fallbacks in
    if has fb seen then skip else (elim (lookup fb r.models) [
      | none ↦ skip
      | some mc ↦ decision_for mc ∷ add_fallbacks r (fb ∷ seen) fallbacks
    ])

unfoldable pub candidates : Router → Bytes → Option (List Decision)
unfolding add_fallbacks decision_for
candidates r alias = elim (lookup (alias_or_default r alias) r.models) [
  | none ↦ none
  | some mc ↦ some (decision_for mc ∷ add_fallbacks r (mc.alias ∷ []) mc.fallbacks)
]
