-- ===== src/Tests/Routing.antt =====
-- The theorems on the router, the cache and the enforcer, on two models and on the store of one org.
use mathlib.Core.List.{reverse}
use heave.Prelude.{
  ◌≡◌, ◌⊎◌, true, not, ◌&&◌, none, some, List, [], ◌∷◌, pos, All, Bytes, bytes, lookup,
}
use heave.Firewall.Local.{is_empty}
use heave.Cache
use heave.Cache.{warm}
use heave.Cache.Warmth.{Touch, after, latest, model_within, warm-after}
use heave.Router.{Decision, ModelConfig, new, decision_for, alias_or_default, route, candidates}
use heave.Router.Candidates.{IsDistinct, is_listed, candidates-IsDistinct}
use heave.Policy
use heave.Policy.{Node, valid_id, is_known, chain_of, bad_run_id, Store}
use heave.Policy.Tree.{Op, creates_org, issues, build, new-Inv, build-Inv}
use heave.Policy.Paths.{IsPath}
use heave.Enforcer.{translate, governed, ungoverned, failed, resolve}
use heave.Enforcer.Contract.{resolve-governed}

abbrev model : Bytes → List Bytes → ModelConfig
model alias fallbacks = record {
  alias = alias;
  provider = bytes "p";
  upstream = alias;
  price = record { input_per_mtok = 3; output_per_mtok = 15 };
  max_output_tokens = pos 100;
  accepts_sampling = true;
  fallbacks = fallbacks;
}

abbrev models : List ModelConfig
models =
    model (bytes "big") (bytes "small" ∷ bytes "big" ∷ bytes "small" ∷ bytes "gone" ∷ [])
    ∷ model (bytes "small") []
    ∷ []

candidates-IsDistinct_example :
    let r = new models (bytes "small") in
    ((candidates r (bytes "big") ≡ none) × (route r (bytes "big") ≡ none))
    ⊎ ((mc : ModelConfig) × (rest : List Decision) × (lookup
            (alias_or_default r (bytes "big"))
            r.models
          ≡ some mc)
        × (candidates r (bytes "big") ≡ some (decision_for mc ∷ rest))
        × (route r (bytes "big") ≡ some (decision_for mc))
        × IsDistinct (decision_for mc ∷ rest)
        × All
            (λ fb. (lookup fb r.models ≡ none) ⊎ (is_listed fb (decision_for mc ∷ rest) ≡ true))
            mc.fallbacks)
candidates-IsDistinct_example = candidates-IsDistinct models (bytes "small") (bytes "big")

abbrev limits : Policy.Limits
limits = record {
  max_usd_per_min = pos 10;
  max_tokens_per_min = pos 0;
  max_concurrent = pos 2;
  max_usd_per_day = pos 0;
  max_usd_per_month = pos 0;
  max_usd_per_run = pos 9;
}

abbrev ops : List Op
ops =
    creates_org (bytes "acme") (bytes "Acme") limits
    ∷ issues (bytes "ab12") Policy.org (bytes "acme")
    ∷ []

abbrev store : Store
store = build Policy.new ops

resolve-governed_example :
    ((not (is_empty (bytes "r")) && not (valid_id (bytes "r")) ≡ true)
      × (resolve store (bytes "ab12") (bytes "r") ≡ failed bad_run_id))
    ⊎ (((lookup (bytes "ab12") store.keys ≡ none)
          × (resolve store (bytes "ab12") (bytes "r") ≡ ungoverned))
        ⊎ ((ref : Bytes) × (leaf : Node) × (l : List Node) × (lookup (bytes "ab12") store.keys
              ≡ some ref)
            × (lookup ref store.nodes ≡ some leaf)
            × IsPath store leaf l
            × (resolve store (bytes "ab12") (bytes "r")
                ≡ governed
                    (translate (chain_of leaf (reverse l) (bytes "ab12") (bytes "r")))
                    (chain_of leaf (reverse l) (bytes "ab12") (bytes "r")).killed_by)))
resolve-governed_example =
    resolve-governed store (bytes "ab12") (bytes "r") (build-Inv Policy.new ops new-Inv)

abbrev touches : List Touch
touches =
    record { conv = bytes "c"; model = bytes "big"; time = 40 }
    ∷ record { conv = bytes "d"; model = bytes "small"; time = 30 }
    ∷ record { conv = bytes "c"; model = bytes "small"; time = 10 }
    ∷ []

warm-after_example :
    warm (after (Cache.new (pos 20)) touches) (bytes "c") 55
    ≡ model_within 20 55 (latest (bytes "c") touches)
warm-after_example = warm-after 20 touches (bytes "c") 55
