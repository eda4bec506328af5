-- ===== src/Tests/Hierarchy.antt =====
-- The policy's theorems on one org with a team and a key for it.
use mathlib.Core.List.{reverse}
use heave.Prelude.{
  ◌≡◌, refl, true, false, some, List, [], ◌∷◌, ◌++◌, map, ℤ, pos, bytes, lookup, insert, str_eq,
}
use heave.Policy.{
  org, team, Limits, Node, Store, ok, new, chain_of, resolve, ref_for, put, put_child, create_org,
  create_team, issue_key, valid_id, valid_limits, scope_key, type_name, kill, set_killed,
  update_node,
}
use heave.Policy.Tree.{
  Op, creates_org, creates_team, kills, issues, step, build, Inv, new-Inv, build-Inv,
}
use heave.Policy.Paths.{IsPath, resolve-IsPath}
use heave.Policy.Chains.{node_part, run_parts, killer, chain_of_lem}

abbrev limits : ℤ → Limits
limits cap = record {
  max_usd_per_min = pos 10;
  max_tokens_per_min = pos 0;
  max_concurrent = pos 2;
  max_usd_per_day = pos 0;
  max_usd_per_month = pos 0;
  max_usd_per_run = cap;
}

abbrev ops : List Op
ops =
    creates_org (bytes "acme") (bytes "Acme") (limits (pos 9))
    ∷ creates_team (bytes "core") (bytes "Core") (bytes "acme") (limits (pos 4))
    ∷ issues (bytes "ab12") team (bytes "core")
    ∷ kills org (bytes "acme")
    ∷ []

abbrev store : Store
store = build new ops

build-Inv_example : Inv store
build-Inv_example = build-Inv new ops new-Inv

store-Inv : Inv store
store-Inv = build-Inv new ops new-Inv

has_key : lookup (bytes "ab12") store.keys ≡ some (bytes "team:core")
unfolding build step new create_org create_team issue_key kill put put_child set_killed update_node
    lookup insert str_eq valid_id valid_limits scope_key ref_for type_name
has_key = refl

resolve-IsPath_example :
    (leaf : Node) × (l : List Node) × (lookup (bytes "team:core") store.nodes ≡ some leaf)
    × IsPath store leaf l
    × (resolve store (bytes "ab12") (bytes "r1")
        ≡ ok (chain_of leaf (reverse l) (bytes "ab12") (bytes "r1")))
unfolding valid_id
resolve-IsPath_example =
    resolve-IsPath store (bytes "ab12") (bytes "team:core") (bytes "r1") store-Inv has_key refl

abbrev acme : Node
acme = record {
  node_type = org;
  id = bytes "acme";
  name = bytes "Acme";
  parent_id = [];
  limits = limits (pos 9);
  killed = true;
}

abbrev core : Node
core = record {
  node_type = team;
  id = bytes "core";
  name = bytes "Core";
  parent_id = bytes "acme";
  limits = limits (pos 4);
  killed = false;
}

chain_of_lem_example :
    let c = chain_of core (acme ∷ core ∷ []) (bytes "ab12") (bytes "r1") in
    (c.scopes
      ≡ map node_part (acme ∷ core ∷ [])
        ++ run_parts core (acme ∷ core ∷ []) (bytes "ab12") (bytes "r1"))
    × (c.killed_by ≡ killer (acme ∷ core ∷ []))
chain_of_lem_example =
    chain_of_lem core (acme ∷ core ∷ []) (bytes "ab12") (bytes "r1") (refl, (refl, tt))
