-- ===== src/Enforcer/Contract.antt =====
-- The contract of Resolve in internal/enforcer/enforcer.go.
use mathlib.Core.List.{reverse}
use heave.Prelude.{
  ◌≡◌, refl, inl, inr, ◌⊎◌, true, not, ◌&&◌, none, some, List, Bool-cases, Option-cases, Bytes,
  lookup,
}
use heave.Firewall.Local.{is_empty}
use heave.Policy
use heave.Policy.{Node, valid_id, chain_of, bad_run_id}
use heave.Policy.Tree.{Inv}
use heave.Policy.Paths.{IsPath, resolve-IsPath}
use heave.Enforcer.{translate, governed, ungoverned, failed, resolve}

-- In a well-formed policy store, the enforcer's Resolve fails only for a refused run id, answers
-- that the key is not governed only where the key was never issued, and else answers with the
-- translated chain of the path up to an org from the node that the key was issued for.
pub resolve-governed :
    (s : Policy.Store) (key run : Bytes)
    → Inv s
    → ((not (is_empty run) && not (valid_id run) ≡ true) × (resolve s key run ≡ failed bad_run_id))
      ⊎ (((lookup key s.keys ≡ none) × (resolve s key run ≡ ungoverned))
          ⊎ ((ref : Bytes) × (leaf : Node) × (l : List Node) × (lookup key s.keys ≡ some ref)
              × (lookup ref s.nodes ≡ some leaf)
              × IsPath s leaf l
              × (resolve s key run
                  ≡ governed
                      (translate (chain_of leaf (reverse l) key run))
                      (chain_of leaf (reverse l) key run).killed_by)))
unfolding resolve Policy.resolve
resolve-governed s key run v = elim (Bool-cases (not (is_empty run) && not (valid_id run))) [
  | inl bad ↦ inl (bad, rw (resolve, Policy.resolve, bad) refl)
  | inr fine ↦ elim (Option-cases (lookup key s.keys)) [
    | inl unknown ↦ inr (inl (unknown, rw (resolve, Policy.resolve, fine, unknown) refl))
    | inr (ref, issued) ↦
        let (leaf, l, found, path, chain) = resolve-IsPath s key ref run v issued fine in
        inr (inr (ref, leaf, l, issued, found, path, rw (resolve, chain) refl))
  ]
]
