-- ===== src/Enforcer/Handover.antt =====
-- A policy chain at the firewall's gate: Translate of internal/enforcer/enforcer.go, then EnterChain of
-- internal/firewall/firewall.go.
use heave.Prelude.{
  ℕ, ◌≡◌, ◌≤◌, refl, ap, ◌∙◌, inl, inr, true, false, some, List, [], ◌∷◌, ◌++◌, map, ℤ, pos, ltb,
  arith, All, length, Bytes, bytes, str_eq,
}
use heave.Firewall.Local.{is_empty}
use heave.Firewall.State.{Firewall, Ticket, Result, max_scope_key_len}
use heave.Firewall.Enter.{scan_chain, enter_core, enter_chain}
use heave.Firewall.State
use heave.Policy
use heave.Policy.{Node, node_scope, run_scope, run_limits, chain_of, scope_key, type_name}
use heave.Policy.Paths.{type-cases}
use heave.Policy.Chains.{run_cap_of, run_part, chain_of-parts, scope_key-named}
use heave.Enforcer.{translate, translate_scope}

-- The key is not longer than the gate takes.
abbrev pub IsShort : Bytes → Type 0
IsShort k = length k ≤ max_scope_key_len

node_scope-name : (n : Node) → str_eq (node_scope n).name (bytes "run") ≡ false
unfolding node_scope str_eq
node_scope-name n = elim (type-cases n.node_type) [
  | inl t ↦ rw t refl
  | inr (inl t) ↦ rw t refl
  | inr (inr t) ↦ rw t refl
]

scan_chain-skip :
    (sc : State.Scope) (scopes : List State.Scope) (n : ℕ) (key : Bytes) (max : ℤ)
    → str_eq sc.name (bytes "run") ≡ false
    → is_empty sc.key ≡ false
    → ltb max_scope_key_len (length sc.key) ≡ false
    → scan_chain (sc ∷ scopes) n key max ≡ scan_chain scopes n key max
unfolding scan_chain
scan_chain-skip sc scopes n key max other keyed short = rw (other, keyed, short) refl

scan_chain-nodes :
    (nodes : List Node) (rest : List Policy.Scope) (n : ℕ) (key : Bytes) (max : ℤ)
    → All (λ nd. IsShort (scope_key nd)) nodes
    → scan_chain (map translate_scope (map node_scope nodes ++ rest)) n key max
      ≡ scan_chain (map translate_scope rest) n key max
unfolding translate_scope node_scope
scan_chain-nodes [] rest n key max h = refl
scan_chain-nodes (nd ∷ nodes) rest n key max h =
    scan_chain-skip (translate_scope (node_scope nd))
      (map translate_scope (map node_scope nodes ++ rest)) n key max (node_scope-name nd)
      (scope_key-named nd) (ground (arith, h.0))
    ∙ scan_chain-nodes nodes rest n key max h.1

scan_chain-run :
    (leaf : Node) (key run : Bytes) (cap : ℤ)
    → IsShort (run_scope leaf key run cap).key
    → scan_chain (map translate_scope (run_scope leaf key run cap ∷ [])) 0 [] (pos 0)
      ≡ some (1, (run_scope leaf key run cap).key, cap)
unfolding scan_chain translate_scope run_scope str_eq
scan_chain-run leaf key run cap short =
    let fits : ltb max_scope_key_len (length (run_scope leaf key run cap).key) ≡ false =
      ground (arith, short) in
    rw fits refl

module _ {ℓ} {S : Type ℓ} where
  enter_chain-scanned :
      (f : Firewall S) (scopes : List State.Scope) (prompt : Bytes) (eu et : ℤ) (hold : Bytes)
      (now : ℕ) (run : Bytes) (max : ℤ)
      → f.enabled ≡ true
      → scan_chain scopes 0 [] (pos 0) ≡ some (1, run, max)
      → enter_chain f scopes prompt eu et hold now
        ≡ enter_core f scopes run prompt max eu et hold now
  unfolding enter_chain
  enter_chain-scanned f scopes prompt eu et hold now run max on scanned = simp (on, scanned) refl

  -- A governed request that names a run, whose scope keys and run key are at most 512 bytes, passes
  -- the checks of an enabled gate: EnterChain acts for the run of the policy's run scope, with the
  -- tightest of the nodes' run caps as its budget.
  pub enter_chain-translate :
      (f : Firewall S) (leaf : Node) (nodes : List Node) (key run prompt : Bytes) (eu et : ℤ)
      (hold : Bytes) (now : ℕ)
      → f.enabled ≡ true
      → is_empty run ≡ false
      → All (λ nd. IsShort (scope_key nd)) nodes
      → IsShort (run_scope leaf key run (run_cap_of nodes (pos 0))).key
      → let scopes = translate (chain_of leaf nodes key run) in
        let cap = run_cap_of nodes (pos 0) in
        enter_chain f scopes prompt eu et hold now
        ≡ enter_core f scopes (run_scope leaf key run cap).key prompt cap eu et hold now
  unfolding translate run_part
  enter_chain-translate f leaf nodes key run prompt eu et hold now on named short run_short =
      let cap = run_cap_of nodes (pos 0) in
      let parts : (chain_of leaf nodes key run).scopes
          ≡ map node_scope nodes ++ (run_scope leaf key run cap ∷ []) =
        (chain_of-parts leaf nodes key run).0 ∙ rw named refl in
      let scanned : scan_chain (translate (chain_of leaf nodes key run)) 0 [] (pos 0)
          ≡ some (1, (run_scope leaf key run cap).key, cap) =
        ap (λ scs. scan_chain (map translate_scope scs) 0 [] (pos 0)) parts
        ∙ scan_chain-nodes nodes (run_scope leaf key run cap ∷ []) 0 [] (pos 0) short
        ∙ scan_chain-run leaf key run cap run_short in
      enter_chain-scanned f (translate (chain_of leaf nodes key run)) prompt eu et hold now
        (run_scope leaf key run cap).key cap on scanned
