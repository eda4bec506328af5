-- ===== src/Policy/Chains.antt =====
-- The scopes, the kill and the run cap of a chain that Resolve of internal/policy/policy.go emits.
use mathlib.Core.List.{append-nil, append_assoc}
use heave.Prelude.{
  ℕ, zero, suc, ◌≤◌, ◌<◌, ◌≡◌, refl, sym, ap, ◌∙◌, ◌==◌, ltb, bytes, inl, inr, ◌⊎◌, true, false,
  ◌&&◌, List, [], ◌∷◌, ◌++◌, map, if◌then◌else◌, arith, Bool-cases, Bytes, ℤ, pos, pos_part, All,
}
use heave.Firewall.Local.{is_empty}
use heave.Policy.{
  NodeType, org, team, app, type_name, ref_for, Node, Scope, scope_key, nonneg, tightest,
  node_scope, Emitted, emit, run_scope, chain_of,
}
use heave.Policy.Paths.{type-cases}

-- The first killed node, as its key.
pub first_killed : List Node → Bytes
first_killed [] = []
first_killed (n ∷ nodes) = if n.killed then scope_key n else first_killed nodes

-- The tightest run cap of the nodes, 0 for none.
pub run_cap_of : List Node → ℤ → ℤ
run_cap_of [] cap = cap
run_cap_of (n ∷ nodes) cap = run_cap_of nodes (tightest cap n.limits.max_usd_per_run)

pub scope_key-named : (n : Node) → is_empty (scope_key n) ≡ false
unfolding scope_key
scope_key-named n = elim (type-cases n.node_type) [
  | inl t ↦ rw t refl
  | inr (inl t) ↦ rw t refl
  | inr (inr t) ↦ rw t refl
]

-- What the loop has after one node.
abbrev emit_one : Node → Emitted → Emitted
emit_one n e = record {
  scopes = e.scopes ++ (node_scope n ∷ []);
  killed_by = if n.killed && is_empty e.killed_by then scope_key n else e.killed_by;
  run_cap = tightest e.run_cap n.limits.max_usd_per_run;
}

emit-scopes :
    (nodes : List Node) (e : Emitted) → (emit nodes e).scopes ≡ e.scopes ++ map node_scope nodes
unfolding emit
emit-scopes [] e = sym (append-nil e.scopes)
emit-scopes (n ∷ nodes) e =
    emit-scopes nodes (emit_one n e)
    ∙ append_assoc e.scopes (node_scope n ∷ []) (map node_scope nodes)

emit-run_cap :
    (nodes : List Node) (e : Emitted) → (emit nodes e).run_cap ≡ run_cap_of nodes e.run_cap
unfolding emit run_cap_of
emit-run_cap [] e = refl
emit-run_cap (n ∷ nodes) e = emit-run_cap nodes (emit_one n e)

empty_or_self : (b : Bytes) → b ≡ (if is_empty b then [] else b)
empty_or_self [] = refl
empty_or_self (c ∷ b) = refl

emit-killed_by :
    (nodes : List Node) (e : Emitted)
    → (emit nodes e).killed_by ≡ (if is_empty e.killed_by then first_killed nodes else e.killed_by)
unfolding emit first_killed
emit-killed_by [] e = empty_or_self e.killed_by
emit-killed_by (n ∷ nodes) e = emit-killed_by nodes (emit_one n e) ∙ elim (Bool-cases n.killed) [
  | inl dead ↦ elim (Bool-cases (is_empty e.killed_by)) [
    | inl clear ↦ rw (dead, clear, scope_key-named n) refl
    | inr marked ↦ rw (dead, marked, marked) refl
  ]
  | inr live ↦ rw live refl
]

-- The run's own scope, at the tightest cap.
unfoldable pub run_part : Node → List Node → Bytes → Bytes → List Scope
run_part leaf nodes key run =
    if is_empty run then [] else run_scope leaf key run (run_cap_of nodes (pos 0)) ∷ []

-- What a chain is made of, as the loop builds it.
pub chain_of-parts :
    (leaf : Node) (nodes : List Node) (key run : Bytes)
    → ((chain_of leaf nodes key run).scopes ≡ map node_scope nodes ++ run_part leaf nodes key run)
      × ((chain_of leaf nodes key run).killed_by ≡ first_killed nodes)
unfolding chain_of run_part
chain_of-parts leaf nodes key run =
    let start : Emitted = record { scopes = []; killed_by = []; run_cap = pos 0 } in
    (
      elim (Bool-cases (is_empty run)) [
        | inl none_named ↦
            rw none_named (emit-scopes nodes start ∙ sym (append-nil (map node_scope nodes)))
        | inr named ↦ rw (named, emit-scopes nodes start, emit-run_cap nodes start) refl
      ],
      emit-killed_by nodes start,
    )

-- The cap is none, or the result is a cap at most as large.
abbrev pub Tight : ℤ → ℤ → Type 0
Tight r cap = (pos_part cap ≡ 0) ⊎ ((0 < pos_part r) × (pos_part r ≤ pos_part cap))

tightest-nonneg :
    (a b : ℤ)
    → nonneg a ≡ true
    → nonneg b ≡ true
    → (nonneg (tightest a b) ≡ true) × Tight (tightest a b) a × Tight (tightest a b) b
unfolding tightest
tightest-nonneg (ℤ.pos zero) (ℤ.pos n) h k = (k, inl refl, ground arith)
tightest-nonneg (ℤ.pos (suc m)) (ℤ.pos zero) h k = (h, ground arith, inl refl)
tightest-nonneg (ℤ.pos (suc m)) (ℤ.pos (suc n)) h k = (ground arith, ground arith, ground arith)
tightest-nonneg (ℤ.pos m) (ℤ.negsuc n) h k = absurd (ground arith)
tightest-nonneg (ℤ.negsuc m) b h k = absurd (ground arith)

Tight-trans : (r t cap : ℤ) → Tight r t → Tight t cap → Tight r cap
Tight-trans r t cap h k = ground arith

-- Where no node has a negative run cap, the run's cap is at most each node's that has one, and is
-- positive if any node has one: no level of the hierarchy is loosened by another.
pub run_cap_of-Tight :
    (nodes : List Node) (cap : ℤ)
    → nonneg cap ≡ true
    → All (λ n. nonneg n.limits.max_usd_per_run ≡ true) nodes
    → Tight (run_cap_of nodes cap) cap
      × All (λ n. Tight (run_cap_of nodes cap) n.limits.max_usd_per_run) nodes
unfolding run_cap_of
run_cap_of-Tight [] cap h k = (ground arith, tt)
run_cap_of-Tight (n ∷ nodes) cap h k =
    let first = tightest-nonneg cap n.limits.max_usd_per_run h k.0 in
    let rest = run_cap_of-Tight nodes (tightest cap n.limits.max_usd_per_run) first.0 k.1 in
    let t = tightest cap n.limits.max_usd_per_run in
    let r = run_cap_of nodes t in
    (
      Tight-trans r t cap rest.0 first.1,
      (Tight-trans r t n.limits.max_usd_per_run rest.0 first.2, rest.1),
    )

-- The smaller of two caps, where 0 is none.
abbrev pub smaller : ℕ → ℕ → ℕ
smaller a b = if a == 0 then b else (if b == 0 then a else (if ltb a b then a else b))

-- The least run cap that a node sets, 0 where none does.
abbrev pub least_cap : List Node → ℕ
least_cap [] = 0
least_cap (n ∷ nodes) = smaller (pos_part n.limits.max_usd_per_run) (least_cap nodes)

tightest-smaller :
    (a : ℕ) (b : ℤ) → nonneg b ≡ true → tightest (pos a) b ≡ pos (smaller a (pos_part b))
unfolding tightest
tightest-smaller zero b h = ground arith
tightest-smaller (suc a) (ℤ.pos zero) h = ground arith
tightest-smaller (suc a) (ℤ.pos (suc b)) h = ground arith
tightest-smaller (suc a) (ℤ.negsuc b) h = absurd (ground arith)

smaller_assoc : (a b c : ℕ) → smaller (smaller a b) c ≡ smaller a (smaller b c)
smaller_assoc a b c = ground arith

run_cap_of-least_cap :
    (nodes : List Node) (a : ℕ)
    → All (λ n. nonneg n.limits.max_usd_per_run ≡ true) nodes
    → run_cap_of nodes (pos a) ≡ pos (smaller a (least_cap nodes))
unfolding run_cap_of
run_cap_of-least_cap [] a h = ground arith
run_cap_of-least_cap (n ∷ nodes) a h =
    let c = pos_part n.limits.max_usd_per_run in
    rw (tightest-smaller a n.limits.max_usd_per_run h.0)
      (run_cap_of-least_cap nodes (smaller a c) h.1 ∙ ap pos (smaller_assoc a c (least_cap nodes)))

-- The name of a level and the key of a node's scope, spelled out.
abbrev pub level : NodeType → Bytes
level org = bytes "org"
level team = bytes "team"
level app = bytes "app"

abbrev pub node_key : Node → Bytes
node_key n = level n.node_type ++ (b':' ∷ n.id)

-- The scope of a node and of the run.
abbrev pub node_part : Node → Scope
node_part n = record { name = level n.node_type; key = node_key n; limits = n.limits }

abbrev pub run_parts : Node → List Node → Bytes → Bytes → List Scope
run_parts leaf nodes key [] = []
run_parts leaf nodes key (c ∷ run) =
    record {
      name = bytes "run";
      key = bytes "run:" ++ (node_key leaf ++ (0 ∷ (key ++ (0 ∷ (c ∷ run)))));
      limits = record {
        max_usd_per_min = pos 0;
        max_tokens_per_min = pos 0;
        max_concurrent = pos 0;
        max_usd_per_day = pos 0;
        max_usd_per_month = pos 0;
        max_usd_per_run = pos (least_cap nodes);
      };
    }
    ∷ []

-- The key of the first killed node, or none.
abbrev pub killer : List Node → Bytes
killer [] = []
killer (n ∷ nodes) = let rest = killer nodes in if n.killed then node_key n else rest

scope_key-node_key : (n : Node) → scope_key n ≡ node_key n
unfolding scope_key ref_for type_name
scope_key-node_key n = elim (type-cases n.node_type) [
  | inl t ↦ rw t refl
  | inr (inl t) ↦ rw t refl
  | inr (inr t) ↦ rw t refl
]

node_scope-node_part : (n : Node) → node_scope n ≡ node_part n
unfolding node_scope type_name
node_scope-node_part n = elim (type-cases n.node_type) [
  | inl t ↦ rw (scope_key-node_key n, t) refl
  | inr (inl t) ↦ rw (scope_key-node_key n, t) refl
  | inr (inr t) ↦ rw (scope_key-node_key n, t) refl
]

node_scopes-node_part : (nodes : List Node) → map node_scope nodes ≡ map node_part nodes
node_scopes-node_part [] = refl
node_scopes-node_part (n ∷ nodes) = rw (node_scope-node_part n, node_scopes-node_part nodes) refl

first_killed-killer : (nodes : List Node) → first_killed nodes ≡ killer nodes
unfolding first_killed
first_killed-killer [] = refl
first_killed-killer (n ∷ nodes) = rw (scope_key-node_key n, first_killed-killer nodes) refl

run_part-run_parts :
    (leaf : Node) (nodes : List Node) (key run : Bytes)
    → All (λ n. nonneg n.limits.max_usd_per_run ≡ true) nodes
    → run_part leaf nodes key run ≡ run_parts leaf nodes key run
unfolding run_part run_scope
run_part-run_parts leaf nodes key [] h = refl
run_part-run_parts leaf nodes key (c ∷ run) h =
    rw (scope_key-node_key leaf, run_cap_of-least_cap nodes 0 h) refl

-- For nodes with no negative run cap, a chain has for each node in turn a scope named by its level,
-- with the key `level:id` and the node's limits, and then, for a named run, the run's scope, whose
-- key is made of the leaf's key, the API key and the run id and whose one limit is the least run
-- cap that a node sets, or none; it is killed by its first killed node, or by none.
pub chain_of_lem :
    (leaf : Node) (nodes : List Node) (key run : Bytes)
    → All (λ n. nonneg n.limits.max_usd_per_run ≡ true) nodes
    → ((chain_of leaf nodes key run).scopes ≡ map node_part nodes ++ run_parts leaf nodes key run)
      × ((chain_of leaf nodes key run).killed_by ≡ killer nodes)
chain_of_lem leaf nodes key run h =
    let (scopes, dead) = chain_of-parts leaf nodes key run in
    (
      rw (sym (node_scopes-node_part nodes), sym (run_part-run_parts leaf nodes key run h)) scopes,
      dead ∙ first_killed-killer nodes,
    )
