-- ===== src/Policy.antt =====
-- The org ▸ team ▸ app hierarchy and its resolution, internal/policy/policy.go. Caps are signed, in
-- nano-dollars. The empty node type is the parent type of an org.
pub mod Tree
pub mod Paths
pub mod Chains
use heave.Prelude.{
  ℕ, zero, suc, Bool, true, false, not, ◌&&◌, ◌||◌, Option, none, some, List, [], ◌∷◌, ◌++◌, ℤ, pos,
  ltb, leb, ltb_ℤ, ◌==◌, if◌then◌else◌, length, Bytes, bytes, Dict, lookup, insert,
}
use mathlib.Core.List.{reverse}
use heave.Firewall.Local.{is_empty}

pub data NodeType : Type 0 where
  org team app : NodeType

unfoldable pub type_name : NodeType → Bytes
type_name org = bytes "org"
type_name team = bytes "team"
type_name app = bytes "app"

-- The name of the parent type.
unfoldable pub parent_type : NodeType → Bytes
unfolding type_name
parent_type org = []
parent_type team = type_name org
parent_type app = type_name team

pub record Limits : Type 0 where
  pub max_usd_per_min : ℤ
  pub max_tokens_per_min : ℤ
  pub max_concurrent : ℤ
  pub max_usd_per_day : ℤ
  pub max_usd_per_month : ℤ
  pub max_usd_per_run : ℤ

pub record Node : Type 0 where
  pub node_type : NodeType
  pub id : Bytes
  pub name : Bytes
  pub parent_id : Bytes
  pub limits : Limits
  pub killed : Bool

pub record Scope : Type 0 where
  pub name : Bytes
  pub key : Bytes
  pub limits : Limits

pub record Chain : Type 0 where
  pub scopes : List Scope
  pub killed_by : Bytes

pub record Store : Type 0 where
  pub nodes : Dict Node
  pub keys : Dict Bytes

pub data Error : Type 0 where
  unknown_key exists not_found bad_parent bad_id bad_limits bad_run_id broken_chain : Error

pub data Result {ℓ} (A : Type ℓ) : Type ℓ where
  ok : A → Result A
  err : Error → Result A

unfoldable pub ref_for : Bytes → Bytes → Bytes
ref_for type id = type ++ (b':' ∷ id)

unfoldable pub scope_key : Node → Bytes
unfolding ref_for type_name
scope_key n = ref_for (type_name n.node_type) n.id

-- A byte of a safe token; every other rune has a byte above these.
unfoldable pub is_safe : ℕ → Bool
is_safe c =
    leb b'a' c && leb c b'z'
    || leb b'A' c && leb c b'Z'
    || leb b'0' c && leb c b'9'
    || c == b'.'
    || c == b'_'
    || c == b'-'

unfoldable pub all_safe : Bytes → Bool
unfolding is_safe
all_safe [] = true
all_safe (c ∷ s) = is_safe c && all_safe s

unfoldable pub valid_id : Bytes → Bool
unfolding all_safe
valid_id id = if is_empty id || ltb 128 (length id) then false else all_safe id

abbrev pub nonneg : ℤ → Bool
nonneg x = not (ltb_ℤ x (pos 0))

unfoldable pub valid_limits : Limits → Bool
valid_limits l =
    nonneg l.max_usd_per_min
    && nonneg l.max_tokens_per_min
    && nonneg l.max_concurrent
    && nonneg l.max_usd_per_day
    && nonneg l.max_usd_per_month
    && nonneg l.max_usd_per_run

unfoldable pub new : Store
new = record { nodes = []; keys = [] }

abbrev pub is_known {ℓ} : {A : Type ℓ} → Option A → Bool
is_known none = false
is_known (some a) = true

-- A mutation returns the store and its error.
unfoldable pub put : Store → Node → Store × Option Error
unfolding scope_key
put s n =
    if is_known (lookup (scope_key n) s.nodes)
    then (s, some exists)
    else (record s { nodes = insert (scope_key n) n s.nodes }, none)

unfoldable pub put_child : Store → Node → NodeType → Bytes → Store × Option Error
unfolding put ref_for
put_child s n parent parent_id =
    if is_known (lookup (ref_for (type_name parent) parent_id) s.nodes)
    then put s n
    else (s, some bad_parent)

abbrev pub new_node : NodeType → Bytes → Bytes → Bytes → Limits → Node
new_node type id name parent_id l = record {
  node_type = type;
  id = id;
  name = name;
  parent_id = parent_id;
  limits = l;
  killed = false;
}

unfoldable pub create_org : Store → Bytes → Bytes → Limits → Store × Option Error
create_org s id name l =
    if not (valid_id id)
    then (s, some bad_id)
    else (if not (valid_limits l) then (s, some bad_limits) else put s (new_node org id name [] l))

unfoldable pub create_team : Store → Bytes → Bytes → Bytes → Limits → Store × Option Error
create_team s id name org_id l =
    if not (valid_id id)
    then (s, some bad_id)
    else (if not (valid_limits l)
        then (s, some bad_limits)
        else put_child s (new_node team id name org_id l) org org_id)

unfoldable pub create_app : Store → Bytes → Bytes → Bytes → Limits → Store × Option Error
create_app s id name team_id l =
    if not (valid_id id)
    then (s, some bad_id)
    else (if not (valid_limits l)
        then (s, some bad_limits)
        else put_child s (new_node app id name team_id l) team team_id)

-- The write through the node's pointer.
unfoldable pub update_node : Store → Bytes → (Node → Node) → Store × Option Error
update_node s ref f = elim (lookup ref s.nodes) [
  | none ↦ (s, some not_found)
  | some n ↦ (record s { nodes = insert ref (f n) s.nodes }, none)
]

unfoldable pub set_limits : Store → NodeType → Bytes → Limits → Store × Option Error
unfolding update_node ref_for
set_limits s t id l =
    if valid_limits l
    then update_node s (ref_for (type_name t) id) (λ n. record n { limits = l })
    else (s, some bad_limits)

unfoldable pub set_killed : Store → NodeType → Bytes → Bool → Store × Option Error
unfolding update_node ref_for
set_killed s t id v = update_node s (ref_for (type_name t) id) (λ n. record n { killed = v })

unfoldable pub kill : Store → NodeType → Bytes → Store × Option Error
unfolding set_killed
kill s t id = set_killed s t id true

unfoldable pub unkill : Store → NodeType → Bytes → Store × Option Error
unfolding set_killed
unkill s t id = set_killed s t id false

unfoldable pub issue_key : Store → Bytes → NodeType → Bytes → Store × Option Error
unfolding ref_for
issue_key s key t id =
    if is_empty key
    then (s, some bad_id)
    else (if is_known (lookup (ref_for (type_name t) id) s.nodes)
        then (record s { keys = insert key (ref_for (type_name t) id) s.keys }, none)
        else (s, some not_found))

-- The walk from a node to its root, leaf first, on fuel; `none` is a broken chain.
unfoldable pub lineage : ℕ → Store → Node → Option (List Node)
unfolding parent_type ref_for
lineage zero s n = none
lineage (suc fuel) s n = elim (is_empty n.parent_id) [
  | true ↦ some (n ∷ [])
  | false ↦ elim (lookup (ref_for (parent_type n.node_type) n.parent_id) s.nodes) [
    | none ↦ none
    | some p ↦ elim (lineage fuel s p) [ none ↦ none | some l ↦ some (n ∷ l) ]
  ]
]

-- No lineage of a store that the operations built is longer.
abbrev pub depth : ℕ
depth = 3

unfoldable pub tightest : ℤ → ℤ → ℤ
tightest (ℤ.pos zero) b = b
tightest a (ℤ.pos zero) = a
tightest a b = if ltb_ℤ b a then b else a

unfoldable pub node_scope : Node → Scope
unfolding scope_key
node_scope n = record { name = type_name n.node_type; key = scope_key n; limits = n.limits }

pub record Emitted : Type 0 where
  pub scopes : List Scope
  pub killed_by : Bytes
  pub run_cap : ℤ

-- The loop that emits the scopes of the nodes, org first.
unfoldable pub emit : List Node → Emitted → Emitted
unfolding node_scope tightest
emit [] e = e
emit (n ∷ nodes) e = emit nodes (record {
  scopes = e.scopes ++ (node_scope n ∷ []);
  killed_by = if n.killed && is_empty e.killed_by then scope_key n else e.killed_by;
  run_cap = tightest e.run_cap n.limits.max_usd_per_run;
})

abbrev pub run_limits : ℤ → Limits
run_limits cap = record {
  max_usd_per_min = pos 0;
  max_tokens_per_min = pos 0;
  max_concurrent = pos 0;
  max_usd_per_day = pos 0;
  max_usd_per_month = pos 0;
  max_usd_per_run = cap;
}

unfoldable pub run_scope : Node → Bytes → Bytes → ℤ → Scope
unfolding scope_key
run_scope leaf key run cap = record {
  name = bytes "run";
  key = bytes "run:" ++ (scope_key leaf ++ (0 ∷ (key ++ (0 ∷ run))));
  limits = run_limits cap;
}

unfoldable pub chain_of : Node → List Node → Bytes → Bytes → Chain
unfolding emit run_scope
chain_of leaf nodes key run =
    let e = emit nodes (record { scopes = []; killed_by = []; run_cap = pos 0 }) in
    record {
      scopes =
          if is_empty run then e.scopes else e.scopes ++ (run_scope leaf key run e.run_cap ∷ []);
      killed_by = e.killed_by;
    }

-- `lineage[len(lineage)-1].Type != Org`
unfoldable pub ends_at_org : List Node → Bool
ends_at_org [] = false
ends_at_org (n ∷ []) = elim n.node_type [ org ↦ true | _ ↦ false ]
ends_at_org (n ∷ m ∷ l) = ends_at_org (m ∷ l)

resolve_leaf : Store → Node → Bytes → Bytes → Result Chain
resolve_leaf s leaf key run = elim (lineage depth s leaf) [
  | none ↦ err broken_chain
  | some l ↦ if ends_at_org l then ok (chain_of leaf (reverse l) key run) else err broken_chain
]

unfoldable pub resolve : Store → Bytes → Bytes → Result Chain
unfolding resolve_leaf
resolve s key run =
    if not (is_empty run) && not (valid_id run) then err bad_run_id else (elim (lookup key s.keys) [
      | none ↦ err unknown_key
      | some ref ↦ elim (lookup ref s.nodes) [
        | none ↦ err broken_chain
        | some leaf ↦ resolve_leaf s leaf key run
      ]
    ])
