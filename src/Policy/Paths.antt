-- ===== src/Policy/Paths.antt =====
-- Resolve's walk from a node up to its org, internal/policy/policy.go.
use mathlib.Core.List.{reverse}
use mathlib.Core.Path.{subst}
use heave.Prelude.{
  ℕ, suc, ◌≡◌, refl, sym, ap, ◌∙◌, inl, inr, ◌⊎◌, true, false, not, ◌&&◌, some, List, [], ◌∷◌,
  arith, Option-cases, Bytes, lookup,
}
use heave.Firewall.Local.{is_empty}
use heave.Policy.{
  NodeType, org, team, app, type_name, parent_type, Node, Store, ok, ref_for, scope_key, valid_id,
  is_known, lineage, depth, chain_of, ends_at_org, resolve, resolve_leaf,
}
use heave.Policy.Tree.{HasParent, IsPlaced, Inv}

-- The path from a node up to an org, leaf first.
pub data IsPath (s : Store) : Node → List Node → Type 0 where
  root : (n : Node) → n.node_type ≡ org → IsPath s n (n ∷ [])
  under :
      (n p : Node) (l : List Node)
      → lookup (ref_for (parent_type n.node_type) n.parent_id) s.nodes ≡ some p
      → IsPath s p l
      → IsPath s n (n ∷ l)

ref_for-distinct :
    (t u : NodeType) (x y : Bytes)
    → ref_for (type_name t) x ≡ ref_for (type_name u) y
    → (t ≡ u) × (x ≡ y)
unfolding ref_for type_name
ref_for-distinct org org x y h = (refl, ground arith)
ref_for-distinct team team x y h = (refl, ground arith)
ref_for-distinct app app x y h = (refl, ground arith)
ref_for-distinct org team x y h = absurd (ground arith)
ref_for-distinct org app x y h = absurd (ground arith)
ref_for-distinct team org x y h = absurd (ground arith)
ref_for-distinct team app x y h = absurd (ground arith)
ref_for-distinct app org x y h = absurd (ground arith)
ref_for-distinct app team x y h = absurd (ground arith)

pub type-cases : (t : NodeType) → (t ≡ org) ⊎ (t ≡ team) ⊎ (t ≡ app)
type-cases org = inl refl
type-cases team = inr (inl refl)
type-cases app = inr (inr refl)

-- The lineage of a node, within the fuel, and what it is.
record IsFound (fuel : ℕ) (s : Store) (n : Node) : Type 0 where
  path : List Node
  found : lineage fuel s n ≡ some path
  is_path : IsPath s n path
  complete : ends_at_org path ≡ true

-- A known parent has a nonempty id and the type that its key names.
record IsParent (s : Store) (t : NodeType) (id : Bytes) : Type 0 where
  node : Node
  known : lookup (ref_for (type_name t) id) s.nodes ≡ some node
  placed : IsPlaced s (ref_for (type_name t) id) node
  typed : node.node_type ≡ t
  named : is_empty id ≡ false

IsParent-found :
    (s : Store) (t : NodeType) (id : Bytes)
    → Inv s
    → is_known (lookup (ref_for (type_name t) id) s.nodes) ≡ true
    → IsParent s t id
unfolding scope_key
IsParent-found s t id v h = elim (Option-cases (lookup (ref_for (type_name t) id) s.nodes)) [
  | inl missing ↦ absurd (ground arith)
  | inr (p, found) ↦
      let place = v.placed (ref_for (type_name t) id) p found in
      let (same_type, same_id) = ref_for-distinct t p.node_type id p.id place.keyed in
      record {
        node = p;
        known = found;
        placed = place;
        typed = sym same_type;
        named = ap is_empty same_id ∙ place.named;
      }
]

IsFound-org :
    (fuel : ℕ) (s : Store) (k : Bytes) (n : Node)
    → IsPlaced s k n
    → n.node_type ≡ org
    → IsFound (suc fuel) s n
unfolding lineage ends_at_org
IsFound-org fuel s k n place at_org =
    let top : n.parent_id ≡ [] = subst (λ t. HasParent s t n.parent_id) at_org place.parent in
    record {
      path = n ∷ [];
      found = rw top refl;
      is_path = root n at_org;
      complete = rw at_org refl;
    }

ends_at_org_under : (n : Node) (l : List Node) → ends_at_org l ≡ true → ends_at_org (n ∷ l) ≡ true
unfolding ends_at_org
ends_at_org_under n [] h = absurd (ground arith)
ends_at_org_under n (m ∷ l) h = h

IsFound-under :
    (fuel : ℕ) (s : Store) (n p : Node)
    → is_empty n.parent_id ≡ false
    → lookup (ref_for (parent_type n.node_type) n.parent_id) s.nodes ≡ some p
    → IsFound fuel s p
    → IsFound (suc fuel) s n
unfolding lineage
IsFound-under fuel s n p named above f = record {
  path = n ∷ f.path;
  found = rw (lineage, named, above, f.found) refl;
  is_path = under n p f.path above f.is_path;
  complete = ends_at_org_under n f.path f.complete;
}

IsFound-team :
    (fuel : ℕ) (s : Store) (k : Bytes) (n : Node)
    → Inv s
    → IsPlaced s k n
    → n.node_type ≡ team
    → IsFound (suc (suc fuel)) s n
unfolding parent_type
IsFound-team fuel s k n v place at_team =
    let up =
      IsParent-found s org n.parent_id v
        (subst (λ t. HasParent s t n.parent_id) at_team place.parent) in
    IsFound-under (suc fuel) s n up.node up.named (rw at_team up.known)
      (IsFound-org fuel s _ up.node up.placed up.typed)

IsFound-app :
    (fuel : ℕ) (s : Store) (k : Bytes) (n : Node)
    → Inv s
    → IsPlaced s k n
    → n.node_type ≡ app
    → IsFound (suc (suc (suc fuel))) s n
unfolding parent_type
IsFound-app fuel s k n v place at_app =
    let up =
      IsParent-found s team n.parent_id v
        (subst (λ t. HasParent s t n.parent_id) at_app place.parent) in
    IsFound-under (suc (suc fuel)) s n up.node up.named (rw at_app up.known)
      (IsFound-team fuel s _ up.node v up.placed up.typed)

lineage-IsFound : (s : Store) (k : Bytes) (n : Node) → Inv s → IsPlaced s k n → IsFound depth s n
lineage-IsFound s k n v place = elim (type-cases n.node_type) [
  | inl at_org ↦ IsFound-org 2 s k n place at_org
  | inr (inl at_team) ↦ IsFound-team 1 s k n v place at_team
  | inr (inr at_app) ↦ IsFound-app 0 s k n v place at_app
]

-- In a well-formed store an issued key resolves unless the run id is refused: the answer is the
-- chain of the path from the key's node up to an org, and never a broken chain; three steps of the
-- walk are enough.
pub resolve-IsPath :
    (s : Store) (key ref run : Bytes)
    → Inv s
    → lookup key s.keys ≡ some ref
    → not (is_empty run) && not (valid_id run) ≡ false
    → (leaf : Node) × (l : List Node) × (lookup ref s.nodes ≡ some leaf)
      × IsPath s leaf l
      × (resolve s key run ≡ ok (chain_of leaf (reverse l) key run))
unfolding resolve resolve_leaf
resolve-IsPath s key ref run v issued fine = elim (Option-cases (lookup ref s.nodes)) [
  | inl missing ↦ absurd (ground (arith, v.issued key ref issued))
  | inr (leaf, found) ↦
      let f = lineage-IsFound s ref leaf v (v.placed ref leaf found) in
      (
        leaf,
        f.path,
        found,
        f.is_path,
        rw (resolve, fine, issued, found, resolve_leaf, f.found, f.complete) refl,
      )
]
