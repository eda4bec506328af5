-- ===== src/Policy/Tree.antt =====
-- The hierarchy that the mutations of internal/policy/policy.go build.
use mathlib.Core.Path.{subst}
use heave.Prelude.{
  ◌≡◌, refl, inl, inr, Bool, true, false, some, List, [], ◌∷◌, arith, Bool-cases, Option-cases,
  Bytes, Dict, lookup, insert, lookup-insert, str_eq, str_eq_iff,
}
use heave.Firewall.Local.{is_empty}
use heave.Policy.{
  NodeType, org, team, app, type_name, Limits, Node, Store, ref_for, scope_key, valid_id,
  valid_limits, new, is_known, put, put_child, new_node, create_org, create_team, create_app,
  update_node, set_limits, set_killed, kill, unkill, issue_key,
}

-- An org has no parent; a team and an app have theirs in the store.
abbrev pub HasParent : Store → NodeType → Bytes → Type 0
HasParent s org parent = parent ≡ []
HasParent s team parent = is_known (lookup (ref_for (type_name org) parent) s.nodes) ≡ true
HasParent s app parent = is_known (lookup (ref_for (type_name team) parent) s.nodes) ≡ true

pub record IsPlaced (s : Store) (k : Bytes) (n : Node) : Type 0 where
  pub keyed : k ≡ scope_key n
  pub named : is_empty n.id ≡ false
  pub parent : HasParent s n.node_type n.parent_id

-- Every node stands under its own key with its parent in the store, and every issued key names a
-- node.
pub record Inv (s : Store) : Type 0 where
  pub placed : (k : Bytes) (n : Node) → lookup k s.nodes ≡ some n → IsPlaced s k n
  pub issued :
      (key ref : Bytes) → lookup key s.keys ≡ some ref → is_known (lookup ref s.nodes) ≡ true

pub new-Inv : Inv new
unfolding new lookup
new-Inv = record {
  placed = λ k n h. absurd (ground arith);
  issued = λ k r h. absurd (ground arith);
}

-- Adding or rewriting a node loses none.
known-insert :
    (k j : Bytes) (n : Node) (m : Dict Node)
    → is_known (lookup j m) ≡ true
    → is_known (lookup j (insert k n m)) ≡ true
known-insert k j n m h = ground (arith, lookup-insert k j n m)

abbrev with_node : Store → Bytes → Node → Store
with_node s k n = record s { nodes = insert k n s.nodes }

HasParent-with_node :
    (s : Store) (k : Bytes) (n : Node) (t : NodeType) (parent : Bytes)
    → HasParent s t parent
    → HasParent (with_node s k n) t parent
HasParent-with_node s k n org parent h = h
HasParent-with_node s k n team parent h = known-insert k _ n s.nodes h
HasParent-with_node s k n app parent h = known-insert k _ n s.nodes h

IsPlaced-with_node :
    (s : Store) (k j : Bytes) (n m : Node) → IsPlaced s j m → IsPlaced (with_node s k n) j m
IsPlaced-with_node s k j n m p = record {
  keyed = p.keyed;
  named = p.named;
  parent = HasParent-with_node s k n m.node_type m.parent_id p.parent;
}

found-with_node :
    (s : Store) (k j : Bytes) (n m : Node)
    → Inv s
    → IsPlaced s k n
    → lookup j (with_node s k n).nodes ≡ some m
    → IsPlaced s j m
found-with_node s k j n m v p h = elim (Bool-cases (str_eq k j)) [
  | inl same ↦
      let key : k ≡ j = ground (arith, str_eq_iff k j) in
      let node : n ≡ m = ground (arith, lookup-insert k j n s.nodes) in
      subst (λ x. IsPlaced s x m) key (subst (λ x. IsPlaced s k x) node p)
  | inr other ↦ v.placed j m (ground (arith, lookup-insert k j n s.nodes))
]

with_node-Inv : (s : Store) (k : Bytes) (n : Node) → Inv s → IsPlaced s k n → Inv (with_node s k n)
with_node-Inv s k n v p = record {
  placed = λ j m h. IsPlaced-with_node s k j n m (found-with_node s k j n m v p h);
  issued = λ key ref h. known-insert k ref n s.nodes (v.issued key ref h);
}

put-Inv :
    (s : Store) (n : Node)
    → Inv s
    → is_empty n.id ≡ false
    → HasParent s n.node_type n.parent_id
    → Inv (put s n).0
unfolding put
put-Inv s n v named parent = elim (Bool-cases (is_known (lookup (scope_key n) s.nodes))) [
  | inl taken ↦ rw taken v
  | inr free ↦
      rw free (
        with_node-Inv s (scope_key n) n v (record { keyed = refl; named = named; parent = parent }))
]

valid_id-named : (id : Bytes) → valid_id id ≡ true → is_empty id ≡ false
unfolding valid_id
valid_id-named id h = ground arith

create_org-Inv : (s : Store) (id name : Bytes) (l : Limits) → Inv s → Inv (create_org s id name l).0
unfolding create_org
create_org-Inv s id name l v = elim (Bool-cases (valid_id id)) [
  | inr bad ↦ rw bad v
  | inl fine ↦ elim (Bool-cases (valid_limits l)) [
    | inr bad ↦ rw (fine, bad) v
    | inl good ↦ rw (fine, good) (put-Inv s _ v (valid_id-named id fine) refl)
  ]
]

put_child-Inv :
    (s : Store) (n : Node) (t : NodeType)
    → Inv s
    → is_empty n.id ≡ false
    → (is_known (lookup (ref_for (type_name t) n.parent_id) s.nodes) ≡ true
        → HasParent s n.node_type n.parent_id)
    → Inv (put_child s n t n.parent_id).0
unfolding put_child
put_child-Inv s n t v named place =
    elim (Bool-cases (is_known (lookup (ref_for (type_name t) n.parent_id) s.nodes))) [
      | inl above ↦ rw above (put-Inv s n v named (place above))
      | inr missing ↦ rw missing v
    ]

create_team-Inv :
    (s : Store) (id name org_id : Bytes) (l : Limits)
    → Inv s
    → Inv (create_team s id name org_id l).0
unfolding create_team
create_team-Inv s id name org_id l v = elim (Bool-cases (valid_id id)) [
  | inr bad ↦ rw bad v
  | inl fine ↦ elim (Bool-cases (valid_limits l)) [
    | inr bad ↦ rw (fine, bad) v
    | inl good ↦
        rw (fine, good)
          (put_child-Inv s (new_node team id name org_id l) org v (valid_id-named id fine) (λ h. h))
  ]
]

create_app-Inv :
    (s : Store) (id name team_id : Bytes) (l : Limits)
    → Inv s
    → Inv (create_app s id name team_id l).0
unfolding create_app
create_app-Inv s id name team_id l v = elim (Bool-cases (valid_id id)) [
  | inr bad ↦ rw bad v
  | inl fine ↦ elim (Bool-cases (valid_limits l)) [
    | inr bad ↦ rw (fine, bad) v
    | inl good ↦
        rw (fine, good)
          (put_child-Inv s (new_node app id name team_id l) team v (valid_id-named id fine)
            (λ h. h))
  ]
]

update_node-Inv :
    (s : Store) (ref : Bytes) (f : Node → Node)
    → Inv s
    → ((n : Node) → IsPlaced s ref n → IsPlaced s ref (f n))
    → Inv (update_node s ref f).0
unfolding update_node
update_node-Inv s ref f v keeps = elim (Option-cases (lookup ref s.nodes)) [
  | inl missing ↦ rw (missing, update_node) v
  | inr (n, found) ↦
      rw (found, update_node) (with_node-Inv s ref (f n) v (keeps n (v.placed ref n found)))
]

set_limits-Inv :
    (s : Store) (t : NodeType) (id : Bytes) (l : Limits) → Inv s → Inv (set_limits s t id l).0
unfolding set_limits scope_key
set_limits-Inv s t id l v = elim (Bool-cases (valid_limits l)) [
  | inr bad ↦ rw bad v
  | inl good ↦ rw good (
      update_node-Inv s (ref_for (type_name t) id) (λ n. record n { limits = l }) v
        (λ n p. record { keyed = p.keyed; named = p.named; parent = p.parent }))
]

set_killed-Inv :
    (s : Store) (t : NodeType) (id : Bytes) (b : Bool) → Inv s → Inv (set_killed s t id b).0
unfolding set_killed scope_key
set_killed-Inv s t id b v =
    update_node-Inv s (ref_for (type_name t) id) (λ n. record n { killed = b }) v
      (λ n p. record { keyed = p.keyed; named = p.named; parent = p.parent })

issue_key-Inv :
    (s : Store) (key : Bytes) (t : NodeType) (id : Bytes) → Inv s → Inv (issue_key s key t id).0
unfolding issue_key
issue_key-Inv s key t id v = elim (Bool-cases (is_empty key)) [
  | inl blank ↦ rw blank v
  | inr given ↦ elim (Bool-cases (is_known (lookup (ref_for (type_name t) id) s.nodes))) [
    | inr missing ↦ rw (given, missing) v
    | inl found ↦
        rw (given, found)
          (record {
            placed = λ k n h.
                let p = v.placed k n h in
                record { keyed = p.keyed; named = p.named; parent = p.parent };
            issued = λ j ref h. ground (
              arith,
              lookup-insert key j (ref_for (type_name t) id) s.keys,
              v.issued j ref,
              found,
            );
          })
  ]
]

-- One call of the store.
pub data Op : Type 0 where
  creates_org : Bytes → Bytes → Limits → Op
  creates_team creates_app : Bytes → Bytes → Bytes → Limits → Op
  sets_limits : NodeType → Bytes → Limits → Op
  kills unkills : NodeType → Bytes → Op
  issues : Bytes → NodeType → Bytes → Op

unfoldable pub step : Store → Op → Store
step s (creates_org id name l) = (create_org s id name l).0
step s (creates_team id name org_id l) = (create_team s id name org_id l).0
step s (creates_app id name team_id l) = (create_app s id name team_id l).0
step s (sets_limits t id l) = (set_limits s t id l).0
step s (kills t id) = (kill s t id).0
step s (unkills t id) = (unkill s t id).0
step s (issues key t id) = (issue_key s key t id).0

unfoldable pub build : Store → List Op → Store
build s [] = s
build s (op ∷ ops) = build (step s op) ops

step-Inv : (s : Store) (op : Op) → Inv s → Inv (step s op)
unfolding step kill unkill
step-Inv s (creates_org id name l) v = create_org-Inv s id name l v
step-Inv s (creates_team id name org_id l) v = create_team-Inv s id name org_id l v
step-Inv s (creates_app id name team_id l) v = create_app-Inv s id name team_id l v
step-Inv s (sets_limits t id l) v = set_limits-Inv s t id l v
step-Inv s (kills t id) v = set_killed-Inv s t id true v
step-Inv s (unkills t id) v = set_killed-Inv s t id false v
step-Inv s (issues key t id) v = issue_key-Inv s key t id v

-- After any calls, refused ones included, every node of the hierarchy stands under its own key with
-- its parent in the store, and every issued key names a node.
pub build-Inv : (s : Store) (ops : List Op) → Inv s → Inv (build s ops)
unfolding build
build-Inv s [] v = v
build-Inv s (op ∷ ops) v = build-Inv (step s op) ops (step-Inv s op v)
