-- ===== src/Router/Candidates.antt =====
-- The candidates that the router of internal/router/router.go lists for an alias.
use mathlib.Core.Path.{subst}
use heave.Prelude.{
  has, ◌≡◌, refl, sym, inl, inr, ◌⊎◌, Bool, true, false, ◌||◌, none, some, List, [], ◌∷◌, arith,
  Bool-cases, Option-cases, All, Bytes, Dict, lookup, insert, lookup-insert, str_eq, str_eq_iff,
  str_eq_refl,
}
use heave.Router.{
  Decision, ModelConfig, Router, add_models, new, decision_for, alias_or_default, route,
  add_fallbacks, candidates,
}

-- Every model stands under its own alias.
abbrev pub IsKeyed : Router → Type 0
IsKeyed r = (k : Bytes) (mc : ModelConfig) → lookup k r.models ≡ some mc → k ≡ mc.alias

add_models-IsKeyed :
    (m : Dict ModelConfig) (models : List ModelConfig)
    → ((k : Bytes) (mc : ModelConfig) → lookup k m ≡ some mc → k ≡ mc.alias)
    → (k : Bytes) (mc : ModelConfig) → lookup k (add_models m models) ≡ some mc
    → k ≡ mc.alias
unfolding add_models
add_models-IsKeyed m [] v k mc h = v k mc h
add_models-IsKeyed m (first ∷ models) v k mc h =
    add_models-IsKeyed (insert first.alias first m) models
      (λ j other g.
        ground (arith, lookup-insert first.alias j first m, str_eq_iff first.alias j, v j other))
      k mc h

new-IsKeyed :
    (models : List ModelConfig) (default_alias : Bytes) → IsKeyed (new models default_alias)
unfolding new lookup
new-IsKeyed models default_alias = add_models-IsKeyed [] models (λ k mc h. absurd (ground arith))

-- No two decisions have the same alias.
abbrev pub IsDistinct : List Decision → Type 0
IsDistinct [] = Unit
IsDistinct (d ∷ ds) = All (λ e. str_eq d.alias e.alias ≡ false) ds × IsDistinct ds

-- A decision of the list has the alias.
abbrev pub is_listed : Bytes → List Decision → Bool
is_listed k [] = false
is_listed k (d ∷ ds) = str_eq d.alias k || is_listed k ds

unseen-split :
    (k : Bytes) (seen : List Bytes) (ds : List Decision)
    → All (λ d. has d.alias (k ∷ seen) ≡ false) ds
    → All (λ d. str_eq k d.alias ≡ false) ds × All (λ d. has d.alias seen ≡ false) ds
unseen-split k seen [] h = (tt, tt)
unseen-split k seen (d ∷ ds) h =
    let rest = unseen-split k seen ds h.1 in ((ground arith, rest.0), (ground arith, rest.1))

add_fallbacks-IsDistinct :
    (r : Router) (seen fallbacks : List Bytes)
    → IsKeyed r
    → All (λ d. has d.alias seen ≡ false) (add_fallbacks r seen fallbacks)
      × IsDistinct (add_fallbacks r seen fallbacks)
unfolding add_fallbacks decision_for
add_fallbacks-IsDistinct r seen [] v = (tt, tt)
add_fallbacks-IsDistinct r seen (fb ∷ fallbacks) v = elim (Bool-cases (has fb seen)) [
  | inl old ↦ rw old (add_fallbacks-IsDistinct r seen fallbacks v)
  | inr fresh ↦ elim (Option-cases (lookup fb r.models)) [
    | inl missing ↦ rw (fresh, missing) (add_fallbacks-IsDistinct r seen fallbacks v)
    | inr (mc, found) ↦
        let same = v fb mc found in
        let rest = add_fallbacks-IsDistinct r (fb ∷ seen) fallbacks v in
        let split = unseen-split fb seen (add_fallbacks r (fb ∷ seen) fallbacks) rest.0 in
        rw (fresh, found, ← same) ((fresh, split.1), (split.0, rest.1))
  ]
]

-- Where a fallback ends up: unknown, seen before the loop, or listed.
abbrev pub Placed : Router → List Bytes → List Decision → Bytes → Type 0
Placed r seen ds fb =
    (lookup fb r.models ≡ none) ⊎ ((has fb seen ≡ true) ⊎ (is_listed fb ds ≡ true))

Placed-cons :
    (r : Router) (seen fallbacks : List Bytes) (d : Decision) (ds : List Decision)
    → All (Placed r (d.alias ∷ seen) ds) fallbacks
    → All (Placed r seen (d ∷ ds)) fallbacks
Placed-cons r seen [] d ds h = tt
Placed-cons r seen (fb ∷ fallbacks) d ds h = (ground arith, Placed-cons r seen fallbacks d ds h.1)

add_fallbacks_old :
    (r : Router) (seen fallbacks : List Bytes) (fb : Bytes)
    → has fb seen ≡ true
    → add_fallbacks r seen (fb ∷ fallbacks) ≡ add_fallbacks r seen fallbacks
unfolding add_fallbacks
add_fallbacks_old r seen fallbacks fb old = rw old refl

add_fallbacks_missing :
    (r : Router) (seen fallbacks : List Bytes) (fb : Bytes)
    → has fb seen ≡ false
    → lookup fb r.models ≡ none
    → add_fallbacks r seen (fb ∷ fallbacks) ≡ add_fallbacks r seen fallbacks
unfolding add_fallbacks
add_fallbacks_missing r seen fallbacks fb fresh missing = rw (fresh, missing) refl

add_fallbacks_found :
    (r : Router) (seen fallbacks : List Bytes) (fb : Bytes) (mc : ModelConfig)
    → has fb seen ≡ false
    → lookup fb r.models ≡ some mc
    → add_fallbacks r seen (fb ∷ fallbacks)
      ≡ decision_for mc ∷ add_fallbacks r (fb ∷ seen) fallbacks
unfolding add_fallbacks
add_fallbacks_found r seen fallbacks fb mc fresh found = rw (fresh, found) refl

add_fallbacks-Placed :
    (r : Router) (seen fallbacks : List Bytes)
    → IsKeyed r
    → All (Placed r seen (add_fallbacks r seen fallbacks)) fallbacks
unfolding decision_for
add_fallbacks-Placed r seen [] v = tt
add_fallbacks-Placed r seen (fb ∷ fallbacks) v = elim (Bool-cases (has fb seen)) [
  | inl old ↦
      subst (λ ds. All (Placed r seen ds) (fb ∷ fallbacks))
        (sym (add_fallbacks_old r seen fallbacks fb old))
        (inr (inl old), add_fallbacks-Placed r seen fallbacks v)
  | inr fresh ↦ elim (Option-cases (lookup fb r.models)) [
    | inl missing ↦
        subst (λ ds. All (Placed r seen ds) (fb ∷ fallbacks))
          (sym (add_fallbacks_missing r seen fallbacks fb fresh missing))
          (inl missing, add_fallbacks-Placed r seen fallbacks v)
    | inr (mc, found) ↦
        let same = v fb mc found in
        let ds = add_fallbacks r (fb ∷ seen) fallbacks in
        let rest = add_fallbacks-Placed r (fb ∷ seen) fallbacks v in
        subst (λ ds. All (Placed r seen ds) (fb ∷ fallbacks))
          (sym (add_fallbacks_found r seen fallbacks fb mc fresh found))
          (
            inr (inr (ground (arith, same, str_eq_refl fb))),
            Placed-cons r seen fallbacks (decision_for mc) ds
                (subst (λ k. All (Placed r (k ∷ seen) ds) fallbacks) same rest),
          )
  ]
]

-- A router that New built lists candidates exactly for the aliases that it routes: Route's decision
-- comes first, no two candidates have the same alias, and each fallback of the model that is
-- configured itself is among them.
pub candidates-IsDistinct :
    (models : List ModelConfig) (default_alias alias : Bytes)
    → let r = new models default_alias in
      ((candidates r alias ≡ none) × (route r alias ≡ none))
      ⊎ ((mc : ModelConfig) × (rest : List Decision) × (lookup (alias_or_default r alias) r.models
            ≡ some mc)
          × (candidates r alias ≡ some (decision_for mc ∷ rest))
          × (route r alias ≡ some (decision_for mc))
          × IsDistinct (decision_for mc ∷ rest)
          × All
              (λ fb. (lookup fb r.models ≡ none) ⊎ (is_listed fb (decision_for mc ∷ rest) ≡ true))
              mc.fallbacks)
unfolding candidates route decision_for
candidates-IsDistinct models default_alias alias =
    let r = new models default_alias in
    let v = new-IsKeyed models default_alias in
    elim (Option-cases (lookup (alias_or_default r alias) r.models)) [
      | inl missing ↦ rw (missing, candidates, route) (inl (refl, refl))
      | inr (mc, found) ↦
          let rest = add_fallbacks r (mc.alias ∷ []) mc.fallbacks in
          let apart = add_fallbacks-IsDistinct r (mc.alias ∷ []) mc.fallbacks v in
          let split = unseen-split mc.alias [] rest apart.0 in
          rw (found, candidates, route)
            (inr (
              mc,
              rest,
              refl,
              refl,
              refl,
              (split.0, apart.1),
              listed mc.fallbacks (decision_for mc) rest (
                  Placed-cons r [] mc.fallbacks (decision_for mc) rest
                    (add_fallbacks-Placed r (mc.alias ∷ []) mc.fallbacks v)),
            ))
    ]
  where
    listed :
        (fallbacks : List Bytes) (d : Decision) (ds : List Decision)
        → All (Placed (new models default_alias) [] (d ∷ ds)) fallbacks
        → All
            (λ fb.
              (lookup fb (new models default_alias).models ≡ none) ⊎ (is_listed fb (d ∷ ds) ≡ true))
            fallbacks
    listed [] d ds h = tt
    listed (fb ∷ fallbacks) d ds h = (ground arith, listed fallbacks d ds h.1)
