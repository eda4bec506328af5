-- ===== src/Cachebench/Agree.antt =====
-- Compare and Simulate of internal/cachebench/bench.go: one loop over the conversations, or two.
use heave.Prelude.{
  suc, ◌+◌, ◌≤◌, ◌<◌, ◌≡◌, refl, ap, ◌∙◌, Option, none, some, List, [], ◌∷◌, length, arith,
}
use heave.Cachebench.{
  Model, Router, Conversation, Scenario, Comparison, Run, naive_router, cache_aware_router,
  finalize, new_result, new_comparison, savings_pct, simulate_all, simulate, tally, compare_all,
  compare,
}
use heave.Cachebench.Total.{simulate_conv-some, naive_router-IsRouter, cache_aware_router-IsRouter}

-- The loop of Compare, from `cmp`, ends in `after`, which holds what the two loops of Simulate end in.
record Agrees (sc : Scenario) (cmp after : Comparison) (convs : List Conversation) : Type 0 where
  compared : compare_all sc cmp convs ≡ some after
  naive : simulate_all sc naive_router cmp.naive convs ≡ some after.naive
  cache_aware : simulate_all sc cache_aware_router cmp.cache_aware convs ≡ some after.cache_aware
  losses : after.loss_conversations ≤ cmp.loss_conversations + length convs
  total : after.total_conversations ≡ cmp.total_conversations

tally-losses :
    (cmp : Comparison) (n c : Run) → (tally cmp n c).loss_conversations ≤ suc cmp.loss_conversations
unfolding tally
tally-losses cmp n c = ground arith

tally-total :
    (cmp : Comparison) (n c : Run) → (tally cmp n c).total_conversations ≡ cmp.total_conversations
unfolding tally
tally-total cmp n c = refl

compare_all-Agrees :
    (convs : List Conversation) (sc : Scenario) (cmp : Comparison)
    → 0 < length sc.models
    → (after : Comparison) × Agrees sc cmp after convs
unfolding compare_all simulate_all
compare_all-Agrees [] sc cmp pool = (
  cmp,
  record { compared = refl; naive = refl; cache_aware = refl; losses = ground arith; total = refl },
)
compare_all-Agrees (conv ∷ convs) sc cmp pool =
    let models = length sc.models in
    let (n, one) =
      simulate_conv-some conv sc naive_router pool (naive_router-IsRouter models pool) in
    let (c, two) =
      simulate_conv-some conv sc cache_aware_router pool
        (cache_aware_router-IsRouter models pool) in
    let (after, rest) = compare_all-Agrees convs sc (tally cmp n c) pool in
    let fewer = tally-losses cmp n c in
    let losses = rest.losses in
    (
      after,
      record {
        compared = rw (one, compare_all, two) rest.compared;
        naive = rw (one, simulate_all) rest.naive;
        cache_aware = rw (two, simulate_all) rest.cache_aware;
        losses = ground arith;
        total = rest.total;
      },
    )

filled :
    {A : Type 0} (models : List Model) (none_there some_there : A)
    → 0 < length models
    → elim models [ [] ↦ none_there | m ∷ rest ↦ some_there ] ≡ some_there
filled [] none_there some_there pool = absurd (ground arith)
filled (m ∷ models) none_there some_there pool = refl

-- A loop's result, finished.
finished : {A B : Type 0} → (A → B) → Option A → Option B
finished f none = none
finished f (some a) = some (f a)

simulate-finished :
    (sc : Scenario) (r : Router)
    → 0 < length sc.models
    → simulate sc r ≡ finished finalize (simulate_all sc r (new_result r.name) sc.conversations)
unfolding simulate finished
simulate-finished sc r pool = filled sc.models _ _ pool

-- The end of Compare.
ended : Comparison → Comparison
ended cmp =
    let n = finalize cmp.naive in
    let c = finalize cmp.cache_aware in
    record cmp { naive = n; cache_aware = c; savings_pct = savings_pct n c }

compare-finished :
    (sc : Scenario)
    → 0 < length sc.models
    → compare sc
      ≡ finished ended (
          compare_all sc
            (new_comparison (length sc.conversations) naive_router.name cache_aware_router.name)
            sc.conversations)
unfolding compare finished ended
compare-finished sc pool = filled sc.models _ _ pool

-- What Compare promises.
pub record IsComparison (sc : Scenario) (cmp : Comparison) : Type 0 where
  pub naive : simulate sc naive_router ≡ some cmp.naive
  pub cache_aware : simulate sc cache_aware_router ≡ some cmp.cache_aware
  pub savings : cmp.savings_pct ≡ savings_pct cmp.naive cmp.cache_aware
  pub total : cmp.total_conversations ≡ length sc.conversations
  pub losses : cmp.loss_conversations ≤ cmp.total_conversations

-- On a scenario with a model, Compare ends with a result, no index out of range; for each router it
-- is what Simulate gives, with the savings taken from the two and at most as many losses as
-- conversations.
pub compare-IsComparison :
    (sc : Scenario)
    → 0 < length sc.models
    → (cmp : Comparison) × (compare sc ≡ some cmp) × IsComparison sc cmp
unfolding finished ended
compare-IsComparison sc pool =
    let start =
      new_comparison (length sc.conversations) naive_router.name cache_aware_router.name in
    let (after, agrees) = compare_all-Agrees sc.conversations sc start pool in
    (
      ended after,
      compare-finished sc pool ∙ ap (finished ended) agrees.compared,
      record {
        naive = simulate-finished sc naive_router pool ∙ ap (finished finalize) agrees.naive;
        cache_aware =
            simulate-finished sc cache_aware_router pool
            ∙ ap (finished finalize) agrees.cache_aware;
        savings = refl;
        total = agrees.total;
        losses = let few = agrees.losses in let same = agrees.total in ground arith;
      },
    )
