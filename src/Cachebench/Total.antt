-- ===== src/Cachebench/Total.antt =====
-- No index of internal/cachebench/bench.go is out of range, so the simulation always ends with a result.
use heave.Prelude.{
  ℕ, zero, suc, ◌+◌, ◌*◌, ◌/◌, ◌<◌, ◌≡◌, refl, inl, inr, Bool, true, Option, none, some, List, [],
  ◌∷◌, ltb, lt→ltb, leb, length, arith, Bool-cases, Option-cases,
}
use heave.Firewall.State.{second}
use heave.Cachebench.{
  Model, Turn, Conversation, Scenario, Router, Run, fresh, by_difficulty, difficulty_scale,
  naive_router, cache_aware_router, get_elem?, warm_index, bill, take_turn, take_turns, new_run,
  simulate_conv,
}

abbrev pub fits : ℕ → Option ℕ → Bool
fits n none = true
fits n (some i) = ltb i n

-- A router that picks a model of the pool whenever the warm one is of the pool.
pub IsRouter : ℕ → Router → Type 0
IsRouter n r =
    (t difficulty : ℕ) (warm : Option ℕ) → fits n warm ≡ true → r.choose t difficulty warm n < n

pub by_difficulty-lt : (difficulty n : ℕ) → 0 < n → by_difficulty difficulty n < n
unfolding by_difficulty
by_difficulty-lt difficulty n h =
    let idx = difficulty * n / difficulty_scale in
    elim (Bool-cases (leb n 1)) [
      | inl one ↦ rw (one, by_difficulty) h
      | inr many ↦ elim (Bool-cases (leb n idx)) [
        | inl past ↦ rw (many, by_difficulty, past) (ground arith)
        | inr within ↦ rw (many, by_difficulty, within) (ground arith)
      ]
    ]

pub naive_router-IsRouter : (n : ℕ) → 0 < n → IsRouter n naive_router
unfolding IsRouter naive_router
naive_router-IsRouter n h t difficulty warm w = by_difficulty-lt difficulty n h

pub cache_aware_router-IsRouter : (n : ℕ) → 0 < n → IsRouter n cache_aware_router
unfolding IsRouter cache_aware_router
cache_aware_router-IsRouter n h t difficulty none w = by_difficulty-lt difficulty n h
cache_aware_router-IsRouter n h t difficulty (some i) w = ground arith

get_elem?-lt :
    (models : List Model) (i : ℕ) → i < length models → (m : Model) × (get_elem? models i ≡ some m)
unfolding get_elem?
get_elem?-lt [] i h = absurd (ground arith)
get_elem?-lt (m ∷ models) zero h = (m, refl)
get_elem?-lt (m ∷ models) (suc i) h = get_elem?-lt models i (ground arith)

warm_index-fits :
    (run : Run) (ttl n : ℕ) → fits n run.prev_model ≡ true → fits n (warm_index run ttl) ≡ true
unfolding warm_index
warm_index-fits run ttl n h = elim (Option-cases run.prev_model) [
  | inl first ↦ rw (first, warm_index) refl
  | inr (i, last) ↦ elim (Option-cases (fresh ttl run.clock (run.caches i))) [
    | inl cold ↦ rw (last, warm_index, cold) refl
    | inr (c, hot) ↦ rw (last, warm_index, hot) (rw last at h)
  ]
]

take_turn-some :
    (sc : Scenario) (r : Router) (t : ℕ) (run : Run) (turn : Turn)
    → 0 < length sc.models
    → IsRouter (length sc.models) r
    → fits (length sc.models) run.prev_model ≡ true
    → (next : Run) × (take_turn sc r t run turn ≡ some next)
      × (fits (length sc.models) next.prev_model ≡ true)
unfolding take_turn IsRouter
take_turn-some sc r t before turn pool routes h =
    let n = length sc.models in
    let run : Run = record before { clock = before.clock + turn.gap_seconds * second } in
    let warm = warm_index run sc.ttl in
    let i = r.choose t turn.difficulty warm n in
    let chosen = routes t turn.difficulty warm (warm_index-fits run sc.ttl n h) in
    let (m, found) = get_elem?-lt sc.models i chosen in
    let (ideal, best) =
      get_elem?-lt sc.models (by_difficulty turn.difficulty n)
        (by_difficulty-lt turn.difficulty n pool) in
    (bill run sc.ttl m i ideal turn, rw (found, take_turn, best) refl, lt→ltb i n chosen)

take_turns-some :
    (turns : List Turn) (sc : Scenario) (r : Router) (t : ℕ) (run : Run)
    → 0 < length sc.models
    → IsRouter (length sc.models) r
    → fits (length sc.models) run.prev_model ≡ true
    → (next : Run) × (take_turns sc r t run turns ≡ some next)
unfolding take_turns
take_turns-some [] sc r t run pool routes h = (run, refl)
take_turns-some (turn ∷ turns) sc r t run pool routes h =
    let (next, made, fit) = take_turn-some sc r t run turn pool routes h in
    let (last, rest) = take_turns-some turns sc r (suc t) next pool routes fit in
    (last, rw (made, take_turns) rest)

pub simulate_conv-some :
    (conv : Conversation) (sc : Scenario) (r : Router)
    → 0 < length sc.models
    → IsRouter (length sc.models) r
    → (run : Run) × (simulate_conv conv sc r ≡ some run)
unfolding simulate_conv
simulate_conv-some conv sc r pool routes =
    take_turns-some conv.turns sc r 0 (new_run conv) pool routes refl
