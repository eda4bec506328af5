-- ===== src/Cachebench.antt =====
-- The cost simulator of internal/cachebench/bench.go. A price is whole, per million tokens, and a cost
-- is exact, in twenty-millionths of its unit, so a cached token counts 2 (0.10), a written one 25
-- (1.25) and a plain one 20. A difficulty is in units of 2 ^ -53, the steps of a float64 below 1. A
-- rate is a ratio. An index out of range, where the source panics, is `none`.
pub mod Total
pub mod Agree
use heave.Prelude.{
  ℕ, suc, ◌+◌, ◌-◌, ◌*◌, ◌/◌, Bool, Option, none, some, List, [], ◌∷◌, ℤ, pos, ltb, leb, ◌==◌,
  if◌then◌else◌, length, Bytes, bytes, ◌-ℤ◌,
}
use heave.Firewall.State.{second}

pub record Model : Type 0 where
  pub name : Bytes
  pub input_per_mtok : ℕ
  pub output_per_mtok : ℕ
  pub quality : ℕ
  pub min_cache_tokens : ℕ

pub record Turn : Type 0 where
  pub user_tokens : ℕ
  pub output_tokens : ℕ
  pub difficulty : ℕ
  pub gap_seconds : ℕ

pub record Conversation : Type 0 where
  pub system_tokens : ℕ
  pub turns : List Turn

pub record Scenario : Type 0 where
  pub conversations : List Conversation
  pub models : List Model
  pub ttl : ℕ

pub record Ratio : Type 0 where
  pub num : ℕ
  pub den : ℕ

abbrev pub zero_ratio : Ratio
zero_ratio = record { num = 0; den = 1 }

pub record Result : Type 0 where
  pub router : Bytes
  pub cost_usd : ℕ
  pub turns : ℕ
  pub warm_turns : ℕ
  pub regret_turns : ℕ
  pub warm_rate : Ratio
  pub regret_rate : Ratio

-- The savings are a signed numerator, in percent, over the naive cost; `none` is 0.
pub record Comparison : Type 0 where
  pub naive : Result
  pub cache_aware : Result
  pub total_conversations : ℕ
  pub loss_conversations : ℕ
  pub worst_loss_usd : ℕ
  pub savings_pct : Option (ℤ × ℕ)

-- `choose` takes the turn's index, its difficulty, the warm model and the number of models.
pub record Router : Type 0 where
  pub name : Bytes
  pub choose : ℕ → ℕ → Option ℕ → ℕ → ℕ

abbrev pub difficulty_scale : ℕ
difficulty_scale = 9007199254740992

unfoldable pub by_difficulty : ℕ → ℕ → ℕ
by_difficulty difficulty n =
    let idx = difficulty * n / difficulty_scale in
    if leb n 1 then 0 else (if leb n idx then n - 1 else idx)

unfoldable pub naive_router : Router
unfolding by_difficulty
naive_router = record {
  name = bytes "naive";
  choose = λ t difficulty warm n. by_difficulty difficulty n;
}

unfoldable pub cache_aware_router : Router
unfolding by_difficulty
cache_aware_router = record {
  name = bytes "cache-aware";
  choose = λ t difficulty warm n. elim warm [ none ↦ by_difficulty difficulty n | some i ↦ i ];
}

pub record ModelCache : Type 0 where
  pub prefix_tokens : ℕ
  pub last_seen : ℕ

-- The variables of the loop over the turns; `caches` is the map from a model's index.
pub record Run : Type 0 where
  pub caches : ℕ → Option ModelCache
  pub clock : ℕ
  pub prefix : ℕ
  pub prev_model : Option ℕ
  pub cost : ℕ
  pub turns : ℕ
  pub warm : ℕ
  pub regret : ℕ

unfoldable pub get_elem? : List Model → ℕ → Option Model
get_elem? [] i = none
get_elem? (m ∷ models) ℕ.zero = some m
get_elem? (m ∷ models) (suc i) = get_elem? models i

-- A cache entry within its TTL.
abbrev pub fresh : ℕ → ℕ → Option ModelCache → Option ModelCache
fresh ttl clock none = none
fresh ttl clock (some c) = if leb (clock - c.last_seen) ttl then some c else none

unfoldable pub warm_index : Run → ℕ → Option ℕ
warm_index run ttl = elim run.prev_model [
  | none ↦ none
  | some i ↦ elim (fresh ttl run.clock (run.caches i)) [ none ↦ none | some c ↦ some i ]
]

-- The tokens of the prompt that the chosen model holds.
unfoldable pub cached_tokens : Option ModelCache → ℕ → ℕ
cached_tokens none prompt = 0
cached_tokens (some c) prompt = if ltb prompt c.prefix_tokens then prompt else c.prefix_tokens

-- The input of one turn on model `m`, at index `i`: its cost, the new caches, and 1 for a cache read.
unfoldable pub bill_input : Run → ℕ → Model → ℕ → Turn → ℕ → ℕ × (ℕ → Option ModelCache) × ℕ
unfolding cached_tokens
bill_input run ttl m i turn prompt =
    let cached = cached_tokens (fresh ttl run.clock (run.caches i)) prompt in
    if ltb prompt m.min_cache_tokens then (prompt * m.input_per_mtok * 20, run.caches, 0) else (
      cached * m.input_per_mtok * 2 + (prompt - cached) * m.input_per_mtok * 25,
      λ j.
          if j == i
          then some (record { prefix_tokens = prompt + turn.output_tokens; last_seen = run.clock })
          else run.caches j,
      if ltb 0 cached then 1 else 0,
    )

-- The turn on the chosen model, with the ideal one.
unfoldable pub bill : Run → ℕ → Model → ℕ → Model → Turn → Run
unfolding bill_input
bill run ttl m i ideal turn =
    let prompt = run.prefix + turn.user_tokens in
    let (input, caches, hit) = bill_input run ttl m i turn prompt in
    record {
      caches = caches;
      clock = run.clock;
      prefix = run.prefix + (turn.user_tokens + turn.output_tokens);
      prev_model = some i;
      cost = run.cost + (input + turn.output_tokens * m.output_per_mtok * 20);
      turns = suc run.turns;
      warm = run.warm + hit;
      regret = run.regret + (if ltb m.quality ideal.quality then 1 else 0);
    }

unfoldable pub take_turn : Scenario → Router → ℕ → Run → Turn → Option Run
unfolding bill warm_index get_elem? by_difficulty
take_turn sc r t before turn =
    let n = length sc.models in
    let run : Run = record before { clock = before.clock + turn.gap_seconds * second } in
    let i = r.choose t turn.difficulty (warm_index run sc.ttl) n in
    elim (get_elem? sc.models i) [
      | none ↦ none
      | some m ↦ elim (get_elem? sc.models (by_difficulty turn.difficulty n)) [
        | none ↦ none
        | some ideal ↦ some (bill run sc.ttl m i ideal turn)
      ]
    ]

-- The turns from index `t` on.
unfoldable pub take_turns : Scenario → Router → ℕ → Run → List Turn → Option Run
unfolding take_turn
take_turns sc r t run [] = some run
take_turns sc r t run (turn ∷ turns) = elim (take_turn sc r t run turn) [
  | none ↦ none
  | some next ↦ take_turns sc r (suc t) next turns
]

abbrev pub new_run : Conversation → Run
new_run conv = record {
  caches = λ i. none;
  clock = 0;
  prefix = conv.system_tokens;
  prev_model = none;
  cost = 0;
  turns = 0;
  warm = 0;
  regret = 0;
}

unfoldable pub simulate_conv : Conversation → Scenario → Router → Option Run
unfolding take_turns
simulate_conv conv sc r = take_turns sc r 0 (new_run conv) conv.turns

unfoldable pub finalize : Result → Result
finalize res =
    if ltb 0 res.turns
    then record res {
      warm_rate = record { num = res.warm_turns; den = res.turns };
      regret_rate = record { num = res.regret_turns; den = res.turns };
    }
    else res

abbrev pub new_result : Bytes → Result
new_result name = record {
  router = name;
  cost_usd = 0;
  turns = 0;
  warm_turns = 0;
  regret_turns = 0;
  warm_rate = zero_ratio;
  regret_rate = zero_ratio;
}

abbrev pub add_run : Result → Run → Result
add_run res run = record res {
  cost_usd = res.cost_usd + run.cost;
  turns = res.turns + run.turns;
  warm_turns = res.warm_turns + run.warm;
  regret_turns = res.regret_turns + run.regret;
}

unfoldable pub simulate_all : Scenario → Router → Result → List Conversation → Option Result
unfolding simulate_conv
simulate_all sc r res [] = some res
simulate_all sc r res (conv ∷ convs) = elim (simulate_conv conv sc r) [
  | none ↦ none
  | some run ↦ simulate_all sc r (add_run res run) convs
]

unfoldable pub simulate : Scenario → Router → Option Result
unfolding simulate_all finalize
simulate sc r = elim sc.models [
  | [] ↦ some (new_result r.name)
  | m ∷ models ↦ elim (simulate_all sc r (new_result r.name) sc.conversations) [
    | none ↦ none
    | some res ↦ some (finalize res)
  ]
]

-- One conversation by both routers.
unfoldable pub tally : Comparison → Run → Run → Comparison
tally cmp n c =
    let loss = c.cost - n.cost in
    let lost = leb n.cost c.cost in
    record cmp {
      naive = add_run cmp.naive n;
      cache_aware = add_run cmp.cache_aware c;
      loss_conversations = if lost then suc cmp.loss_conversations else cmp.loss_conversations;
      worst_loss_usd =
          if lost
          then (if ltb cmp.worst_loss_usd loss then loss else cmp.worst_loss_usd)
          else cmp.worst_loss_usd;
    }

unfoldable pub compare_all : Scenario → Comparison → List Conversation → Option Comparison
unfolding simulate_conv tally
compare_all sc cmp [] = some cmp
compare_all sc cmp (conv ∷ convs) = elim (simulate_conv conv sc naive_router) [
  | none ↦ none
  | some n ↦ elim (simulate_conv conv sc cache_aware_router) [
    | none ↦ none
    | some c ↦ compare_all sc (tally cmp n c) convs
  ]
]

unfoldable pub savings_pct : Result → Result → Option (ℤ × ℕ)
savings_pct naive cache_aware =
    if naive.cost_usd == 0
    then none
    else some (pos (naive.cost_usd * 100) -ℤ pos (cache_aware.cost_usd * 100), naive.cost_usd)

abbrev pub new_comparison : ℕ → Bytes → Bytes → Comparison
new_comparison total naive cache_aware = record {
  naive = new_result naive;
  cache_aware = new_result cache_aware;
  total_conversations = total;
  loss_conversations = 0;
  worst_loss_usd = 0;
  savings_pct = none;
}

unfoldable pub compare : Scenario → Option Comparison
unfolding compare_all finalize savings_pct
compare sc = elim sc.models [
  | [] ↦ some (new_comparison (length sc.conversations) [] [])
  | m ∷ models ↦
      elim (compare_all sc
        (new_comparison (length sc.conversations) naive_router.name cache_aware_router.name)
        sc.conversations) [
          | none ↦ none
          | some cmp ↦
              let n = finalize cmp.naive in
              let c = finalize cmp.cache_aware in
              some (record cmp { naive = n; cache_aware = c; savings_pct = savings_pct n c })
        ]
]
