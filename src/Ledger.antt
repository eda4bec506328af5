-- ===== src/Ledger.antt =====
-- The spend ledger of internal/ledger/ledger.go. Costs are whole nano-dollars; token counts and
-- totals do not reach the int64 bound, nor recentN the uint64 one. The log line is left out, and the
-- durable sink is the list of records written to it. The Go method is Record; the type is Entry here.
pub mod Totals
pub mod Ring
pub mod Top
use heave.Prelude.{
  ℕ, zero, suc, ◌+◌, ◌*◌, ◌-◌, ◌%◌, Bool, true, false, not, ◌&&◌, ◌||◌, Option, none, some, List,
  [], ◌∷◌, ◌++◌, map, ltb, leb, ◌==◌, if◌then◌else◌, length, get_or, set, take, replicate, Bytes,
  bytes, Dict, lookup, insert,
}
use heave.Firewall.Local.{is_empty}

pub record Entry : Type 0 where
  pub request_id : Bytes
  pub alias : Bytes
  pub provider : Bytes
  pub upstream : Bytes
  pub user : Bytes
  pub run_id : Bytes
  pub input_tokens : ℕ
  pub output_tokens : ℕ
  pub cache_read_tokens : ℕ
  pub cache_write_tokens : ℕ
  pub cost_usd : ℕ
  pub latency_ms : ℕ
  pub status : Bytes

pub record Stat : Type 0 where
  pub requests : ℕ
  pub tokens : ℕ
  pub cost_usd : ℕ

pub record Event : Type 0 where
  pub request_id : Bytes
  pub alias : Bytes
  pub provider : Bytes
  pub user : Bytes
  pub run_id : Bytes
  pub tokens : ℕ
  pub cost_usd : ℕ
  pub latency_ms : ℕ
  pub status : Bytes

pub record NamedStat : Type 0 where
  pub name : Bytes
  pub stat : Stat

pub record Snapshot : Type 0 where
  pub total : Stat
  pub top_users : List NamedStat
  pub top_runs : List NamedStat
  pub recent : List Event

pub record Ledger : Type 0 where
  pub sink : Option (List Entry)
  pub total : Stat
  pub by_user : Dict Stat
  pub by_run : Dict Stat
  pub recent : List Event
  pub recent_n : ℕ

abbrev pub max_tracked : ℕ
max_tracked = 20000

abbrev pub recent_ring : ℕ
recent_ring = 200

abbrev pub overflow_key : Bytes
overflow_key = 0 ∷ bytes "(other)"

abbrev pub anonymous_key : Bytes
anonymous_key = 0 ∷ bytes "(anonymous)"

abbrev pub no_event : Event
no_event = record {
  request_id = [];
  alias = [];
  provider = [];
  user = [];
  run_id = [];
  tokens = 0;
  cost_usd = 0;
  latency_ms = 0;
  status = [];
}

abbrev pub no_stat : Stat
no_stat = record { requests = 0; tokens = 0; cost_usd = 0 }

abbrev pub stat_or_new : Option Stat → Stat
stat_or_new none = no_stat
stat_or_new (some st) = st

abbrev pub is_present {ℓ} : {A : Type ℓ} → Option A → Bool
is_present none = false
is_present (some a) = true

unfoldable pub add_stat : Stat → ℕ → ℕ → Stat
add_stat s tokens cost = record {
  requests = suc s.requests;
  tokens = s.tokens + tokens;
  cost_usd = s.cost_usd + cost;
}

unfoldable pub new : Ledger
new = record {
  sink = none;
  total = no_stat;
  by_user = [];
  by_run = [];
  recent = replicate recent_ring no_event;
  recent_n = 0;
}

unfoldable pub with_sink : Ledger → List Entry → Ledger
with_sink l s = record l { sink = some s }

unfoldable pub key_or : Bytes → Bytes → Bytes
key_or s fallback = if is_empty s then fallback else s

-- The key that takes the record: its own, or the overflow bucket at capacity.
unfoldable pub track_key : Dict Stat → Bytes → Bytes
track_key m key =
    if not (is_present (lookup key m)) && leb max_tracked (length m) then overflow_key else key

unfoldable pub track : Dict Stat → Bytes → ℕ → ℕ → Dict Stat
unfolding track_key add_stat
track m key tokens cost =
    let k = track_key m key in insert k (add_stat (stat_or_new (lookup k m)) tokens cost) m

unfoldable pub tokens_of : Entry → ℕ
tokens_of r = r.input_tokens + r.output_tokens + r.cache_read_tokens + r.cache_write_tokens

unfoldable pub event_of : Entry → Event
unfolding tokens_of
event_of r = record {
  request_id = r.request_id;
  alias = r.alias;
  provider = r.provider;
  user = r.user;
  run_id = r.run_id;
  tokens = tokens_of r;
  cost_usd = r.cost_usd;
  latency_ms = r.latency_ms;
  status = r.status;
}

write_sink : Option (List Entry) → Entry → Option (List Entry)
write_sink none r = none
write_sink (some written) r = some (r ∷ written)

unfoldable pub record_entry : Ledger → Entry → Ledger
unfolding write_sink event_of key_or tokens_of
record_entry l r = record {
  sink = write_sink l.sink r;
  total = add_stat l.total (tokens_of r) r.cost_usd;
  by_user = track l.by_user (key_or r.user anonymous_key) (tokens_of r) r.cost_usd;
  by_run = if is_empty r.run_id then l.by_run else track l.by_run r.run_id (tokens_of r) r.cost_usd;
  recent = set l.recent (l.recent_n % recent_ring) (event_of r);
  recent_n = suc l.recent_n;
}

unfoldable pub totals : Ledger → ℕ × ℕ × ℕ
totals l = (l.total.requests, l.total.tokens, l.total.cost_usd)

unfoldable pub display_name : Bytes → Bytes
display_name [] = []
display_name (b ∷ k) = if b == 0 then k else b ∷ k

unfoldable pub collect : Dict Stat → List NamedStat
unfolding display_name
collect [] = []
collect ((k, st) ∷ m) = record { name = display_name k; stat = st } ∷ collect m

-- Go's order of strings.
unfoldable pub str_lt : Bytes → Bytes → Bool
str_lt s [] = false
str_lt [] (b ∷ t) = true
str_lt (a ∷ s) (b ∷ t) = let rest = str_lt s t in ltb a b || (a == b && rest)

-- The `less` of topN_: by cost, the dearest first, then by name.
unfoldable pub dearer : NamedStat → NamedStat → Bool
unfolding str_lt
dearer a b =
    if a.stat.cost_usd == b.stat.cost_usd
    then str_lt a.name b.name
    else ltb b.stat.cost_usd a.stat.cost_usd

-- sort.Slice, as insertion by `less`.
unfoldable pub insert_sorted : NamedStat → List NamedStat → List NamedStat
insert_sorted x [] = x ∷ []
insert_sorted x (y ∷ ys) =
    let rest = insert_sorted x ys in if dearer y x then y ∷ rest else x ∷ y ∷ ys

unfoldable pub sort_stats : List NamedStat → List NamedStat
unfolding insert_sorted
sort_stats [] = []
sort_stats (x ∷ xs) = insert_sorted x (sort_stats xs)

unfoldable pub top_n : List NamedStat → ℕ → List NamedStat
unfolding sort_stats
top_n all n =
    let sorted = sort_stats all in
    if ltb 0 n && ltb n (length sorted) then take n sorted else sorted

-- `for i := 0; i < n; i++ { out = append(out, recent[(recentN-1-i) % recentRing]) }`, with
-- `newest` = recentN - 1 - i.
unfoldable pub ring_back : List Event → ℕ → ℕ → List Event
ring_back ring zero newest = []
ring_back ring (suc n) newest =
    get_or ring (newest % recent_ring) no_event ∷ ring_back ring n (newest - 1)

unfoldable pub recent_events : Ledger → List Event
unfolding ring_back
recent_events l =
    ring_back l.recent (if ltb recent_ring l.recent_n then recent_ring else l.recent_n)
      (l.recent_n - 1)

unfoldable pub snapshot : Ledger → ℕ → Snapshot
unfolding recent_events top_n collect
snapshot l n = record {
  total = l.total;
  top_users = top_n (collect l.by_user) n;
  top_runs = top_n (collect l.by_run) n;
  recent = recent_events l;
}

-- Twenty million times the cost in the unit of the prices, which are per million tokens: a cache
-- read costs a tenth of an input token and a cache write one and a quarter.
unfoldable pub cost : ℕ → ℕ → ℕ → ℕ → ℕ → ℕ → ℕ
cost input output cache_read cache_write input_per_mtok output_per_mtok =
    20 * input * input_per_mtok
    + 20 * output * output_per_mtok
    + 2 * cache_read * input_per_mtok
    + 25 * cache_write * input_per_mtok
