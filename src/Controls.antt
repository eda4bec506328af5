-- ===== src/Controls.antt =====
-- Authentication, rate limits and monthly budgets of internal/controls/controls.go. Money is in
-- nano-dollars and time in nanoseconds; a bucket counts in sixty-billionths of a token, of which a
-- limit of n requests a minute adds n each nanosecond, so no amount is rounded.
pub mod Rate
pub mod Budget
use heave.Prelude.{
  ℕ, zero, suc, ◌+◌, ◌*◌, ◌-◌, ◌/◌, Bool, true, false, not, ◌&&◌, Option, none, some, List, [], ◌∷◌,
  map, ltb, leb, if◌then◌else◌, ℤ, pos, Bytes, Dict, lookup, insert, str_eq, ◌-ℤ◌, add_floor,
}
use heave.Firewall.Local.{is_empty}

pub data Error : Type 0 where
  unauthorized : Error
  rate_limited budget_exceeded : ℕ → Error

pub data Result {ℓ} (A : Type ℓ) : Type ℓ where
  ok : A → Result A
  err : Error → Result A

pub record Client : Type 0 where
  pub name : Bytes
  pub key_sha256 : Bytes
  pub monthly_budget_usd : ℕ
  pub rate_limit_rpm : ℕ
  pub admin : Bool

-- One token, in the bucket's unit.
abbrev pub token : ℕ
token = 60 * 1000000000

-- A zero `last` is `none`. The refill is in units a nanosecond.
pub record Bucket : Type 0 where
  pub capacity : ℕ
  pub tokens : ℕ
  pub refill : ℕ
  pub last : Option ℕ

pub record ClientState : Type 0 where
  pub cfg : Client
  pub bucket : Option Bucket
  pub month_key : Bytes
  pub spent_usd : ℕ

pub record Guard : Type 0 where
  pub auth_enabled : Bool
  pub by_hash : Dict ClientState

-- A held amount, by the key of the client's state, which no call replaces.
pub record Reservation : Type 0 where
  pub key : Bytes
  pub amount : ℕ

unfoldable pub new_bucket : ℕ → Bucket
new_bucket rpm = record { capacity = rpm * token; tokens = rpm * token; refill = rpm; last = none }

abbrev pub smaller : ℕ → ℕ → ℕ
smaller a b = if ltb b a then b else a

-- `int(math.Ceil((1 - b.tokens) / b.refillPerSec))`, at least 1.
unfoldable pub retry_after : Bucket → ℕ
retry_after b =
    let per_sec = b.refill * 1000000000 in
    let s = (token - b.tokens + per_sec - 1) / per_sec in if ltb s 1 then 1 else s

-- The bucket after the clock has been read.
unfoldable pub refilled : Bucket → ℕ → Bucket
refilled b now = elim b.last [
  | none ↦ record b { last = some now }
  | some t ↦
      if ltb 0 (now - t)
      then record b {
        tokens = smaller b.capacity (b.tokens + (now - t) * b.refill);
        last = some now;
      }
      else b
]

unfoldable pub allow : Bucket → ℕ → Bucket × Bool × ℕ
unfolding refilled retry_after
allow b now =
    let c = refilled b now in
    if leb token c.tokens
    then (record c { tokens = c.tokens - token }, true, 0)
    else (c, false, retry_after c)

-- strings.ToLower on an ASCII hash.
unfoldable pub to_lower : Bytes → Bytes
to_lower = map (λ b. if leb 65 b && leb b 90 then b + 32 else b)

unfoldable pub add_client : Dict ClientState → Client → Dict ClientState
unfolding to_lower new_bucket
add_client m c =
    let key = to_lower c.key_sha256 in
    insert key
      (record {
        cfg = record c { key_sha256 = key };
        bucket = if ltb 0 c.rate_limit_rpm then some (new_bucket c.rate_limit_rpm) else none;
        month_key = [];
        spent_usd = 0;
      })
      m

add_clients : Dict ClientState → List Client → Dict ClientState
add_clients m [] = m
add_clients m (c ∷ cs) = add_clients (add_client m c) cs

unfoldable pub new : Bool → List Client → Guard
unfolding add_clients
new auth_enabled clients = record { auth_enabled = auth_enabled; by_hash = add_clients [] clients }

-- `sha256_hex` is the hex digest of the bearer.
unfoldable pub find : (Bytes → Bytes) → Guard → Bytes → Option ClientState
find sha256_hex g bearer = if is_empty bearer then none else lookup (sha256_hex bearer) g.by_hash

unfoldable pub put_state : Guard → Bytes → ClientState → Guard
put_state g key st = record g { by_hash = insert key st g.by_hash }

admit_found : (Bytes → Bytes) → Guard → Bytes → ℕ → ClientState → Guard × Result (Option Client)
admit_found sha256_hex g bearer now st = elim st.bucket [
  | none ↦ (g, ok (some st.cfg))
  | some b ↦
      let (c, passes, retry) = allow b now in
      (
        put_state g (sha256_hex bearer) (record st { bucket = some c }),
        if passes then ok (some st.cfg) else err (rate_limited retry),
      )
]

unfoldable pub admit : (Bytes → Bytes) → Guard → Bytes → ℕ → Guard × Result (Option Client)
unfolding admit_found find
admit sha256_hex g bearer now =
    if g.auth_enabled
    then (elim (find sha256_hex g bearer) [
      | none ↦ (g, err unauthorized)
      | some st ↦ admit_found sha256_hex g bearer now st
    ])
    else (g, ok none)

unfoldable pub authenticate : (Bytes → Bytes) → Guard → Bytes → Result (Option Client)
unfolding find
authenticate sha256_hex g bearer =
    if g.auth_enabled
    then (elim (find sha256_hex g bearer) [ none ↦ err unauthorized | some st ↦ ok (some st.cfg) ])
    else ok none

unfoldable pub roll_month : ClientState → Bytes → ClientState
roll_month st month =
    if str_eq st.month_key month then st else record st { month_key = month; spent_usd = 0 }

-- One client's Reserve; the calendar gives the month of now and the seconds left in it.
unfoldable pub reserve_state : ClientState → Bytes → ℕ → ℕ → ClientState × Option Error
unfolding roll_month
reserve_state st month left est =
    let r = roll_month st month in
    if ltb 0 r.cfg.monthly_budget_usd && ltb r.cfg.monthly_budget_usd (r.spent_usd + est)
    then (r, some (budget_exceeded left))
    else (record r { spent_usd = r.spent_usd + est }, none)

unfoldable pub settle_state : ClientState → ℕ → ℤ → ClientState
settle_state st amount actual = record st {
  spent_usd = add_floor st.spent_usd (actual -ℤ pos amount);
}

unfoldable pub reserve : Guard → Option Client → Bytes → ℕ → ℕ → Guard × Result (Option Reservation)
unfolding reserve_state to_lower put_state
reserve g none month left est = (g, ok none)
reserve g (some client) month left est =
    let key = to_lower client.key_sha256 in
    elim (lookup key g.by_hash) [
      | none ↦ (g, ok none)
      | some st ↦
          let (r, failed) = reserve_state st month left est in
          (
            put_state g key r,
            elim failed [ none ↦ ok (some (record { key = key; amount = est })) | some e ↦ err e ],
          )
    ]

unfoldable pub settle : Guard → Option Reservation → ℤ → Guard
unfolding settle_state put_state
settle g none actual = g
settle g (some r) actual = elim (lookup r.key g.by_hash) [
  | none ↦ g
  | some st ↦ put_state g r.key (settle_state st r.amount actual)
]
