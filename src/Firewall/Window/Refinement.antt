-- ===== src/Firewall/Window/Refinement.antt =====
-- The window as a log of dated amounts, of which the last `size` seconds count.
use native.Mathlib.Nat.{mod-lt, add-mod_right}
use native.Mathlib.Decide.{ℕ_discrete}
use heave.Prelude.{
  ℕ, zero, suc, ◌+◌, ◌%◌, ◌≤◌, ◌<◌, ◌≡◌, refl, ap, ◌∙◌, true, false, List, [], ◌∷◌, ℤ, pos, leb,
  ltb, ◌==◌, ◌&&◌, if◌then◌else◌, arith, inl, inr, Bool-cases, All, length, get_or, length-set,
  length-replicate, get_or-set_self, get_or-set_ne, replicate, add_floor,
}
use heave.Firewall.Window.{Window, new_window, advance, expire, add, bump, sum, total}
use heave.Firewall.Window.Ring.{
  slots_distinct, expire-slot, length-expire, run_total, total-run_total,
}

-- Newest first: the second of each amount, and the amount.
abbrev pub Log : Type 0
Log = List (ℕ × ℤ)

-- What the log says of second `u - size`: its amounts in order, never below 0.
pub held : ℕ → ℕ → Log → ℕ
held size u [] = 0
held size u ((t, d) ∷ older) =
    let before = held size u older in if t + size == u then add_floor before d else before

-- The seconds `base - size`, …, `base - size + n - 1` of the log together.
pub span_total : ℕ → ℕ → ℕ → Log → ℕ
span_total size zero base log = 0
span_total size (suc n) base log = held size base log + span_total size n (suc base) log

-- The `size` seconds that end with `last`.
pub window_total : ℕ → ℕ → Log → ℕ
unfolding span_total
window_total size last log = span_total size size (suc last) log

-- One ring shows the log of its amounts.
pub record Shows (size last : ℕ) (xs : List ℕ) (log : Log) : Type 0 where
  pub full : length xs ≡ size
  pub past : All (λ e. e.0 ≤ last) log
  pub slots : (u : ℕ) → last < u → u ≤ last + size → get_or xs (u % size) 0 ≡ held size u log

-- Before the first use the rings are blank, whatever second is asked for.
abbrev pub Blank : List ℕ → Log → Type 0
Blank xs log = (log ≡ []) × ((i : ℕ) → get_or xs i 0 ≡ 0)

pub record Represents (w : Window) (us ts : Log) : Type 0 where
  pub sized : 0 < w.size
  pub usd_shows : Shows w.size w.last_slot w.usd us
  pub toks_shows : Shows w.size w.last_slot w.toks ts
  pub blank : w.primed ≡ false → Blank w.usd us × Blank w.toks ts

held_past :
    (size last u : ℕ) (log : Log)
    → All (λ e. e.0 ≤ last) log
    → last + size < u
    → held size u log ≡ 0
unfolding held
held_past size last u [] p h = refl
held_past size last u ((t, d) ∷ log) p h = ground (arith, held_past size last u log p.1 h)

past_mono :
    (last now : ℕ) (log : Log) → last ≤ now → All (λ e. e.0 ≤ last) log → All (λ e. e.0 ≤ now) log
past_mono last now [] h p = tt
past_mono last now ((t, d) ∷ log) h p = (omega arith, past_mono last now log h p.1)

expire-Shows :
    (size last now : ℕ) (xs : List ℕ) (log : Log)
    → 0 < size
    → last < now
    → Shows size last xs log
    → Shows size now (expire size last now xs) log
expire-Shows size last now xs log z h s = record {
  full = length-expire size last now xs ∙ s.full;
  past = past_mono last now log (omega arith) s.past;
  slots = λ u a b. expire-slot size last now u xs s.full z h a b ∙ known u a;
}
  where
    known :
        (u : ℕ)
        → now < u
        → (if leb u (last + size) then get_or xs (u % size) 0 else 0) ≡ held size u log
    known u a = ground (arith, s.slots u, held_past size last u log s.past)

Blank-Shows :
    (size now : ℕ) (xs : List ℕ) (log : Log)
    → length xs ≡ size
    → Blank xs log
    → Shows size now xs log
unfolding held
Blank-Shows size now xs log l b = record {
  full = l;
  past = rw b.0 tt;
  slots = λ u h k. rw b.0 (b.1 (u % size));
}

-- Moving the window on changes nothing that the log says.
pub advance-Represents :
    (w : Window) (now : ℕ) (us ts : Log) → Represents w us ts → Represents (advance w now) us ts
unfolding advance
advance-Represents w now us ts r = elim (Bool-cases w.primed) [
  | inl primed ↦ elim (Bool-cases (leb now w.last_slot)) [
    | inl back ↦ simp (primed, back) r
    | inr forth ↦
        rw (primed, forth)
          (record {
            sized = r.sized;
            usd_shows =
                expire-Shows w.size w.last_slot now w.usd us r.sized (ground arith) r.usd_shows;
            toks_shows =
                expire-Shows w.size w.last_slot now w.toks ts r.sized (ground arith) r.toks_shows;
            blank = λ e. absurd (ground arith);
          })
  ]
  | inr fresh ↦ rw fresh (record {
    sized = r.sized;
    usd_shows = Blank-Shows w.size now w.usd us r.usd_shows.full (r.blank fresh).0;
    toks_shows = Blank-Shows w.size now w.toks ts r.toks_shows.full (r.blank fresh).1;
    blank = λ e. absurd (ground arith);
  })
]

bump-Shows :
    (size last : ℕ) (xs : List ℕ) (log : Log) (d : ℤ)
    → 0 < size
    → Shows size last xs log
    → Shows size last (bump xs (last % size) d) ((last, d) ∷ log)
unfolding bump held
bump-Shows size last xs log d z s = record {
  full = length-set xs (last % size) _ ∙ s.full;
  past = (omega arith, s.past);
  slots = λ u a b. elim (ℕ_discrete (last + size) u) [
    | yes this ↦ ground (
      arith,
      get_or-set_self xs (last % size) (add_floor (get_or xs (last % size) 0) d) 0
          (omega (arith, mod-lt last z, s.full)),
      add-mod_right last size,
      s.slots u a b,
    )
    | no other ↦ ground (
      arith,
      get_or-set_ne xs (last % size) (u % size) (add_floor (get_or xs (last % size) 0) d) 0
          (slots_distinct size last u a (omega arith)),
      s.slots u a b,
    )
  ];
}

advance_size : (w : Window) (now : ℕ) → (advance w now).size ≡ w.size
unfolding advance
advance_size w now = ground arith

advance_primed : (w : Window) (now : ℕ) → (advance w now).primed ≡ true
unfolding advance
advance_primed w now = ground arith

-- A write is one more entry of each log, dated with the window's own clock.
pub add-Represents :
    (w : Window) (now : ℕ) (du dt : ℤ) (us ts : Log)
    → Represents w us ts
    → Represents
        (add w now du dt)
        (((advance w now).last_slot, du) ∷ us)
        (((advance w now).last_slot, dt) ∷ ts)
unfolding add
add-Represents w now du dt us ts r =
    let v = advance w now in
    let moved = advance-Represents w now us ts r in
    record {
      sized = moved.sized;
      usd_shows = bump-Shows v.size v.last_slot v.usd us du moved.sized moved.usd_shows;
      toks_shows = bump-Shows v.size v.last_slot v.toks ts dt moved.sized moved.toks_shows;
      blank = λ e. absurd (ground (arith, advance_primed w now));
    }

get_or-replicate : (n i : ℕ) → get_or {A = ℕ} (replicate n 0) i 0 ≡ 0
get_or-replicate zero i = refl
get_or-replicate (suc n) zero = refl
get_or-replicate (suc n) (suc i) = get_or-replicate n i

-- A new window represents the empty log.
pub new_window-Represents : (size : ℕ) → 0 < size → Represents (new_window size) [] []
unfolding new_window
new_window-Represents size z = record {
  sized = z;
  usd_shows = Blank-Shows size 0 _ [] (length-replicate size 0) (refl, get_or-replicate size);
  toks_shows = Blank-Shows size 0 _ [] (length-replicate size 0) (refl, get_or-replicate size);
  blank = λ e. ((refl, get_or-replicate size), (refl, get_or-replicate size));
}

run_total-Shows :
    (size last n base : ℕ) (xs : List ℕ) (log : Log)
    → Shows size last xs log
    → last < base
    → base + n ≤ suc (last + size)
    → run_total size n base xs ≡ span_total size n base log
unfolding run_total span_total
run_total-Shows size last zero base xs log s a b = refl
run_total-Shows size last (suc n) base xs log s a b = omega (
  arith,
  s.slots base a (omega arith),
  run_total-Shows size last n (suc base) xs log s (omega arith) (omega arith),
)

total-Shows :
    (size last : ℕ) (xs : List ℕ) (log : Log)
    → Shows size last xs log
    → total xs ≡ window_total size last log
unfolding window_total
total-Shows size last xs log s =
    total-run_total size (suc last) xs s.full
    ∙ run_total-Shows size last size (suc last) xs log s (omega arith) (omega arith)

-- The second a window stands at once the clock has shown `now`: never an earlier one.
abbrev pub clock : Window → ℕ → ℕ
clock w now = if w.primed && leb now w.last_slot then w.last_slot else now

advance_clock : (w : Window) (now : ℕ) → (advance w now).last_slot ≡ clock w now
unfolding advance
advance_clock w now = ground arith

window_total-advance :
    (w : Window) (now : ℕ) (log : Log)
    → window_total (advance w now).size (advance w now).last_slot log
      ≡ window_total w.size (clock w now) log
window_total-advance w now log =
    ap (λ n. window_total n (advance w now).last_slot log) (advance_size w now)
    ∙ ap (λ last. window_total w.size last log) (advance_clock w now)

-- Reading the ring of a window that represents a log of amounts gives the log's totals of the last
-- `size` seconds up to `now`, or up to the window's own second if that is later, where the total of
-- a second is kept from falling below 0 at each amount; it leaves a window that stands at that
-- second and represents the same log.
pub sum-window_total :
    (w : Window) (now : ℕ) (us ts : Log)
    → Represents w us ts
    → let (v, usd, toks) = sum w now in
      Represents v us ts
      × (v.last_slot ≡ clock w now)
      × (usd ≡ window_total w.size (clock w now) us)
      × (toks ≡ window_total w.size (clock w now) ts)
unfolding sum
sum-window_total w now us ts r =
    let v = advance w now in
    let moved = advance-Represents w now us ts r in
    (
      moved,
      advance_clock w now,
      total-Shows v.size v.last_slot v.usd us moved.usd_shows ∙ window_total-advance w now us,
      total-Shows v.size v.last_slot v.toks ts moved.toks_shows ∙ window_total-advance w now ts,
    )

-- Amounts that are never negative: those whose second has not left the window.
unfoldable pub recent : ℕ → ℕ → List (ℕ × ℕ) → ℕ
recent size last [] = 0
recent size last ((t, d) ∷ log) =
    let rest = recent size last log in if ltb last (t + size) then d + rest else rest

abbrev pub grants : List (ℕ × ℕ) → Log
grants [] = []
grants ((t, d) ∷ log) = (t, pos d) ∷ grants log

held-grant :
    (size u t d : ℕ) (log : Log)
    → held size u ((t, pos d) ∷ log)
      ≡ (if t + size == u then held size u log + d else held size u log)
unfolding held
held-grant size u t d log = ground arith

span_total-grant :
    (size n base t d : ℕ) (log : Log)
    → span_total size n base ((t, pos d) ∷ log)
      ≡ span_total size n base log
        + (if leb base (t + size) && ltb (t + size) (base + n) then d else 0)
unfolding span_total
span_total-grant size zero base t d log = ground arith
span_total-grant size (suc n) base t d log =
    ground (arith, span_total-grant size n (suc base) t d log, held-grant size base t d log)

span_total-nil : (size n base : ℕ) → span_total size n base [] ≡ 0
unfolding span_total held
span_total-nil size zero base = refl
span_total-nil size (suc n) base = omega (arith, span_total-nil size n (suc base))

-- For amounts that are never negative and not dated after `last`, the window's total is the sum of
-- those less than `size` seconds old.
pub window_total-recent :
    (size last : ℕ) (log : List (ℕ × ℕ))
    → All (λ e. e.0 ≤ last) log
    → window_total size last (grants log) ≡ recent size last log
unfolding window_total recent
window_total-recent size last [] p = span_total-nil size size (suc last)
window_total-recent size last ((t, d) ∷ log) p = ground (
  arith,
  span_total-grant size size (suc last) t d (grants log),
  window_total-recent size last log p.1,
)
