-- ===== src/Firewall/Local/View.antt =====
-- What a caller can tell of a scope at one time: its calls in flight and the spend in its window.
use heave.Prelude.{
  ℕ, ◌+◌, ◌≡◌, refl, sym, ap, ◌∙◌, inl, inr, ◌⊎◌, Bool, not, ◌&&◌, ◌||◌, Option, none, some, ltb,
  if◌then◌else◌, arith, Bool-cases, length, Bytes, Dict, lookup, map_values, keep_value, map_value,
  Unique, str_eq, str_eq_iff, lookup-insert, lookup-keep, lookup-map_values, insert-Unique,
  keep-Unique, map_values-Unique,
}
use mathlib.Core.Path.{subst}
use heave.Firewall.Errors.{velocity}
use heave.Firewall.Kills.{is_some}
use heave.Firewall.Window
use heave.Firewall.Window.{Window, new_window, advance, total}
use heave.Firewall.Window.Laws.{
  IsShaped, new_window-IsShaped, advance-IsShaped, advance-advance, new_window-totals,
}
use heave.Firewall.State.{
  Limits, ScopeKey, ScopeState, Firewall, new, window_seconds, max_scopes, unix, positive, over,
}
use heave.Firewall.Local.{
  state_or_new, move_window, is_idle, sweep_scopes, gc_locked, put_scope, check_velocity, gc_recent,
}

-- The calls in flight, and the dollars and tokens of the last 60 seconds.
pub record Load : Type 0 where
  pub inflight : ℕ
  pub usd : ℕ
  pub toks : ℕ

unfoldable pub load_of : ℕ → ScopeState → Load
load_of now st = record {
  inflight = st.inflight;
  usd = total (advance st.window (unix now)).usd;
  toks = total (advance st.window (unix now)).toks;
}

abbrev swept : ℕ → Option ScopeState → Option ScopeState
swept now o = keep_value (λ st. not (is_idle now st)) (map_value (move_window now) o)

swept-IsShaped :
    (now : ℕ) (o : Option ScopeState)
    → IsShaped (state_or_new o).window
    → IsShaped (state_or_new (swept now o)).window
swept-IsShaped now none s = s
swept-IsShaped now (some st) s = elim (Bool-cases (is_idle now (move_window now st))) [
  | inl idle ↦ rw idle (new_window-IsShaped window_seconds (omega arith))
  | inr busy ↦ rw busy (advance-IsShaped st.window (unix now) s)
]

load-move_window : (now : ℕ) (st : ScopeState) → load_of now (move_window now st) ≡ load_of now st
unfolding load_of
load-move_window now st = ground (arith, advance-advance st.window (unix now))

swept-load :
    (now : ℕ) (o : Option ScopeState)
    → load_of now (state_or_new (swept now o)) ≡ load_of now (state_or_new o)
unfolding load_of is_idle
swept-load now none = refl
swept-load now (some st) =
    ground
      (arith, advance-advance st.window (unix now), new_window-totals window_seconds (unix now))

sweep-lookup :
    (m : Dict ScopeState) (now : ℕ) (k : Bytes)
    → Unique m
    → lookup k (sweep_scopes now m) ≡ swept now (lookup k m)
unfolding sweep_scopes
sweep-lookup m now k u =
    lookup-keep (λ st. not (is_idle now st)) k (map_values (move_window now) m)
      (map_values-Unique (move_window now) m u)
    ∙ ap (keep_value (λ st. not (is_idle now st))) (lookup-map_values (move_window now) k m)

-- A cap on the rate that the load and the estimate together break.
abbrev pub exceeds : Limits → Load → ℕ → ℕ → Bool
exceeds limits l u t =
    positive limits.max_usd_per_min && over (l.usd + u) limits.max_usd_per_min
    || positive limits.max_tokens_per_min && over (l.toks + t) limits.max_tokens_per_min

module _ {ℓ} {S : Type ℓ} where
  abbrev pub state_at : Firewall S → Bytes → ScopeState
  state_at f k = state_or_new (lookup k f.scopes)

  unfoldable pub load : Firewall S → ℕ → Bytes → Load
  unfolding load_of
  load f now k = load_of now (state_at f k)

  -- One entry a key, and every window in shape.
  pub record Inv (f : Firewall S) : Type ℓ where
    pub unique : Unique f.scopes
    pub shaped : (k : Bytes) → IsShaped (state_at f k).window

  pub new-Inv : (enabled : Bool) (l : Limits) (world : S) → Inv (new enabled l world)
  unfolding new lookup new_window
  new-Inv enabled l world = record {
    unique = tt;
    shaped = λ k. new_window-IsShaped window_seconds (omega arith);
  }

  pub state_at-put_scope :
      (f : Firewall S) (k j : Bytes) (st : ScopeState)
      → state_at (put_scope f k st) j ≡ (if str_eq k j then st else state_at f j)
  unfolding put_scope
  state_at-put_scope f k j st = ground (arith, lookup-insert k j st f.scopes)

  pub load-put_scope :
      (f : Firewall S) (k j : Bytes) (st : ScopeState) (now : ℕ)
      → load (put_scope f k st) now j ≡ (if str_eq k j then load_of now st else load f now j)
  unfolding load
  load-put_scope f k j st now = ground (arith, state_at-put_scope f k j st)

  pub put_scope-Inv :
      (f : Firewall S) (k : Bytes) (st : ScopeState)
      → Inv f
      → IsShaped st.window
      → Inv (put_scope f k st)
  unfolding put_scope
  put_scope-Inv f k st v s = record {
    unique = insert-Unique k st f.scopes v.unique;
    shaped = λ j. elim (Bool-cases (str_eq k j)) [
      | inl same ↦ rw (lookup-insert k j st f.scopes, same) s
      | inr other ↦ rw (lookup-insert k j st f.scopes, other) (v.shaped j)
    ];
  }

  -- A sweep keeps one entry a key and every window in shape.
  pub gc_locked-Inv : (f : Firewall S) (now : ℕ) → Inv f → Inv (gc_locked f now)
  unfolding gc_locked
  gc_locked-Inv f now v =
      elim (Bool-cases (ltb (length f.scopes) max_scopes && gc_recent f.last_gc now)) [
        | inl recent ↦ simp recent v
        | inr due ↦ simp due (record {
          unique =
              keep-Unique (λ st. not (is_idle now st)) (map_values (move_window now) f.scopes)
                (map_values-Unique (move_window now) f.scopes v.unique);
          shaped = λ k.
              rw (sweep-lookup f.scopes now k v.unique)
                (swept-IsShaped now (lookup k f.scopes) (v.shaped k));
        })
      ]

  -- The idle sweep changes no scope's load at that clock reading.
  pub load-gc_locked :
      (f : Firewall S) (now : ℕ) (k : Bytes) → Inv f → load (gc_locked f now) now k ≡ load f now k
  unfolding gc_locked load
  load-gc_locked f now k v =
      elim (Bool-cases (ltb (length f.scopes) max_scopes && gc_recent f.last_gc now)) [
        | inl recent ↦ simp recent
        | inr due ↦
            simp due
              (rw (sweep-lookup f.scopes now k v.unique) (swept-load now (lookup k f.scopes)))
      ]

  pub check_velocity-put_scope :
      (f : Firewall S) (sk : ScopeKey) (u t now : ℕ)
      → ((check_velocity f sk u t now).0 ≡ f)
        ⊎ ((check_velocity f sk u t now).0
            ≡ put_scope f sk.map_key (move_window now (state_at f sk.map_key)))
  unfolding check_velocity Window.sum put_scope
  check_velocity-put_scope f sk u t now = ground arith

  -- Reading one window changes no load.
  pub load-check_velocity :
      (f : Firewall S) (sk : ScopeKey) (u t now : ℕ) (k : Bytes)
      → load (check_velocity f sk u t now).0 now k ≡ load f now k
  load-check_velocity f sk u t now k = elim (check_velocity-put_scope f sk u t now) [
    | inl same ↦ ap (λ (g : Firewall S). load g now k) same
    | inr moved ↦
        ap (λ (g : Firewall S). load g now k) moved
        ∙ load-put_scope f sk.map_key k (move_window now (state_at f sk.map_key)) now
        ∙ unfold load in
          ground (arith, str_eq_iff sk.map_key k, load-move_window now (state_at f sk.map_key))
  ]

  pub check_velocity-Inv :
      (f : Firewall S) (sk : ScopeKey) (u t now : ℕ) → Inv f → Inv (check_velocity f sk u t now).0
  check_velocity-Inv f sk u t now v = elim (check_velocity-put_scope f sk u t now) [
    | inl same ↦ subst Inv (sym same) v
    | inr moved ↦ subst Inv (sym moved) (
        put_scope-Inv f sk.map_key (move_window now (state_at f sk.map_key)) v
          (advance-IsShaped (state_at f sk.map_key).window (unix now) (v.shaped sk.map_key)))
  ]

  abbrev pub is_tracked : Firewall S → Bytes → Bool
  is_tracked f k = is_some (lookup k f.scopes)

  pub is_tracked-check_velocity :
      (f : Firewall S) (sk : ScopeKey) (u t now : ℕ) (k : Bytes)
      → is_tracked (check_velocity f sk u t now).0 k ≡ is_tracked f k
  unfolding check_velocity put_scope Window.sum
  is_tracked-check_velocity f sk u t now k = ground (
    arith,
    str_eq_iff sk.map_key k,
    lookup-insert sk.map_key k (move_window now (state_at f sk.map_key)) f.scopes,
  )

  -- What the check of one scope decides.
  pub check_velocity-result :
      (f : Firewall S) (sk : ScopeKey) (u t now : ℕ)
      → (check_velocity f sk u t now).1 ≡ (
          if is_tracked f sk.map_key && exceeds sk.limits (load f now sk.map_key) u t
          then some (velocity sk.name window_seconds)
          else none)
  unfolding check_velocity Window.sum load
  check_velocity-result f sk u t now = ground arith
