-- ===== src/Firewall/Tickets/Cores.antt =====
-- What one clock reading shows of a scope, with its window slot by slot.
use heave.Prelude.{
  ℕ, zero, suc, ◌-◌, ◌≡◌, refl, ap, ◌∙◌, inl, inr, true, false, List, [], ◌∷◌, map, pos,
  if◌then◌else◌, arith, All, Bool-cases, Option-cases, Bytes, str_eq, str_eq_iff, str_eq_refl,
  lookup, lookup-insert, neg_ℕ,
}
use heave.Firewall.Window
use heave.Firewall.Window.{Window, advance, total}
use heave.Firewall.Window.Laws.{advance-advance, advance-add, add-advance, add-undo}
use heave.Firewall.State.{ScopeKey, ScopeState, Firewall, unix}
use heave.Firewall.Local.{
  move_window, put_scope, ensure_scope, check_velocity, check_velocities, reserve_scope,
  reserve_scopes,
}
use heave.Firewall.Local.View.{
  load_of, state_at, is_tracked, state_at-put_scope, check_velocity-put_scope,
}
use heave.Firewall.Local.Reserve.{uses}
use heave.Firewall.Tickets.{release_scopes}

-- The part of a scope's state that calls share, as the clock at `sec` shows it.
pub record Core : Type 0 where
  pub inflight : ℕ
  pub window : Window

pub core_of : ℕ → ScopeState → Core
core_of sec st = record { inflight = st.inflight; window = advance st.window sec }

charge : ℕ → ℕ → ℕ → Core → Core
charge sec u t c = record {
  inflight = suc c.inflight;
  window = Window.add c.window sec (pos u) (pos t);
}

undo : ℕ → ℕ → ℕ → Core → Core
undo sec u t c = record {
  inflight = c.inflight - 1;
  window = Window.add c.window sec (neg_ℕ u) (neg_ℕ t);
}

abbrev IsNow : ℕ → Core → Type 0
IsNow sec c = advance c.window sec ≡ c.window

abbrev repeat : ℕ → (Core → Core) → Core → Core
repeat zero g c = c
repeat (suc n) g c = repeat n g (g c)

charge-IsNow : (sec u t : ℕ) (c : Core) → IsNow sec (charge sec u t c)
unfolding charge
charge-IsNow sec u t c = advance-add c.window sec (pos u) (pos t)

undo-charge : (sec u t : ℕ) (c : Core) → IsNow sec c → undo sec u t (charge sec u t c) ≡ c
unfolding undo charge
undo-charge sec u t c h = ground (arith, add-undo c.window sec u t, h)

repeat-charge-IsNow :
    (n sec u t : ℕ) (c : Core) → IsNow sec c → IsNow sec (repeat n (charge sec u t) c)
repeat-charge-IsNow zero sec u t c h = h
repeat-charge-IsNow (suc n) sec u t c h =
    repeat-charge-IsNow n sec u t (charge sec u t c) (charge-IsNow sec u t c)

repeat-outside :
    (n sec u t : ℕ) (c : Core)
    → repeat n (charge sec u t) (charge sec u t c) ≡ charge sec u t (repeat n (charge sec u t) c)
repeat-outside zero sec u t c = refl
repeat-outside (suc n) sec u t c = repeat-outside n sec u t (charge sec u t c)

repeat-undo :
    (n sec u t : ℕ) (c : Core)
    → IsNow sec c
    → repeat n (undo sec u t) (repeat n (charge sec u t) c) ≡ c
repeat-undo zero sec u t c h = refl
repeat-undo (suc n) sec u t c h =
    ap (λ (x : Core). repeat n (undo sec u t) (undo sec u t x)) (repeat-outside n sec u t c)
    ∙ ap (repeat n (undo sec u t))
        (undo-charge sec u t (repeat n (charge sec u t) c) (repeat-charge-IsNow n sec u t c h))
    ∙ repeat-undo n sec u t c h

core-move_window :
    (now : ℕ) (st : ScopeState) → core_of (unix now) (move_window now st) ≡ core_of (unix now) st
unfolding core_of
core-move_window now st = ground (arith, advance-advance st.window (unix now))

pub load-core :
    (now : ℕ) (a b : ScopeState)
    → core_of (unix now) a ≡ core_of (unix now) b
    → load_of now a ≡ load_of now b
unfolding core_of load_of
load-core now a b e = ground (arith, ap (λ (c : Core). c.inflight) e, ap (λ (c : Core). c.window) e)

module _ {ℓ} {S : Type ℓ} where
  abbrev pub core : Firewall S → ℕ → Bytes → Core
  core f now k = core_of (unix now) (state_at f k)

  core-IsNow : (f : Firewall S) (now : ℕ) (k : Bytes) → IsNow (unix now) (core f now k)
  unfolding core_of
  core-IsNow f now k = advance-advance (state_at f k).window (unix now)

  core-put_scope :
      (f : Firewall S) (k j : Bytes) (st : ScopeState) (now : ℕ)
      → core (put_scope f k st) now j ≡ (if str_eq k j then core_of (unix now) st else core f now j)
  core-put_scope f k j st now = ground (arith, state_at-put_scope f k j st)

  core-check_velocity :
      (f : Firewall S) (sk : ScopeKey) (u t now : ℕ) (k : Bytes)
      → core (check_velocity f sk u t now).0 now k ≡ core f now k
  core-check_velocity f sk u t now k = elim (check_velocity-put_scope f sk u t now) [
    | inl same ↦ ap (λ (g : Firewall S). core g now k) same
    | inr moved ↦
        ap (λ (g : Firewall S). core g now k) moved
        ∙ core-put_scope f sk.map_key k (move_window now (state_at f sk.map_key)) now
        ∙ ground (arith, str_eq_iff sk.map_key k, core-move_window now (state_at f sk.map_key))
  ]

  pub core-check_velocities :
      (f : Firewall S) (keys : List ScopeKey) (u t now : ℕ) (k : Bytes)
      → core (check_velocities f keys u t now).0 now k ≡ core f now k
  unfolding check_velocities
  core-check_velocities f [] u t now k = refl
  core-check_velocities f (sk ∷ keys) u t now k =
      let (g, failed) = check_velocity f sk u t now in
      let first = core-check_velocity f sk u t now k in
      elim (Option-cases failed) [
        | inl pass ↦ rw (pass, check_velocities) (core-check_velocities g keys u t now k ∙ first)
        | inr (e, fail) ↦ rw (fail, check_velocities) first
      ]

  core-reserve_scope :
      (f : Firewall S) (k j : Bytes) (u t now : ℕ)
      → core (reserve_scope f k u t now) now j
        ≡ (if str_eq k j then charge (unix now) u t (core f now j) else core f now j)
  unfolding reserve_scope ensure_scope
  core-reserve_scope f k j u t now =
      core-put_scope f k j _ now
      ∙ unfold core_of charge in
        ground (
          arith,
          str_eq_iff k j,
          advance-add (state_at f k).window (unix now) (pos u) (pos t),
          add-advance (state_at f k).window (unix now) (pos u) (pos t),
        )

  core-reserve_scopes :
      (f : Firewall S) (keys : List ScopeKey) (u t now : ℕ) (k : Bytes)
      → core (reserve_scopes f keys u t now) now k
        ≡ repeat (uses keys k) (charge (unix now) u t) (core f now k)
  unfolding reserve_scopes
  core-reserve_scopes f [] u t now k = refl
  core-reserve_scopes f (sk ∷ keys) u t now k =
      let rest = core-reserve_scopes (reserve_scope f sk.map_key u t now) keys u t now k in
      let first = core-reserve_scope f sk.map_key k u t now in
      elim (Bool-cases (str_eq sk.map_key k)) [
        | inl hit ↦ rw hit (rest ∙ rw (first, hit))
        | inr miss ↦ rw miss (rest ∙ rw (first, miss))
      ]

  -- Every key of the chain is tracked.
  abbrev Tracked : Firewall S → List ScopeKey → Type 0
  Tracked f keys = All (λ sk. is_tracked f sk.map_key ≡ true) keys

  is_tracked-put_scope :
      (f : Firewall S) (k j : Bytes) (st : ScopeState)
      → is_tracked f j ≡ true
      → is_tracked (put_scope f k st) j ≡ true
  unfolding put_scope
  is_tracked-put_scope f k j st h = ground (arith, lookup-insert k j st f.scopes)

  Tracked-put_scope :
      (f : Firewall S) (k : Bytes) (st : ScopeState) (keys : List ScopeKey)
      → Tracked f keys
      → Tracked (put_scope f k st) keys
  Tracked-put_scope f k st [] h = tt
  Tracked-put_scope f k st (sk ∷ keys) h =
      (is_tracked-put_scope f k sk.map_key st h.0, Tracked-put_scope f k st keys h.1)

  reserve_scopes-tracked :
      (f : Firewall S) (keys : List ScopeKey) (u t now : ℕ) (k : Bytes)
      → is_tracked f k ≡ true
      → is_tracked (reserve_scopes f keys u t now) k ≡ true
  unfolding reserve_scopes reserve_scope
  reserve_scopes-tracked f [] u t now k h = h
  reserve_scopes-tracked f (sk ∷ keys) u t now k h =
      reserve_scopes-tracked (reserve_scope f sk.map_key u t now) keys u t now k
        (is_tracked-put_scope f sk.map_key k _ h)

  put_scope-tracked_self :
      (f : Firewall S) (k : Bytes) (st : ScopeState) → is_tracked (put_scope f k st) k ≡ true
  unfolding put_scope
  put_scope-tracked_self f k st = ground (arith, lookup-insert k k st f.scopes, str_eq_refl k)

  reserve_scope-tracked :
      (f : Firewall S) (k : Bytes) (u t now : ℕ) → is_tracked (reserve_scope f k u t now) k ≡ true
  unfolding reserve_scope
  reserve_scope-tracked f k u t now = put_scope-tracked_self f k _

  reserve_scopes-Tracked :
      (f : Firewall S) (keys : List ScopeKey) (u t now : ℕ)
      → Tracked (reserve_scopes f keys u t now) keys
  unfolding reserve_scopes
  reserve_scopes-Tracked f [] u t now = tt
  reserve_scopes-Tracked f (sk ∷ keys) u t now = (
    reserve_scopes-tracked (reserve_scope f sk.map_key u t now) keys u t now sk.map_key
        (reserve_scope-tracked f sk.map_key u t now),
    reserve_scopes-Tracked (reserve_scope f sk.map_key u t now) keys u t now,
  )

  -- What Release writes back to one scope of an unsettled ticket.
  given_back : Firewall S → Bytes → ℕ → ℕ → ℕ → ScopeState
  given_back f k u t now = record (state_at f k) {
    inflight = (state_at f k).inflight - 1;
    window = Window.add (state_at f k).window (unix now) (neg_ℕ u) (neg_ℕ t);
  }

  release_scopes-step :
      (f : Firewall S) (k : Bytes) (keys : List Bytes) (u t now : ℕ)
      → is_tracked f k ≡ true
      → release_scopes f (k ∷ keys) false u t now
        ≡ release_scopes (put_scope f k (given_back f k u t now)) keys false u t now
  unfolding release_scopes given_back
  release_scopes-step f k keys u t now h = elim (Option-cases (lookup k f.scopes)) [
    | inl absent ↦ absurd (ground arith)
    | inr (st, found) ↦ rw found
  ]

  core-given_back :
      (f : Firewall S) (k j : Bytes) (u t now : ℕ)
      → core (put_scope f k (given_back f k u t now)) now j
        ≡ (if str_eq k j then undo (unix now) u t (core f now j) else core f now j)
  core-given_back f k j u t now =
      core-put_scope f k j (given_back f k u t now) now
      ∙ unfold core_of undo given_back in
        ground (
          arith,
          str_eq_iff k j,
          advance-add (state_at f k).window (unix now) (neg_ℕ u) (neg_ℕ t),
          add-advance (state_at f k).window (unix now) (neg_ℕ u) (neg_ℕ t),
        )

  core-release_scopes :
      (f : Firewall S) (keys : List ScopeKey) (u t now : ℕ) (k : Bytes)
      → Tracked f keys
      → core (release_scopes f (map (λ sk. sk.map_key) keys) false u t now) now k
        ≡ repeat (uses keys k) (undo (unix now) u t) (core f now k)
  core-release_scopes f [] u t now k h = unfold release_scopes in refl
  core-release_scopes f (sk ∷ keys) u t now k h =
      let g = put_scope f sk.map_key (given_back f sk.map_key u t now) in
      let rest =
        core-release_scopes g keys u t now k
          (Tracked-put_scope f sk.map_key (given_back f sk.map_key u t now) keys h.1) in
      let first = core-given_back f sk.map_key k u t now in
      rw (release_scopes-step f sk.map_key (map (λ sk. sk.map_key) keys) u t now h.0)
        (elim (Bool-cases (str_eq sk.map_key k)) [
          | inl hit ↦ rw hit (rest ∙ rw (first, hit))
          | inr miss ↦ rw miss (rest ∙ rw (first, miss))
        ])

  -- Reserve and release of a whole chain cancel, however often a key stands in it.
  pub core-cancel :
      (f : Firewall S) (keys : List ScopeKey) (u t now : ℕ) (k : Bytes)
      → core
          (release_scopes
            (reserve_scopes f keys u t now)
            (map (λ sk. sk.map_key) keys)
            false
            u
            t
            now)
          now
          k
        ≡ core f now k
  core-cancel f keys u t now k =
      core-release_scopes (reserve_scopes f keys u t now) keys u t now k
        (reserve_scopes-Tracked f keys u t now)
      ∙ ap (repeat (uses keys k) (undo (unix now) u t)) (core-reserve_scopes f keys u t now k)
      ∙ repeat-undo (uses keys k) (unix now) u t (core f now k) (core-IsNow f now k)
