-- ===== src/Firewall/Local/Reserve.antt =====
-- Check and reserve over a whole chain, checkReserveScopesLocked of internal/firewall/firewall.go.
use heave.Prelude.{
  ℕ, suc, ◌+◌, ◌*◌, ◌≡◌, refl, ap, ◌∙◌, inl, inr, Bool, true, false, ◌&&◌, Option, none, some, List,
  [], ◌∷◌, pos, if◌then◌else◌, arith, Bool-cases, Option-cases, Bytes, str_eq, str_eq_iff,
}
use heave.Firewall.Errors.{Error, velocity, concurrency}
use heave.Firewall.Kills.{is_some}
use heave.Firewall.Window.Laws.{add-IsShaped, advance-add, add-totals}
use heave.Firewall.State.{ScopeKey, Firewall, window_seconds, unix, positive, reaches}
use heave.Firewall.Local.{
  ensure_scope, check_velocity, check_velocities, check_inflights, reserve_scope, reserve_scopes,
  check_reserve_scopes,
}
use heave.Firewall.Local.View.{
  Load, load, state_at, Inv, is_tracked, exceeds, load-put_scope, put_scope-Inv,
  load-check_velocity, check_velocity-Inv, is_tracked-check_velocity, check_velocity-result,
}

-- `n` more calls with this estimate.
abbrev pub charged : Load → ℕ → ℕ → ℕ → Load
charged l n u t = record { inflight = l.inflight + n; usd = l.usd + n * u; toks = l.toks + n * t }

-- How many scopes of the chain have the key.
abbrev pub uses : List ScopeKey → Bytes → ℕ
uses [] k = 0
uses (sk ∷ keys) k = if str_eq sk.map_key k then suc (uses keys k) else uses keys k

-- The first answer, or else the second.
abbrev pub first_of_two {ℓ} : {A : Type ℓ} → Option A → Option A → Option A
first_of_two none o = o
first_of_two (some a) o = some a

charged_if :
    (hit : Bool) (l : Load) (n u t : ℕ)
    → charged (if hit then charged l 1 u t else l) n u t ≡ charged l (if hit then suc n else n) u t
charged_if true l n u t = ground arith
charged_if false l n u t = refl

module _ {ℓ} {S : Type ℓ} where
  -- The first scope of the chain whose rate cap the load and the estimate break together.
  unfoldable pub too_fast : Firewall S → ℕ → List ScopeKey → ℕ → ℕ → Option Error
  too_fast f now [] u t = none
  too_fast f now (sk ∷ keys) u t =
      let rest = too_fast f now keys u t in
      if is_tracked f sk.map_key && exceeds sk.limits (load f now sk.map_key) u t
      then some (velocity sk.name window_seconds)
      else rest

  -- The first scope that has all its calls in flight.
  unfoldable pub too_many : Firewall S → ℕ → List ScopeKey → Option Error
  too_many f now [] = none
  too_many f now (sk ∷ keys) =
      let rest = too_many f now keys in
      if positive sk.limits.max_concurrent
        && reaches (load f now sk.map_key).inflight sk.limits.max_concurrent
      then some (concurrency sk.name)
      else rest

  -- The specification of the check: which error the chain gets, by the loads before the request.
  unfoldable pub refusal : Firewall S → ℕ → List ScopeKey → ℕ → ℕ → Option Error
  unfolding too_fast too_many
  refusal f now keys u t = first_of_two (too_fast f now keys u t) (too_many f now keys)

  load-reserve_scope :
      (f : Firewall S) (k j : Bytes) (u t now : ℕ)
      → Inv f
      → load (reserve_scope f k u t now) now j
        ≡ (if str_eq k j then charged (load f now j) 1 u t else load f now j)
  unfolding reserve_scope
  load-reserve_scope f k j u t now v =
      load-put_scope f k j _ now
      ∙ unfold load ensure_scope in
        ground (
          arith,
          str_eq_iff k j,
          advance-add (state_at f k).window (unix now) (pos u) (pos t),
          add-totals (state_at f k).window (unix now) u t (v.shaped k),
        )

  reserve_scope-Inv :
      (f : Firewall S) (k : Bytes) (u t now : ℕ) → Inv f → Inv (reserve_scope f k u t now)
  unfolding reserve_scope ensure_scope
  reserve_scope-Inv f k u t now v =
      put_scope-Inv f k _ v
        (add-IsShaped (state_at f k).window (unix now) (pos u) (pos t) (v.shaped k))

  pub reserve_scopes-Inv :
      (f : Firewall S) (keys : List ScopeKey) (u t now : ℕ)
      → Inv f
      → Inv (reserve_scopes f keys u t now)
  unfolding reserve_scopes
  reserve_scopes-Inv f [] u t now v = v
  reserve_scopes-Inv f (sk ∷ keys) u t now v =
      reserve_scopes-Inv (reserve_scope f sk.map_key u t now) keys u t now
        (reserve_scope-Inv f sk.map_key u t now v)

  -- The reserves charge each key once for each scope that has it.
  pub load-reserve_scopes :
      (f : Firewall S) (keys : List ScopeKey) (u t now : ℕ) (k : Bytes)
      → Inv f
      → load (reserve_scopes f keys u t now) now k ≡ charged (load f now k) (uses keys k) u t
  unfolding reserve_scopes
  load-reserve_scopes f [] u t now k v = ground arith
  load-reserve_scopes f (sk ∷ keys) u t now k v =
      load-reserve_scopes (reserve_scope f sk.map_key u t now) keys u t now k
        (reserve_scope-Inv f sk.map_key u t now v)
      ∙ ap (λ (l : Load). charged l (uses keys k) u t) (load-reserve_scope f sk.map_key k u t now v)
      ∙ charged_if (str_eq sk.map_key k) (load f now k) (uses keys k) u t

  -- A state in which a caller sees what it saw before.
  pub record Unchanged (now : ℕ) (f g : Firewall S) : Type ℓ where
    pub inv : Inv f → Inv g
    pub loads : (k : Bytes) → load g now k ≡ load f now k
    pub tracked : (k : Bytes) → is_tracked g k ≡ is_tracked f k

  Unchanged-trans :
      (now : ℕ) (f g h : Firewall S) → Unchanged now f g → Unchanged now g h → Unchanged now f h
  Unchanged-trans now f g h a b = record {
    inv = λ v. b.inv (a.inv v);
    loads = λ k. b.loads k ∙ a.loads k;
    tracked = λ k. b.tracked k ∙ a.tracked k;
  }

  check_velocity-Unchanged :
      (f : Firewall S) (sk : ScopeKey) (u t now : ℕ)
      → Unchanged now f (check_velocity f sk u t now).0
  check_velocity-Unchanged f sk u t now = record {
    inv = check_velocity-Inv f sk u t now;
    loads = load-check_velocity f sk u t now;
    tracked = is_tracked-check_velocity f sk u t now;
  }

  -- The checks of the rates change nothing that a caller sees.
  pub check_velocities-Unchanged :
      (f : Firewall S) (keys : List ScopeKey) (u t now : ℕ)
      → Unchanged now f (check_velocities f keys u t now).0
  unfolding check_velocities
  check_velocities-Unchanged f [] u t now = record {
    inv = λ v. v;
    loads = λ k. refl;
    tracked = λ k. refl;
  }
  check_velocities-Unchanged f (sk ∷ keys) u t now =
      let (g, failed) = check_velocity f sk u t now in
      let first = check_velocity-Unchanged f sk u t now in
      elim (Option-cases failed) [
        | inl pass ↦
            rw (pass, check_velocities)
              (Unchanged-trans now f g _ first (check_velocities-Unchanged g keys u t now))
        | inr (e, fail) ↦ rw (fail, check_velocities) first
      ]

  too_fast-Unchanged :
      (now : ℕ) (f g : Firewall S) (keys : List ScopeKey) (u t : ℕ)
      → Unchanged now f g
      → too_fast g now keys u t ≡ too_fast f now keys u t
  unfolding too_fast
  too_fast-Unchanged now f g [] u t same = refl
  too_fast-Unchanged now f g (sk ∷ keys) u t same =
      rw (same.loads sk.map_key, same.tracked sk.map_key, too_fast-Unchanged now f g keys u t same)

  too_many-Unchanged :
      (now : ℕ) (f g : Firewall S) (keys : List ScopeKey)
      → Unchanged now f g
      → too_many g now keys ≡ too_many f now keys
  unfolding too_many
  too_many-Unchanged now f g [] same = refl
  too_many-Unchanged now f g (sk ∷ keys) same =
      rw (same.loads sk.map_key, too_many-Unchanged now f g keys same)

  check_velocities-too_fast :
      (f : Firewall S) (keys : List ScopeKey) (u t now : ℕ)
      → (check_velocities f keys u t now).1 ≡ too_fast f now keys u t
  unfolding check_velocities too_fast
  check_velocities-too_fast f [] u t now = refl
  check_velocities-too_fast f (sk ∷ keys) u t now =
      let g = (check_velocity f sk u t now).0 in
      ground (
        arith,
        check_velocity-result f sk u t now,
        check_velocities-too_fast g keys u t now,
        too_fast-Unchanged now f g keys u t (check_velocity-Unchanged f sk u t now),
      )

  check_inflights-too_many :
      (f : Firewall S) (keys : List ScopeKey) (now : ℕ)
      → check_inflights f keys ≡ too_many f now keys
  unfolding check_inflights too_many load
  check_inflights-too_many f [] now = refl
  check_inflights-too_many f (sk ∷ keys) now = rw (check_inflights-too_many f keys now)

  -- The check of a chain answers as a specification on what is tracked and its loads says: the
  -- first scope that is tracked already and whose rate caps its load and the estimate together
  -- break, else the first scope whose concurrency cap is reached, else no error.
  pub check_reserve_scopes-refusal :
      (f : Firewall S) (keys : List ScopeKey) (u t now : ℕ)
      → (check_reserve_scopes f keys u t now).1 ≡ refusal f now keys u t
  unfolding check_reserve_scopes refusal
  check_reserve_scopes-refusal f keys u t now =
      let g = (check_velocities f keys u t now).0 in
      ground (
        arith,
        check_velocities-too_fast f keys u t now,
        check_inflights-too_many g keys now,
        too_many-Unchanged now f g keys (check_velocities-Unchanged f keys u t now),
      )

  pub check_reserve_scopes-state :
      (f : Firewall S) (keys : List ScopeKey) (u t now : ℕ)
      → (check_reserve_scopes f keys u t now).0 ≡ (
          if is_some (refusal f now keys u t)
          then (check_velocities f keys u t now).0
          else reserve_scopes (check_velocities f keys u t now).0 keys u t now)
  unfolding check_reserve_scopes refusal
  check_reserve_scopes-state f keys u t now =
      let g = (check_velocities f keys u t now).0 in
      ground (
        arith,
        check_velocities-too_fast f keys u t now,
        check_inflights-too_many g keys now,
        too_many-Unchanged now f g keys (check_velocities-Unchanged f keys u t now),
      )

  pub check_reserve_scopes-Inv :
      (f : Firewall S) (keys : List ScopeKey) (u t now : ℕ)
      → Inv f
      → Inv (check_reserve_scopes f keys u t now).0
  check_reserve_scopes-Inv f keys u t now v =
      let g = (check_velocities f keys u t now).0 in
      let checked = (check_velocities-Unchanged f keys u t now).inv v in
      rw (check_reserve_scopes-state f keys u t now)
        (elim (Bool-cases (is_some (refusal f now keys u t))) [
          | inl denied ↦ rw denied checked
          | inr passed ↦ rw passed (reserve_scopes-Inv g keys u t now checked)
        ])

  -- All or nothing: a refused chain leaves every load as it was, and an admitted one charges each
  -- key the estimate once for each scope that has it.
  pub load-check_reserve_scopes :
      (f : Firewall S) (keys : List ScopeKey) (u t now : ℕ) (k : Bytes)
      → Inv f
      → load (check_reserve_scopes f keys u t now).0 now k ≡ (
          if is_some (refusal f now keys u t)
          then load f now k
          else charged (load f now k) (uses keys k) u t)
  load-check_reserve_scopes f keys u t now k v =
      let g = (check_velocities f keys u t now).0 in
      let same = check_velocities-Unchanged f keys u t now in
      rw (check_reserve_scopes-state f keys u t now)
        (elim (Bool-cases (is_some (refusal f now keys u t))) [
          | inl denied ↦ rw denied (same.loads k)
          | inr passed ↦ rw passed (
              load-reserve_scopes g keys u t now k (same.inv v)
              ∙ ap (λ (l : Load). charged l (uses keys k) u t) (same.loads k))
        ])
