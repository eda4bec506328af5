-- ===== src/Firewall/Local/Spent.antt =====
-- A run's cumulative spend under the check and reserve of the scopes.
use heave.Prelude.{
  ℕ, ◌≡◌, refl, ap, ◌∙◌, inl, inr, List, [], ◌∷◌, arith, Option-cases, Bytes, str_eq_iff,
}
use heave.Firewall.State.{ScopeKey, ScopeState, Firewall}
use heave.Firewall.Local.{
  move_window, check_velocity, check_velocities, check_inflights, ensure_scope, reserve_scope,
  reserve_scopes, check_reserve_scopes,
}
use heave.Firewall.Local.View.{state_at, state_at-put_scope, check_velocity-put_scope}

module _ {ℓ} {S : Type ℓ} where
  -- The run's reserved and settled spend.
  abbrev pub spent : Firewall S → Bytes → ℕ
  spent f k = (state_at f k).run_usd

  spent-check_velocity :
      (f : Firewall S) (sk : ScopeKey) (u t now : ℕ) (k : Bytes)
      → spent (check_velocity f sk u t now).0 k ≡ spent f k
  spent-check_velocity f sk u t now k = elim (check_velocity-put_scope f sk u t now) [
    | inl same ↦ ap (λ (g : Firewall S). spent g k) same
    | inr moved ↦
        ap (λ (g : Firewall S). spent g k) moved
        ∙ ground (
          arith,
          str_eq_iff sk.map_key k,
          state_at-put_scope f sk.map_key k (move_window now (state_at f sk.map_key)),
        )
  ]

  spent-check_velocities :
      (f : Firewall S) (keys : List ScopeKey) (u t now : ℕ) (k : Bytes)
      → spent (check_velocities f keys u t now).0 k ≡ spent f k
  unfolding check_velocities
  spent-check_velocities f [] u t now k = refl
  spent-check_velocities f (sk ∷ keys) u t now k =
      let (g, failed) = check_velocity f sk u t now in
      let first = spent-check_velocity f sk u t now k in
      elim (Option-cases failed) [
        | inl pass ↦ rw (pass, check_velocities) (spent-check_velocities g keys u t now k ∙ first)
        | inr (e, fail) ↦ rw (fail, check_velocities) first
      ]

  spent-reserve_scope :
      (f : Firewall S) (k j : Bytes) (u t now : ℕ) → spent (reserve_scope f k u t now) j ≡ spent f j
  unfolding reserve_scope ensure_scope
  spent-reserve_scope f k j u t now =
      ap (λ (st : ScopeState). st.run_usd) (state_at-put_scope f k j _)
      ∙ ground (arith, str_eq_iff k j)

  spent-reserve_scopes :
      (f : Firewall S) (keys : List ScopeKey) (u t now : ℕ) (k : Bytes)
      → spent (reserve_scopes f keys u t now) k ≡ spent f k
  unfolding reserve_scopes
  spent-reserve_scopes f [] u t now k = refl
  spent-reserve_scopes f (sk ∷ keys) u t now k =
      spent-reserve_scopes (reserve_scope f sk.map_key u t now) keys u t now k
      ∙ spent-reserve_scope f sk.map_key k u t now

  -- On every branch.
  pub spent-check_reserve_scopes :
      (f : Firewall S) (keys : List ScopeKey) (u t now : ℕ) (k : Bytes)
      → spent (check_reserve_scopes f keys u t now).0 k ≡ spent f k
  unfolding check_reserve_scopes
  spent-check_reserve_scopes f keys u t now k =
      let (g, slow) = check_velocities f keys u t now in
      let checked = spent-check_velocities f keys u t now k in
      elim (Option-cases slow) [
        | inr (e, fail) ↦ rw (fail, check_reserve_scopes) checked
        | inl pass ↦ elim (Option-cases (check_inflights g keys)) [
          | inr (e, fail) ↦ rw (pass, check_reserve_scopes) (rw (fail) checked)
          | inl free ↦
              rw (pass, check_reserve_scopes)
                (rw (free) (spent-reserve_scopes g keys u t now k ∙ checked))
        ]
      ]
