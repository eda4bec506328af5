-- ===== src/Broker/Repeats.antt =====
-- Sequences of calls on one lease of internal/broker/broker.go.
use heave.Prelude.{
  ◌≡◌, refl, ap, ◌∙◌, Bool, ◌||◌, arith, true, false, List, [], ◌∷◌, ℤ, pos, if◌then◌else◌, ◌-ℤ◌,
}
use heave.Broker.{Lease, settle, release}

pub data Op : Type 0 where
  settles : ℤ → Op
  releases : Op

module _ {ℓ} {S : Type ℓ} where
  unfoldable pub run_ops : Lease S → S → List Op → Lease S × S
  run_ops le w [] = (le, w)
  run_ops le w (settles n ∷ ops) = let (next, v) = settle le n w in run_ops next v ops
  run_ops le w (releases ∷ ops) = let (next, v) = release le w in run_ops next v ops

  -- What the store is told of a fresh lease, by a list of calls: the first settle, if it comes before
  -- any release, and the first release.
  abbrev pub told_settle : Lease S → ℤ → S → S
  told_settle le n w =
      (le.store.settle (le.key ∷ []) (pos 0) (if le.tpm then n -ℤ pos le.est_tokens else pos 0) w).0

  abbrev pub told_release : Lease S → Bool → S → S
  told_release le settled w =
      (le.store.release (le.key ∷ []) le.hold (if le.rpm then 1 else 0)
        (if le.tpm then le.est_tokens else 0) settled w).0

  unfoldable pub after_settle : Lease S → S → List Op → S
  after_settle le w [] = w
  after_settle le w (settles n ∷ ops) = after_settle le w ops
  after_settle le w (releases ∷ ops) = told_release le true w

  unfoldable pub told : Lease S → S → List Op → S
  unfolding after_settle
  told le w [] = w
  told le w (settles n ∷ ops) = after_settle le (told_settle le n w) ops
  told le w (releases ∷ ops) = told_release le false w

  settle-idle :
      (le : Lease S) (n : ℤ) (w : S) → (le.settled || le.released) ≡ true → settle le n w ≡ (le, w)
  unfolding settle
  settle-idle le n w idle =
      ap (λ b. if b then (le, w) else (record le { settled = true }, told_settle le n w)) idle

  settle-fresh :
      (le : Lease S) (n : ℤ) (w : S)
      → (le.settled || le.released) ≡ false
      → settle le n w ≡ (record le { settled = true }, told_settle le n w)
  unfolding settle
  settle-fresh le n w fresh =
      ap (λ b. if b then (le, w) else (record le { settled = true }, told_settle le n w)) fresh

  release-idle : (le : Lease S) (w : S) → le.released ≡ true → release le w ≡ (le, w)
  unfolding release
  release-idle le w done =
      ap (λ b. if b then (le, w) else (record le { released = true }, told_release le le.settled w))
        done

  release-live :
      (le : Lease S) (w : S)
      → le.released ≡ false
      → release le w ≡ (record le { released = true }, told_release le le.settled w)
  unfolding release
  release-live le w live =
      ap (λ b. if b then (le, w) else (record le { released = true }, told_release le le.settled w))
        live

  -- The world after the calls that follow a first one.
  rest : List Op → Lease S × S → S
  rest ops x = (run_ops x.0 x.1 ops).1

  released-ops :
      (ops : List Op) (le : Lease S) (w : S) → le.released ≡ true → (run_ops le w ops).1 ≡ w
  unfolding run_ops rest
  released-ops [] le w done = refl
  released-ops (settles n ∷ ops) le w done =
      ap (rest ops) (settle-idle le n w (ground arith)) ∙ released-ops ops le w done
  released-ops (releases ∷ ops) le w done =
      ap (rest ops) (release-idle le w done) ∙ released-ops ops le w done

  settled-ops :
      (ops : List Op) (le : Lease S) (w : S)
      → le.settled ≡ true
      → le.released ≡ false
      → (run_ops le w ops).1 ≡ after_settle le w ops
  unfolding run_ops rest after_settle
  settled-ops [] le w paid live = refl
  settled-ops (settles n ∷ ops) le w paid live =
      ap (rest ops) (settle-idle le n w (ground arith)) ∙ settled-ops ops le w paid live
  settled-ops (releases ∷ ops) le w paid live =
      ap (rest ops) (release-live le w live)
      ∙ released-ops ops _ _ refl
      ∙ ap (λ b. told_release le b w) paid

  after_settle-paid :
      (ops : List Op) (le : Lease S) (w : S)
      → after_settle (record le { settled = true }) w ops ≡ after_settle le w ops
  unfolding after_settle
  after_settle-paid [] le w = refl
  after_settle-paid (settles n ∷ ops) le w = after_settle-paid ops le w
  after_settle-paid (releases ∷ ops) le w = refl

  -- Whatever calls of Settle and Release are made on a fresh lease, the store is told at most one
  -- settle, the first call if it is one, and then at most one release, which says whether there was
  -- a settle.
  pub run_ops-told :
      (le : Lease S) (w : S) (ops : List Op)
      → le.settled ≡ false
      → le.released ≡ false
      → (run_ops le w ops).1 ≡ told le w ops
  unfolding run_ops rest told
  run_ops-told le w [] unpaid live = refl
  run_ops-told le w (settles n ∷ ops) unpaid live =
      ap (rest ops) (settle-fresh le n w (ground arith))
      ∙ settled-ops ops (record le { settled = true }) (told_settle le n w) refl live
      ∙ after_settle-paid ops le (told_settle le n w)
  run_ops-told le w (releases ∷ ops) unpaid live =
      ap (rest ops) (release-live le w live)
      ∙ released-ops ops _ _ refl
      ∙ ap (λ b. told_release le b w) unpaid
