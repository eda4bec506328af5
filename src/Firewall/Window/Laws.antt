-- ===== src/Firewall/Window/Laws.antt =====
-- A window's shape, and its totals as one clock reading sees them.
use native.Mathlib.Nat.{mod-lt}
use heave.Prelude.{
  ℕ, zero, suc, ◌+◌, ◌%◌, ◌<◌, ◌≡◌, refl, ap, sym, ◌∙◌, List, [], ◌∷◌, ℤ, pos, arith, length,
  length-replicate, replicate, neg_ℕ,
}
use heave.Firewall.Window.{Window, new_window, advance, bump, add, total}
use heave.Firewall.Window.Ring.{length-expire, length-bump}

pub record IsShaped (w : Window) : Type 0 where
  pub sized : 0 < w.size
  pub usd_full : length w.usd ≡ w.size
  pub toks_full : length w.toks ≡ w.size

pub new_window-IsShaped : (n : ℕ) → 0 < n → IsShaped (new_window n)
unfolding new_window
new_window-IsShaped n h = record {
  sized = h;
  usd_full = length-replicate n 0;
  toks_full = length-replicate n 0;
}

pub advance-IsShaped : (w : Window) (now : ℕ) → IsShaped w → IsShaped (advance w now)
unfolding advance
advance-IsShaped w now s =
    ground (
      arith,
      length-expire w.size w.last_slot now w.usd,
      length-expire w.size w.last_slot now w.toks,
    )

pub add-IsShaped : (w : Window) (now : ℕ) (u t : ℤ) → IsShaped w → IsShaped (add w now u t)
unfolding add
add-IsShaped w now u t s =
    let v = advance w now in
    let moved = advance-IsShaped w now s in
    record {
      sized = moved.sized;
      usd_full = length-bump v.usd (v.last_slot % v.size) u ∙ moved.usd_full;
      toks_full = length-bump v.toks (v.last_slot % v.size) t ∙ moved.toks_full;
    }

-- A second look at the same time moves nothing.
pub advance-advance : (w : Window) (now : ℕ) → advance (advance w now) now ≡ advance w now
unfolding advance
advance-advance w now = ground arith

pub advance-add : (w : Window) (now : ℕ) (u t : ℤ) → advance (add w now u t) now ≡ add w now u t
unfolding advance add
advance-add w now u t = ground arith

total-bump : (xs : List ℕ) (i d : ℕ) → i < length xs → total (bump xs i (pos d)) ≡ total xs + d
unfolding total bump
total-bump [] i d h = elim h [ ]
total-bump (x ∷ xs) zero d h = omega arith
total-bump (x ∷ xs) (suc i) d h = omega (arith, total-bump xs i d (omega arith))

-- A reserve raises the totals by exactly the estimate.
pub add-totals :
    (w : Window) (now u t : ℕ)
    → IsShaped w
    → (total (add w now (pos u) (pos t)).usd ≡ total (advance w now).usd + u)
      × (total (add w now (pos u) (pos t)).toks ≡ total (advance w now).toks + t)
unfolding add
add-totals w now u t s =
    let v = advance w now in
    let moved = advance-IsShaped w now s in
    let inside : v.last_slot % v.size < v.size = mod-lt v.last_slot moved.sized in
    (
      total-bump v.usd (v.last_slot % v.size) u (omega (arith, moved.usd_full, inside)),
      total-bump v.toks (v.last_slot % v.size) t (omega (arith, moved.toks_full, inside)),
    )

bump-bump : (xs : List ℕ) (i d : ℕ) → bump (bump xs i (pos d)) i (neg_ℕ d) ≡ xs
unfolding bump
bump-bump [] i d = refl
bump-bump (x ∷ xs) zero d = ground arith
bump-bump (x ∷ xs) (suc i) d = ground (arith, bump-bump xs i d)

-- What a write does once the clock has been read.
write : Window → ℤ → ℤ → Window
write v u t =
    let idx = v.last_slot % v.size in record v { usd = bump v.usd idx u; toks = bump v.toks idx t }

add-write : (w : Window) (now : ℕ) (u t : ℤ) → add w now u t ≡ write (advance w now) u t
unfolding add write
add-write w now u t = refl

-- A write reads the clock again, to no effect.
pub add-advance : (w : Window) (now : ℕ) (u t : ℤ) → add (advance w now) now u t ≡ add w now u t
add-advance w now u t =
    add-write (advance w now) now u t
    ∙ ap (λ (v : Window). write v u t) (advance-advance w now)
    ∙ sym (add-write w now u t)

write-write : (v : Window) (u t : ℕ) → write (write v (pos u) (pos t)) (neg_ℕ u) (neg_ℕ t) ≡ v
unfolding write
write-write v u t =
    ground
      (arith, bump-bump v.usd (v.last_slot % v.size) u, bump-bump v.toks (v.last_slot % v.size) t)

-- Giving an estimate back within the same second restores the window.
pub add-undo :
    (w : Window) (now u t : ℕ)
    → add (add w now (pos u) (pos t)) now (neg_ℕ u) (neg_ℕ t) ≡ advance w now
add-undo w now u t =
    let reserved = add w now (pos u) (pos t) in
    add-write reserved now (neg_ℕ u) (neg_ℕ t)
    ∙ ap (λ (v : Window). write v (neg_ℕ u) (neg_ℕ t))
        (advance-add w now (pos u) (pos t) ∙ add-write w now (pos u) (pos t))
    ∙ write-write (advance w now) u t

total-replicate : (n : ℕ) → total (replicate n 0) ≡ 0
unfolding total
total-replicate zero = refl
total-replicate (suc n) = omega (arith, total-replicate n)

pub new_window-totals :
    (n now : ℕ)
    → (total (advance (new_window n) now).usd ≡ 0) × (total (advance (new_window n) now).toks ≡ 0)
unfolding advance new_window
new_window-totals n now = (total-replicate n, total-replicate n)
