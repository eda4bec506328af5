-- ===== src/Firewall/Window.antt =====
-- The rolling per-second ring of internal/firewall/firewall.go (type window). Money is counted in
-- whole nano-dollars and a slot never goes below 0, so slots are naturals and deltas integers.
-- The two rings move together; `Ring` is what happens to one of them.
pub mod Ring
pub mod Refinement
pub mod Laws
use heave.Prelude.{
  ℕ, zero, suc, ◌+◌, ◌-◌, ◌%◌, Bool, true, false, List, [], ◌∷◌, ℤ, leb, if◌then◌else◌, length,
  get_or, set, replicate, add_floor,
}

pub record Window : Type 0 where
  pub usd : List ℕ
  pub toks : List ℕ
  pub size : ℕ
  pub last_slot : ℕ
  pub primed : Bool

unfoldable pub new_window : ℕ → Window
new_window seconds = record {
  usd = replicate seconds 0;
  toks = replicate seconds 0;
  size = seconds;
  last_slot = 0;
  primed = false;
}

-- `for i := range xs { xs[i] = 0 }`
unfoldable pub clear_all : List ℕ → List ℕ
clear_all [] = []
clear_all (x ∷ xs) = 0 ∷ clear_all xs

-- `for s := from; s < from + rounds; s++ { xs[s % size] = 0 }`
unfoldable pub clear_slots : ℕ → ℕ → ℕ → List ℕ → List ℕ
clear_slots size zero from xs = xs
clear_slots size (suc rounds) from xs = clear_slots size rounds (suc from) (set xs (from % size) 0)

-- What `advance` does to one of the two rings when time moves forward from `last` to `now`.
unfoldable pub expire : ℕ → ℕ → ℕ → List ℕ → List ℕ
unfolding clear_all clear_slots
expire size last now xs =
    if leb size (now - last) then clear_all xs else clear_slots size (now - last) (suc last) xs

-- The second that the write goes to is the new `last_slot`, which the source returns too.
unfoldable pub advance : Window → ℕ → Window
unfolding expire
advance w now =
    if w.primed
    then (if leb now w.last_slot then w else record w {
      usd = expire w.size w.last_slot now w.usd;
      toks = expire w.size w.last_slot now w.toks;
      last_slot = now;
    })
    else record w { primed = true; last_slot = now }

-- `xs[i] += d; if xs[i] < 0 { xs[i] = 0 }`
unfoldable pub bump : List ℕ → ℕ → ℤ → List ℕ
bump xs i d = set xs i (add_floor (get_or xs i 0) d)

unfoldable pub add : Window → ℕ → ℤ → ℤ → Window
unfolding bump
add w now usd tok =
    let v = advance w now in
    let idx = v.last_slot % v.size in
    record v { usd = bump v.usd idx usd; toks = bump v.toks idx tok }

unfoldable pub total : List ℕ → ℕ
total [] = 0
total (x ∷ xs) = x + total xs

-- Reading the window moves it too. The totals are of slots that are never negative.
unfoldable pub sum : Window → ℕ → Window × ℕ × ℕ
unfolding total
sum w now = let v = advance w now in (v, total v.usd, total v.toks)
