-- ===== src/Firewall/Window/Ring.antt =====
-- One ring of the window: what expiry and a write do to the slot of each second.
use native.Mathlib.Nat.{
  mod-lt, mod-eq_of_lt, mod-add-mod, mod-eq-sub-mod, add-mod_right, add-zero, add-suc, suc-add,
  zero-add,
}
use native.Mathlib.Decide.{dec_lt}
use heave.Prelude.{
  ℕ, zero, suc, ◌+◌, ◌-◌, ◌%◌, ◌≤◌, ◌<◌, ◌≡◌, ◌≢◌, refl, ap, sym, ◌∙◌, List, [], ◌∷◌, ℤ, leb, arith,
  inl, inr, Bool-cases, length, get_or, if◌then◌else◌, set, length-set, get_or-set_self,
  get_or-set_ne, add_floor,
}
use heave.Firewall.Window.{clear_all, clear_slots, expire, bump, total}

le-sub : (s t : ℕ) → s < t → s + (t - s) ≡ t
le-sub s t h = omega arith

-- Two seconds less than a ring's length apart do not share a slot.
pub slots_distinct : (size s t : ℕ) → s < t → t < s + size → s % size ≢ t % size
slots_distinct size s t h k e =
    let shift : (s % size + (t - s)) % size ≡ t % size =
      mod-add-mod s size (t - s) ∙ ap (λ (n : ℕ). n % size) (le-sub s t h) in
    let small : s % size < size = mod-lt s (omega arith) in
    elim (dec_lt (s % size + (t - s)) size) [
      | yes h' ↦ omega (arith, mod-eq_of_lt h', shift, e)
      | no h' ↦
          let wrap : (s % size + (t - s)) % size ≡ (s % size + (t - s) - size) % size =
            mod-eq-sub-mod (omega arith) in
          let low : (s % size + (t - s) - size) % size ≡ s % size + (t - s) - size =
            mod-eq_of_lt (omega arith) in
          omega (arith, wrap, low, shift, e)
    ]

pub get_or-clear_all : (xs : List ℕ) (i : ℕ) → get_or (clear_all xs) i 0 ≡ 0
unfolding clear_all
get_or-clear_all [] i = refl
get_or-clear_all (x ∷ xs) zero = refl
get_or-clear_all (x ∷ xs) (suc i) = get_or-clear_all xs i

pub length-clear_all : (xs : List ℕ) → length (clear_all xs) ≡ length xs
unfolding clear_all
length-clear_all [] = refl
length-clear_all (x ∷ xs) = ap suc (length-clear_all xs)

pub length-clear_slots :
    (size rounds from : ℕ) (xs : List ℕ) → length (clear_slots size rounds from xs) ≡ length xs
unfolding clear_slots
length-clear_slots size zero from xs = refl
length-clear_slots size (suc rounds) from xs =
    length-clear_slots size rounds (suc from) (set xs (from % size) 0)
    ∙ length-set xs (from % size) 0

-- A second `u - size` that the loop does not pass keeps its slot. (Counting seconds from `size`
-- before the epoch keeps the first seconds of the clock within the natural numbers.)
pub clear_slots-outside :
    (size rounds from u : ℕ) (xs : List ℕ)
    → u < from + size
    → from + rounds ≤ u
    → get_or (clear_slots size rounds from xs) (u % size) 0 ≡ get_or xs (u % size) 0
unfolding clear_slots
clear_slots-outside size zero from u xs a b = refl
clear_slots-outside size (suc rounds) from u xs a b =
    clear_slots-outside size rounds (suc from) u (set xs (from % size) 0) (omega arith)
      (omega arith)
    ∙ get_or-set_ne xs (from % size) (u % size) 0 0 (slots_distinct size from u (omega arith) a)

-- The rest of the loop passes its first second again only after a whole turn.
clear_slots-first :
    (size rounds from : ℕ) (xs : List ℕ)
    → rounds < size
    → get_or (clear_slots size rounds (suc from) xs) (from % size) 0 ≡ get_or xs (from % size) 0
clear_slots-first size rounds from xs h =
    rw add-mod_right at
      (clear_slots-outside size rounds (suc from) (from + size) xs (omega arith) (omega arith))

-- The second `s` is cleared if the loop passes it.
pub clear_slots-inside :
    (size rounds from s : ℕ) (xs : List ℕ)
    → length xs ≡ size
    → 0 < size
    → rounds ≤ size
    → from ≤ s
    → s < from + rounds
    → get_or (clear_slots size rounds from xs) (s % size) 0 ≡ 0
unfolding clear_slots
clear_slots-inside size zero from s xs l z r a b = absurd (omega arith)
clear_slots-inside size (suc rounds) from s xs l z r a b = elim (dec_lt from s) [
  | yes later ↦
      clear_slots-inside size rounds (suc from) s (set xs (from % size) 0)
        (length-set xs (from % size) 0 ∙ l) z (omega arith) later (omega arith)
  | no first ↦
      let same : s ≡ from = omega arith in
      rw same (
        clear_slots-first size rounds from (set xs (from % size) 0) (omega arith)
        ∙ get_or-set_self xs (from % size) 0 0 (omega (arith, l, mod-lt from z)))
]

-- After expiry the slot of a second of the new window holds what it held, or 0 if the second is new.
pub expire-slot :
    (size last now u : ℕ) (xs : List ℕ)
    → length xs ≡ size
    → 0 < size
    → last < now
    → now < u
    → u ≤ now + size
    → get_or (expire size last now xs) (u % size) 0
      ≡ (if leb u (last + size) then get_or xs (u % size) 0 else 0)
unfolding expire
expire-slot size last now u xs l z h a b = elim (Bool-cases (leb size (now - last))) [
  | inl wide ↦ ground (arith, get_or-clear_all xs (u % size))
  | inr narrow ↦ elim (Bool-cases (leb u (last + size))) [
    | inl old ↦
        rw (narrow, old)
          (clear_slots-outside size (now - last) (suc last) u xs (ground arith) (ground arith))
    | inr new ↦
        rw (narrow, new, ← shifted (ground arith))
          (clear_slots-inside size (now - last) (suc last) (u - size) xs l z (ground arith)
            (ground arith) (ground arith))
  ]
]
  where
    shifted : size ≤ u → (u - size) % size ≡ u % size
    shifted e = sym (mod-eq-sub-mod e)

pub length-expire : (size last now : ℕ) (xs : List ℕ) → length (expire size last now xs) ≡ length xs
unfolding expire
length-expire size last now xs =
    ground (arith, length-clear_all xs, length-clear_slots size (now - last) (suc last) xs)

pub length-bump : (xs : List ℕ) (i : ℕ) (d : ℤ) → length (bump xs i d) ≡ length xs
unfolding bump
length-bump xs i d = length-set xs i (add_floor (get_or xs i 0) d)

-- The slots of `n` seconds from `base` on, added up.
unfoldable pub run_total : ℕ → ℕ → ℕ → List ℕ → ℕ
run_total size zero base xs = 0
run_total size (suc n) base xs = get_or xs (base % size) 0 + run_total size n (suc base) xs

run_total-snoc :
    (size n base : ℕ) (xs : List ℕ)
    → run_total size (suc n) base xs ≡ run_total size n base xs + get_or xs ((base + n) % size) 0
unfolding run_total
run_total-snoc size zero base xs = rw (add-zero base) (omega arith)
run_total-snoc size (suc n) base xs =
    let same : suc base + n ≡ base + suc n = omega arith in
    rw (← same) (omega (arith, run_total-snoc size n (suc base) xs))

-- A whole turn of the ring has the same total from wherever it starts.
run_total-shift :
    (size base : ℕ) (xs : List ℕ) → run_total size size (suc base) xs ≡ run_total size size base xs
unfolding run_total
run_total-shift size base xs = omega (
  arith,
  run_total-snoc size size base xs,
  ap (λ (i : ℕ). get_or xs i 0) (add-mod_right base size),
)

run_total-base :
    (size base : ℕ) (xs : List ℕ) → run_total size size base xs ≡ run_total size size 0 xs
run_total-base size zero xs = refl
run_total-base size (suc base) xs = run_total-shift size base xs ∙ run_total-base size base xs

run_total-list :
    (size base : ℕ) (xs zs : List ℕ)
    → base + length xs ≡ size
    → ((i : ℕ) → get_or zs (base + i) 0 ≡ get_or xs i 0)
    → run_total size (length xs) base zs ≡ total xs
unfolding run_total total
run_total-list size base [] zs e h = refl
run_total-list size base (x ∷ xs) zs e h =
    let inside : base % size ≡ base + 0 = mod-eq_of_lt (omega arith) ∙ sym (add-zero base) in
    let rest =
      run_total-list size (suc base) xs zs (omega arith)
        (λ i. ap (λ (j : ℕ). get_or zs j 0) (suc-add base i ∙ sym (add-suc base i)) ∙ h (suc i)) in
    omega (arith, ap (λ (j : ℕ). get_or zs j 0) inside, h 0, rest)

-- The total of the ring is that of the seconds of any whole turn.
pub total-run_total :
    (size base : ℕ) (xs : List ℕ) → length xs ≡ size → total xs ≡ run_total size size base xs
total-run_total size base xs l =
    rw (run_total-base size base xs, ← l)
      (sym (
        run_total-list (length xs) 0 xs xs (omega arith)
          (λ i. ap (λ (j : ℕ). get_or xs j 0) (zero-add i))))
