-- ===== src/Firewall/Enter/Keys.antt =====
-- The run key of internal/firewall/firewall.go, which names an owner and a run.
use heave.Prelude.{
  ℕ, zero, suc, ◌+◌, ◌*◌, ◌-◌, ◌/◌, ◌%◌, ◌≤◌, ◌<◌, ◌≡◌, ◌≢◌, refl, sym, ap, ◌∙◌, inl, inr, [], ◌∷◌,
  ◌++◌, ltb, arith, All, Bool-cases, length, Bytes,
}
use heave.Firewall.Enter.{decimal, itoa, run_key}

-- The number that a row of digits stands for.
value : ℕ → Bytes → ℕ
value acc [] = acc
value acc (b ∷ s) = value (acc * 10 + (b - 48)) s

value-snoc : (acc b : ℕ) (s : Bytes) → value acc (s ++ (b ∷ [])) ≡ value acc s * 10 + (b - 48)
unfolding value
value-snoc acc b [] = refl
value-snoc acc b (c ∷ s) = value-snoc (acc * 10 + (c - 48)) b s

-- The fuel n is enough for the digits of n.
decimal-value : (fuel n : ℕ) → n ≤ fuel → value 0 (decimal fuel n) ≡ n
unfolding decimal value
decimal-value zero n h = omega arith
decimal-value (suc fuel) n h = elim (Bool-cases (ltb n 10)) [
  | inl small ↦ rw small (omega arith)
  | inr large ↦ rw large (
      value-snoc 0 (n % 10 + 48) (decimal fuel (n / 10))
      ∙ ground (arith, decimal-value fuel (n / 10)))
]

itoa-injective : (m n : ℕ) → itoa m ≡ itoa n → m ≡ n
unfolding itoa
itoa-injective m n e =
    sym (decimal-value m m (omega arith)) ∙ ap (value 0) e ∙ decimal-value n n (omega arith)

abbrev IsDigits : Bytes → Type 0
IsDigits = All (λ b. b < 58)

IsDigits-append : (s t : Bytes) → IsDigits s → IsDigits t → IsDigits (s ++ t)
IsDigits-append [] t p q = q
IsDigits-append (b ∷ s) t p q = (p.0, IsDigits-append s t p.1 q)

decimal-IsDigits : (fuel n : ℕ) → IsDigits (decimal fuel n)
unfolding decimal
decimal-IsDigits zero n = (omega arith, tt)
decimal-IsDigits (suc fuel) n = elim (Bool-cases (ltb n 10)) [
  | inl small ↦ rw small (ground arith, tt)
  | inr large ↦ rw large (
      IsDigits-append (decimal fuel (n / 10)) ((n % 10 + 48) ∷ []) (decimal-IsDigits fuel (n / 10))
        (omega arith, tt))
]

-- The first ':' ends the digits.
split_at_colon :
    (s t x y : Bytes) → IsDigits s → IsDigits t → s ++ (58 ∷ x) ≡ t ++ (58 ∷ y) → (s ≡ t) × (x ≡ y)
split_at_colon [] [] x y p q e = (refl, ground arith)
split_at_colon [] (c ∷ t) x y p q e = absurd (ground arith)
split_at_colon (b ∷ s) [] x y p q e = absurd (ground arith)
split_at_colon (b ∷ s) (c ∷ t) x y p q e =
    let (rest, tails) = split_at_colon s t x y p.1 q.1 (ground arith) in (ground arith, tails)

-- Owners of one length end at one place.
split_at_length :
    (s t x y : Bytes) → length s ≡ length t → s ++ (0 ∷ x) ≡ t ++ (0 ∷ y) → (s ≡ t) × (x ≡ y)
split_at_length [] [] x y l e = (refl, ground arith)
split_at_length [] (c ∷ t) x y l e = absurd (omega arith)
split_at_length (b ∷ s) [] x y l e = absurd (omega arith)
split_at_length (b ∷ s) (c ∷ t) x y l e =
    let (rest, tails) = split_at_length s t x y (omega arith) (ground arith) in
    (ground arith, tails)

-- Two nonempty runs with the same run key have the same owner and the same run id, whatever bytes
-- the owner holds.
pub run_key-injective :
    (owner owner' run run' : Bytes)
    → run ≢ []
    → run' ≢ []
    → run_key owner run ≡ run_key owner' run'
    → (owner ≡ owner') × (run ≡ run')
unfolding run_key itoa
run_key-injective owner owner' [] run' a b e = absurd (a refl)
run_key-injective owner owner' (r ∷ run) [] a b e = absurd (b refl)
run_key-injective owner owner' (r ∷ run) (s ∷ run') a b e =
    let (numbers, rest) =
      split_at_colon (decimal (length owner) (length owner))
        (decimal (length owner') (length owner')) (owner ++ (0 ∷ r ∷ run))
        (owner' ++ (0 ∷ s ∷ run')) (decimal-IsDigits (length owner) (length owner))
        (decimal-IsDigits (length owner') (length owner')) (ground arith) in
    split_at_length owner owner' (r ∷ run) (s ∷ run')
      (itoa-injective (length owner) (length owner') numbers) rest
