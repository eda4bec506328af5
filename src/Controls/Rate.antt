-- ===== src/Controls/Rate.antt =====
-- The token bucket of internal/controls/controls.go.
use heave.Prelude.{
  ℕ, suc, ◌+◌, ◌*◌, ◌-◌, ◌≤◌, ◌≡◌, ap, ◌∙◌, inl, inr, some, List, [], ◌∷◌, if◌then◌else◌, arith,
  Bool-cases,
}
use heave.Controls.{Bucket, token, new_bucket, allow}

-- The calls let through, and the bucket after them.
pub run : Bucket → List ℕ → Bucket × ℕ
run b [] = (b, 0)
run b (now ∷ times) =
    let (c, passes, retry) = allow b now in
    let (d, n) = run c times in (d, if passes then suc n else n)

-- The times never go back, from `from` on, and end by `until`.
abbrev pub Monotone : ℕ → List ℕ → ℕ → Type 0
Monotone from [] until = from ≤ until
Monotone from (now ∷ times) until = (from ≤ now) × Monotone now times until

pub allow-within :
    (b : Bucket) (now : ℕ)
    → b.tokens ≤ b.capacity
    → (allow b now).0.tokens ≤ (allow b now).0.capacity
unfolding allow
allow-within b now h = ground arith

-- What one call spends and leaves is at most what was there and what time added.
allow-balance :
    (b : Bucket) (t now : ℕ)
    → b.last ≡ some t
    → t ≤ now
    → ((allow b now).0.last ≡ some now)
      × ((allow b now).0.refill ≡ b.refill)
      × ((allow b now).0.tokens + (if (allow b now).1 then token else 0)
          ≤ b.tokens + (now - t) * b.refill)
unfolding allow
allow-balance b t now e h = (ground arith, ground arith, ground arith)

Monotone-le : (from : ℕ) (times : List ℕ) (until : ℕ) → Monotone from times until → from ≤ until
Monotone-le from [] until m = m
Monotone-le from (now ∷ times) until m = omega (arith, m.0, Monotone-le now times until m.1)

later-sub : (a b c : ℕ) → a ≤ b → b ≤ c → c - a ≡ (b - a) + (c - b)
later-sub a b c h k = omega arith

mul-add_right : (a b n : ℕ) → (a + b) * n ≡ a * n + b * n
mul-add_right a b n = omega arith

first-balance :
    (rpm start : ℕ)
    → let (c, passes, retry) = allow (new_bucket rpm) start in
      (c.last ≡ some start)
      × (c.refill ≡ rpm)
      × (c.tokens + (if passes then token else 0) ≤ rpm * token)
unfolding allow new_bucket
first-balance rpm start = (ground arith, ground arith, ground arith)

run-balance :
    (b : Bucket) (t : ℕ) (times : List ℕ) (until : ℕ)
    → b.last ≡ some t
    → Monotone t times until
    → (run b times).1 * token ≤ b.tokens + (until - t) * b.refill
unfolding run
run-balance b t [] until e m = omega arith
run-balance b t (now ∷ times) until e m =
    let c = (allow b now).0 in
    let (marked, same, spent) = allow-balance b t now e m.0 in
    let rest = run-balance c now times until marked m.1 in
    let span = Monotone-le now times until m.1 in
    let split : (until - t) * b.refill ≡ (now - t) * b.refill + (until - now) * b.refill =
      ap (λ (x : ℕ). x * b.refill) (later-sub t now until m.0 span)
      ∙ mul-add_right (now - t) (until - now) b.refill in
    let kept : (until - now) * c.refill ≡ (until - now) * b.refill =
      ap (λ (x : ℕ). (until - now) * x) same in
    elim (Bool-cases (allow b now).1) [
      | inl passes ↦ rw passes (omega (arith, rest, rw passes at spent, split, kept))
      | inr waits ↦ rw waits (omega (arith, rest, rw waits at spent, split, kept))
    ]

-- A fresh bucket for n requests a minute, at a clock that never goes back, lets through at most n
-- requests and n more for each minute since the first call.
pub run-new_bucket :
    (rpm start : ℕ) (times : List ℕ) (until : ℕ)
    → Monotone start times until
    → (run (new_bucket rpm) (start ∷ times)).1 * token ≤ rpm * token + (until - start) * rpm
unfolding run
run-new_bucket rpm start times until m =
    let c = (allow (new_bucket rpm) start).0 in
    let (marked, same, spent) = first-balance rpm start in
    let rest = run-balance c start times until marked m in
    let kept : (until - start) * c.refill ≡ (until - start) * rpm =
      ap (λ (x : ℕ). (until - start) * x) same in
    elim (Bool-cases (allow (new_bucket rpm) start).1) [
      | inl passes ↦ rw passes (omega (arith, rest, rw passes at spent, kept))
      | inr waits ↦ rw waits (omega (arith, rest, rw waits at spent, kept))
    ]
