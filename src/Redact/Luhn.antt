-- ===== src/Redact/Luhn.antt =====
-- What the Luhn check of internal/redact/redact.go detects.
use heave.Prelude.{
  ℕ, ◌-◌, ◌%◌, ◌<◌, ◌≡◌, ◌≢◌, refl, inl, inr, Bool, true, false, not, List, [], ◌∷◌, ◌++◌,
  if◌then◌else◌, arith, ap, sym, ◌∙◌, ltb, ◌||◌, length, Bool-cases, Bytes,
}
use mathlib.Core.List.{reverse, reverse-append, reverse-cons, append_assoc}
use heave.Redact.{is_digit, digits, doubled, luhn_sum, luhn_valid}

-- Two digits with the same weight mod 10 are the same.
weight-injective :
    (double : Bool) (a b : ℕ)
    → a < 10
    → b < 10
    → (if double then doubled a else a) % 10 ≡ (if double then doubled b else b) % 10
    → a ≡ b
unfolding doubled
weight-injective true a b x y h = ground arith
weight-injective false a b x y h = omega arith

-- A changed digit, after any digits and before any, changes the sum mod 10.
luhn_sum-changed :
    (double : Bool) (before after : List ℕ) (a b : ℕ)
    → a < 10
    → b < 10
    → a ≢ b
    → luhn_sum double (before ++ (a ∷ after)) % 10 ≢ luhn_sum double (before ++ (b ∷ after)) % 10
unfolding luhn_sum
luhn_sum-changed double [] after a b x y other h =
    other (weight-injective double a b x y (omega arith))
luhn_sum-changed double (d ∷ before) after a b x y other h =
    luhn_sum-changed (not double) before after a b x y other (omega arith)

digits-append :
    (before after : Bytes) (c : ℕ)
    → is_digit c ≡ true
    → digits (before ++ (c ∷ after)) ≡ digits before ++ ((c - 48) ∷ digits after)
unfolding digits
digits-append [] after c h = rw h refl
digits-append (d ∷ before) after c h = elim (Bool-cases (is_digit d)) [
  | inl is ↦ rw (is, digits) (ap (λ x. (d - 48) ∷ x) (digits-append before after c h))
  | inr other ↦ rw (other, digits) (digits-append before after c h)
]

reverse-around :
    (xs ys : List ℕ) (z : ℕ) → reverse (xs ++ (z ∷ ys)) ≡ reverse ys ++ (z ∷ reverse xs)
reverse-around xs ys z =
    reverse-append xs (z ∷ ys)
    ∙ ap (λ l. l ++ reverse xs) (reverse-cons z ys)
    ∙ append_assoc (reverse ys) (z ∷ []) (reverse xs)

luhn_valid-sum : (s : Bytes) → luhn_valid s ≡ true → luhn_sum false (reverse (digits s)) % 10 ≡ 0
unfolding luhn_valid
luhn_valid-sum s h = elim (Bool-cases (ltb (length (digits s)) 13 || ltb 19 (length (digits s)))) [
  | inl bad ↦ absurd (ground arith)
  | inr fine ↦ ground arith
]

-- Two texts that differ in exactly one character, a digit in each, do not both pass the card number
-- check.
pub luhn_valid-changed :
    (before after : Bytes) (a b : ℕ)
    → is_digit a ≡ true
    → is_digit b ≡ true
    → a ≢ b
    → luhn_valid (before ++ (a ∷ after)) ≡ true
    → luhn_valid (before ++ (b ∷ after)) ≡ false
luhn_valid-changed before after a b x y other h =
    let xs = digits before in
    let ys = digits after in
    elim (Bool-cases (luhn_valid (before ++ (b ∷ after)))) [
      | inr refused ↦ refused
      | inl also ↦
          let one = luhn_valid-sum (before ++ (a ∷ after)) h in
          let two = luhn_valid-sum (before ++ (b ∷ after)) also in
          let left = digits-append before after a x in
          let right = digits-append before after b y in
          absurd (
            luhn_sum-changed false (reverse ys) (reverse xs) (a - 48) (b - 48) (ground arith)
              (ground arith) (λ e. other (ground arith))
              (rw (left, reverse-around xs ys (a - 48)) at one
                ∙ sym (rw (right, reverse-around xs ys (b - 48)) at two)))
    ]
