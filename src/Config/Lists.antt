-- ===== src/Config/Lists.antt =====
-- The loops of internal/config/config.go that collect the names they have seen.
use mathlib.Core.Path.{subst}
use heave.Prelude.{
  ◌≡◌, refl, inl, inr, ◌⊎◌, Bool, true, false, not, ◌&&◌, ◌||◌, List, [], ◌∷◌, arith, Bytes, str_eq,
  str_eq_iff, has,
}
use heave.Config.{Result, ok, err, Error, ◌>>=◌, refuse}

abbrev pub is_ok {ℓ} : {A : Type ℓ} → Result A → Bool
is_ok (ok a) = true
is_ok (err e) = false

-- The test decides whether the result is this one or an error.
abbrev pub Decides {ℓ} : {A : Type ℓ} → Bool → Result A → A → Type ℓ
Decides b r a = ((b ≡ true) × (r ≡ ok a)) ⊎ ((b ≡ false) × (is_ok r ≡ false))

pub Decides-refuse : (b : Bool) (e : Error) → Decides (not b) (refuse b e) tt
Decides-refuse true e = inr (refl, refl)
Decides-refuse false e = inl (refl, refl)

module _ {ℓ κ} {A : Type ℓ} {B : Type κ} where
  pub Decides->>= :
      (b c : Bool) (m : Result A) (k : A → Result B) (x : A) (y : B)
      → Decides b m x
      → Decides c (k x) y
      → Decides (b && c) (m >>= k) y
  Decides->>= b c m k x y (inl (yes_b, made)) (inl (yes_c, done)) =
      inl (rw (yes_b, yes_c) refl, rw made done)
  Decides->>= b c m k x y (inl (yes_b, made)) (inr (no_c, failed)) =
      inr (rw (yes_b, no_c) refl, rw made failed)
  Decides->>= b c (ok a) k x y (inr (no_b, failed)) h = absurd (ground arith)
  Decides->>= b c (err e) k x y (inr (no_b, failed)) h = inr (rw no_b refl, refl)

pub Decides-eq {ℓ} :
    {A : Type ℓ} (b c : Bool) (r : Result A) (a : A) → b ≡ c → Decides b r a → Decides c r a
Decides-eq b c r a e h = subst (λ t. Decides t r a) e h

-- The plain specifications of the loops: a test of every element, and names that are all different.
abbrev pub all {ℓ} : {A : Type ℓ} → (A → Bool) → List A → Bool
all p [] = true
all p (x ∷ xs) = p x && all p xs

abbrev pub distinct : List Bytes → Bool
distinct [] = true
distinct (x ∷ xs) = not (has x xs) && distinct xs

abbrev pub apart : List Bytes → List Bytes → Bool
apart [] seen = true
apart (x ∷ xs) seen = not (has x seen) && apart xs seen

-- The names seen after a loop.
abbrev pub onto : List Bytes → List Bytes → List Bytes
onto [] seen = seen
onto (x ∷ xs) seen = onto xs (x ∷ seen)

pub str_eq_comm : (s t : Bytes) → str_eq s t ≡ str_eq t s
str_eq_comm s t = ground (arith, str_eq_iff s t, str_eq_iff t s)

pub apart-cons :
    (xs seen : List Bytes) (y : Bytes) → apart xs (y ∷ seen) ≡ not (has y xs) && apart xs seen
apart-cons [] seen y = refl
apart-cons (x ∷ xs) seen y = ground (arith, apart-cons xs seen y, str_eq_comm x y)

pub apart-nil : (xs : List Bytes) → apart xs [] ≡ true
apart-nil [] = refl
apart-nil (x ∷ xs) = apart-nil xs

pub has-onto : (xs seen : List Bytes) (k : Bytes) → has k (onto xs seen) ≡ has k xs || has k seen
has-onto [] seen k = refl
has-onto (x ∷ xs) seen k = ground (arith, has-onto xs (x ∷ seen) k)

-- Only the membership of the names counts.
pub all-has-apart {ℓ} :
    {A : Type ℓ} (f : A → Bytes) (xs : List A) (s t : List Bytes)
    → ((k : Bytes) → has k s ≡ has k t)
    → all (λ x. has (f x) s) xs ≡ all (λ x. has (f x) t) xs
all-has-apart f [] s t h = refl
all-has-apart f (x ∷ xs) s t h = ground (arith, h (f x), all-has-apart f xs s t h)
