-- ===== src/Prelude/Maps.antt =====
-- Go's map[string]V as an association list: one entry a key, kept by every operation.
use Prim.Native.Nat.{◌+◌, ◌≤◌}
use mathlib.Core.Path.{◌≡◌, refl}
use mathlib.Core.Bool.{Bool}
use mathlib.Core.Option.{Option, none, some}
use mathlib.Core.List.{List, [], ◌∷◌}
use native.Mathlib.Omega.{arith}
use heave.Prelude.Tests.{if◌then◌else◌}
use heave.Prelude.Lists.{length}
use heave.Prelude.Strings.{Bytes, str_eq, str_eq_iff}

abbrev pub Dict {ℓ} : Type ℓ → Type ℓ
Dict V = List (Bytes × V)

module _ {ℓ} {V : Type ℓ} where
  unfoldable pub lookup : Bytes → Dict V → Option V
  lookup k [] = none
  lookup k ((j, v) ∷ m) = if str_eq j k then some v else lookup k m

  unfoldable pub insert : Bytes → V → Dict V → Dict V
  insert k v [] = (k, v) ∷ []
  insert k v ((j, w) ∷ m) = if str_eq j k then (k, v) ∷ m else (j, w) ∷ insert k v m

  unfoldable pub delete : Bytes → Dict V → Dict V
  delete k [] = []
  delete k ((j, w) ∷ m) = if str_eq j k then delete k m else (j, w) ∷ delete k m

  -- `for k, v := range m { if !p(v) { delete(m, k) } }`.
  unfoldable pub keep : (V → Bool) → Dict V → Dict V
  keep p [] = []
  keep p ((j, w) ∷ m) = if p w then (j, w) ∷ keep p m else keep p m

  -- `for k, v := range m { m[k] = f(v) }`.
  unfoldable pub map_values : (V → V) → Dict V → Dict V
  map_values f [] = []
  map_values f ((j, w) ∷ m) = (j, f w) ∷ map_values f m

  abbrev pub map_value : (V → V) → Option V → Option V
  map_value f none = none
  map_value f (some v) = some (f v)

  abbrev pub keep_value : (V → Bool) → Option V → Option V
  keep_value p none = none
  keep_value p (some v) = if p v then some v else none

  abbrev pub Unique : Dict V → Type ℓ
  Unique [] = Unit
  Unique ((k, v) ∷ m) = (lookup k m ≡ none) × Unique m

  pub lookup-insert :
      (k j : Bytes) (v : V) (m : Dict V)
      → lookup j (insert k v m) ≡ (if str_eq k j then some v else lookup j m)
  unfolding lookup insert
  lookup-insert k j v [] = refl
  lookup-insert k j v ((i, w) ∷ m) =
      ground (arith, str_eq_iff k j, str_eq_iff i k, str_eq_iff i j, lookup-insert k j v m)

  pub lookup-delete :
      (k j : Bytes) (m : Dict V) → lookup j (delete k m) ≡ (if str_eq k j then none else lookup j m)
  unfolding lookup delete
  lookup-delete k j [] = ground arith
  lookup-delete k j ((i, w) ∷ m) =
      ground (arith, str_eq_iff k j, str_eq_iff i k, str_eq_iff i j, lookup-delete k j m)

  pub lookup-keep :
      (p : V → Bool) (j : Bytes) (m : Dict V)
      → Unique m
      → lookup j (keep p m) ≡ keep_value p (lookup j m)
  unfolding lookup keep
  lookup-keep p j [] u = refl
  lookup-keep p j ((i, w) ∷ m) u = ground (arith, str_eq_iff i j, lookup-keep p j m u.1)

  pub lookup-map_values :
      (f : V → V) (j : Bytes) (m : Dict V) → lookup j (map_values f m) ≡ map_value f (lookup j m)
  unfolding lookup map_values
  lookup-map_values f j [] = refl
  lookup-map_values f j ((i, w) ∷ m) = ground (arith, lookup-map_values f j m)

  pub map_values-Unique : (f : V → V) (m : Dict V) → Unique m → Unique (map_values f m)
  unfolding lookup map_values
  map_values-Unique f [] u = tt
  map_values-Unique f ((i, w) ∷ m) u =
      ground (arith, map_values-Unique f m u.1, lookup-map_values f i m)

  pub insert-Unique : (k : Bytes) (v : V) (m : Dict V) → Unique m → Unique (insert k v m)
  unfolding lookup insert
  insert-Unique k v [] u = ground arith
  insert-Unique k v ((i, w) ∷ m) u =
      ground (arith, str_eq_iff i k, str_eq_iff k i, insert-Unique k v m u.1, lookup-insert k i v m)

  pub keep-Unique : (p : V → Bool) (m : Dict V) → Unique m → Unique (keep p m)
  unfolding lookup keep
  keep-Unique p [] u = tt
  keep-Unique p ((i, w) ∷ m) u = ground (arith, keep-Unique p m u.1, lookup-keep p i m u.1)

  pub delete-Unique : (k : Bytes) (m : Dict V) → Unique m → Unique (delete k m)
  unfolding lookup delete
  delete-Unique k [] u = tt
  delete-Unique k ((i, w) ∷ m) u = ground (arith, delete-Unique k m u.1, lookup-delete k i m)

  pub length-insert-le : (k : Bytes) (v : V) (m : Dict V) → length (insert k v m) ≤ length m + 1
  unfolding insert
  length-insert-le k v [] = omega arith
  length-insert-le k v ((i, w) ∷ m) = ground (arith, length-insert-le k v m)

  -- Overwriting a present key keeps the size.
  pub length-insert_present :
      (k : Bytes) (v w : V) (m : Dict V) → lookup k m ≡ some w → length (insert k v m) ≡ length m
  unfolding lookup insert
  length-insert_present k v w [] h = ground arith
  length-insert_present k v w ((i, x) ∷ m) h = ground (arith, length-insert_present k v w m)

  pub length-keep-le : (p : V → Bool) (m : Dict V) → length (keep p m) ≤ length m
  unfolding keep
  length-keep-le p [] = omega arith
  length-keep-le p ((i, w) ∷ m) = ground (arith, length-keep-le p m)

  pub length-delete-le : (k : Bytes) (m : Dict V) → length (delete k m) ≤ length m
  unfolding delete
  length-delete-le k [] = omega arith
  length-delete-le k ((i, w) ∷ m) = ground (arith, length-delete-le k m)
