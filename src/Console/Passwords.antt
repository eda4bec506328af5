-- ===== src/Console/Passwords.antt =====
-- Local passwords, internal/console/passwords.go. PBKDF2 and standard base64 are parameters; the salt
-- of crypto/rand is an argument, `none` where reading it fails.
pub mod Laws
use heave.Prelude.{
  ℕ, zero, suc, ◌+◌, ◌-◌, ◌*◌, Bool, true, false, not, ◌&&◌, ◌||◌, Option, none, some, List, [],
  ◌∷◌, ◌++◌, ltb, leb, ◌==◌, if◌then◌else◌, length, Bytes, bytes, str_eq,
}

-- `pbkdf2.Key` under SHA-256 takes the plaintext, the salt, the iterations and the key's length.
pub record Kdf : Type 0 where
  pub encode : Bytes → Bytes
  pub decode : Bytes → Option Bytes
  pub pbkdf2 : Bytes → Bytes → ℕ → ℕ → Option Bytes

abbrev pub pbkdf2_iter : ℕ
pbkdf2_iter = 210000

abbrev pub min_pbkdf2_iter : ℕ
min_pbkdf2_iter = 100000

abbrev pub min_dk_len : ℕ
min_dk_len = 16

unfoldable pub cons_head : ℕ → List Bytes → List Bytes
cons_head c [] = (c ∷ []) ∷ []
cons_head c (part ∷ parts) = (c ∷ part) ∷ parts

-- strings.Split on one byte.
unfoldable pub split : ℕ → Bytes → List Bytes
unfolding cons_head
split sep [] = [] ∷ []
split sep (c ∷ s) = let rest = split sep s in if c == sep then [] ∷ rest else cons_head c rest

-- The value of decimal digits, on an accumulator.
unfoldable pub digits_value : ℕ → Bytes → Option ℕ
digits_value n [] = some n
digits_value n (c ∷ s) =
    let rest = digits_value (n * 10 + (c - 48)) s in if leb 48 c && leb c 57 then rest else none

-- strconv.Atoi, for a number that is not negative: an int has 63 bits for it. A negative number is
-- `none`, as it is under every floor.
unfoldable pub unsigned : Bytes → Option ℕ
unfolding digits_value
unsigned [] = none
unsigned (c ∷ s) = elim (digits_value 0 (c ∷ s)) [
  | none ↦ none
  | some n ↦ if ltb 9223372036854775807 n then none else some n
]

unfoldable pub atoi : Bytes → Option ℕ
unfolding unsigned
atoi [] = none
atoi (c ∷ s) = if c == b'+' then unsigned s else unsigned (c ∷ s)

abbrev pub joined : Bytes → Bytes → Bytes
joined a b = a ++ (b'$' ∷ b)

unfoldable pub hash_password : Kdf → Bytes → Option Bytes → Option Bytes
hash_password kdf plaintext none = none
hash_password kdf plaintext (some salt) = elim (kdf.pbkdf2 plaintext salt pbkdf2_iter 32) [
  | none ↦ none
  | some dk ↦ some (
      joined (bytes "pbkdf2") (
        joined (bytes "sha256")
          (joined (bytes "210000") (joined (kdf.encode salt) (kdf.encode dk)))))
]

-- A decoded part of at least the floor's length.
unfoldable pub long_enough : Option Bytes → Option Bytes
long_enough none = none
long_enough (some x) = if ltb (length x) min_dk_len then none else some x

unfoldable pub check_key : Kdf → Bytes → ℕ → Option Bytes → Option Bytes → Bool
check_key kdf plaintext iter none want = false
check_key kdf plaintext iter (some salt) none = false
check_key kdf plaintext iter (some salt) (some want) =
    elim (kdf.pbkdf2 plaintext salt iter (length want)) [
      | none ↦ false
      | some got ↦ str_eq got want
    ]

unfoldable pub check_parts : Kdf → Bytes → List Bytes → Bool
unfolding check_key long_enough atoi
check_parts kdf plaintext (a ∷ b ∷ c ∷ d ∷ e ∷ []) =
    if not (str_eq a (bytes "pbkdf2")) || not (str_eq b (bytes "sha256"))
    then false
    else (elim (atoi c) [
      | none ↦ false
      | some iter ↦
          if ltb iter min_pbkdf2_iter
          then false
          else check_key kdf plaintext iter (long_enough (kdf.decode d))
              (long_enough (kdf.decode e))
    ])
check_parts kdf plaintext parts = false

unfoldable pub verify_password : Kdf → Bytes → Bytes → Bool
unfolding check_parts split
verify_password kdf encoded plaintext = check_parts kdf plaintext (split b'$' encoded)
