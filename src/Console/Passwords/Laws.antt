-- ===== src/Console/Passwords/Laws.antt =====
-- What the password hashes of internal/console/passwords.go promise.
use heave.Prelude.{
  ℕ, ◌≤◌, ◌≡◌, refl, inl, inr, Bool, true, false, none, some, [], ◌∷◌, ◌==◌, if◌then◌else◌, length,
  arith, Bool-cases, Option-cases, Bytes, bytes, str_eq,
}
use heave.Console.Passwords.{
  Kdf, pbkdf2_iter, min_dk_len, split, joined, hash_password, long_enough, check_key, check_parts,
  verify_password, atoi,
}

abbrev pub has_byte : ℕ → Bytes → Bool
has_byte sep [] = false
has_byte sep (c ∷ s) = if c == sep then true else has_byte sep s

-- Base64 decodes what it encoded, and its alphabet has no dollar sign; PBKDF2 gives a key of the
-- length that it is asked for.
pub record IsKdf (kdf : Kdf) : Type 0 where
  pub decodes : (x : Bytes) → kdf.decode (kdf.encode x) ≡ some x
  pub no_dollar : (x : Bytes) → has_byte b'$' (kdf.encode x) ≡ false
  pub key_length :
      (p salt key : Bytes) (iter n : ℕ) → kdf.pbkdf2 p salt iter n ≡ some key → length key ≡ n

split-whole : (sep : ℕ) (a : Bytes) → has_byte sep a ≡ false → split sep a ≡ a ∷ []
unfolding split
split-whole sep [] h = refl
split-whole sep (c ∷ a) h = elim (Bool-cases (c == sep)) [
  | inl same ↦ absurd (ground arith)
  | inr other ↦ rw (other, split-whole sep a (ground arith)) refl
]

split-append : (a b : Bytes) → has_byte b'$' a ≡ false → split b'$' (joined a b) ≡ a ∷ split b'$' b
unfolding split
split-append [] b h = refl
split-append (c ∷ a) b h = elim (Bool-cases (c == b'$')) [
  | inl same ↦ absurd (ground arith)
  | inr other ↦ rw (other, split-append a b (ground arith)) refl
]

-- The parts of a hash.
abbrev stored : Kdf → Bytes → Bytes → Bytes
stored kdf salt dk =
    joined (bytes "pbkdf2")
      (joined (bytes "sha256") (joined (bytes "210000") (joined (kdf.encode salt) (kdf.encode dk))))

split-stored :
    (kdf : Kdf) (salt dk : Bytes)
    → IsKdf kdf
    → split b'$' (stored kdf salt dk)
      ≡ bytes "pbkdf2" ∷ bytes "sha256" ∷ bytes "210000" ∷ kdf.encode salt ∷ kdf.encode dk ∷ []
unfolding split
split-stored kdf salt dk law =
    rw
      (
        split-append (kdf.encode salt) (kdf.encode dk) (law.no_dollar salt),
        split,
        split-whole b'$' (kdf.encode dk) (law.no_dollar dk),
      )
      refl

long_enough-decode :
    (kdf : Kdf) (x : Bytes)
    → IsKdf kdf
    → min_dk_len ≤ length x
    → long_enough (kdf.decode (kdf.encode x)) ≡ some x
unfolding long_enough
long_enough-decode kdf x law h = rw (law.decodes x) (ground arith)

verify-stored :
    (kdf : Kdf) (salt dk other : Bytes)
    → IsKdf kdf
    → min_dk_len ≤ length salt
    → length dk ≡ 32
    → verify_password kdf (stored kdf salt dk) other
      ≡ (elim (kdf.pbkdf2 other salt pbkdf2_iter 32) [ none ↦ false | some got ↦ str_eq got dk ])
unfolding verify_password check_parts check_key atoi str_eq
verify-stored kdf salt dk other law long full =
    let parts = split-stored kdf salt dk law in
    rw
      (
        parts,
        verify_password,
        long_enough-decode kdf salt law long,
        long_enough-decode kdf dk law (ground arith),
        check_key,
        full,
      )
      refl

-- A password is accepted against the hash of another, whose salt has at least 16 bytes, exactly if
-- the key derivation, which gives keys of the length asked for, derives the same key from both
-- under that salt.
pub verify_password-hash :
    (kdf : Kdf) (plaintext salt encoded other : Bytes)
    → IsKdf kdf
    → min_dk_len ≤ length salt
    → hash_password kdf plaintext (some salt) ≡ some encoded
    → (dk : Bytes) × (kdf.pbkdf2 plaintext salt pbkdf2_iter 32 ≡ some dk)
      × (verify_password kdf encoded other ≡ (elim (kdf.pbkdf2 other salt pbkdf2_iter 32) [
        | none ↦ false
        | some got ↦ str_eq got dk
      ]))
unfolding hash_password
verify_password-hash kdf plaintext salt encoded other law long h =
    elim (Option-cases (kdf.pbkdf2 plaintext salt pbkdf2_iter 32)) [
      | inl failed ↦ absurd (ground arith)
      | inr (dk, derived) ↦
          let same : stored kdf salt dk ≡ encoded = ground arith in
          (
            dk,
            derived,
            rw (← same) (
                verify-stored kdf salt dk other law long
                  (law.key_length plaintext salt dk pbkdf2_iter 32 derived)),
          )
    ]
