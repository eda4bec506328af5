-- ===== src/SignedToken/Laws.antt =====
-- What the signed tokens of internal/console/console.go and internal/server/guard.go rest on.
use heave.Prelude.{
  ◌≡◌, refl, inl, inr, Bool, true, false, some, [], ◌∷◌, ◌++◌, ◌==◌, if◌then◌else◌, arith,
  Bool-cases, Option-cases, Bytes, str_eq_iff, str_eq_refl,
}
use heave.SignedToken.{Codec, split_dot, sign, verify}

abbrev pub has_dot : Bytes → Bool
has_dot [] = false
has_dot (c ∷ s) = if c == b'.' then true else has_dot s

-- Base64url decodes what it encoded, and its alphabet has no dot.
pub record IsCodec (codec : Codec) : Type 0 where
  pub decodes : (x : Bytes) → codec.decode (codec.encode x) ≡ some x
  pub no_dot : (x : Bytes) → has_dot (codec.encode x) ≡ false

split_dot-append : (a b : Bytes) → has_dot a ≡ false → split_dot (a ++ (b'.' ∷ b)) ≡ some (a, b)
unfolding split_dot
split_dot-append [] b h = refl
split_dot-append (c ∷ a) b h = elim (Bool-cases (c == b'.')) [
  | inl dot ↦ absurd (ground arith)
  | inr other ↦ rw (other, split_dot-append a b (ground arith)) refl
]

-- Whatever was signed verifies, and gives the payload back.
pub verify-sign :
    (codec : Codec) (payload : Bytes)
    → IsCodec codec
    → verify codec (sign codec payload) ≡ some payload
unfolding verify sign
verify-sign codec payload h =
    let mac = codec.mac payload in
    rw
      (
        split_dot-append (codec.encode payload) (codec.encode mac) (h.no_dot payload),
        verify,
        h.decodes payload,
        h.decodes mac,
        str_eq_refl mac,
      )
      refl

-- An accepted token has two parts, and the second decodes to the HMAC of what the first decodes to.
pub verify-mac :
    (codec : Codec) (token payload : Bytes)
    → verify codec token ≡ some payload
    → (a b : Bytes) × (split_dot token ≡ some (a, b))
      × (codec.decode a ≡ some payload)
      × (codec.decode b ≡ some (codec.mac payload))
unfolding verify
verify-mac codec token payload h = elim (Option-cases (split_dot token)) [
  | inl none_dot ↦ absurd (ground arith)
  | inr ((a, b), parts) ↦ elim (Option-cases (codec.decode a)) [
    | inl bad ↦ absurd (ground arith)
    | inr (p, good) ↦ elim (Option-cases (codec.decode b)) [
      | inl bad ↦ absurd (ground arith)
      | inr (sig, fine) ↦ (a, b, parts, ground arith, ground (arith, str_eq_iff sig (codec.mac p)))
    ]
  ]
]
