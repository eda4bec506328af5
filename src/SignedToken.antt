-- ===== src/SignedToken.antt =====
-- The signed-token codec that internal/console/console.go (sign, verify) and internal/server/guard.go
-- (signReservation, verifyReservation) both spell out: base64url of the payload, a dot, and base64url
-- of its HMAC. Base64 and the HMAC under the server's secret are parameters.
pub mod Laws
use heave.Prelude.{
  ℕ, ◌≡◌, Bool, true, false, Option, none, some, List, [], ◌∷◌, ◌++◌, ◌==◌, if◌then◌else◌, Bytes,
  str_eq, has,
}

-- The operations of base64.RawURLEncoding, and HMAC-SHA256 with the secret.
pub record Codec : Type 0 where
  pub encode : Bytes → Bytes
  pub decode : Bytes → Option Bytes
  pub mac : Bytes → Bytes

-- `strings.IndexByte(token, '.')`, with the parts around the dot.
unfoldable pub split_dot : Bytes → Option (Bytes × Bytes)
split_dot [] = none
split_dot (c ∷ s) =
    if c == b'.'
    then some ([], s)
    else (elim (split_dot s) [ none ↦ none | some (a, b) ↦ some (c ∷ a, b) ])

unfoldable pub sign : Codec → Bytes → Bytes
sign codec payload = codec.encode payload ++ (b'.' ∷ codec.encode (codec.mac payload))

-- The comparison in constant time is equality.
unfoldable pub verify : Codec → Bytes → Option Bytes
unfolding split_dot
verify codec token = elim (split_dot token) [
  | none ↦ none
  | some (a, b) ↦ elim (codec.decode a) [
    | none ↦ none
    | some payload ↦ elim (codec.decode b) [
      | none ↦ none
      | some sig ↦ if str_eq sig (codec.mac payload) then some payload else none
    ]
  ]
]
