-- ===== src/Console/Sessions.antt =====
-- The signed sessions and OAuth states of internal/console/console.go.
use heave.Prelude.{
  ℕ, ◌+◌, ◌<◌, ◌≡◌, Bool, true, ◌&&◌, ltb, [], ◌∷◌, refl, inl, inr, none, some, leb, if◌then◌else◌,
  arith, Option-cases, Bytes, str_eq, str_eq_iff,
}
use heave.Firewall.State.{unix}
use heave.SignedToken.{verify}
use heave.SignedToken.Laws.{IsCodec, verify-sign}
use heave.Console.{
  Libraries, Manager, Session, StateClaim, encode, decode, sign_state, verify_state,
}

-- Bytes that are UTF-8 on their own, so that encoding/json keeps them.
abbrev pub is_ascii : Bytes → Bool
is_ascii [] = true
is_ascii (c ∷ s) = let rest = is_ascii s in ltb c 128 && rest

-- The codec under the manager's secret decodes what it encoded, and so does each JSON of ASCII texts.
pub record AreLibraries (lib : Libraries) (secret : Bytes) : Type 0 where
  pub codec : IsCodec (lib.codec secret)
  pub sessions :
      (s : Session)
      → is_ascii s.subject && is_ascii s.name && is_ascii s.provider ≡ true
      → lib.unmarshal (lib.marshal s) ≡ some s
  pub states :
      (c : StateClaim)
      → is_ascii c.nonce ≡ true
      → is_ascii c.redirect ≡ true
      → lib.unmarshal_state (lib.marshal_state c) ≡ some c

-- A cookie that was issued gives its session back until the second of its expiry, and nothing after.
pub decode-encode :
    (lib : Libraries) (m : Manager) (s : Session) (now : ℕ)
    → AreLibraries lib m.secret
    → is_ascii s.subject && is_ascii s.name && is_ascii s.provider ≡ true
    → decode lib m (encode lib m s) now ≡ (if leb s.expires (unix now) then none else some s)
unfolding decode encode
decode-encode lib m s now law plain =
    rw (verify-sign (lib.codec m.secret) (lib.marshal s) law.codec, decode, law.sessions s plain)
      refl

-- A state that was signed gives its redirect back within its lifetime, to the browser that holds its
-- nonce.
pub verify_state-sign :
    (lib : Libraries) (m : Manager) (value redirect expect : Bytes) (ttl at now : ℕ)
    → AreLibraries lib m.secret
    → is_ascii value ≡ true
    → is_ascii redirect ≡ true
    → verify_state lib m (sign_state lib m value redirect ttl at) expect now ≡ (
        if leb (unix (at + ttl)) (unix now)
        then none
        else (if str_eq value expect then some redirect else none))
unfolding verify_state sign_state
verify_state-sign lib m value redirect expect ttl at now law fine plain =
    let c : StateClaim = record { nonce = value; redirect = redirect; expires = unix (at + ttl) } in
    rw
      (
        verify-sign (lib.codec m.secret) (lib.marshal_state c) law.codec,
        verify_state,
        law.states c fine plain,
      )
      refl

-- What a state that is accepted must be.
pub record IsAccepted (lib : Libraries) (m : Manager) (token expect redirect : Bytes) (now : ℕ)
    : Type 0 where
  pub payload : Bytes
  pub claim : StateClaim
  pub signed : verify (lib.codec m.secret) token ≡ some payload
  pub read : lib.unmarshal_state payload ≡ some claim
  pub live : unix now < claim.expires
  pub bound : claim.nonce ≡ expect
  pub target : claim.redirect ≡ redirect

pub verify_state-IsAccepted :
    (lib : Libraries) (m : Manager) (token expect redirect : Bytes) (now : ℕ)
    → verify_state lib m token expect now ≡ some redirect
    → IsAccepted lib m token expect redirect now
unfolding verify_state
verify_state-IsAccepted lib m token expect redirect now h =
    elim (Option-cases (verify (lib.codec m.secret) token)) [
      | inl bad ↦ absurd (ground arith)
      | inr (payload, signed) ↦ elim (Option-cases (lib.unmarshal_state payload)) [
        | inl bad ↦ absurd (ground arith)
        | inr (c, read) ↦ record {
          payload = payload;
          claim = c;
          signed = signed;
          read = read;
          live = ground arith;
          bound = ground (arith, str_eq_iff c.nonce expect);
          target = ground arith;
        }
      ]
    ]
