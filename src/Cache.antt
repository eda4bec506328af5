-- ===== src/Cache.antt =====
-- The warmth of conversations' prompt caches, internal/cache/state.go. Times are nanoseconds. SHA-256
-- with its hex form is an argument.
pub mod Warmth
use heave.Prelude.{
  ℕ, Bool, true, false, Option, none, some, List, [], ◌∷◌, ◌++◌, ℤ, pos, ◌-ℤ◌, ltb_ℤ, if◌then◌else◌,
  Bytes, Dict, lookup, insert,
}

pub record Entry : Type 0 where
  pub model : Bytes
  pub last_seen : ℕ

pub record Store : Type 0 where
  pub ttl : ℤ
  pub entries : Dict Entry

unfoldable pub new : ℤ → Store
new ttl = record { ttl = ttl; entries = [] }

-- `s.now().Sub(e.lastSeen) > s.ttl`
abbrev pub is_cold : Store → Entry → ℕ → Bool
is_cold s e now = ltb_ℤ s.ttl (pos now -ℤ pos e.last_seen)

unfoldable pub warm : Store → Bytes → ℕ → Option Bytes
warm s conv now = elim (lookup conv s.entries) [
  | none ↦ none
  | some e ↦ if is_cold s e now then none else some e.model
]

unfoldable pub touch : Store → Bytes → Bytes → ℕ → Store
touch s conv model now = record s {
  entries = insert conv (record { model = model; last_seen = now }) s.entries;
}

-- The bytes written to the hash.
unfoldable pub hashed : Bytes → List Bytes → Bytes
hashed system [] = system ++ (0 ∷ [])
hashed system (m ∷ prior) = system ++ (0 ∷ hashed m prior)

unfoldable pub conversation_key : (Bytes → Bytes) → Bytes → List Bytes → Bytes
unfolding hashed
conversation_key sha256_hex system prior = sha256_hex (hashed system prior)
