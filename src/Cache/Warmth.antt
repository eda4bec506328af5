-- ===== src/Cache/Warmth.antt =====
-- Warm of internal/cache/state.go after any touches.
use heave.Prelude.{
  ℕ, ◌+◌, ◌≡◌, refl, ◌∙◌, inl, inr, Option, none, some, List, [], ◌∷◌, ℤ, pos, if◌then◌else◌, arith,
  Bool-cases, Bytes, lookup, lookup-insert, str_eq, leb, -ℤ_parts,
}
use heave.Cache.{Entry, Store, new, warm, touch}

pub record Touch : Type 0 where
  pub conv : Bytes
  pub model : Bytes
  pub time : ℕ

-- The store after the touches, newest first.
pub after : Store → List Touch → Store
after s [] = s
after s (t ∷ log) = touch (after s log) t.conv t.model t.time

-- The newest touch of the conversation.
pub latest : Bytes → List Touch → Option Touch
latest conv [] = none
latest conv (t ∷ log) = let older = latest conv log in if str_eq t.conv conv then some t else older

-- The model of a touch that is at most a ttl old.
pub model_within : ℕ → ℕ → Option Touch → Option Bytes
model_within ttl now none = none
model_within ttl now (some t) = if leb now (t.time + ttl) then some t.model else none

abbrev entry_of : Option Touch → Option Entry
entry_of none = none
entry_of (some t) = some (record { model = t.model; last_seen = t.time })

after-entry :
    (ttl : ℤ) (log : List Touch) (conv : Bytes)
    → lookup conv (after (new ttl) log).entries ≡ entry_of (latest conv log)
unfolding after latest touch new lookup
after-entry ttl [] conv = refl
after-entry ttl (t ∷ log) conv =
    lookup-insert t.conv conv (record { model = t.model; last_seen = t.time })
      (after (new ttl) log).entries
    ∙ elim (Bool-cases (str_eq t.conv conv)) [
      | inl same ↦ rw same refl
      | inr other ↦ rw other (after-entry ttl log conv)
    ]

after-ttl : (ttl : ℤ) (log : List Touch) → (after (new ttl) log).ttl ≡ ttl
unfolding after touch new
after-ttl ttl [] = refl
after-ttl ttl (t ∷ log) = after-ttl ttl log

warm-entry :
    (s : Store) (ttl : ℕ) (conv : Bytes) (now : ℕ) (o : Option Touch)
    → lookup conv s.entries ≡ entry_of o
    → s.ttl ≡ pos ttl
    → warm s conv now ≡ model_within ttl now o
unfolding warm model_within
warm-entry s ttl conv now none e same = rw (warm, e) refl
warm-entry s ttl conv now (some t) e same =
    rw (warm, e, same) (ground (arith, -ℤ_parts (pos now) (pos t.time)))

-- For a ttl that is not negative, after any touches a conversation is pinned to the model that
-- served it last, exactly while that is at most a ttl ago, and to none else.
pub warm-after :
    (ttl : ℕ) (log : List Touch) (conv : Bytes) (now : ℕ)
    → warm (after (new (pos ttl)) log) conv now ≡ model_within ttl now (latest conv log)
warm-after ttl log conv now =
    warm-entry (after (new (pos ttl)) log) ttl conv now (latest conv log)
      (after-entry (pos ttl) log conv) (after-ttl (pos ttl) log)
