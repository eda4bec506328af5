-- ===== src/Tests/Codecs.antt =====
-- Concrete libraries for the parameters of SignedToken, Guard and Console: a codec, a key derivation
-- and a JSON in which every list follows its length.
use heave.Prelude.{
  ℕ, zero, suc, ◌+◌, ◌-◌, ◌≡◌, refl, ap, ◌∙◌, Bool, true, false, Option, none, some, List, [], ◌∷◌,
  ◌++◌, map, ◌==◌, length, arith, Bytes,
}
use heave.SignedToken.{Codec}
use heave.SignedToken.Laws.{IsCodec, has_dot}
use heave.Guard.{Claim}
use heave.Console.{Session, StateClaim, Libraries}
use heave.Console.Passwords.{Kdf}
use heave.Console.Passwords.Laws.{IsKdf, has_byte}
use heave.Console.Sessions.{AreLibraries}

abbrev pub shift : Bytes → Bytes
shift s = map (λ c. c + 47) s

abbrev pub unshift : Bytes → Bytes
unshift s = map (λ c. c - 47) s

unshift-shift : (s : Bytes) → unshift (shift s) ≡ s
unshift-shift [] = refl
unshift-shift (c ∷ s) = ground (arith, unshift-shift s)

has_dot-shift : (s : Bytes) → has_dot (shift s) ≡ false
has_dot-shift [] = refl
has_dot-shift (c ∷ s) = ground (arith, has_dot-shift s)

has_byte-shift : (s : Bytes) → has_byte b'$' (shift s) ≡ false
has_byte-shift [] = refl
has_byte-shift (c ∷ s) = ground (arith, has_byte-shift s)

-- The HMAC under a secret: the secret, then the payload.
abbrev pub codec : Bytes → Codec
codec secret = record {
  encode = shift;
  decode = λ s. some (unshift s);
  mac = λ payload. secret ++ payload;
}

pub codec-IsCodec : (secret : Bytes) → IsCodec (codec secret)
codec-IsCodec secret = record { decodes = λ s. ap some (unshift-shift s); no_dot = has_dot-shift }

-- The first n bytes, filled up with zeros.
abbrev pub fill : ℕ → Bytes → Bytes
fill zero s = []
fill (suc n) [] = 0 ∷ fill n []
fill (suc n) (c ∷ s) = c ∷ fill n s

length-fill : (n : ℕ) (s : Bytes) → length (fill n s) ≡ n
length-fill zero s = refl
length-fill (suc n) [] = ap suc (length-fill n [])
length-fill (suc n) (c ∷ s) = ap suc (length-fill n s)

abbrev pub kdf : Kdf
kdf = record {
  encode = shift;
  decode = λ s. some (unshift s);
  pbkdf2 = λ plaintext salt iter n. some (fill n (plaintext ++ salt));
}

pub kdf-IsKdf : IsKdf kdf
kdf-IsKdf = record {
  decodes = λ s. ap some (unshift-shift s);
  no_dollar = has_byte-shift;
  key_length = λ plaintext salt key iter n h.
      let same : fill n (plaintext ++ salt) ≡ key = ground arith in
      rw (← same) (length-fill n (plaintext ++ salt));
}

-- A list after its length, and how it is read back.
abbrev pub put : Bytes → Bytes → Bytes
put xs rest = length xs ∷ (xs ++ rest)

abbrev pub cons_first : ℕ → Option (Bytes × Bytes) → Option (Bytes × Bytes)
cons_first c none = none
cons_first c (some (xs, rest)) = some (c ∷ xs, rest)

abbrev pub get_n : ℕ → Bytes → Option (Bytes × Bytes)
get_n zero s = some ([], s)
get_n (suc n) [] = none
get_n (suc n) (c ∷ s) = cons_first c (get_n n s)

abbrev pub get : Bytes → Option (Bytes × Bytes)
get [] = none
get (n ∷ s) = get_n n s

get_n-append : (xs rest : Bytes) → get_n (length xs) (xs ++ rest) ≡ some (xs, rest)
get_n-append [] rest = refl
get_n-append (x ∷ xs) rest = ap (cons_first x) (get_n-append xs rest)

-- What is read, and then the rest by `k`.
abbrev pub read {ℓ ℓ'} :
    {A : Type ℓ} {B : Type ℓ'} → Option (A × Bytes) → (A → Bytes → Option B) → Option B
read none k = none
read (some (a, rest)) k = k a rest

abbrev pub flag : Bool → ℕ
flag true = 1
flag false = 0

abbrev pub marshal : Session → Bytes
marshal s = put s.subject (put s.name (put s.provider (flag s.admin ∷ s.expires ∷ [])))

abbrev pub tail_session : Bytes → Bytes → Bytes → Bytes → Option Session
tail_session subject name provider (a ∷ e ∷ []) =
    some
      (record { subject = subject; name = name; provider = provider; admin = a == 1; expires = e })
tail_session subject name provider other = none

abbrev pub session_name : Bytes → Bytes → Bytes → Option Session
session_name subject name s = read (get s) (tail_session subject name)

abbrev pub session_subject : Bytes → Bytes → Option Session
session_subject subject s = read (get s) (session_name subject)

abbrev pub unmarshal : Bytes → Option Session
unmarshal s = read (get s) session_subject

flag-eq : (b : Bool) → (flag b == 1) ≡ b
flag-eq true = refl
flag-eq false = refl

unmarshal-marshal : (s : Session) → unmarshal (marshal s) ≡ some s
unmarshal-marshal s =
    ap (λ x. read x session_subject) (get_n-append s.subject _)
    ∙ ap (λ x. read x (session_name s.subject)) (get_n-append s.name _)
    ∙ ap (λ x. read x (tail_session s.subject s.name)) (get_n-append s.provider _)
    ∙ ap (λ b. some (record s { admin = b })) (flag-eq s.admin)

abbrev pub marshal_state : StateClaim → Bytes
marshal_state c = put c.nonce (put c.redirect (c.expires ∷ []))

abbrev pub tail_state : Bytes → Bytes → Bytes → Option StateClaim
tail_state value redirect (e ∷ []) =
    some (record { nonce = value; redirect = redirect; expires = e })
tail_state value redirect other = none

abbrev pub unmarshal_state : Bytes → Option StateClaim
unmarshal_state s = read (get s) (λ value s1. read (get s1) (tail_state value))

unmarshal_state-marshal : (c : StateClaim) → unmarshal_state (marshal_state c) ≡ some c
unmarshal_state-marshal c =
    ap (λ x. read x (λ value s1. read (get s1) (tail_state value))) (get_n-append c.nonce _)
    ∙ ap (λ x. read x (tail_state c.nonce)) (get_n-append c.redirect _)

abbrev pub libraries : Libraries
libraries = record {
  codec = codec;
  kdf = kdf;
  marshal = marshal;
  unmarshal = unmarshal;
  marshal_state = marshal_state;
  unmarshal_state = unmarshal_state;
}

pub libraries-AreLibraries : (secret : Bytes) → AreLibraries libraries secret
libraries-AreLibraries secret = record {
  codec = codec-IsCodec secret;
  sessions = λ s plain. unmarshal-marshal s;
  states = λ c fine plain. unmarshal_state-marshal c;
}

-- A list of lists.
abbrev pub put_each : List Bytes → Bytes → Bytes
put_each [] rest = rest
put_each (xs ∷ xss) rest = put xs (put_each xss rest)

abbrev pub put_all : List Bytes → Bytes → Bytes
put_all xss rest = length xss ∷ put_each xss rest

abbrev pub cons_list : Bytes → Option (List Bytes × Bytes) → Option (List Bytes × Bytes)
cons_list xs none = none
cons_list xs (some (xss, rest)) = some (xs ∷ xss, rest)

abbrev pub get_each : ℕ → Bytes → Option (List Bytes × Bytes)
get_each zero s = some ([], s)
get_each (suc n) s = read (get s) (λ xs rest. cons_list xs (get_each n rest))

abbrev pub get_all : Bytes → Option (List Bytes × Bytes)
get_all [] = none
get_all (n ∷ s) = get_each n s

get_each-put :
    (xss : List Bytes) (rest : Bytes) → get_each (length xss) (put_each xss rest) ≡ some (xss, rest)
get_each-put [] rest = refl
get_each-put (xs ∷ xss) rest =
    ap (λ x. read x (λ ys rest'. cons_list ys (get_each (length xss) rest'))) (get_n-append xs _)
    ∙ ap (cons_list xs) (get_each-put xss rest)

abbrev pub marshal_claim : Claim → Bytes
marshal_claim c = put_all c.r.scope_keys (
    put_all c.r.store_keys (
      put c.r.run_scope_key (
        put c.r.hold_id
          (put c.nonce (flag c.r.shared ∷ c.r.est_usd ∷ c.r.est_tokens ∷ c.exp ∷ [])))))

abbrev pub tail_claim : List Bytes → List Bytes → Bytes → Bytes → Bytes → Bytes → Option Claim
tail_claim keys stores run hold value (b ∷ u ∷ t ∷ e ∷ []) = some (record {
  r = record {
    scope_keys = keys;
    run_scope_key = run;
    shared = b == 1;
    store_keys = stores;
    hold_id = hold;
    est_usd = u;
    est_tokens = t;
  };
  nonce = value;
  exp = e;
})
tail_claim keys stores run hold value other = none

abbrev pub claim_hold : List Bytes → List Bytes → Bytes → Bytes → Bytes → Option Claim
claim_hold keys stores run hold s = read (get s) (tail_claim keys stores run hold)

abbrev pub claim_run : List Bytes → List Bytes → Bytes → Bytes → Option Claim
claim_run keys stores run s = read (get s) (claim_hold keys stores run)

abbrev pub claim_stores : List Bytes → List Bytes → Bytes → Option Claim
claim_stores keys stores s = read (get s) (claim_run keys stores)

abbrev pub claim_keys : List Bytes → Bytes → Option Claim
claim_keys keys s = read (get_all s) (claim_stores keys)

abbrev pub unmarshal_claim : Bytes → Option Claim
unmarshal_claim s = read (get_all s) claim_keys

pub unmarshal_claim-marshal : (c : Claim) → unmarshal_claim (marshal_claim c) ≡ some c
unmarshal_claim-marshal c =
    let keys = c.r.scope_keys in
    let stores = c.r.store_keys in
    let run = c.r.run_scope_key in
    let hold = c.r.hold_id in
    ap (λ x. read x claim_keys) (get_each-put keys _)
    ∙ ap (λ x. read x (claim_stores keys)) (get_each-put stores _)
    ∙ ap (λ x. read x (claim_run keys stores)) (get_n-append run _)
    ∙ ap (λ x. read x (claim_hold keys stores run)) (get_n-append hold _)
    ∙ ap (λ x. read x (tail_claim keys stores run hold)) (get_n-append c.nonce _)
    ∙ ap (λ b. some (record c { r = record c.r { shared = b } })) (flag-eq c.r.shared)
