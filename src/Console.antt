-- ===== src/Console.antt =====
-- The console's authentication, internal/console/console.go. Parameters: the codec of signed tokens
-- under a secret, the JSON of sessions and of OAuth states, and the password check's primitives. A
-- secret is its bytes; times are in nanoseconds, expiries in unix seconds.
pub mod Passwords
pub mod Sessions
pub mod Http
use heave.Prelude.{
  ℕ, ◌+◌, ◌*◌, Bool, true, false, not, ◌&&◌, ◌||◌, Option, none, some, List, [], ◌∷◌, ◌++◌, map, ℤ,
  pos, pos_part, ltb, leb, ltb_ℤ, ◌==◌, if◌then◌else◌, length, Bytes, bytes, str_eq, has, Dict,
  lookup, insert, trim_space,
}
use heave.Firewall.Local.{is_empty}
use heave.Firewall.State.{second, unix}
use heave.Controls.{to_lower}
use heave.SignedToken.{Codec, sign, verify}
use heave.Console.Passwords.{Kdf, verify_password}

pub record Session : Type 0 where
  pub subject : Bytes
  pub name : Bytes
  pub provider : Bytes
  pub admin : Bool
  pub expires : ℕ

pub record Account : Type 0 where
  pub username : Bytes
  pub pw_hash : Bytes
  pub admin : Bool

pub record Options : Type 0 where
  pub secret : Bytes
  pub ttl : ℤ
  pub accounts : List Account
  pub admin_emails : List Bytes
  pub admin_domains : List Bytes
  pub cookie_name : Bytes
  pub allow_insecure : Bool

-- The set of admin emails and that of domains are lists.
pub record Manager : Type 0 where
  pub secret : Bytes
  pub ttl : ℕ
  pub accounts : Dict Account
  pub admin_email : List Bytes
  pub admin_dom : List Bytes
  pub cookie : Bytes
  pub secure : Bool

pub record StateClaim : Type 0 where
  pub nonce : Bytes
  pub redirect : Bytes
  pub expires : ℕ

-- What the manager calls.
pub record Libraries : Type 0 where
  pub codec : Bytes → Codec
  pub kdf : Kdf
  pub marshal : Session → Bytes
  pub unmarshal : Bytes → Option Session
  pub marshal_state : StateClaim → Bytes
  pub unmarshal_state : Bytes → Option StateClaim

abbrev pub default_ttl : ℕ
default_ttl = 8 * 3600 * second

unfoldable pub add_accounts : Dict Account → List Account → Dict Account
add_accounts m [] = m
add_accounts m (a ∷ accounts) = add_accounts (insert a.username a m) accounts

abbrev pub trim_at : Bytes → Bytes
trim_at [] = []
trim_at (c ∷ s) = if c == b'@' then s else c ∷ s

unfoldable pub normal : Bytes → Bytes
normal s = to_lower (trim_space s)

-- `none` is ErrShortSecret.
unfoldable pub new : Options → Option Manager
unfolding add_accounts normal
new o =
    if ltb (length o.secret) 32
    then none
    else some (record {
      secret = o.secret;
      ttl = if ltb_ℤ (pos 0) o.ttl then pos_part o.ttl else default_ttl;
      accounts = add_accounts [] o.accounts;
      admin_email = map normal o.admin_emails;
      admin_dom = map (λ d. trim_at (normal d)) o.admin_domains;
      cookie = if is_empty o.cookie_name then bytes "heave_console" else o.cookie_name;
      secure = not o.allow_insecure;
    })

unfoldable pub new_session : Manager → Bytes → Bytes → Bytes → Bool → ℕ → Session
new_session m subject name provider admin now = record {
  subject = subject;
  name = name;
  provider = provider;
  admin = admin;
  expires = unix (now + m.ttl);
}

-- `none` is ErrBadLogin; the check against the dummy hash of an unknown user has no effect.
unfoldable pub local_login : Libraries → Manager → Bytes → Bytes → ℕ → Option Session
unfolding new_session
local_login lib m username password now = elim (lookup username m.accounts) [
  | none ↦ none
  | some acct ↦
      if verify_password lib.kdf acct.pw_hash password
      then some (
          new_session m (bytes "local:" ++ acct.username) acct.username (bytes "local") acct.admin
            now)
      else none
]

-- What follows the last `@`.
unfoldable pub domain : Bytes → Option Bytes
domain [] = none
domain (c ∷ s) =
    let here = if c == b'@' then some s else none in
    elim (domain s) [ some rest ↦ some rest | none ↦ here ]

unfoldable pub admin_for_email : Manager → Bytes → Bool
unfolding domain normal
admin_for_email m given =
    let email = normal given in
    if is_empty email
    then false
    else (if has email m.admin_email
        then true
        else (elim (domain email) [ none ↦ false | some dom ↦ has dom m.admin_dom ]))

unfoldable pub new_sso_session : Manager → Bytes → Bytes → Bytes → ℕ → Session
unfolding admin_for_email new_session normal
new_sso_session m given name provider now =
    let email = normal given in
    new_session m email (if is_empty name then email else name) provider (admin_for_email m email)
      now

unfoldable pub encode : Libraries → Manager → Session → Bytes
encode lib m s = sign (lib.codec m.secret) (lib.marshal s)

unfoldable pub decode : Libraries → Manager → Bytes → ℕ → Option Session
decode lib m token now = elim (verify (lib.codec m.secret) token) [
  | none ↦ none
  | some payload ↦ elim (lib.unmarshal payload) [
    | none ↦ none
    | some s ↦ if leb s.expires (unix now) then none else some s
  ]
]

unfoldable pub sign_state : Libraries → Manager → Bytes → Bytes → ℕ → ℕ → Bytes
sign_state lib m token redirect ttl now =
    sign (lib.codec m.secret) (
      lib.marshal_state (record { nonce = token; redirect = redirect; expires = unix (now + ttl) }))

-- The redirect of a valid state.
unfoldable pub verify_state : Libraries → Manager → Bytes → Bytes → ℕ → Option Bytes
verify_state lib m token expect now = elim (verify (lib.codec m.secret) token) [
  | none ↦ none
  | some payload ↦ elim (lib.unmarshal_state payload) [
    | none ↦ none
    | some c ↦
        if leb c.expires (unix now)
        then none
        else (if str_eq c.nonce expect then some c.redirect else none)
  ]
]

-- How long a cookie lives: until a second, for so many, or it is dropped.
pub data Life : Type 0 where
  until seconds : ℕ → Life
  dropped : Life

-- Every cookie is HttpOnly and SameSite=Lax.
pub record Cookie : Type 0 where
  pub name : Bytes
  pub value : Bytes
  pub path : Bytes
  pub secure : Bool
  pub life : Life

unfoldable pub issue : Libraries → Manager → Session → Cookie
unfolding encode
issue lib m s = record {
  name = m.cookie;
  value = encode lib m s;
  path = bytes "/";
  secure = m.secure;
  life = until s.expires;
}

unfoldable pub clear : Manager → Cookie
clear m = record {
  name = m.cookie;
  value = [];
  path = bytes "/";
  secure = m.secure;
  life = dropped;
}

-- The cookies of a request, by their names.
unfoldable pub session_from : Libraries → Manager → Dict Bytes → ℕ → Option Session
unfolding decode
session_from lib m cookies now = elim (lookup m.cookie cookies) [
  | none ↦ none
  | some value ↦ decode lib m value now
]
