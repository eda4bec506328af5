-- ===== src/Console/Http.antt =====
-- The console's endpoints, internal/server/console_http.go: local login, logout, and the OAuth
-- authorization-code flow. A provider of identities is a record of functions; the nonce of
-- crypto/rand, in hex, is an argument, `none` where reading it fails. Logs are left out.
pub mod Redirects
use heave.Prelude.{
  ℕ, ◌*◌, Bool, true, false, not, ◌&&◌, ◌||◌, Option, none, some, List, [], ◌∷◌, ◌++◌, ◌==◌,
  if◌then◌else◌, Bytes, bytes, Dict, lookup,
}
use heave.Firewall.Local.{is_empty}
use heave.Firewall.State.{second}
use heave.Console.{
  Libraries, Manager, Session, Cookie, dropped, seconds, local_login, new_sso_session, sign_state,
  verify_state, issue, clear, session_from,
}

-- `FetchIdentity` gives the verified email and the name.
pub record OAuthProvider : Type 0 where
  pub auth_code_url : Bytes → Bytes → Bytes
  pub fetch_identity : Bytes → Bytes → Option (Bytes × Bytes)

-- What the handlers read of the Server.
pub record Env : Type 0 where
  pub lib : Libraries
  pub console : Option Manager
  pub oauth : Dict OAuthProvider
  pub secure : Bool
  pub base_url : Bytes

pub data Reply : Type 0 where
  unknown_provider state_error missing_state invalid_state fetch_failed : Reply
  bad_body invalid_credentials not_authorized : Reply
  done : Bytes → Reply
  found : Bytes → Reply

abbrev pub nonce_cookie : Bytes
nonce_cookie = bytes "heave_oauth_nonce"

unfoldable pub admin_session : Env → Dict Bytes → ℕ → Bool
unfolding session_from
admin_session env cookies now = elim env.console [
  | none ↦ false
  | some m ↦ elim (session_from env.lib m cookies now) [ none ↦ false | some s ↦ s.admin ]
]

-- `body` is `none` where decodeAdmin refused it.
unfoldable pub handle_console_login_local :
    Libraries → Manager → Option (Bytes × Bytes) → ℕ → List Cookie × Reply
unfolding local_login issue
handle_console_login_local lib m none now = ([], bad_body)
handle_console_login_local lib m (some (username, password)) now =
    elim (local_login lib m username password now) [
      | none ↦ ([], invalid_credentials)
      | some s ↦ if s.admin then (issue lib m s ∷ [], done s.name) else ([], not_authorized)
    ]

unfoldable pub handle_console_logout : Manager → List Cookie × Reply
handle_console_logout m = (clear m ∷ [], done [])

-- The bytes that safeReturnPath refuses: backslash, CR, LF and NUL.
abbrev pub is_unsafe : ℕ → Bool
is_unsafe c = c == 92 || c == 13 || c == 10 || c == 0

abbrev pub any_unsafe : Bytes → Bool
any_unsafe [] = false
any_unsafe (c ∷ s) = is_unsafe c || any_unsafe s

-- `//` or `/\`.
abbrev pub is_relative_host : Bytes → Bool
is_relative_host [] = false
is_relative_host (c ∷ []) = false
is_relative_host (c ∷ d ∷ s) = c == b'/' && (d == b'/' || d == 92)

unfoldable pub safe_return_path : Bytes → Bytes
safe_return_path [] = bytes "/console"
safe_return_path (c ∷ s) =
    if not (c == b'/')
    then bytes "/console"
    else (if is_relative_host (c ∷ s)
        then bytes "/console"
        else (if any_unsafe (c ∷ s) then bytes "/console" else c ∷ s))

-- strings.TrimRight of the slashes.
unfoldable pub trim_slashes : Bytes → Bytes
trim_slashes [] = []
trim_slashes (c ∷ s) =
    let rest = trim_slashes s in if c == b'/' && is_empty rest then [] else c ∷ rest

unfoldable pub oauth_redirect_uri : Env → Bytes → Bytes
unfolding trim_slashes
oauth_redirect_uri env provider =
    trim_slashes env.base_url ++ (bytes "/console/auth/" ++ (provider ++ bytes "/callback"))

abbrev pub nonce_set : Env → Bytes → Cookie
nonce_set env value = record {
  name = nonce_cookie;
  value = value;
  path = bytes "/console/";
  secure = env.secure;
  life = seconds 600;
}

abbrev pub nonce_drop : Env → Cookie
nonce_drop env = record {
  name = nonce_cookie;
  value = [];
  path = bytes "/console/";
  secure = env.secure;
  life = dropped;
}

abbrev pub state_ttl : ℕ
state_ttl = 600 * second

unfoldable pub handle_oauth_start :
    Env → Manager → Bytes → Bytes → Option Bytes → ℕ → List Cookie × Reply
unfolding sign_state safe_return_path oauth_redirect_uri
handle_oauth_start env m provider ret random now = elim (lookup provider env.oauth) [
  | none ↦ ([], unknown_provider)
  | some idp ↦ elim random [
    | none ↦ ([], state_error)
    | some value ↦
        let state = sign_state env.lib m value (safe_return_path ret) state_ttl now in
        (
          nonce_set env value ∷ [],
          found (idp.auth_code_url state (oauth_redirect_uri env provider)),
        )
  ]
]

-- The identity was fetched, or not.
unfoldable pub after_fetch :
    Env → Manager → Bytes → Bytes → Option (Bytes × Bytes) → ℕ → List Cookie × Reply
unfolding new_sso_session issue
after_fetch env m provider ret none now = (nonce_drop env ∷ [], fetch_failed)
after_fetch env m provider ret (some (email, name)) now =
    let s = new_sso_session m email name provider now in
    if is_empty email
    then (nonce_drop env ∷ [], fetch_failed)
    else (if s.admin
        then (nonce_drop env ∷ issue env.lib m s ∷ [], found ret)
        else (nonce_drop env ∷ [], not_authorized))

-- The clock is read at `now` for the state and, after the fetch, at `later` for the session.
unfoldable pub handle_oauth_callback :
    Env → Manager → Bytes → Bytes → Bytes → Option Bytes → ℕ → ℕ → List Cookie × Reply
unfolding after_fetch verify_state oauth_redirect_uri
handle_oauth_callback env m provider state code cookie now later =
    elim (lookup provider env.oauth) [
      | none ↦ ([], unknown_provider)
      | some idp ↦ elim cookie [
        | none ↦ ([], missing_state)
        | some expect ↦ elim (verify_state env.lib m state expect now) [
          | none ↦ ([], invalid_state)
          | some ret ↦
              after_fetch env m provider ret
                (idp.fetch_identity code (oauth_redirect_uri env provider)) later
        ]
      ]
    ]
