-- ===== src/Console/Http/Redirects.antt =====
-- Where internal/server/console_http.go sends a browser after a login, and with which session.
use heave.Prelude.{
  ℕ, ◌+◌, ◌≡◌, refl, ap, ◌∙◌, inl, inr, ◌⊎◌, ◌||◌, Bool, true, false, not, ◌&&◌, Option, none, some,
  List, [], ◌∷◌, ◌==◌, leb, if◌then◌else◌, arith, Bool-cases, Option-cases, Bytes, bytes,
  str_eq_refl, lookup,
}
use heave.Firewall.Local.{is_empty}
use heave.Firewall.State.{unix}
use heave.Console.{Manager, Cookie, new_sso_session, sign_state, verify_state, issue}
use heave.Console.Sessions.{
  AreLibraries, is_ascii, IsAccepted, verify_state-sign, verify_state-IsAccepted,
}
use heave.Console.Http.{
  OAuthProvider, Env, found, safe_return_path, any_unsafe, oauth_redirect_uri, nonce_set,
  nonce_drop, state_ttl, handle_oauth_start, after_fetch, handle_oauth_callback,
}

-- A byte that may follow the leading slash of a path on this origin.
abbrev pub is_plain : ℕ → Bool
is_plain c = not (c == 92) && not (c == 13) && not (c == 10) && not (c == 0)

abbrev pub all_plain : Bytes → Bool
all_plain [] = true
all_plain (c ∷ s) = is_plain c && all_plain s

-- `/`, or `/` and a byte that is no slash, with no backslash, CR, LF or NUL anywhere.
abbrev pub is_same_origin : Bytes → Bool
is_same_origin [] = false
is_same_origin (c ∷ []) = c == b'/'
is_same_origin (c ∷ d ∷ s) = c == b'/' && not (d == b'/') && all_plain (d ∷ s)

any_unsafe-all_plain : (s : Bytes) → any_unsafe s ≡ not (all_plain s)
any_unsafe-all_plain [] = refl
any_unsafe-all_plain (c ∷ s) = ground (arith, any_unsafe-all_plain s)

safe_return_path-cases :
    (p : Bytes) → safe_return_path p ≡ (if is_same_origin p then p else bytes "/console")
unfolding safe_return_path
safe_return_path-cases [] = refl
safe_return_path-cases (c ∷ []) = ground arith
safe_return_path-cases (c ∷ d ∷ s) = ground (arith, any_unsafe-all_plain s)

-- The URL standard drops tabs and line ends from a URL before it is read.
abbrev pub strip : Bytes → Bytes
strip [] = []
strip (c ∷ s) = let rest = strip s in if c == 9 || c == 10 || c == 13 then rest else c ∷ rest

-- It takes a backslash for a slash there, and what follows two slashes for a host.
abbrev pub begins_slash : Bytes → Bool
begins_slash [] = false
begins_slash (c ∷ s) = c == b'/' || c == 92

abbrev pub is_local : Bytes → Bool
is_local [] = false
is_local (c ∷ s) = c == b'/' && not (begins_slash s)

abbrev pub slash_after_tabs : Bytes → Bool
slash_after_tabs [] = false
slash_after_tabs (c ∷ s) = let rest = slash_after_tabs s in if c == 9 then rest else c == b'/'

-- `/`, one tab or more, and `/`, with no backslash, CR, LF or NUL behind.
abbrev pub is_tabbed_host : Bytes → Bool
is_tabbed_host [] = false
is_tabbed_host (c ∷ []) = false
is_tabbed_host (c ∷ d ∷ s) = c == b'/' && d == 9 && slash_after_tabs s && all_plain s

begins_slash-strip : (s : Bytes) → all_plain s ≡ true → begins_slash (strip s) ≡ slash_after_tabs s
begins_slash-strip [] h = refl
begins_slash-strip (c ∷ s) h = elim (Bool-cases (c == 9)) [
  | inl tab ↦ ground (arith, begins_slash-strip s (ground arith))
  | inr other ↦ ground arith
]

same_origin-is_local :
    (p : Bytes) → is_same_origin p ≡ true → is_local (strip p) ≡ not (is_tabbed_host p)
same_origin-is_local [] h = absurd (ground arith)
same_origin-is_local (c ∷ []) h = ground arith
same_origin-is_local (c ∷ d ∷ s) h = ground (arith, begins_slash-strip (d ∷ s) (ground arith))

not_same_origin :
    (p : Bytes)
    → is_same_origin p ≡ false
    → (is_tabbed_host p ≡ false) × (is_local p && all_plain p ≡ false)
not_same_origin [] h = (refl, refl)
not_same_origin (c ∷ []) h = (ground arith, ground arith)
not_same_origin (c ∷ d ∷ s) h = (ground arith, ground arith)

-- A browser, which drops tabs and line ends from a URL and takes what follows two slashes or
-- backslashes for a host, stays on this origin after a login, except exactly where the wanted path
-- is `/`, one tab or more and `/`, with no backslash, CR, LF or NUL behind; the redirect is the
-- wanted path, or /console where that is no path on this origin or has one of these bytes.
pub safe_return_path-is_local :
    (p : Bytes)
    → (is_local (strip (safe_return_path p)) ≡ not (is_tabbed_host p))
      × ((safe_return_path p ≡ p)
          ⊎ ((safe_return_path p ≡ bytes "/console") × (is_local p && all_plain p ≡ false)))
safe_return_path-is_local p =
    let whole = safe_return_path-cases p in
    elim (Bool-cases (is_same_origin p)) [
      | inl fine ↦ rw (whole, fine) (same_origin-is_local p fine, inl refl)
      | inr other ↦
          let (host, wanted) = not_same_origin p other in
          rw (whole, other, host) (refl, inr (refl, wanted))
    ]

is_ascii-safe_return_path : (p : Bytes) → is_ascii p ≡ true → is_ascii (safe_return_path p) ≡ true
is_ascii-safe_return_path p h =
    rw (safe_return_path-cases p)
      (elim (Bool-cases (is_same_origin p)) [ inl fine ↦ rw fine h | inr other ↦ rw other refl ])

-- With libraries that decode what they encode, of JSON with ASCII texts, a callback with the state
-- and the nonce cookie of a start, whose nonce and return path are ASCII, before the state expires,
-- for which the provider gives an email that is not empty and that the allowlist admits, issues the
-- admin session of that email and redirects to the path the start was asked for, made safe.
pub handle_oauth_callback-start :
    (env : Env) (m : Manager) (provider ret value code email name : Bytes) (idp : OAuthProvider)
    (at now later : ℕ)
    → AreLibraries env.lib m.secret
    → is_ascii value ≡ true
    → is_ascii ret ≡ true
    → lookup provider env.oauth ≡ some idp
    → leb (unix (at + state_ttl)) (unix now) ≡ false
    → idp.fetch_identity code (oauth_redirect_uri env provider) ≡ some (email, name)
    → is_empty email ≡ false
    → (new_sso_session m email name provider later).admin ≡ true
    → let path = safe_return_path ret in
      let state = sign_state env.lib m value path state_ttl at in
      let s = new_sso_session m email name provider later in
      (handle_oauth_start env m provider ret (some value) at ≡ (
        nonce_set env value ∷ [],
        found (idp.auth_code_url state (oauth_redirect_uri env provider)),
      ))
      × (handle_oauth_callback env m provider state code (some value) now later
          ≡ (nonce_drop env ∷ issue env.lib m s ∷ [], found path))
unfolding handle_oauth_start handle_oauth_callback
handle_oauth_callback-start env m provider ret value code email name idp at now later law plain
      asked known live who named admin =
    let path = safe_return_path ret in
    let mine =
      verify_state-sign env.lib m value path value state_ttl at now law plain
        (is_ascii-safe_return_path ret asked) in
    (
      rw (known, handle_oauth_start) refl,
      rw
          (
            known,
            handle_oauth_callback,
            mine,
            live,
            str_eq_refl value,
            who,
            after_fetch,
            named,
            admin,
          )
          refl,
    )

-- What a login in answer to a callback rests on: the nonce that its cookie carries, a state bound to
-- it, and the identity that the configured provider gives for the code.
pub record IsLogin (env : Env) (m : Manager) (provider state code : Bytes) (cookie : Option Bytes)
    (to : Bytes) (cookies : List Cookie) (now later : ℕ) : Type 0 where
  pub idp : OAuthProvider
  pub expect : Bytes
  pub email : Bytes
  pub name : Bytes
  pub configured : lookup provider env.oauth ≡ some idp
  pub carried : cookie ≡ some expect
  pub accepted : IsAccepted env.lib m state expect to now
  pub fetched : idp.fetch_identity code (oauth_redirect_uri env provider) ≡ some (email, name)
  pub named : is_empty email ≡ false
  pub admin : (new_sso_session m email name provider later).admin ≡ true
  pub issued :
      cookies ≡ nonce_drop env ∷ issue env.lib m (new_sso_session m email name provider later) ∷ []

after_fetch-found :
    (env : Env) (m : Manager) (provider ret to : Bytes) (who : Option (Bytes × Bytes))
    (cookies : List Cookie) (now : ℕ)
    → after_fetch env m provider ret who now ≡ (cookies, found to)
    → (email name : Bytes) × (who ≡ some (email, name))
      × (is_empty email ≡ false)
      × (ret ≡ to)
      × ((new_sso_session m email name provider now).admin ≡ true)
      × (cookies
          ≡ nonce_drop env ∷ issue env.lib m (new_sso_session m email name provider now) ∷ [])
unfolding after_fetch
after_fetch-found env m provider ret to none cookies now h = absurd (ground arith)
after_fetch-found env m provider ret to (some (email, name)) cookies now h =
    let s = new_sso_session m email name provider now in
    elim (Bool-cases (is_empty email)) [
      | inl nobody ↦ absurd (ground arith)
      | inr named ↦ elim (Bool-cases s.admin) [
        | inr other ↦ absurd (ground arith)
        | inl admin ↦ (email, name, refl, named, ground arith, admin, ground arith)
      ]
    ]

-- A callback redirects only if its provider is configured, its nonce cookie is there, its state
-- verifies under the secret, has not expired and carries the nonce of the cookie and the path of
-- the redirect, and the provider gives an identity with an email for the code; the one session it
-- then issues is that of this identity, which is an admin's.
pub handle_oauth_callback-IsLogin :
    (env : Env) (m : Manager) (provider state code to : Bytes) (cookie : Option Bytes)
    (cookies : List Cookie) (now later : ℕ)
    → handle_oauth_callback env m provider state code cookie now later ≡ (cookies, found to)
    → IsLogin env m provider state code cookie to cookies now later
unfolding handle_oauth_callback
handle_oauth_callback-IsLogin env m provider state code to none cookies now later h =
    elim (Option-cases (lookup provider env.oauth)) [
      | inl unknown ↦ absurd (ground arith)
      | inr (idp, known) ↦ absurd (ground arith)
    ]
handle_oauth_callback-IsLogin env m provider state code to (some expect) cookies now later h =
    elim (Option-cases (lookup provider env.oauth)) [
      | inl unknown ↦ absurd (ground arith)
      | inr (idp, known) ↦ elim (Option-cases (verify_state env.lib m state expect now)) [
        | inl bad ↦ absurd (ground arith)
        | inr (ret, good) ↦
            let who = idp.fetch_identity code (oauth_redirect_uri env provider) in
            let (email, name, fetched, named, same, admin, issued) =
              after_fetch-found env m provider ret to who cookies later (ground arith) in
            record {
              idp = idp;
              expect = expect;
              email = email;
              name = name;
              configured = known;
              carried = refl;
              accepted =
                  verify_state-IsAccepted env.lib m state expect to now (good ∙ ap some same);
              fetched = fetched;
              named = named;
              admin = admin;
              issued = issued;
            }
      ]
    ]
