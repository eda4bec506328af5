-- ===== src/Tests/Accounts.antt =====
-- The console's theorems with one local account, one admin domain and one provider.
use heave.Prelude.{
  ◌⊎◌, not, ◌&&◌, ◌*◌, ◌≡◌, refl, true, false, none, some, [], ◌∷◌, ◌++◌, if◌then◌else◌, leb, arith,
  Bytes, bytes, lookup, str_eq, trim_space,
}
use heave.Firewall.State.{second}
use heave.Console.{Manager, Session, encode, decode, new_sso_session, sign_state, issue}
use heave.Controls.{to_lower}
use heave.Console.Passwords.{pbkdf2_iter, joined, hash_password, verify_password}
use heave.Console.Passwords.Laws.{verify_password-hash}
use heave.Console.Sessions.{decode-encode}
use heave.Console.Http.{
  OAuthProvider, Env, found, safe_return_path, oauth_redirect_uri, nonce_set, nonce_drop, state_ttl,
  handle_oauth_start, handle_oauth_callback,
}
use heave.Console.Http.Redirects.{
  IsLogin, is_local, strip, is_tabbed_host, all_plain, safe_return_path-is_local,
  handle_oauth_callback-start, handle_oauth_callback-IsLogin,
}
use heave.Tests.Codecs.{kdf, kdf-IsKdf, fill, libraries, libraries-AreLibraries}

abbrev secret : Bytes
secret = bytes "0123456789abcdef0123456789abcdef"

abbrev manager : Manager
manager = record {
  secret = secret;
  ttl = 3600 * second;
  accounts = [];
  admin_email = [];
  admin_dom = bytes "acme.com" ∷ [];
  cookie = bytes "heave_console";
  secure = true;
}

abbrev session : Session
session = record {
  subject = bytes "a@acme.com";
  name = bytes "A";
  provider = bytes "google";
  admin = true;
  expires = 3605;
}

decode-encode_example :
    decode libraries manager (encode libraries manager session) (9 * second)
    ≡ (if leb 3605 9 then none else some session)
decode-encode_example =
    decode-encode libraries manager session (9 * second) (libraries-AreLibraries secret) refl

abbrev salt : Bytes
salt = bytes "0123456789abcdef"

abbrev encoded : Bytes
encoded = joined (bytes "pbkdf2") (
    joined (bytes "sha256") (
      joined (bytes "210000")
        (joined (kdf.encode salt) (kdf.encode (fill 32 (bytes "pw" ++ salt))))))

abbrev idp : OAuthProvider
idp = record {
  auth_code_url = λ state uri. state;
  fetch_identity = λ code uri. some (bytes "a@acme.com", bytes "A");
}

abbrev env : Env
env = record {
  lib = libraries;
  console = some manager;
  oauth = (bytes "google", idp) ∷ [];
  secure = true;
  base_url = bytes "https://h";
}

verify_password-hash_example :
    (dk : Bytes) × (kdf.pbkdf2 (bytes "pw") salt pbkdf2_iter 32 ≡ some dk)
    × (verify_password kdf encoded (bytes "other")
        ≡ (elim (kdf.pbkdf2 (bytes "other") salt pbkdf2_iter 32) [
          | none ↦ false
          | some got ↦ str_eq got dk
        ]))
unfolding hash_password
verify_password-hash_example =
    verify_password-hash kdf (bytes "pw") salt encoded (bytes "other") kdf-IsKdf (omega arith) refl

abbrev tabbed : Bytes
tabbed = b'/' ∷ 9 ∷ bytes "/evil.com"

safe_return_path-is_local_example :
    (is_local (strip (safe_return_path tabbed)) ≡ not (is_tabbed_host tabbed))
    × ((safe_return_path tabbed ≡ tabbed)
        ⊎ ((safe_return_path tabbed ≡ bytes "/console")
            × (is_local tabbed && all_plain tabbed ≡ false)))
safe_return_path-is_local_example = safe_return_path-is_local tabbed

abbrev path : Bytes
path = safe_return_path (bytes "/x")

abbrev state : Bytes
state = sign_state libraries manager (bytes "n") path state_ttl (5 * second)

abbrev operator : Session
operator = new_sso_session manager (bytes "a@acme.com") (bytes "A") (bytes "google") (9 * second)

operator-admin : operator.admin ≡ true
unfolding new_sso_session to_lower trim_space str_eq
operator-admin = refl

google : lookup (bytes "google") env.oauth ≡ some idp
unfolding lookup str_eq
google = refl

-- The second half of the example below.
handled :
    handle_oauth_callback env manager
      (bytes "google")
      state
      []
      (some (bytes "n"))
      (8 * second)
      (9 * second)
    ≡ (nonce_drop env ∷ issue libraries manager operator ∷ [], found path)
handled =
    (handle_oauth_callback-start env manager (bytes "google") (bytes "/x") (bytes "n") []
      (bytes "a@acme.com") (bytes "A") idp (5 * second) (8 * second) (9 * second)
      (libraries-AreLibraries secret) refl refl google refl refl refl operator-admin).1

handle_oauth_callback-start_example :
    (handle_oauth_start env manager (bytes "google") (bytes "/x") (some (bytes "n")) (5 * second)
      ≡ (
        nonce_set env (bytes "n") ∷ [],
        found (idp.auth_code_url state (oauth_redirect_uri env (bytes "google"))),
      ))
    × (handle_oauth_callback env manager
          (bytes "google")
          state
          []
          (some (bytes "n"))
          (8 * second)
          (9 * second)
        ≡ (nonce_drop env ∷ issue libraries manager operator ∷ [], found path))
handle_oauth_callback-start_example =
    handle_oauth_callback-start env manager (bytes "google") (bytes "/x") (bytes "n") []
      (bytes "a@acme.com") (bytes "A") idp (5 * second) (8 * second) (9 * second)
      (libraries-AreLibraries secret) refl refl google refl refl refl operator-admin

handle_oauth_callback-IsLogin_example :
    IsLogin env manager
      (bytes "google")
      state
      []
      (some (bytes "n"))
      path
      (nonce_drop env ∷ issue libraries manager operator ∷ [])
      (8 * second)
      (9 * second)
handle_oauth_callback-IsLogin_example =
    handle_oauth_callback-IsLogin env manager (bytes "google") state [] path (some (bytes "n"))
      (nonce_drop env ∷ issue libraries manager operator ∷ []) (8 * second) (9 * second) handled
