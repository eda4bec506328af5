-- ===== src/Request.antt =====
-- What internal/server/server.go computes of a chat request before and for its dispatch: bearer token,
-- attribution, unsupported parts, redaction, prompt hash, translation and estimates. A sampling number
-- is only passed on. Roles and texts are bytes; SHA-256 with its hex form is an argument.
pub mod Estimates
use heave.Prelude.{
  ℕ, zero, suc, ◌+◌, ◌/◌, Bool, true, false, not, ◌&&◌, ◌||◌, Option, none, some, List, [], ◌∷◌,
  ◌++◌, map, ℤ, pos, pos_part, ltb, ltb_ℤ, if◌then◌else◌, length, Bytes, bytes, str_eq, trim_space,
  Dict, lookup, insert,
}
use heave.Firewall.Local.{is_empty}
use heave.Firewall.State.{positive}
use heave.Config.Checks.{is_nil}
use heave.Controls.{Client, to_lower}
use heave.Ledger
use heave.Router.{Decision}
use heave.Redact.{Redactor, redact, count_of}

pub record MessageContent : Type 0 where
  pub text : Bytes
  pub has_image : Bool

pub record Message : Type 0 where
  pub role : Bytes
  pub content : MessageContent
  pub name : Bytes

pub record ChatRequest : Type 0 where
  pub model : Bytes
  pub messages : List Message
  pub max_tokens : ℤ
  pub temperature : Option ℕ
  pub top_p : Option ℕ
  pub n : Option ℤ
  pub stream : Bool
  pub user : Bytes
  pub tools : Bytes
  pub functions : Bytes
  pub response_format : Bytes

-- The messages are pairs of a role and a content.
pub record ProviderRequest : Type 0 where
  pub model : Bytes
  pub system : Bytes
  pub messages : List (Bytes × Bytes)
  pub max_tokens : ℤ
  pub temperature : Option ℕ
  pub top_p : Option ℕ

abbrev pub split_at : ℕ → Bytes → Bytes × Bytes
split_at zero s = ([], s)
split_at (suc n) [] = ([], [])
split_at (suc n) (c ∷ s) = let (a, b) = split_at n s in (c ∷ a, b)

-- The Authorization header's token; the prefix is compared without its case.
unfoldable pub bearer_token : Bytes → Bytes
unfolding to_lower trim_space
bearer_token header =
    let h = trim_space header in
    let (scheme, rest) = split_at 7 h in
    if ltb 7 (length h) && str_eq (to_lower scheme) (bytes "bearer ") then trim_space rest else []

unfoldable pub user_name : Option Client → ChatRequest → Bytes
user_name none req = req.user
user_name (some c) req = c.name

unfoldable pub client_name : Option Client → Bytes
client_name none = []
client_name (some c) = c.name

unfoldable pub client_key_sha : Option Client → Bytes
client_key_sha none = []
client_key_sha (some c) = to_lower c.key_sha256

pub data Unsupported : Type 0 where
  tool_calls response_formats many_choices images : Unsupported

abbrev pub any_image : List Message → Bool
any_image [] = false
any_image (m ∷ messages) = m.content.has_image || any_image messages

unfoldable pub unsupported : ChatRequest → Option Unsupported
unsupported req =
    if not (is_empty req.tools) || not (is_empty req.functions)
    then some tool_calls
    else (if not (is_empty req.response_format)
        then some response_formats
        else (if (elim req.n [ none ↦ false | some n ↦ ltb_ℤ (pos 1) n ])
            then some many_choices
            else (if any_image req.messages then some images else none)))

-- The bytes written to the hash.
unfoldable pub hashed : List Message → Bytes
hashed [] = []
hashed (m ∷ messages) = m.role ++ (0 ∷ (m.content.text ++ (0 ∷ hashed messages)))

unfoldable pub prompt_hash : (Bytes → Bytes) → ChatRequest → Bytes
unfolding hashed
prompt_hash sha256_hex req = sha256_hex (hashed req.messages)

-- `total[k] += v` for each count.
abbrev pub add_counts : Dict ℕ → Dict ℕ → Dict ℕ
add_counts total [] = total
add_counts total ((k, v) ∷ counts) = add_counts (insert k (count_of k total + v) total) counts

unfoldable pub redact_messages : Redactor → List Message → Dict ℕ → List Message × Dict ℕ
redact_messages r [] total = ([], total)
redact_messages r (m ∷ messages) total =
    let (scrubbed, counts) = redact r m.content.text in
    let (rest, sum) = redact_messages r messages (add_counts total counts) in
    (record m { content = record m.content { text = scrubbed } } ∷ rest, sum)

unfoldable pub redact_request : Redactor → ChatRequest → ChatRequest × Dict ℕ
unfolding redact_messages
redact_request r req =
    let (messages, total) = redact_messages r req.messages [] in
    let (scrubbed, counts) = redact r req.user in
    (
      record req { messages = messages; user = if is_nil counts then req.user else scrubbed },
      add_counts total counts,
    )

abbrev pub is_system : Bytes → Bool
is_system role = str_eq role (bytes "system") || str_eq role (bytes "developer")

-- The system texts, after those in `system`, with a blank line between, and the other messages.
unfoldable pub lift_system : List Message → Bytes → Bytes × List (Bytes × Bytes)
lift_system [] system = (system, [])
lift_system (m ∷ messages) system =
    let here = is_system m.role in
    let joined = if is_empty system then m.content.text else system ++ (10 ∷ 10 ∷ m.content.text) in
    let (all, rest) = lift_system messages (if here then joined else system) in
    (all, if here then rest else (m.role, m.content.text) ∷ rest)

unfoldable pub to_provider_request : ChatRequest → Decision → ProviderRequest
unfolding lift_system
to_provider_request req d =
    let (system, messages) = lift_system req.messages [] in
    record {
      model = d.upstream;
      system = system;
      messages = messages;
      max_tokens = if positive req.max_tokens then req.max_tokens else d.max_output_tokens;
      temperature = if d.accepts_sampling then req.temperature else none;
      top_p = if d.accepts_sampling then req.top_p else none;
    }

abbrev pub content_length : List (Bytes × Bytes) → ℕ
content_length [] = 0
content_length ((role, content) ∷ messages) = length content + content_length messages

abbrev pub default_max_out : ℕ
default_max_out = 4096

-- In the unit of Ledger.cost, and in tokens.
unfoldable pub estimate : ProviderRequest → Decision → ℕ × ℕ
estimate preq d =
    let input = (length preq.system + content_length preq.messages) / 4 in
    let out = if positive preq.max_tokens then pos_part preq.max_tokens else default_max_out in
    (Ledger.cost input out 0 0 d.price.input_per_mtok d.price.output_per_mtok, input + out)

-- The largest so far.
abbrev pub larger : ℕ → ℕ → ℕ
larger u best = if ltb best u then u else best

unfoldable pub max_estimate : ChatRequest → List Decision → ℕ → ℕ → ℕ × ℕ
unfolding estimate to_provider_request
max_estimate req [] usd tokens = (usd, tokens)
max_estimate req (d ∷ candidates) usd tokens =
    let (u, t) = estimate (to_provider_request req d) d in
    max_estimate req candidates (larger u usd) (larger t tokens)
