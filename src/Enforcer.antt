-- ===== src/Enforcer.antt =====
-- The bridge from policy to the firewall, internal/enforcer/enforcer.go. Its Resolve returns scopes,
-- the killed node's key, whether the key is governed, and an error; here these are one answer.
pub mod Contract
pub mod Handover
use heave.Prelude.{List, [], ◌∷◌, map, pos, Bytes}
use heave.Firewall.State
use heave.Policy

unfoldable pub translate_limits : Policy.Limits → State.Limits
translate_limits l = record {
  max_usd_per_min = l.max_usd_per_min;
  max_tokens_per_min = l.max_tokens_per_min;
  max_concurrent = l.max_concurrent;
  loop_threshold = pos 0;
  max_usd_per_run = l.max_usd_per_run;
  kill_ttl = pos 0;
}

unfoldable pub translate_scope : Policy.Scope → State.Scope
unfolding translate_limits
translate_scope sc = record { name = sc.name; key = sc.key; limits = translate_limits sc.limits }

unfoldable pub translate : Policy.Chain → List State.Scope
translate ch = map translate_scope ch.scopes

pub data Answer : Type 0 where
  governed : List State.Scope → Bytes → Answer
  ungoverned : Answer
  failed : Policy.Error → Answer

pub answer_of : Policy.Result Policy.Chain → Answer
answer_of (Policy.ok ch) = governed (translate ch) ch.killed_by
answer_of (Policy.err Policy.unknown_key) = ungoverned
answer_of (Policy.err e) = failed e

unfoldable pub resolve : Policy.Store → Bytes → Bytes → Answer
unfolding answer_of
resolve s key run = answer_of (Policy.resolve s key run)
