-- ===== src/Tests/Handover.antt =====
-- The handover of a policy chain to the gate, on the chain of one team.
use heave.Prelude.{ℕ, ◌≡◌, ◌≤◌, refl, true, false, [], ◌∷◌, ℤ, pos, arith, bytes, length}
use heave.Firewall.State
use heave.Firewall.State.{Firewall}
use heave.Firewall.Enter.{enter_core, enter_chain}
use heave.Policy
use heave.Policy.{Node, run_scope, chain_of, scope_key, type_name, ref_for}
use heave.Policy.Chains.{run_cap_of}
use heave.Enforcer.{translate}
use heave.Enforcer.Handover.{enter_chain-translate}

abbrev limits : ℤ → Policy.Limits
limits cap = record {
  max_usd_per_min = pos 10;
  max_tokens_per_min = pos 0;
  max_concurrent = pos 2;
  max_usd_per_day = pos 0;
  max_usd_per_month = pos 0;
  max_usd_per_run = cap;
}

abbrev acme : Node
acme = record {
  node_type = Policy.org;
  id = bytes "acme";
  name = bytes "Acme";
  parent_id = [];
  limits = limits (pos 9);
  killed = false;
}

abbrev core : Node
core = record {
  node_type = Policy.team;
  id = bytes "core";
  name = bytes "Core";
  parent_id = bytes "acme";
  limits = limits (pos 4);
  killed = false;
}

abbrev fw : Firewall ℕ
fw =
    State.new true
      (record {
        max_usd_per_min = pos 0;
        max_tokens_per_min = pos 0;
        max_concurrent = pos 0;
        loop_threshold = pos 3;
        max_usd_per_run = pos 0;
        kill_ttl = pos 0;
      })
      0

fw_on : fw.enabled ≡ true
unfolding State.new
fw_on = refl

short_run :
    length (run_scope core (bytes "ab12") (bytes "r1") (run_cap_of (acme ∷ core ∷ []) (pos 0))).key
    ≤ 512
unfolding run_scope scope_key type_name ref_for
short_run = omega arith

enter_chain-translate_example :
    let scopes = translate (chain_of core (acme ∷ core ∷ []) (bytes "ab12") (bytes "r1")) in
    let cap = run_cap_of (acme ∷ core ∷ []) (pos 0) in
    enter_chain fw scopes (bytes "p") (pos 2) (pos 5) (bytes "h") 7
    ≡ enter_core fw scopes
        (run_scope core (bytes "ab12") (bytes "r1") cap).key
        (bytes "p")
        cap
        (pos 2)
        (pos 5)
        (bytes "h")
        7
unfolding scope_key type_name ref_for
enter_chain-translate_example =
    enter_chain-translate fw core (acme ∷ core ∷ []) (bytes "ab12") (bytes "r1") (bytes "p") (pos 2)
      (pos 5) (bytes "h") 7 fw_on refl (omega arith, (omega arith, tt)) short_run
