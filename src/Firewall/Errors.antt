-- ===== src/Firewall/Errors.antt =====
-- The errors of internal/firewall/firewall.go.
use heave.Prelude.{ℕ, Bytes}

pub data Error : Type 0 where
  killed bad_chain kill_store_full store_failure : Error
  velocity : Bytes → ℕ → Error
  concurrency : Bytes → Error
