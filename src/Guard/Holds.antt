-- ===== src/Guard/Holds.antt =====
-- What handleGuardReserve of internal/server/guard.go leaves held in this process.
use heave.Firewall.State.{Firewall}
