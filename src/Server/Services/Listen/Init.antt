-- ===== src/Server/Services/Listen/Init.antt =====
-- `svcmgr_init` of src/server/iocp_svcmgr.c opens every service, or leaves every service closed.
use kaplarc.Base.{◌≡◌, ◌≢◌, Bool, true, false, none, List, ◌++◌, ◌<◌, All}
use kaplarc.Server.Services.{Service}
use kaplarc.Server.Services.Listen.{Os}

-- The service has a socket that is bound, that listens, and for which an accept is under way.
pub record IsListening (svc : Service) : Type 0 where
  pub has_socket : svc.s ≢ none
  pub bound : svc.bound ≡ true
  pub listening : svc.listening ≡ true
  pub accepting : 0 < svc.pending_work

abbrev pub IsShut : Service → Type 0
IsShut svc = svc.s ≡ none

-- A service listens after `service_open` when that is its answer, and else is as closed as it was.
abbrev Opens : Service → Bool × Os × Service → Type 0
Opens svc r = (r.0 ≡ true → IsListening r.2) × (r.0 ≡ false → IsShut r.2)

-- Starting an accept keeps the socket, and counts it when it succeeds.
abbrev Accepts : Service → Bool × Os × Service → Type 0
Accepts svc r =
    (r.2.s ≡ svc.s)
    × (r.2.bound ≡ svc.bound)
    × (r.2.listening ≡ svc.listening)
    × (r.0 ≡ true → 0 < r.2.pending_work)

-- What the loop has done when it stops.
abbrev Loop : Bool × Os × List Service × List Service → Type 0
Loop r = (r.0 ≡ true → All IsListening (r.2 ++ r.3)) × (r.0 ≡ false → All IsShut r.3)

abbrev AllOrNothing : Bool × Os × List Service → Type 0
AllOrNothing r = (r.0 ≡ true → All IsListening r.2) × (r.0 ≡ false → All IsShut r.2)
