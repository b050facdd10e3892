-- ===== src/Server/Services.antt =====
-- src/server/iocp_svcmgr.c: the table of services and their protocols, and the listening sockets.
pub mod Table
pub mod Select
pub mod Listen
mod Tests
use kaplarc.Base.{
  ℕ, zero, suc, ◌+◌, ◌-◌, Bool, true, false, not, ◌||◌, Option, none, some, List, [], ◌∷◌, ◌++◌,
  length, get_elem?, set, leb, ◌==◌, if◌then◌else◌, ◌>>=◌,
}

abbrev pub max_service_protocols : ℕ
max_service_protocols = 4

abbrev pub max_server_services : ℕ
max_server_services = 4

-- What this file reads of a `struct protocol`.
pub record Protocol : Type 0 where
  pub name : ℕ
  pub sends_first : Bool
  pub identify : List ℕ → ℕ → Bool

-- `struct service`; the socket is `none` for INVALID_SOCKET, and `num_protocols` is the length. The
-- last two fields are the operating system's: whether bind and listen have succeeded on the socket
-- `s`, as far as there is one.
pub record Service : Type 0 where
  pub s : Option ℕ
  pub closing : Bool
  pub pending_work : ℕ
  pub port : ℕ
  pub protocols : List Protocol
  pub accept_socket : ℕ
  pub bound : Bool
  pub listening : Bool

-- The first loop of `svcmgr_add_protocol`: the index of the service on a port.
unfoldable pub find_service : ℕ → List Service → Option ℕ
find_service port [] = none
find_service port (svc ∷ svcs) =
    let rest = find_service port svcs in
    if svc.port == port then some 0 else (rest >>= λ i. some (i + 1))

-- `&services[num_services++]`, filled in.
unfoldable pub new_service : Protocol → ℕ → Service
new_service protocol port = record {
  s = none;
  closing = false;
  pending_work = 0;
  port = port;
  protocols = protocol ∷ [];
  accept_socket = 0;
  bound = false;
  listening = false;
}

-- svc->protocols[0].sends_first
unfoldable pub service_sends_first : Service → Option Bool
service_sends_first svc = elim svc.protocols [ [] ↦ none | p ∷ ps ↦ some p.sends_first ]

unfoldable pub service_first_protocol : Service → Option Protocol
service_first_protocol svc = elim svc.protocols [ [] ↦ none | p ∷ ps ↦ some p ]

-- A protocol joins the service of its port.
unfoldable pub join_service : Service → Protocol → Option (Bool × Service)
unfolding service_sends_first
join_service svc protocol = service_sends_first svc >>= λ first. some (
    if protocol.sends_first || leb max_service_protocols (length svc.protocols) || first
    then (false, svc)
    else (true, record svc { protocols = svc.protocols ++ (protocol ∷ []) }))

-- `none` is an access to a protocol or a service that is not there.
unfoldable pub svcmgr_add_protocol : List Service → Protocol → ℕ → Option (Bool × List Service)
svcmgr_add_protocol services protocol port = elim (find_service port services) [
  | none ↦ some (
      if leb max_server_services (length services)
      then (false, services)
      else (true, services ++ (new_service protocol port ∷ [])))
  | some i ↦ get_elem? services i >>= λ svc.
      join_service svc protocol >>= λ r. some (r.0, set services i r.1)
]

unfoldable pub select_from : List Protocol → List ℕ → ℕ → Option Protocol
select_from [] input datalen = none
select_from (p ∷ ps) input datalen =
    let rest = select_from ps input datalen in if p.identify input datalen then some p else rest

unfoldable pub service_select_protocol : Service → List ℕ → ℕ → Option Protocol
service_select_protocol svc input datalen = select_from svc.protocols input datalen
