-- ===== src/Server/Services/Tests.antt =====
-- Runs of src/server/iocp_svcmgr.c with two protocols.
use kaplarc.Base.{◌≡◌, inl, refl, arith, Bool, true, false, none, some, List, [], ◌∷◌, leb}
use kaplarc.Server.Services.{Protocol, Service, svcmgr_add_protocol, service_select_protocol}
use kaplarc.Server.Services.Table.{IsTable, svcmgr_add_protocol-IsTable}
use kaplarc.Server.Services.Select.{IsSelected, service_select_protocol_lem}
use kaplarc.Server.Services.Listen.{Os}

abbrev echo : Protocol
echo = record { name = 1; sends_first = false; identify = λ _ n. leb 4 n }

abbrev login : Protocol
login = record { name = 2; sends_first = false; identify = λ _ n. leb 1 n }

abbrev echo_service : Service
echo_service = record {
  s = none;
  closing = false;
  pending_work = 0;
  port = 7777;
  protocols = echo ∷ [];
  accept_socket = 0;
  bound = false;
  listening = false;
}

abbrev both : Service
both = record echo_service { protocols = echo ∷ login ∷ [] }

echo-IsTable : IsTable (echo_service ∷ [])
echo-IsTable = record {
  few = omega arith;
  services = (record { some_protocol = omega arith; few = omega arith; alone = inl refl }, tt);
  ports = (tt, tt);
}

svcmgr_add_protocol-IsTable_example :
    (ok : Bool) × (svcs' : List Service) × (svcmgr_add_protocol (echo_service ∷ []) login 7777
      ≡ some (ok, svcs'))
    × IsTable svcs'
    × (ok ≡ false → svcs' ≡ echo_service ∷ [])
svcmgr_add_protocol-IsTable_example =
    svcmgr_add_protocol-IsTable (echo_service ∷ []) login 7777 echo-IsTable

service_select_protocol_lem_example :
    IsSelected (9 ∷ 9 ∷ []) 2 (echo ∷ login ∷ []) (service_select_protocol both (9 ∷ 9 ∷ []) 2)
service_select_protocol_lem_example = service_select_protocol_lem both (9 ∷ 9 ∷ []) 2

-- Both sockets are given, and bind, listen and the accept succeed.
abbrev serving : Os
serving = record {
  new_sockets = some 5 ∷ some 6 ∷ [];
  binds = true ∷ [];
  listens = true ∷ [];
  accepts = true ∷ [];
  closed = [];
}
