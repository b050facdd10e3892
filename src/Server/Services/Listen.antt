-- ===== src/Server/Services/Listen.antt =====
-- The sockets of src/server/iocp_svcmgr.c: opening, accepting and closing.
pub mod Init
use kaplarc.Base.{
  ℕ, zero, suc, ◌+◌, ◌-◌, Bool, true, false, not, Option, none, some, List, [], ◌∷◌, ◌++◌, ◌==◌,
  if◌then◌else◌,
}
use kaplarc.Server.Services.{Service}

abbrev pub max_tries_before_reopen : ℕ
max_tries_before_reopen = 5

-- The operating system: its answers to the next calls (an empty list: a refusal), and the
-- sockets that were given back, newest first.
pub record Os : Type 0 where
  pub new_sockets : List (Option ℕ)
  pub binds : List Bool
  pub listens : List Bool
  pub accepts : List Bool
  pub closed : List ℕ

abbrev pub answer : List Bool → Bool
answer [] = false
answer (a ∷ rest) = a

abbrev pub after : List Bool → List Bool
after [] = []
after (a ∷ rest) = rest

unfoldable pub internal_create_iocp_socket : Os → Option ℕ × Os
internal_create_iocp_socket os = elim os.new_sockets [
  | [] ↦ (none, os)
  | a ∷ rest ↦ (a, record os { new_sockets = rest })
]

abbrev pub closesocket : ℕ → Os → Os
closesocket s os = record os { closed = s ∷ os.closed }

-- AcceptEx on the new socket `a`.
unfoldable pub accept_on : ℕ → Os → Service → Bool × Os × Service
accept_on a os svc =
    let svc1 = record svc { accept_socket = a } in
    let os1 = record os { accepts = after os.accepts } in
    if answer os.accepts
    then (true, os1, record svc1 { pending_work = svc.pending_work + 1 })
    else (false, closesocket a os1, svc1)

unfoldable pub service_start_async_accept : Os → Service → Bool × Os × Service
service_start_async_accept os svc =
    let (s, os1) = internal_create_iocp_socket os in
    elim s [ none ↦ (false, os1, svc) | some a ↦ accept_on a os1 svc ]

unfoldable pub internal_service_close : Os → Service → Os × Service
internal_service_close os svc = (
  elim svc.s [ none ↦ os | some s ↦ closesocket s os ],
  record svc { s = none; closing = false; bound = false; listening = false },
)

-- `service_open` once it has its socket, which bind and listen take or refuse.
unfoldable pub open_on : ℕ → Os → Service → Bool × Os × Service
open_on s os svc =
    let os1 = record os { binds = after os.binds } in
    let os2 = record os1 { listens = after os.listens } in
    let svc2 = record svc { s = some s; bound = answer os.binds; listening = answer os.listens } in
    let (ok, os3, svc3) = service_start_async_accept os2 svc2 in
    if not (answer os.binds)
    then (false, closesocket s os1, svc)
    else if not (answer os.listens)
    then (false, closesocket s os2, svc)
    else if ok
    then (true, os3, svc3)
    else (false, closesocket s os3, record svc3 { s = none; bound = false; listening = false })

unfoldable pub service_open : Os → Service → Bool × Os × Service
service_open os svc = elim svc.s [
  | some s ↦ (true, os, svc)
  | none ↦
      let (s, os1) = internal_create_iocp_socket os in
      elim s [ none ↦ (false, os1, svc) | some a ↦ open_on a os1 svc ]
]

-- The loop of `service_async_accept`.
unfoldable pub try_accept : ℕ → Os → Service → Bool × Os × Service
try_accept zero os svc = (false, os, svc)
try_accept (suc tries) os svc =
    let (ok, os1, svc1) = service_start_async_accept os svc in
    let again = try_accept tries os1 svc1 in if ok then (true, os1, svc1) else again

unfoldable pub service_async_accept : Os → Service → Os × Service
service_async_accept os svc =
    let (ok, os1, svc1) = try_accept max_tries_before_reopen os svc in
    let (os2, svc2) = internal_service_close os1 svc1 in
    let (_, os3, svc3) = service_open os2 svc2 in
    if ok then (os1, svc1) else if not (svc1.pending_work == 0) then (os1, svc1) else (os3, svc3)

unfoldable pub service_start_closing : Os → Service → Os × Service
service_start_closing os svc =
    let closed = internal_service_close os svc in
    if svc.pending_work == 0 then closed else (os, record svc { closing = true })

-- The completion of an accept: the socket that is handed to `connmgr_start_connection`, if any.
unfoldable pub service_on_accept : Os → Service → Bool → Option ℕ × Os × Service
service_on_accept os svc err =
    let a = svc.accept_socket in
    let svc1 = record svc { pending_work = svc.pending_work - 1 } in
    let refused = closesocket a os in
    let (closed_os, closed_svc) = internal_service_close refused svc1 in
    let (retried_os, retried_svc) = service_async_accept refused svc1 in
    let (next_os, next_svc) = service_async_accept os svc1 in
    if svc.closing
    then (if svc1.pending_work == 0 then (none, closed_os, closed_svc) else (none, refused, svc1))
    else if err
    then (none, retried_os, retried_svc)
    else (some a, next_os, next_svc)

-- What `svcmgr_init` has done when its loop stops: the services that are open, and those from the
-- one that did not open on.
unfoldable pub open_all : Os → List Service → Bool × Os × List Service × List Service
open_all os [] = (true, os, [], [])
open_all os (svc ∷ svcs) =
    let (ok, os1, svc1) = service_open os svc in
    let (all, os2, opened, left) = open_all os1 svcs in
    if ok then (all, os2, svc1 ∷ opened, left) else (false, os1, [], svc1 ∷ svcs)

-- The services are closed from the last to the first.
unfoldable pub close_all : Os → List Service → Os × List Service
close_all os [] = (os, [])
close_all os (svc ∷ svcs) =
    let (os1, rest) = close_all os svcs in
    let (os2, svc1) = internal_service_close os1 svc in (os2, svc1 ∷ rest)

unfoldable pub svcmgr_init : Os → List Service → Bool × Os × List Service
svcmgr_init os services =
    let (ok, os1, opened, left) = open_all os services in
    let (os2, closed) = close_all os1 opened in
    if ok then (true, os1, opened ++ left) else (false, os2, closed ++ left)

unfoldable pub svcmgr_shutdown : Os → List Service → Os × List Service
svcmgr_shutdown os [] = (os, [])
svcmgr_shutdown os (svc ∷ svcs) =
    let (os1, svc1) = internal_service_close os svc in
    let (os2, rest) = svcmgr_shutdown os1 svcs in (os2, svc1 ∷ rest)
