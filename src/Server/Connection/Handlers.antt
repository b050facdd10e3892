-- ===== src/Server/Connection/Handlers.antt =====
-- The dispatchers, the completion handlers and the connection interface of
-- src/server/iocp_connmgr.c. `none` is a NULL dereference or a failed assertion.
pub mod Open
pub mod Keep
pub mod Complete
pub mod Start
pub mod Completed
pub mod Interface
pub mod Reach
use kaplarc.Base.{
  ℕ, zero, suc, ◌+◌, ◌-◌, Bool, true, false, ◌||◌, Option, none, some, List, [], ◌∷◌, ltb, ◌==◌,
  ◌>>=◌, if◌then◌else◌,
}
use kaplarc.Codec.Portable.{decode_u16_le}
use kaplarc.Server.Connection.State.{
  Conn, Mgr, Event, Callbacks, Status, put, logged, conn_input_buffer_size,
  conn_op_retries_before_closing,
}
use kaplarc.Server.Connection.Slots.{internal_alloc, internal_free, conn_ctl}
use kaplarc.Server.Connection.Operations.{
  accepted, internal_start_async_read, internal_start_async_write, internal_dispatch_on_close,
  internal_close_operation, internal_start_close_operation, internal_close, internal_abort,
  try_read, internal_async_read, try_write, internal_async_write, Read, length_read, body_read,
}

module _ (cb : Callbacks) where
  unfoldable pub internal_dispatch_on_connect : Conn → Status × Conn
  internal_dispatch_on_connect c =
      let p = cb.service_first_protocol c.udata in
      let (assigned, c') = cb.on_assign_protocol p (record c { proto = some p }) in
      if cb.service_sends_first c.udata
      then (if assigned then cb.on_connect p c' else (Status.abort, c'))
      else (Status.ok, c)

  -- The second half of the dispatch, when the connection has its protocol `p`.
  unfoldable pub dispatch_message : ℕ → Conn → List ℕ → ℕ → Status × Conn
  dispatch_message p c buf datalen =
      if c.first_msg
      then cb.on_recv_message p c buf datalen
      else cb.on_recv_first_message p (record c { first_msg = true }) buf datalen

  -- A protocol is selected by the first message.
  unfoldable pub select_protocol : Conn → List ℕ → ℕ → Status × Conn
  unfolding dispatch_message
  select_protocol c buf datalen = elim (cb.service_select_protocol c.udata buf datalen) [
    | none ↦ (Status.abort, c)
    | some p ↦
        let (assigned, c') = cb.on_assign_protocol p (record c { proto = some p }) in
        if assigned then dispatch_message p c' buf datalen else (Status.abort, c')
  ]

  unfoldable pub internal_dispatch_on_recv_message : Conn → List ℕ → ℕ → Status × Conn
  unfolding select_protocol dispatch_message
  internal_dispatch_on_recv_message c buf datalen = elim c.proto [
    | none ↦ select_protocol c buf datalen
    | some p ↦ dispatch_message p c buf datalen
  ]

  unfoldable pub internal_dispatch_on_write : Conn → Option (Status × Conn)
  internal_dispatch_on_write c = elim c.proto [ none ↦ none | some p ↦ some (cb.on_write p c) ]

  -- `if(c->pending_work == 0) internal_close_operation(c)`, for a connection that is closing.
  unfoldable pub close_if_done : Mgr → ℕ → Mgr
  close_if_done m i = if (m.ctl i).pending_work == 0 then internal_close_operation cb m i else m

  -- `internal_on_read_length` after its first line.
  unfoldable pub read_length_done : Mgr → ℕ → Bool → ℕ → List ℕ → Option Mgr
  read_length_done m i err transferred buf =
      if (m.ctl i).closing
      then some (close_if_done m i)
      else if err
      then some (internal_async_read cb m i 2 length_read)
      else if transferred == 0
      then some (internal_abort cb m i)
      else (decode_u16_le buf >>= λ bodylen.
          if ltb conn_input_buffer_size bodylen || bodylen == 0
          then some (internal_abort cb m i)
          else some (
              internal_async_read cb (put m i (record (m.ctl i) { bodylen = bodylen })) i bodylen
                body_read))

  unfoldable pub internal_on_read_length : Mgr → ℕ → Bool → ℕ → List ℕ → Option Mgr
  internal_on_read_length m i err transferred buf =
      let c = m.ctl i in
      read_length_done (put m i (record c { pending_work = c.pending_work - 1 })) i err transferred
        buf

  -- The switch on what the protocol answers to a message.
  unfoldable pub message_done : Mgr → ℕ → Status → Mgr
  message_done m i status = elim status [
    | Status.ok ↦ internal_async_read cb m i 2 length_read
    | Status.stop_reading ↦ m
    | Status.close ↦ internal_close cb m i
    | Status.abort ↦ internal_abort cb m i
  ]

  -- `internal_on_read_body` after its first two lines.
  unfoldable pub read_body_done : Mgr → ℕ → Bool → ℕ → List ℕ → Mgr
  unfolding message_done
  read_body_done m i err transferred buf =
      let c = m.ctl i in
      let (status, c') = internal_dispatch_on_recv_message c buf c.bodylen in
      if c.closing
      then close_if_done m i
      else if err
      then internal_async_read cb m i c.bodylen body_read
      else if transferred == 0
      then internal_abort cb m i
      else message_done (put m i c') i status

  unfoldable pub internal_on_read_body : Mgr → ℕ → Bool → ℕ → List ℕ → Mgr
  internal_on_read_body m i err transferred buf =
      let c = m.ctl i in
      read_body_done
        (put m i (record c { pending_work = c.pending_work - 1; rdwr_count = c.rdwr_count + 1 })) i
        err transferred buf

  -- The switch on what the protocol answers to a write or to a new connection, where it must not
  -- stop reading.
  unfoldable pub answer_done : Mgr → ℕ → Status → Option Mgr
  answer_done m i status = elim status [
    | Status.ok ↦ some m
    | Status.stop_reading ↦ none
    | Status.close ↦ some (internal_close cb m i)
    | Status.abort ↦ some (internal_abort cb m i)
  ]

  -- `internal_on_write` after its first two lines.
  unfoldable pub write_done : Mgr → ℕ → Bool → ℕ → Option Mgr
  unfolding answer_done
  write_done m i err transferred =
      let c = m.ctl i in
      if c.closing
      then some (close_if_done m i)
      else if err
      then some (internal_async_write cb m i)
      else if transferred == 0
      then some (internal_abort cb m i)
      else (internal_dispatch_on_write (record c { output_in_progress = false }) >>= λ r.
          answer_done (put m i r.1) i r.0)

  unfoldable pub internal_on_write : Mgr → ℕ → Bool → ℕ → Option Mgr
  internal_on_write m i err transferred =
      let c = m.ctl i in
      write_done
        (put m i (record c { pending_work = c.pending_work - 1; rdwr_count = c.rdwr_count + 1 })) i
        err transferred

  -- A new connection is handed to the protocol that speaks first, and its first read is started.
  -- `answers` is the operating system's, for the new socket.
  unfoldable pub connection_started : Mgr → ℕ → Option Mgr
  connection_started m i =
      let (started, c) = internal_start_async_read (m.ctl i) 2 length_read in
      some (if started then put m i c else internal_abort cb (put m i c) i)

  unfoldable pub connect_done : Mgr → ℕ → Status → Option Mgr
  unfolding answer_done connection_started
  connect_done m i status = elim status [
    | Status.ok ↦ connection_started m i
    | other ↦ answer_done m i other
  ]

  unfoldable pub connmgr_start_connection : Mgr → ℕ → ℕ → List Bool → Option Mgr
  unfolding connect_done
  connmgr_start_connection m s svc answers = internal_alloc m >>= λ r.
      let c = record (r.0.ctl r.1) {
        s = s;
        rdwr_count = 1;
        pending_work = 0;
        proto = none;
        udata = svc;
        answers = answers;
      } in
      let (status, c') = internal_dispatch_on_connect c in connect_done (put r.0 r.1 c') r.1 status

  -- The connection interface: a uid that its slot no longer has is ignored.
  unfoldable pub connection_close : Mgr → ℕ → Option Mgr
  connection_close m uid =
      conn_ctl uid >>= λ i. some (if (m.ctl i).uid == uid then internal_close cb m i else m)

  unfoldable pub connection_abort : Mgr → ℕ → Option Mgr
  connection_abort m uid =
      conn_ctl uid >>= λ i. some (if (m.ctl i).uid == uid then internal_abort cb m i else m)

  -- One round of `connmgr_timeout_check`.
  unfoldable pub timeout_slot : Mgr → ℕ → Mgr
  timeout_slot m i =
      let c = m.ctl i in
      if c.inuse
      then (if c.rdwr_count == 0
          then internal_abort cb m i
          else put m i (record c { rdwr_count = 0 }))
      else m

  unfoldable pub timeout_slots : ℕ → ℕ → Mgr → Mgr
  timeout_slots zero i m = m
  timeout_slots (suc n) i m = timeout_slots n (i + 1) (timeout_slot m i)

  unfoldable pub connmgr_timeout_check : Mgr → Mgr
  connmgr_timeout_check m = timeout_slots m.next_unused_slot 0 m

  unfoldable pub shutdown_slots : ℕ → ℕ → Mgr → Mgr
  shutdown_slots zero i m = m
  shutdown_slots (suc n) i m =
      shutdown_slots n (i + 1) (if (m.ctl i).inuse then internal_close_operation cb m i else m)

  unfoldable pub connmgr_shutdown : Mgr → Mgr
  connmgr_shutdown m = shutdown_slots m.next_unused_slot 0 m

-- The user data of a live connection.
unfoldable pub connection_userdata : Mgr → ℕ → Option (Option ℕ)
connection_userdata m uid =
    conn_ctl uid >>= λ i. some (if (m.ctl i).uid == uid then some (m.ctl i).udata else none)

-- `connection_send` on the slot of its uid.
unfoldable pub send_on : Conn → List ℕ → ℕ → Bool × Conn
unfolding internal_start_async_write
send_on c p datalen =
    if c.output_in_progress
    then (false, c)
    else internal_start_async_write (record c { output_data = p; output_len = datalen })

unfoldable pub connection_send : Mgr → ℕ → List ℕ → ℕ → Option (Bool × Mgr)
connection_send m uid p datalen = conn_ctl uid >>= λ i.
    let (sent, c) = send_on (m.ctl i) p datalen in
    some (if (m.ctl i).uid == uid then (sent, put m i c) else (false, m))
