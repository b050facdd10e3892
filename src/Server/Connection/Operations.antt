-- ===== src/Server/Connection/Operations.antt =====
-- Starting and closing the operations of a connection, src/server/iocp_connmgr.c: every read and
-- write is tried five times, and a connection is freed when nothing of it is pending.
use kaplarc.Base.{
  ℕ, zero, suc, ◌+◌, Bool, true, false, none, some, List, [], ◌∷◌, ◌==◌, if◌then◌else◌,
}
use kaplarc.Server.Connection.State.{
  Conn, Mgr, Event, Callbacks, put, logged, conn_op_retries_before_closing,
}
use kaplarc.Server.Connection.Slots.{internal_free}

-- Which callback a read completes with.
pub data Read : Type 0 where
  length_read body_read : Read

-- The next answer of the operating system, and those after it.
unfoldable pub accepted : Conn → Bool × List Bool
accepted c = elim c.answers [ [] ↦ (true, []) | a ∷ rest ↦ (a, rest) ]

unfoldable pub internal_start_async_read : Conn → ℕ → Read → Bool × Conn
unfolding accepted
internal_start_async_read c readlen callback =
    let (ok, rest) = accepted c in
    let posted : Conn = elim callback [
      | length_read ↦ record c { length_reads = c.length_reads + 1; answers = rest }
      | body_read ↦ record c { body_reads = c.body_reads + 1; answers = rest }
    ] in
    if ok
    then (true, record posted { read_len = readlen; pending_work = c.pending_work + 1 })
    else (false, record c { answers = rest })

unfoldable pub internal_start_async_write : Conn → Bool × Conn
unfolding accepted
internal_start_async_write c =
    let (ok, rest) = accepted c in
    if ok
    then (
      true,
      record c {
        answers = rest;
        output_in_progress = true;
        writes = c.writes + 1;
        pending_work = c.pending_work + 1;
      },
    )
    else (false, record c { answers = rest })

module _ (cb : Callbacks) where
  unfoldable pub internal_dispatch_on_close : Mgr → ℕ → Mgr
  internal_dispatch_on_close m i = elim (m.ctl i).proto [
    | none ↦ m
    | some p ↦
        logged (Event.on_close p (m.ctl i).uid)
          (put m i (record (cb.on_close p (m.ctl i)) { proto = none }))
  ]

  unfoldable pub internal_close_operation : Mgr → ℕ → Mgr
  unfolding internal_dispatch_on_close internal_free
  internal_close_operation m i =
      let m1 = internal_dispatch_on_close m i in
      internal_free (logged (Event.closesocket (m1.ctl i).s) m1) i

  unfoldable pub internal_start_close_operation : Mgr → ℕ → Bool → Mgr
  internal_start_close_operation m i abort =
      let c = m.ctl i in
      if c.pending_work == 0
      then internal_close_operation m i
      else logged (if abort then Event.cancel_all c.s else Event.cancel_read c.s)
          (put m i (record c { closing = true }))

  unfoldable pub internal_close : Mgr → ℕ → Mgr
  internal_close m i = internal_start_close_operation m i false

  unfoldable pub internal_abort : Mgr → ℕ → Mgr
  internal_abort m i = internal_start_close_operation m i true

  -- for(i = 0; i < tries; i += 1), and the abort after the last try.
  unfoldable pub try_read : ℕ → Mgr → ℕ → ℕ → Read → Mgr
  try_read zero m i readlen callback = internal_abort m i
  try_read (suc tries) m i readlen callback =
      let (ok, c) = internal_start_async_read (m.ctl i) readlen callback in
      let again = try_read tries (put m i c) i readlen callback in if ok then put m i c else again

  unfoldable pub internal_async_read : Mgr → ℕ → ℕ → Read → Mgr
  internal_async_read m i readlen callback =
      try_read conn_op_retries_before_closing m i readlen callback

  unfoldable pub try_write : ℕ → Mgr → ℕ → Mgr
  try_write zero m i = internal_abort m i
  try_write (suc tries) m i =
      let (ok, c) = internal_start_async_write (m.ctl i) in
      let again = try_write tries (put m i c) i in if ok then put m i c else again

  unfoldable pub internal_async_write : Mgr → ℕ → Mgr
  internal_async_write m i = try_write conn_op_retries_before_closing m i
