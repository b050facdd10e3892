-- ===== src/Server/Connection/Handlers/Reach.antt =====
-- The life of the connections: what the server loop, the operating system and the protocols may
-- do with src/server/iocp_connmgr.c, in any order.
use kaplarc.Base.{
  ℕ, ◌≤◌, ◌<◌, ◌≡◌, ◌≢◌, ◌%◌, ◌^◌, Bool, true, false, Option, none, some, List, sym, subst, ap, ◌∙◌,
  length,
}
use kaplarc.Server.Connection.State.{Mgr, Callbacks, initial, max_connections}
use kaplarc.Server.Connection.Slots.Inv.{IsValid, initial-IsValid}
use kaplarc.Server.Connection.Handlers.{
  internal_on_read_length, internal_on_read_body, internal_on_write, connmgr_start_connection,
  connection_close, connection_abort, connection_send, connmgr_timeout_check,
}
use kaplarc.Server.Connection.Handlers.Open.{IsPolite}
use kaplarc.Server.Connection.Handlers.Complete.{Ends}
use kaplarc.Server.Connection.Handlers.Start.{connmgr_start_connection-Ends}
use kaplarc.Server.Connection.Handlers.Completed.{
  length_completed, body_completed, write_completed, internal_on_read_length-Ends,
  internal_on_read_body-IsValid, internal_on_write-Ends,
}
use kaplarc.Server.Connection.Handlers.Interface.{
  IsHandle, connection_close-Ends, connection_abort-Ends, connection_send-Ends,
  connmgr_timeout_check-IsValid,
}

-- One event: a connection is accepted while a slot is free, an operation of the operating system
-- completes, a handle is used, or the clock asks for the idle connections.
pub data Step (cb : Callbacks) : Mgr → Mgr → Type 0 where
  accept :
      {m m' : Mgr} (s svc j : ℕ) (answers : List Bool)
      → j < max_connections
      → (m.ctl j).inuse ≡ false
      → connmgr_start_connection cb m s svc answers ≡ some m'
      → Step cb m m'
  length_read :
      {m m' : Mgr} (i : ℕ) (err : Bool) (transferred : ℕ) (buf : List ℕ)
      → 0 < (m.ctl i).length_reads
      → 2 ≤ length buf
      → internal_on_read_length cb (length_completed m i) i err transferred buf ≡ some m'
      → Step cb m m'
  body_read :
      {m : Mgr} (i : ℕ) (err : Bool) (transferred : ℕ) (buf : List ℕ)
      → 0 < (m.ctl i).body_reads
      → Step cb m (internal_on_read_body cb (body_completed m i) i err transferred buf)
  written :
      {m m' : Mgr} (i : ℕ) (err : Bool) (transferred : ℕ)
      → 0 < (m.ctl i).writes
      → internal_on_write cb (write_completed m i) i err transferred ≡ some m'
      → Step cb m m'
  closed :
      {m m' : Mgr} (uid : ℕ) → IsHandle m uid → connection_close cb m uid ≡ some m' → Step cb m m'
  aborted :
      {m m' : Mgr} (uid : ℕ) → IsHandle m uid → connection_abort cb m uid ≡ some m' → Step cb m m'
  sent :
      {m m' : Mgr} (uid : ℕ) (p : List ℕ) (datalen : ℕ) (ok : Bool)
      → IsHandle m uid
      → ((m.ctl (uid % 2 ^ 16)).uid ≡ uid → (m.ctl (uid % 2 ^ 16)).proto ≢ none)
      → connection_send m uid p datalen ≡ some (ok, m')
      → Step cb m m'
  timeout : {m : Mgr} → Step cb m (connmgr_timeout_check cb m)

pub data Reach (cb : Callbacks) : Mgr → Type 0 where
  init : Reach cb initial
  step : {m m' : Mgr} → Reach cb m → Step cb m m' → Reach cb m'

abbrev pub to_some : {A : Type 0} → A → Option A → A
to_some a none = a
to_some a (some b) = b

ended : (r : Option Mgr) (m' : Mgr) → Ends r → r ≡ some m' → IsValid m'
ended r m' (m, e, v) same = subst IsValid (ap (to_some m) (sym e ∙ same)) v

module _ (cb : Callbacks) (laws : IsPolite cb) where
  kept_by_event : (m m' : Mgr) → IsValid m → Step cb m m' → IsValid m'
  kept_by_event m m' v (accept s svc j answers h free e) =
      ended (connmgr_start_connection cb m s svc answers) m'
        (connmgr_start_connection-Ends cb laws m s svc j answers v h free) e
  kept_by_event m m' v (length_read i err n buf h size e) =
      ended (internal_on_read_length cb (length_completed m i) i err n buf) m'
        (internal_on_read_length-Ends cb laws m i err n buf v h size) e
  kept_by_event m m' v (body_read i err n buf h) =
      internal_on_read_body-IsValid cb laws m i err n buf v h
  kept_by_event m m' v (written i err n h e) =
      ended (internal_on_write cb (write_completed m i) i err n) m'
        (internal_on_write-Ends cb laws m i err n v h) e
  kept_by_event m m' v (closed uid h e) =
      ended (connection_close cb m uid) m' (connection_close-Ends cb laws m uid v h) e
  kept_by_event m m' v (aborted uid h e) =
      ended (connection_abort cb m uid) m' (connection_abort-Ends cb laws m uid v h) e
  kept_by_event m m' v (sent uid p n ok h has_proto e) =
      let (ok', m1, e1, v1) = connection_send-Ends m uid p n v h has_proto in
      subst IsValid (ap (λ (r : Bool × Mgr). r.1) (ap (to_some (ok', m1)) (sym e1 ∙ e))) v1
  kept_by_event m m' v timeout = connmgr_timeout_check-IsValid cb laws m v

  -- With polite callbacks, every state that the events lead to from the static initialisers is
  -- valid.
  pub Reach-IsValid : (m : Mgr) → Reach cb m → IsValid m
  Reach-IsValid m init = initial-IsValid
  Reach-IsValid m' (step {m = m} r s) = kept_by_event m m' (Reach-IsValid m r) s

  -- With polite callbacks, in every state that the events lead to, two different connections in
  -- use have different uids.
  pub uids_are_distinct :
      (m : Mgr) (i j : ℕ)
      → Reach cb m
      → (m.ctl i).inuse ≡ true
      → (m.ctl j).inuse ≡ true
      → i ≢ j
      → (m.ctl i).uid ≢ (m.ctl j).uid
  uids_are_distinct m i j r used_i used_j ne =
      let v = Reach-IsValid m r in
      λ same. ne (
        sym ((v.slots i).named used_i) ∙ ap (λ (t : ℕ). t % 2 ^ 16) same ∙ (v.slots j).named used_j)
