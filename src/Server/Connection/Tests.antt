-- ===== src/Server/Connection/Tests.antt =====
-- Runs of src/server/iocp_connmgr.c with one connection, whose protocol sends back what it reads.
use kaplarc.Base.{
  ℕ, ◌<◌, ◌≡◌, ◌≢◌, ◌⊎◌, Bool, true, false, Option, none, some, List, [], ◌∷◌, arith, refl,
}
use kaplarc.Server.Connection.State.{
  Conn, Mgr, Callbacks, Status, put, initial, zero_conn, max_connections,
}
use kaplarc.Server.Connection.Slots.{internal_alloc, internal_free, opened, alloc_uid}
use kaplarc.Server.Connection.Slots.Inv.{IsAccounted, IsValid, initial-IsValid, put-IsSlot}
use kaplarc.Server.Connection.Slots.Alloc.{IsOpened, internal_alloc_lem}
use kaplarc.Server.Connection.Slots.Free.{IsFreed, internal_free_lem}
use kaplarc.Server.Connection.Operations.{internal_start_async_read, internal_close_operation}
use kaplarc.Server.Connection.Handlers.{
  internal_on_read_length, internal_on_read_body, internal_on_write, connmgr_start_connection,
  connection_close, connection_abort, connection_send, connection_userdata, send_on,
  connection_started, internal_dispatch_on_connect,
}
use kaplarc.Server.Connection.Handlers.Open.{IsPolite, Answers}
use kaplarc.Server.Connection.Handlers.Start.{connmgr_start_connection-Ends}
use kaplarc.Server.Connection.Handlers.Completed.{
  length_completed, body_completed, write_completed, internal_on_read_length-Ends,
  internal_on_read_body-IsValid, internal_on_write-Ends,
}
use kaplarc.Server.Connection.Handlers.Interface.{
  send_on_lem, closed_uid_is_ignored, connection_send-Ends,
}
use kaplarc.Server.Connection.Handlers.Reach.{
  to_some, Step, Reach, Reach-IsValid, uids_are_distinct,
}

abbrev parrot : Callbacks
parrot = record {
  service_sends_first = λ _. false;
  service_first_protocol = λ _. 0;
  service_select_protocol = λ _ _ _. some 0;
  on_assign_protocol = λ _ c. (true, c);
  on_close = λ _ c. c;
  on_connect = λ _ c. (Status.ok, c);
  on_write = λ _ c. (Status.ok, c);
  on_recv_message = λ _ c buf len. (Status.ok, (send_on c buf len).1);
  on_recv_first_message = λ _ c buf len. (Status.ok, (send_on c buf len).1);
}

some_ne_none : (o : Option ℕ) (p : ℕ) → o ≡ some p → o ≢ none
some_ne_none o p e f = cc

kept : (c : Conn) → IsAccounted c → Answers c c
kept c a = (a, ground arith, refl)

parrot-IsPolite : IsPolite parrot
parrot-IsPolite = record {
  assign = λ p c _ a. kept c a;
  connect = λ p c _ a. kept c a;
  write = λ p c _ a. kept c a;
  recv = λ p c buf len e a. send_on_lem c buf len a (some_ne_none c.proto p e);
  recv_first = λ p c buf len e a. send_on_lem c buf len a (some_ne_none c.proto p e);
  write_answer = λ p c e. cc;
  connect_answer = λ p c e. cc;
  quiet = λ p c done a. (kept c a, done);
}

-- One connection, in slot 0, under its first uid.
abbrev live : Conn → Mgr
live c = record (put initial 0 c) { next_unused_slot = 1 }

live-IsValid :
    (c : Conn)
    → IsAccounted c
    → c.inuse ≡ true
    → c.uid ≡ 0x10000
    → c.closing ≡ false
    → IsValid (live c)
live-IsValid c a used named going = record {
  alloc = record {
    free = [];
    listed = record {
      chain = refl;
      complete = λ i h f. ground arith;
      untouched = λ i h. ground arith;
      bound = omega arith;
      uids = λ i. ground arith;
    };
  };
  slots =
      put-IsSlot (record initial { next_unused_slot = 1 }) 0 c (λ j ne. ground arith)
        (ground arith);
}

-- A read of a length and a write are pending, a read of four bytes is, and nothing is.
abbrev reading : Conn
reading = record zero_conn {
  inuse = true;
  uid = 0x10000;
  s = 7;
  pending_work = 2;
  proto = some 0;
  output_in_progress = true;
  length_reads = 1;
  writes = 1;
  read_len = 2;
}

abbrev receiving : Conn
receiving = record zero_conn {
  inuse = true;
  uid = 0x10000;
  s = 7;
  pending_work = 1;
  bodylen = 4;
  body_reads = 1;
  read_len = 4;
}

abbrev resting : Conn
resting = record zero_conn { inuse = true; uid = 0x10000; s = 7; proto = some 0 }

reading-IsValid : IsValid (live reading)
reading-IsValid = live-IsValid reading (ground arith) refl refl refl

receiving-IsValid : IsValid (live receiving)
receiving-IsValid = live-IsValid receiving (ground arith) refl refl refl

resting-IsValid : IsValid (live resting)
resting-IsValid = live-IsValid resting (ground arith) refl refl refl

internal_on_read_length-Ends_example :
    (m' : Mgr) × (internal_on_read_length parrot
        (length_completed (live reading) 0)
        0
        false
        2
        (4 ∷ 0 ∷ [])
      ≡ some m')
    × IsValid m'
internal_on_read_length-Ends_example =
    internal_on_read_length-Ends parrot parrot-IsPolite (live reading) 0 false 2 (4 ∷ 0 ∷ [])
      reading-IsValid (omega arith) (omega arith)

internal_on_read_body-IsValid_example : IsValid (
    internal_on_read_body parrot (body_completed (live receiving) 0) 0 false 4 (1 ∷ 2 ∷ 3 ∷ 4 ∷ []))
internal_on_read_body-IsValid_example =
    internal_on_read_body-IsValid parrot parrot-IsPolite (live receiving) 0 false 4
      (1 ∷ 2 ∷ 3 ∷ 4 ∷ []) receiving-IsValid (omega arith)

internal_on_write-Ends_example :
    (m' : Mgr) × (internal_on_write parrot (write_completed (live reading) 0) 0 false 6 ≡ some m')
    × IsValid m'
internal_on_write-Ends_example =
    internal_on_write-Ends parrot parrot-IsPolite (live reading) 0 false 6 reading-IsValid
      (omega arith)

connmgr_start_connection-Ends_example :
    (m' : Mgr) × (connmgr_start_connection parrot initial 7 0 (false ∷ []) ≡ some m') × IsValid m'
connmgr_start_connection-Ends_example =
    connmgr_start_connection-Ends parrot parrot-IsPolite initial 7 0 0 (false ∷ []) initial-IsValid
      (omega arith) refl

closed_uid_is_ignored_example :
    let m' = internal_close_operation parrot (live resting) 0 in
    (connection_close parrot m' 0x10000 ≡ some m')
    × (connection_abort parrot m' 0x10000 ≡ some m')
    × (connection_userdata m' 0x10000 ≡ some none)
    × ((p : List ℕ) (n : ℕ) → connection_send m' 0x10000 p n ≡ some (false, m'))
closed_uid_is_ignored_example =
    closed_uid_is_ignored parrot parrot-IsPolite (live resting) 0 resting-IsValid refl refl

connection_send-Ends_example :
    (sent : Bool) × (m' : Mgr) × (connection_send (live resting) 0x10000 (1 ∷ 2 ∷ []) 2
      ≡ some (sent, m'))
    × IsValid m'
connection_send-Ends_example =
    connection_send-Ends (live resting) 0x10000 (1 ∷ 2 ∷ []) 2 resting-IsValid
      (omega arith, λ _. refl) (λ _ e. cc)

internal_alloc_lem_example :
    ((m' : Mgr) × (i : ℕ) × (internal_alloc (live resting) ≡ some (m', i))
      × IsOpened (live resting) m' i)
    ⊎ ((internal_alloc (live resting) ≡ none)
        × ((i : ℕ) → i < max_connections → ((live resting).ctl i).inuse ≡ true))
internal_alloc_lem_example = internal_alloc_lem (live resting) resting-IsValid

internal_free_lem_example : IsFreed (live resting) (internal_free (live resting) 0) 0
internal_free_lem_example =
    internal_free_lem (live resting) 0 resting-IsValid.alloc (λ j _. resting-IsValid.slots j)
      (resting-IsValid.slots 0).accounted refl refl refl

-- Two connections are accepted.
abbrev first : Mgr
first = to_some initial (connmgr_start_connection parrot initial 7 3 [])

abbrev second : Mgr
second = to_some initial (connmgr_start_connection parrot first 8 3 [])

first_lem : connmgr_start_connection parrot initial 7 3 [] ≡ some first
unfolding connmgr_start_connection internal_alloc internal_dispatch_on_connect connection_started
    opened alloc_uid internal_start_async_read
first_lem = refl

second_lem : connmgr_start_connection parrot first 8 3 [] ≡ some second
unfolding connmgr_start_connection internal_alloc internal_dispatch_on_connect connection_started
    opened alloc_uid internal_start_async_read
second_lem = refl

second_slot_free : (first.ctl 1).inuse ≡ false
unfolding connmgr_start_connection internal_alloc internal_dispatch_on_connect connection_started
    opened alloc_uid internal_start_async_read
second_slot_free = refl

both_used : ((second.ctl 0).inuse ≡ true) × ((second.ctl 1).inuse ≡ true)
unfolding connmgr_start_connection internal_alloc internal_dispatch_on_connect connection_started
    opened alloc_uid internal_start_async_read
both_used = (refl, refl)

second-Reach : Reach parrot second
second-Reach =
    Reach.step (Reach.step Reach.init (Step.accept 7 3 0 [] (omega arith) refl first_lem))
      (Step.accept 8 3 1 [] (omega arith) second_slot_free second_lem)

Reach-IsValid_example : IsValid second
Reach-IsValid_example = Reach-IsValid parrot parrot-IsPolite second second-Reach

uids_are_distinct_example : (second.ctl 0).uid ≢ (second.ctl 1).uid
uids_are_distinct_example =
    uids_are_distinct parrot parrot-IsPolite second 0 1 second-Reach both_used.0 both_used.1
      (omega arith)
