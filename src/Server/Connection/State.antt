-- ===== src/Server/Connection/State.antt =====
-- The structures of src/server/iocp_connmgr.c and src/server/protocol.h.
use kaplarc.Base.{ℕ, Bool, false, Option, none, List, [], ◌∷◌, ◌==◌, if◌then◌else◌}

abbrev pub max_connections : ℕ
max_connections = 4096

abbrev pub conn_input_buffer_size : ℕ
conn_input_buffer_size = 1024

abbrev pub conn_op_retries_before_closing : ℕ
conn_op_retries_before_closing = 5

abbrev pub uint16_max : ℕ
uint16_max = 0xFFFF

-- enum protocol_status
pub data Status : Type 0 where
  ok stop_reading close abort : Status

-- `struct conn_ctl`. The four bits of `flags` are the first fields. `rdwr_count` and `pending_work`
-- are int32 in the code and numbers here: in a valid manager `pending_work` counts at most two
-- operations and is positive where it is decremented, and `rdwr_count` is counted up between two
-- checks of the time-outs, which set it to 0. A socket, a protocol and
-- user data are addresses. The last fields are the operating system's: the operations that it has
-- accepted on the overlapped structures and not completed, the length of the last read, and its
-- answers to the next calls that start one (an empty list: accepted).
pub record Conn : Type 0 where
  pub inuse : Bool
  pub closing : Bool
  pub first_msg : Bool
  pub output_in_progress : Bool
  pub uid : ℕ
  pub s : ℕ
  pub rdwr_count : ℕ
  pub pending_work : ℕ
  pub proto : Option ℕ
  pub udata : ℕ
  pub bodylen : ℕ
  pub output_len : ℕ
  pub output_data : List ℕ
  pub length_reads : ℕ
  pub body_reads : ℕ
  pub writes : ℕ
  pub read_len : ℕ
  pub answers : List Bool

-- What the manager asks of the operating system and of the protocols, in order, newest first.
pub data Event : Type 0 where
  on_close : ℕ → ℕ → Event
  closesocket : ℕ → Event
  cancel_all : ℕ → Event
  cancel_read : ℕ → Event

-- The static variables: `ctl`, `freelist`, `next_unused_slot`.
pub record Mgr : Type 0 where
  pub ctl : ℕ → Conn
  pub freelist : ℕ
  pub next_unused_slot : ℕ
  pub log : List Event

-- A zeroed `struct conn_ctl`.
abbrev pub zero_conn : Conn
zero_conn = record {
  inuse = false;
  closing = false;
  first_msg = false;
  output_in_progress = false;
  uid = 0;
  s = 0;
  rdwr_count = 0;
  pending_work = 0;
  proto = none;
  udata = 0;
  bodylen = 0;
  output_len = 0;
  output_data = [];
  length_reads = 0;
  body_reads = 0;
  writes = 0;
  read_len = 0;
  answers = [];
}

-- The static initialisers.
abbrev pub initial : Mgr
initial = record { ctl = λ _. zero_conn; freelist = uint16_max; next_unused_slot = 0; log = [] }

-- A write through a pointer to slot `i`.
abbrev pub put : Mgr → ℕ → Conn → Mgr
put m i c = record m { ctl = λ j. if j == i then c else m.ctl j }

abbrev pub logged : Event → Mgr → Mgr
logged e m = record m { log = e ∷ m.log }

-- `struct protocol` behind its pointer, and the service functions of src/server/iocp_svcmgr.c. A
-- callback is handed the uid of its connection and acts on that connection.
pub record Callbacks : Type 0 where
  pub service_sends_first : ℕ → Bool
  pub service_first_protocol : ℕ → ℕ
  pub service_select_protocol : ℕ → List ℕ → ℕ → Option ℕ
  pub on_assign_protocol : ℕ → Conn → Bool × Conn
  pub on_close : ℕ → Conn → Conn
  pub on_connect : ℕ → Conn → Status × Conn
  pub on_write : ℕ → Conn → Status × Conn
  pub on_recv_message : ℕ → Conn → List ℕ → ℕ → Status × Conn
  pub on_recv_first_message : ℕ → Conn → List ℕ → ℕ → Status × Conn
