-- ===== src/Server/Connection/Handlers/Open.antt =====
-- A connection in the middle of a handler: in use, with its accounts in order.
use kaplarc.Base.{
  ℕ, ◌+◌, ◌%◌, ◌^◌, ◌≤◌, ◌<◌, ◌≡◌, ◌≢◌, true, some, arith, ==_refl, ne→==_false, ℕ_discrete, List,
  subst, sym, ap, ◌∙◌,
}
use kaplarc.Server.Connection.State.{Conn, Mgr, Event, Callbacks, Status, put, logged}
use kaplarc.Server.Connection.Slots.Inv.{IsAllocator, IsAccounted, IsSlot, IsValid, put-IsAllocator}

pub record IsOpen (m : Mgr) (i : ℕ) : Type 0 where
  pub alloc : IsAllocator m
  pub others : (j : ℕ) → j ≢ i → IsSlot j (m.ctl j)
  pub accounted : IsAccounted (m.ctl i)
  pub used : (m.ctl i).inuse ≡ true
  pub named : (m.ctl i).uid % 2 ^ 16 ≡ i

-- What a protocol's callback leaves alone.
pub record IsFrame (c c' : Conn) : Type 0 where
  pub same_uid : c'.uid ≡ c.uid
  pub same_use : c'.inuse ≡ c.inuse
  pub same_closing : c'.closing ≡ c.closing
  pub same_reads : c'.length_reads + c'.body_reads ≡ c.length_reads + c.body_reads
  pub work_kept : c.pending_work ≤ c'.pending_work

-- A connection that is not closing, or has an operation pending, is fit to be left.
pub IsOpen-IsValid :
    (m : Mgr) (i : ℕ)
    → IsOpen m i
    → ((m.ctl i).closing ≡ true → 0 < (m.ctl i).pending_work)
    → IsValid m
IsOpen-IsValid m i v busy = record {
  alloc = v.alloc;
  slots = λ j. elim (ℕ_discrete j i) [
    | yes e ↦
        subst (λ k. IsSlot k (m.ctl k)) (sym e) (ground (arith, v.accounted, v.used, v.named, busy))
    | no ne ↦ v.others j ne
  ];
}

pub IsValid-IsOpen : (m : Mgr) (i : ℕ) → IsValid m → (m.ctl i).inuse ≡ true → IsOpen m i
IsValid-IsOpen m i v used = record {
  alloc = v.alloc;
  others = λ j _. v.slots j;
  accounted = (v.slots i).accounted;
  used = used;
  named = (v.slots i).named used;
}

-- A change of the open connection that keeps its uid, its use and its accounts.
pub put-IsOpen :
    (m : Mgr) (i : ℕ) (c : Conn)
    → IsOpen m i
    → c.inuse ≡ (m.ctl i).inuse
    → c.uid ≡ (m.ctl i).uid
    → IsAccounted c
    → IsOpen (put m i c) i
put-IsOpen m i c v e u a = record {
  alloc = put-IsAllocator m i c e u v.alloc;
  others = λ j ne. rw (ne→==_false j i ne) (v.others j ne);
  accounted = rw (==_refl i) a;
  used = rw (==_refl i) (e ∙ v.used);
  named = rw (==_refl i) (ap (λ (t : ℕ). t % 2 ^ 16) u ∙ v.named);
}

-- The log says nothing of the state.
pub logged-IsOpen : (e : Event) (m : Mgr) (i : ℕ) → IsOpen m i → IsOpen (logged e m) i
logged-IsOpen e m i v = record {
  alloc = record {
    free = v.alloc.free;
    listed = record {
      chain = v.alloc.listed.chain;
      complete = v.alloc.listed.complete;
      untouched = v.alloc.listed.untouched;
      bound = v.alloc.listed.bound;
      uids = v.alloc.listed.uids;
    };
  };
  others = v.others;
  accounted = v.accounted;
  used = v.used;
  named = v.named;
}

-- A callback of protocol `p` that took `c` to `c'`.
abbrev pub Answers : Conn → Conn → Type 0
Answers c c' = IsAccounted c' × IsFrame c c' × (c'.proto ≡ c.proto)

-- What the manager relies on in the callbacks: each acts on its connection by sending at most, and
-- says what else is to be done by its answer; `on_write` and `on_connect` do not answer that reading
-- stops, as src/server/protocol.h forbids; and `on_close` starts no operation.
pub record IsPolite (cb : Callbacks) : Type 0 where
  pub assign :
      (p : ℕ) (c : Conn)
      → c.proto ≡ some p
      → IsAccounted c
      → Answers c (cb.on_assign_protocol p c).1
  pub connect :
      (p : ℕ) (c : Conn) → c.proto ≡ some p → IsAccounted c → Answers c (cb.on_connect p c).1
  pub write : (p : ℕ) (c : Conn) → c.proto ≡ some p → IsAccounted c → Answers c (cb.on_write p c).1
  pub recv :
      (p : ℕ) (c : Conn) (buf : List ℕ) (len : ℕ)
      → c.proto ≡ some p
      → IsAccounted c
      → Answers c (cb.on_recv_message p c buf len).1
  pub recv_first :
      (p : ℕ) (c : Conn) (buf : List ℕ) (len : ℕ)
      → c.proto ≡ some p
      → IsAccounted c
      → Answers c (cb.on_recv_first_message p c buf len).1
  pub write_answer : (p : ℕ) (c : Conn) → (cb.on_write p c).0 ≢ Status.stop_reading
  pub connect_answer : (p : ℕ) (c : Conn) → (cb.on_connect p c).0 ≢ Status.stop_reading
  pub quiet :
      (p : ℕ) (c : Conn)
      → c.pending_work ≡ 0
      → IsAccounted c
      → Answers c (cb.on_close p c) × ((cb.on_close p c).pending_work ≡ 0)
