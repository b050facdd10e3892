-- ===== src/Server/Connection/Handlers/Completed.antt =====
-- The life of the connections: what the server loop, the operating system and the protocols may
-- do, in any order.
use kaplarc.Base.{
  ℕ, ◌+◌, ◌-◌, ◌%◌, ◌^◌, ◌≤◌, ◌<◌, ◌≡◌, Bool, true, some, List, arith, refl, ==_refl, ne→==_false,
  sym, ap, ◌∙◌, length,
}
use kaplarc.Server.Connection.State.{Conn, Mgr, Callbacks, put}
use kaplarc.Server.Connection.Slots.Inv.{IsAccounted, IsSlot, IsValid, put-IsAllocator}
use kaplarc.Server.Connection.Handlers.{
  internal_on_read_length, internal_on_read_body, internal_on_write,
}
use kaplarc.Server.Connection.Handlers.Open.{IsOpen, IsPolite}
use kaplarc.Server.Connection.Handlers.Complete.{
  read_length_done-Ends, read_body_done-IsValid, write_done-Ends,
}

-- The operating system takes a completed operation of slot `i` off its accounts.
abbrev pub length_completed : Mgr → ℕ → Mgr
length_completed m i = put m i (record (m.ctl i) { length_reads = (m.ctl i).length_reads - 1 })

abbrev pub body_completed : Mgr → ℕ → Mgr
body_completed m i = put m i (record (m.ctl i) { body_reads = (m.ctl i).body_reads - 1 })

abbrev pub write_completed : Mgr → ℕ → Mgr
write_completed m i = put m i (record (m.ctl i) { writes = (m.ctl i).writes - 1 })

-- A slot with an operation pending is in use.
used_of_pending : (i : ℕ) (c : Conn) → IsSlot i c → 0 < c.pending_work → c.inuse ≡ true
used_of_pending i c v h = ground (arith, v.idle)

-- A handler has taken the completed operation off the accounts too.
completed-IsOpen :
    (m : Mgr) (i : ℕ) (d c : Conn)
    → IsValid m
    → (m.ctl i).inuse ≡ true
    → d.inuse ≡ (m.ctl i).inuse
    → d.uid ≡ (m.ctl i).uid
    → c.inuse ≡ (m.ctl i).inuse
    → c.uid ≡ (m.ctl i).uid
    → IsAccounted c
    → IsOpen (put (put m i d) i c) i
completed-IsOpen m i d c v used du dn cu cn a = record {
  alloc =
      put-IsAllocator (put m i d) i c (rw (==_refl i) (cu ∙ sym du)) (rw (==_refl i) (cn ∙ sym dn))
        (put-IsAllocator m i d du dn v.alloc);
  others = λ j ne. rw (ne→==_false j i ne) (v.slots j);
  accounted = rw (==_refl i) a;
  used = rw (==_refl i) (cu ∙ used);
  named = rw (==_refl i) (ap (λ (t : ℕ). t % 2 ^ 16) cn ∙ (v.slots i).named used);
}

module _ (cb : Callbacks) (laws : IsPolite cb) where
  -- With polite callbacks, the completion of a pending length read of a valid manager, whose
  -- input buffer has at least two bytes, is handled without a fault, and leaves a valid manager.
  pub internal_on_read_length-Ends :
      (m : Mgr) (i : ℕ) (err : Bool) (transferred : ℕ) (buf : List ℕ)
      → IsValid m
      → 0 < (m.ctl i).length_reads
      → 2 ≤ length buf
      → (m' : Mgr) × (internal_on_read_length cb (length_completed m i) i err transferred buf
          ≡ some m')
        × IsValid m'
  unfolding internal_on_read_length
  internal_on_read_length-Ends m i err transferred buf v h size =
      let a = (v.slots i).accounted in
      let used = used_of_pending i (m.ctl i) (v.slots i) (omega arith) in
      let d = record (m.ctl i) { length_reads = (m.ctl i).length_reads - 1 } in
      let c = record d { pending_work = d.pending_work - 1 } in
      let w = completed-IsOpen m i d c v used refl refl refl refl (ground arith) in
      rw (==_refl i) (
        read_length_done-Ends cb laws (put (put m i d) i c) i err transferred buf w
          (rw (==_refl i) (omega arith)) size)

  -- With polite callbacks, the completion of a pending body read of a valid manager leaves a
  -- valid manager.
  pub internal_on_read_body-IsValid :
      (m : Mgr) (i : ℕ) (err : Bool) (transferred : ℕ) (buf : List ℕ)
      → IsValid m
      → 0 < (m.ctl i).body_reads
      → IsValid (internal_on_read_body cb (body_completed m i) i err transferred buf)
  unfolding internal_on_read_body
  internal_on_read_body-IsValid m i err transferred buf v h =
      let a = (v.slots i).accounted in
      let used = used_of_pending i (m.ctl i) (v.slots i) (omega arith) in
      let d = record (m.ctl i) { body_reads = (m.ctl i).body_reads - 1 } in
      let c = record d { pending_work = d.pending_work - 1; rdwr_count = d.rdwr_count + 1 } in
      let w = completed-IsOpen m i d c v used refl refl refl refl (ground arith) in
      rw (==_refl i) (
        read_body_done-IsValid cb laws (put (put m i d) i c) i err transferred buf w
          (rw (==_refl i) (omega arith)))

  -- With polite callbacks, the completion of a pending write of a valid manager is handled
  -- without a fault, and leaves a valid manager.
  pub internal_on_write-Ends :
      (m : Mgr) (i : ℕ) (err : Bool) (transferred : ℕ)
      → IsValid m
      → 0 < (m.ctl i).writes
      → (m' : Mgr) × (internal_on_write cb (write_completed m i) i err transferred ≡ some m')
        × IsValid m'
  unfolding internal_on_write
  internal_on_write-Ends m i err transferred v h =
      let a = (v.slots i).accounted in
      let used = used_of_pending i (m.ctl i) (v.slots i) (omega arith) in
      let d = record (m.ctl i) { writes = (m.ctl i).writes - 1 } in
      let c = record d { pending_work = d.pending_work - 1; rdwr_count = d.rdwr_count + 1 } in
      let w = completed-IsOpen m i d c v used refl refl refl refl (ground arith) in
      rw (==_refl i) (
        write_done-Ends cb laws (put (put m i d) i c) i err transferred w
          (rw (==_refl i) (omega arith)) (rw (==_refl i) (a.reports h)))
