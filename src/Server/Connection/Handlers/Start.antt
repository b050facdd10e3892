-- ===== src/Server/Connection/Handlers/Start.antt =====
-- A connection is started without a fault while a slot is free.
use kaplarc.Base.{
  ℕ, ◌+◌, ◌<◌, ◌≡◌, ◌≢◌, inl, inr, Bool, false, none, some, List, arith, refl, if◌then◌else◌,
  ==_refl, sym, ◌∙◌, true_ne_false, if_either,
}
use kaplarc.Server.Connection.State.{Conn, Mgr, Callbacks, Status, put}
use kaplarc.Server.Connection.Slots.Inv.{IsAccounted, IsValid}
use kaplarc.Server.Connection.Operations.{length_read, internal_abort, internal_start_async_read}
use kaplarc.Server.Connection.Handlers.{
  connmgr_start_connection, internal_dispatch_on_connect, connection_started, connect_done,
}
use kaplarc.Server.Connection.Handlers.Open.{
  IsOpen, IsFrame, IsPolite, IsOpen-IsValid, IsValid-IsOpen, put-IsOpen,
}
use kaplarc.Server.Connection.Handlers.Keep.{start_read_lem}
use kaplarc.Server.Connection.Handlers.Complete.{Ends, answer_done-Ends, abort-IsValid}
use kaplarc.Server.Connection.Slots.Alloc.{internal_alloc_lem}
use kaplarc.Server.Connection.State.{max_connections}

-- What the greeting of a new connection `c` leaves of it.
abbrev Greeted : Conn → Status × Conn → Type 0
Greeted c r = IsAccounted r.1 × IsFrame c r.1 × (r.0 ≢ Status.stop_reading)

module _ (cb : Callbacks) (laws : IsPolite cb) where
  connect_answers :
      (c : Conn)
      → IsAccounted c
      → IsAccounted (internal_dispatch_on_connect cb c).1
        × IsFrame c (internal_dispatch_on_connect cb c).1
        × ((internal_dispatch_on_connect cb c).0 ≢ Status.stop_reading)
  unfolding internal_dispatch_on_connect
  connect_answers c a =
      let p = cb.service_first_protocol c.udata in
      let c1 = record c { proto = some p } in
      let a1 : IsAccounted c1 = ground arith in
      let r = laws.assign p c1 refl a1 in
      let c2 = (cb.on_assign_protocol p c1).1 in
      if_either (Greeted c) (cb.service_sends_first c.udata) _ _
        (λ _.
          if_either (Greeted c) (cb.on_assign_protocol p c1).0 _ _
            (λ _.
              let d = laws.connect p c2 r.2 r.0 in
              (d.0, ground (arith, d.1, r.1), laws.connect_answer p c2))
            (λ _. (r.0, ground (arith, r.1), λ e. cc)))
        (λ _. (a, ground arith, λ e. cc))

  connection_started-Ends :
      (m : Mgr) (i : ℕ)
      → IsOpen m i
      → (m.ctl i).length_reads + (m.ctl i).body_reads ≡ 0
      → Ends (connection_started cb m i)
  unfolding connection_started
  connection_started-Ends m i v idle =
      let r = internal_start_async_read (m.ctl i) 2 length_read in
      let (a, u, e, k, posted, _) =
        start_read_lem (m.ctl i) 2 length_read v.accounted idle (omega arith) in
      let w = put-IsOpen m i r.1 v e u a in
      (
        if r.0 then put m i r.1 else internal_abort cb (put m i r.1) i,
        refl,
        if_either IsValid r.0 _ _
            (λ ok. IsOpen-IsValid (put m i r.1) i w (λ _. rw (==_refl i) (posted ok)))
            (λ _. abort-IsValid cb laws (put m i r.1) i w),
      )

  pub connect_done-Ends :
      (m : Mgr) (i : ℕ) (status : Status)
      → IsOpen m i
      → (m.ctl i).length_reads + (m.ctl i).body_reads ≡ 0
      → (m.ctl i).closing ≡ false
      → status ≢ Status.stop_reading
      → Ends (connect_done cb m i status)
  unfolding connect_done
  connect_done-Ends m i Status.ok v idle going ne = connection_started-Ends m i v idle
  connect_done-Ends m i Status.stop_reading v idle going ne =
      answer_done-Ends cb laws m i Status.stop_reading v going ne
  connect_done-Ends m i Status.close v idle going ne =
      answer_done-Ends cb laws m i Status.close v going ne
  connect_done-Ends m i Status.abort v idle going ne =
      answer_done-Ends cb laws m i Status.abort v going ne

  -- With polite callbacks, while a slot of a valid manager is free, a connection is started: the
  -- run has no fault, and the manager it leaves is valid.
  pub connmgr_start_connection-Ends :
      (m : Mgr) (s svc j : ℕ) (answers : List Bool)
      → IsValid m
      → j < max_connections
      → (m.ctl j).inuse ≡ false
      → (m' : Mgr) × (connmgr_start_connection cb m s svc answers ≡ some m') × IsValid m'
  unfolding connmgr_start_connection
  connmgr_start_connection-Ends m s svc j answers v h free = elim (internal_alloc_lem m v) [
    | inl (m1, i, e, o) ↦
        let c0 = m1.ctl i in
        let c : Conn = record c0 {
          s = s;
          rdwr_count = 1;
          pending_work = 0;
          proto = none;
          udata = svc;
          answers = answers;
        } in
        let a0 = (o.valid.slots i).accounted in
        let a : IsAccounted c = ground (arith, a0, o.no_work) in
        let r = internal_dispatch_on_connect cb c in
        let (a1, f, ne) = connect_answers c a in
        let w = put-IsOpen m1 i r.1 (IsValid-IsOpen m1 i o.valid o.used) f.same_use f.same_uid a1 in
        rw e (
          connect_done-Ends (put m1 i r.1) i r.0 w
            (rw (==_refl i) (f.same_reads ∙ omega (arith, a0.pending, o.no_work)))
            (rw (==_refl i) (f.same_closing ∙ o.going)) ne)
    | inr (e, full) ↦ absurd (true_ne_false (sym (full j h) ∙ free))
  ]
