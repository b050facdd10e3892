-- ===== src/Server/Connection/Handlers/Keep.antt =====
-- Closing, and the retried operations, leave a valid manager.
use kaplarc.Base.{
  ℕ, zero, suc, ◌+◌, ◌≤◌, ◌<◌, ◌≡◌, ◌≢◌, inl, inr, Bool, true, false, Option, none, some, arith,
  refl, Bool-cases, if◌then◌else◌, ==_refl, eq→==, ne→==_false, sym, ◌∙◌, ℕ_discrete,
}
use kaplarc.Server.Connection.State.{
  Conn, Mgr, Event, Callbacks, put, logged, conn_input_buffer_size,
}
use kaplarc.Server.Connection.Slots.Inv.{IsAccounted, IsValid}
use kaplarc.Server.Connection.Slots.Free.{internal_free-IsValid, internal_free-uid_ne}
use kaplarc.Server.Connection.Operations.{
  Read, length_read, body_read, internal_start_async_read, internal_start_async_write,
  internal_dispatch_on_close, internal_close_operation, internal_start_close_operation,
  internal_abort, try_read, try_write,
}
use kaplarc.Server.Connection.Handlers.{close_if_done}
use kaplarc.Server.Connection.Handlers.Open.{
  IsOpen, IsFrame, IsPolite, IsOpen-IsValid, put-IsOpen, logged-IsOpen,
}

closing-IsAccounted : (c : Conn) → IsAccounted c → IsAccounted (record c { closing = true })
closing-IsAccounted c a = ground arith

module _ (cb : Callbacks) (laws : IsPolite cb) where
  dispatch_on_close-IsOpen :
      (m : Mgr) (i : ℕ)
      → IsOpen m i
      → (m.ctl i).pending_work ≡ 0
      → IsOpen (internal_dispatch_on_close cb m i) i
        × (((internal_dispatch_on_close cb m i).ctl i).pending_work ≡ 0)
        × (((internal_dispatch_on_close cb m i).ctl i).uid ≡ (m.ctl i).uid)
  unfolding internal_dispatch_on_close
  dispatch_on_close-IsOpen m i v done = by_proto (m.ctl i).proto
    where
      after : ℕ → Mgr
      after p = put m i (record (cb.on_close p (m.ctl i)) { proto = none })

      by_proto :
          (p : Option ℕ)
          → let m' : Mgr = elim p [
            | none ↦ m
            | some q ↦ logged (Event.on_close q (m.ctl i).uid) (after q)
          ] in
            IsOpen m' i × ((m'.ctl i).pending_work ≡ 0) × ((m'.ctl i).uid ≡ (m.ctl i).uid)
      by_proto none = (v, done, refl)
      by_proto (some p) =
          let q = laws.quiet p (m.ctl i) done v.accounted in
          (
            logged-IsOpen (Event.on_close p (m.ctl i).uid) (after p) i (
                put-IsOpen m i (record (cb.on_close p (m.ctl i)) { proto = none }) v q.0.1.same_use
                  q.0.1.same_uid (ground arith)),
            rw (==_refl i) q.1,
            rw (==_refl i) q.0.1.same_uid,
          )

  -- A connection with nothing pending is closed and its slot given back.
  pub close_operation-IsValid :
      (m : Mgr) (i : ℕ)
      → IsOpen m i
      → (m.ctl i).pending_work ≡ 0
      → IsValid (internal_close_operation cb m i)
  unfolding internal_close_operation
  close_operation-IsValid m i v done =
      let m1 = internal_dispatch_on_close cb m i in
      let (v1, done1, _) = dispatch_on_close-IsOpen m i v done in
      let e = Event.closesocket (m1.ctl i).s in
      let w = logged-IsOpen e m1 i v1 in
      internal_free-IsValid (logged e m1) i w.alloc w.others w.accounted w.used w.named done1

  -- After that the slot has another uid.
  pub close_operation-uid_ne :
      (m : Mgr) (i : ℕ)
      → IsOpen m i
      → (m.ctl i).pending_work ≡ 0
      → ((internal_close_operation cb m i).ctl i).uid ≢ (m.ctl i).uid
  unfolding internal_close_operation
  close_operation-uid_ne m i v done =
      let m1 = internal_dispatch_on_close cb m i in
      let (v1, done1, same) = dispatch_on_close-IsOpen m i v done in
      let e = Event.closesocket (m1.ctl i).s in
      let w = logged-IsOpen e m1 i v1 in
      λ h. internal_free-uid_ne (logged e m1) i w.alloc w.used w.named (h ∙ sym same)

  pub start_close_operation-IsValid :
      (m : Mgr) (i : ℕ) (abort : Bool)
      → IsOpen m i
      → IsValid (internal_start_close_operation cb m i abort)
  unfolding internal_start_close_operation
  start_close_operation-IsValid m i abort v = elim (ℕ_discrete (m.ctl i).pending_work 0) [
    | yes done ↦ rw (eq→== (m.ctl i).pending_work 0 done) (close_operation-IsValid m i v done)
    | no busy ↦ rw (ne→==_false (m.ctl i).pending_work 0 busy) (
        let e = if abort then Event.cancel_all (m.ctl i).s else Event.cancel_read (m.ctl i).s in
        let c = record (m.ctl i) { closing = true } in
        let w =
          logged-IsOpen e (put m i c) i
            (put-IsOpen m i c v refl refl (closing-IsAccounted (m.ctl i) v.accounted)) in
        IsOpen-IsValid (logged e (put m i c)) i w (λ _. rw (==_refl i) (omega arith)))
  ]

  -- A connection that is closing is closed when its last operation has completed.
  pub close_if_done-IsValid : (m : Mgr) (i : ℕ) → IsOpen m i → IsValid (close_if_done cb m i)
  unfolding close_if_done
  close_if_done-IsValid m i v = elim (ℕ_discrete (m.ctl i).pending_work 0) [
    | yes done ↦ rw (eq→== (m.ctl i).pending_work 0 done) (close_operation-IsValid m i v done)
    | no busy ↦
        rw (ne→==_false (m.ctl i).pending_work 0 busy) (IsOpen-IsValid m i v (λ _. omega arith))
  ]

-- A read that is started is accounted for; one that is not leaves the accounts.
pub start_read_lem :
    (c : Conn) (readlen : ℕ) (r : Read)
    → IsAccounted c
    → c.length_reads + c.body_reads ≡ 0
    → readlen ≤ conn_input_buffer_size
    → let (ok, c') = internal_start_async_read c readlen r in
      IsAccounted c'
      × (c'.uid ≡ c.uid)
      × (c'.inuse ≡ c.inuse)
      × (c'.closing ≡ c.closing)
      × (ok ≡ true → 0 < c'.pending_work)
      × (ok ≡ false → c'.length_reads + c'.body_reads ≡ 0)
unfolding internal_start_async_read
start_read_lem c readlen length_read a none_read fits = ground arith
start_read_lem c readlen body_read a none_read fits = ground arith

-- A write that is started while none is pending is accounted for.
pub start_write_lem :
    (c : Conn)
    → IsAccounted c
    → c.writes ≡ 0
    → c.proto ≢ none
    → let (ok, c') = internal_start_async_write c in
      IsAccounted c'
      × IsFrame c c'
      × (c'.proto ≡ c.proto)
      × (ok ≡ true → 0 < c'.pending_work)
      × (ok ≡ false → c'.writes ≡ 0)
unfolding internal_start_async_write
start_write_lem c a none_written has_proto = ground arith

module _ (cb : Callbacks) (laws : IsPolite cb) where
  pub try_read-IsValid :
      (tries : ℕ) (m : Mgr) (i readlen : ℕ) (r : Read)
      → IsOpen m i
      → (m.ctl i).length_reads + (m.ctl i).body_reads ≡ 0
      → readlen ≤ conn_input_buffer_size
      → IsValid (try_read cb tries m i readlen r)
  unfolding try_read internal_abort
  try_read-IsValid zero m i readlen r v idle fits = start_close_operation-IsValid cb laws m i true v
  try_read-IsValid (suc tries) m i readlen r v idle fits =
      let res = internal_start_async_read (m.ctl i) readlen r in
      let (a, u, e, k, posted, failed) = start_read_lem (m.ctl i) readlen r v.accounted idle fits in
      let w = put-IsOpen m i res.1 v e u a in
      elim (Bool-cases res.0) [
        | inl ok ↦ rw ok (IsOpen-IsValid (put m i res.1) i w (λ _. rw (==_refl i) (posted ok)))
        | inr no_luck ↦ rw no_luck (
            try_read-IsValid tries (put m i res.1) i readlen r w (rw (==_refl i) (failed no_luck))
              fits)
      ]

  pub try_write-IsValid :
      (tries : ℕ) (m : Mgr) (i : ℕ)
      → IsOpen m i
      → (m.ctl i).writes ≡ 0
      → (m.ctl i).proto ≢ none
      → IsValid (try_write cb tries m i)
  unfolding try_write internal_abort
  try_write-IsValid zero m i v idle has_proto = start_close_operation-IsValid cb laws m i true v
  try_write-IsValid (suc tries) m i v idle has_proto =
      let res = internal_start_async_write (m.ctl i) in
      let (a, f, same, posted, failed) = start_write_lem (m.ctl i) v.accounted idle has_proto in
      let w = put-IsOpen m i res.1 v f.same_use f.same_uid a in
      elim (Bool-cases res.0) [
        | inl ok ↦ rw ok (IsOpen-IsValid (put m i res.1) i w (λ _. rw (==_refl i) (posted ok)))
        | inr no_luck ↦ rw no_luck (
            try_write-IsValid tries (put m i res.1) i w (rw (==_refl i) (failed no_luck))
              (rw (==_refl i) (λ e. has_proto (sym same ∙ e))))
      ]
