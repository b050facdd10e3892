-- ===== src/Server/Connection/Handlers/Interface.antt =====
-- The connection interface of src/server/iocp_connmgr.c: a current uid acts on its connection, a
-- stale uid is ignored; and the check for idle connections.
use kaplarc.Base.{
  ℕ, zero, suc, ◌+◌, ◌%◌, ◌^◌, ◌<◌, ◌≡◌, ◌≢◌, Bool, true, false, none, some, List, arith, refl,
  ◌==◌, if◌then◌else◌, ==_refl, eq→==, ne→==_false, sym, ap, ◌∙◌, ℕ_discrete, if_either, ==→eq,
}
use kaplarc.Server.Connection.State.{Conn, Mgr, Callbacks, put, max_connections}
use kaplarc.Server.Connection.Slots.{conn_ctl}
use kaplarc.Server.Connection.Slots.Uid.{conn_ctl_lem}
use kaplarc.Server.Connection.Slots.Inv.{IsAccounted, IsValid}
use kaplarc.Server.Connection.Operations.{internal_abort, internal_close, internal_close_operation}
use kaplarc.Server.Connection.Handlers.{
  connection_close, connection_abort, connection_send, connection_userdata, send_on, timeout_slot,
  timeout_slots, connmgr_timeout_check,
}
use kaplarc.Server.Connection.Handlers.Open.{
  Answers, IsPolite, IsOpen-IsValid, IsValid-IsOpen, put-IsOpen,
}
use kaplarc.Server.Connection.Handlers.Keep.{start_write_lem, close_operation-uid_ne}
use kaplarc.Server.Connection.Handlers.Complete.{Ends, abort-IsValid, close-IsValid}

-- Whoever holds `uid` holds the handle of a connection that is in use, or a stale one.
abbrev pub IsHandle : Mgr → ℕ → Type 0
IsHandle m uid =
    (uid % 2 ^ 16 < max_connections)
    × ((m.ctl (uid % 2 ^ 16)).uid ≡ uid → (m.ctl (uid % 2 ^ 16)).inuse ≡ true)

-- What a send leaves of the connection `c`.
abbrev Sent : Conn → Bool × Conn → Type 0
Sent c r = Answers c r.1

-- A send on a connection that is accounted for and has its protocol.
pub send_on_lem :
    (c : Conn) (p : List ℕ) (datalen : ℕ)
    → IsAccounted c
    → c.proto ≢ none
    → Answers c (send_on c p datalen).1
unfolding send_on
send_on_lem c p datalen a has_proto =
    let d = record c { output_data = p; output_len = datalen } in
    if_either (Sent c) c.output_in_progress _ _ (λ _. (a, ground arith, refl))
      (λ free.
        let idle : d.writes ≡ 0 = ground arith in
        let (w, f, same, _, _) = start_write_lem d (ground (arith, a)) idle has_proto in
        (w, ground (arith, f), same))

module _ (cb : Callbacks) (laws : IsPolite cb) where
  -- `connection_close` of a handle ends, in a valid manager.
  pub connection_close-Ends :
      (m : Mgr) (uid : ℕ) → IsValid m → IsHandle m uid → Ends (connection_close cb m uid)
  unfolding connection_close
  connection_close-Ends m uid v (h, used) =
      let i = uid % 2 ^ 16 in
      rw (conn_ctl_lem uid h) (
        if (m.ctl i).uid == uid then internal_close cb m i else m,
        refl,
        if_either IsValid ((m.ctl i).uid == uid) _ _
            (λ e.
              close-IsValid cb laws m i (IsValid-IsOpen m i v (used (==→eq (m.ctl i).uid uid e))))
            (λ _. v),
      )

  -- `connection_abort` of a handle ends, in a valid manager.
  pub connection_abort-Ends :
      (m : Mgr) (uid : ℕ) → IsValid m → IsHandle m uid → Ends (connection_abort cb m uid)
  unfolding connection_abort
  connection_abort-Ends m uid v (h, used) =
      let i = uid % 2 ^ 16 in
      rw (conn_ctl_lem uid h) (
        if (m.ctl i).uid == uid then internal_abort cb m i else m,
        refl,
        if_either IsValid ((m.ctl i).uid == uid) _ _
            (λ e.
              abort-IsValid cb laws m i (IsValid-IsOpen m i v (used (==→eq (m.ctl i).uid uid e))))
            (λ _. v),
      )

  -- With polite callbacks, after a connection of a valid manager that is in use and has no
  -- pending operation is closed, its uid is stale: with it the interface closes, aborts and sends
  -- nothing, and finds no user data.
  pub closed_uid_is_ignored :
      (m : Mgr) (i : ℕ)
      → IsValid m
      → (m.ctl i).inuse ≡ true
      → (m.ctl i).pending_work ≡ 0
      → let uid = (m.ctl i).uid in
        let m' = internal_close_operation cb m i in
        (connection_close cb m' uid ≡ some m')
        × (connection_abort cb m' uid ≡ some m')
        × (connection_userdata m' uid ≡ some none)
        × ((p : List ℕ) (n : ℕ) → connection_send m' uid p n ≡ some (false, m'))
  unfolding connection_close connection_abort connection_userdata connection_send
  closed_uid_is_ignored m i v used done =
      let uid = (m.ctl i).uid in
      let named = (v.slots i).named used in
      let below : uid % 2 ^ 16 < max_connections =
        ground (arith, v.alloc.listed.untouched i, v.alloc.listed.bound) in
      let here : conn_ctl uid ≡ some i = conn_ctl_lem uid below ∙ ap some named in
      let stale =
        ne→==_false ((internal_close_operation cb m i).ctl i).uid uid
          (close_operation-uid_ne cb laws m i (IsValid-IsOpen m i v used) done) in
      (
        rw (here, stale) refl,
        rw (here, stale) refl,
        rw (here, stale) refl,
        λ p n. rw (here, stale) refl,
      )

  timeout_slot-IsValid : (m : Mgr) (i : ℕ) → IsValid m → IsValid (timeout_slot cb m i)
  unfolding timeout_slot
  timeout_slot-IsValid m i v =
      if_either IsValid (m.ctl i).inuse _ _
        (λ used.
          let c = record (m.ctl i) { rdwr_count = 0 } in
          let a : IsAccounted c = ground (arith, (v.slots i).accounted) in
          if_either IsValid ((m.ctl i).rdwr_count == 0) _ _
            (λ _. abort-IsValid cb laws m i (IsValid-IsOpen m i v used))
            (λ _.
              IsOpen-IsValid (put m i c) i
                (put-IsOpen m i c (IsValid-IsOpen m i v used) refl refl a)
                (rw (==_refl i) ((v.slots i).busy used))))
        (λ _. v)

  timeout_slots-IsValid : (n i : ℕ) (m : Mgr) → IsValid m → IsValid (timeout_slots cb n i m)
  unfolding timeout_slots
  timeout_slots-IsValid zero i m v = v
  timeout_slots-IsValid (suc n) i m v =
      timeout_slots-IsValid n (i + 1) (timeout_slot cb m i) (timeout_slot-IsValid m i v)

  -- With polite callbacks, `connmgr_timeout_check` of a valid manager leaves a valid manager.
  pub connmgr_timeout_check-IsValid : (m : Mgr) → IsValid m → IsValid (connmgr_timeout_check cb m)
  unfolding connmgr_timeout_check
  connmgr_timeout_check-IsValid m v = timeout_slots-IsValid m.next_unused_slot 0 m v

-- For a handle in a valid manager whose connection, when the handle is not stale, has its
-- protocol: `connection_send` ends, and leaves a valid manager.
pub connection_send-Ends :
    (m : Mgr) (uid : ℕ) (p : List ℕ) (datalen : ℕ)
    → IsValid m
    → IsHandle m uid
    → ((m.ctl (uid % 2 ^ 16)).uid ≡ uid → (m.ctl (uid % 2 ^ 16)).proto ≢ none)
    → (sent : Bool) × (m' : Mgr) × (connection_send m uid p datalen ≡ some (sent, m')) × IsValid m'
unfolding connection_send
connection_send-Ends m uid p datalen v (h, used) has_proto =
    let i = uid % 2 ^ 16 in
    let r = send_on (m.ctl i) p datalen in
    rw (conn_ctl_lem uid h) (elim (ℕ_discrete (m.ctl i).uid uid) [
      | yes e ↦
          let (a, f, same) = send_on_lem (m.ctl i) p datalen (v.slots i).accounted (has_proto e) in
          rw (eq→== (m.ctl i).uid uid e) (
            r.0,
            put m i r.1,
            refl,
            IsOpen-IsValid (put m i r.1) i
                (put-IsOpen m i r.1 (IsValid-IsOpen m i v (used e)) f.same_use f.same_uid a)
                (rw (==_refl i) (λ c.
                  omega (arith, f.work_kept, (v.slots i).busy (used e) (sym f.same_closing ∙ c)))),
          )
      | no ne ↦ rw (ne→==_false (m.ctl i).uid uid ne) (false, m, refl, v)
    ])
