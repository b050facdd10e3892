-- ===== src/Server/Connection/Handlers/Complete.antt =====
-- Every completion handler, and the start of a connection, runs without a fault and leaves a
-- valid manager.
use kaplarc.Base.{
  ℕ, ◌+◌, ◌≤◌, ◌≡◌, ◌≢◌, Bool, true, false, ◌||◌, Option, none, some, List, ◌∷◌, arith, refl, ◌==◌,
  if◌then◌else◌, ==_refl, ◌∙◌, ltb, length, ◌>>=◌, if_either, u16, bit_or, ◌<<<◌,
}
use kaplarc.Codec.Portable.{decode_u16_le}
use kaplarc.Server.Connection.State.{Conn, Mgr, Callbacks, Status, put, conn_input_buffer_size}
use kaplarc.Server.Connection.Slots.Inv.{IsAccounted, IsValid}
use kaplarc.Server.Connection.Operations.{
  Read, length_read, body_read, internal_abort, internal_close, internal_async_read,
  internal_async_write,
}
use kaplarc.Server.Connection.Handlers.{
  close_if_done, read_length_done, read_body_done, write_done, message_done, answer_done,
  internal_dispatch_on_recv_message, dispatch_message, select_protocol, internal_dispatch_on_write,
}
use kaplarc.Server.Connection.Handlers.Open.{IsOpen, IsFrame, IsPolite, IsOpen-IsValid, put-IsOpen}
use kaplarc.Server.Connection.Handlers.Keep.{
  start_close_operation-IsValid, close_if_done-IsValid, try_read-IsValid, try_write-IsValid,
}

-- The run ends, in a valid manager.
abbrev pub Ends : Option Mgr → Type 0
Ends r = (m : Mgr) × (r ≡ some m) × IsValid m

-- What a dispatch leaves of the connection `c`.
abbrev Reply : Conn → Status × Conn → Type 0
Reply c r = IsAccounted r.1 × IsFrame c r.1

module _ (cb : Callbacks) (laws : IsPolite cb) where
  pub abort-IsValid : (m : Mgr) (i : ℕ) → IsOpen m i → IsValid (internal_abort cb m i)
  unfolding internal_abort
  abort-IsValid m i v = start_close_operation-IsValid cb laws m i true v

  pub close-IsValid : (m : Mgr) (i : ℕ) → IsOpen m i → IsValid (internal_close cb m i)
  unfolding internal_close
  close-IsValid m i v = start_close_operation-IsValid cb laws m i false v

  async_read-IsValid :
      (m : Mgr) (i readlen : ℕ) (r : Read)
      → IsOpen m i
      → (m.ctl i).length_reads + (m.ctl i).body_reads ≡ 0
      → readlen ≤ conn_input_buffer_size
      → IsValid (internal_async_read cb m i readlen r)
  unfolding internal_async_read
  async_read-IsValid m i readlen r v idle fits =
      try_read-IsValid cb laws 5 m i readlen r v idle fits

  async_write-IsValid :
      (m : Mgr) (i : ℕ)
      → IsOpen m i
      → (m.ctl i).writes ≡ 0
      → (m.ctl i).proto ≢ none
      → IsValid (internal_async_write cb m i)
  unfolding internal_async_write
  async_write-IsValid m i v idle has_proto = try_write-IsValid cb laws 5 m i v idle has_proto

  -- The body read that a length starts.
  body_read_started :
      (m : Mgr) (i bodylen : ℕ)
      → IsOpen m i
      → (m.ctl i).length_reads + (m.ctl i).body_reads ≡ 0
      → (b : Bool) → (ltb conn_input_buffer_size bodylen || bodylen == 0) ≡ b
      → Ends (
          if b
          then some (internal_abort cb m i)
          else some (
              internal_async_read cb
                (put m i (record (m.ctl i) { bodylen = bodylen }))
                i
                bodylen
                body_read))
  body_read_started m i bodylen v idle true e = (internal_abort cb m i, refl, abort-IsValid m i v)
  body_read_started m i bodylen v idle false e =
      let c = record (m.ctl i) { bodylen = bodylen } in
      let a : IsAccounted c = ground (arith, v.accounted) in
      (
        internal_async_read cb (put m i c) i bodylen body_read,
        refl,
        async_read-IsValid (put m i c) i bodylen body_read (put-IsOpen m i c v refl refl a)
            (rw (==_refl i) idle) (ground arith),
      )

  pub read_length_done-Ends :
      (m : Mgr) (i : ℕ) (err : Bool) (transferred : ℕ) (buf : List ℕ)
      → IsOpen m i
      → (m.ctl i).length_reads + (m.ctl i).body_reads ≡ 0
      → 2 ≤ length buf
      → Ends (read_length_done cb m i err transferred buf)
  unfolding read_length_done decode_u16_le
  read_length_done-Ends m i err transferred (b0 ∷ b1 ∷ buf) v idle h =
      if_either Ends (m.ctl i).closing _ _
        (λ _. (close_if_done cb m i, refl, close_if_done-IsValid cb laws m i v))
        (λ _.
          if_either Ends err _ _
            (λ _. (
              internal_async_read cb m i 2 length_read,
              refl,
              async_read-IsValid m i 2 length_read v idle (omega arith),
            ))
            (λ _.
              if_either Ends (transferred == 0) _ _
                (λ _. (internal_abort cb m i, refl, abort-IsValid m i v))
                (λ _. body_read_started m i (u16 (bit_or b0 (b1 <<< 8))) v idle _ refl)))
  read_length_done-Ends m i err transferred _ v idle h = absurd (omega arith)

  dispatch_message_answers :
      (p : ℕ) (c : Conn) (buf : List ℕ) (len : ℕ)
      → c.proto ≡ some p
      → IsAccounted c
      → Reply c (dispatch_message cb p c buf len)
  unfolding dispatch_message
  dispatch_message_answers p c buf len e a =
      let c1 = record c { first_msg = true } in
      let a1 : IsAccounted c1 = ground arith in
      if_either (Reply c) c.first_msg _ _ (λ _. let r = laws.recv p c buf len e a in (r.0, r.1))
        (λ _. let r = laws.recv_first p c1 buf len e a1 in (r.0, ground (arith, r.1)))

  select_protocol_answers :
      (c : Conn) (buf : List ℕ) (len : ℕ) → IsAccounted c → Reply c (select_protocol cb c buf len)
  unfolding select_protocol
  select_protocol_answers c buf len a = by_choice (cb.service_select_protocol c.udata buf len)
    where
      by_choice :
          (o : Option ℕ)
          → let r : Status × Conn = elim o [
            | none ↦ (Status.abort, c)
            | some p ↦
                let (assigned, c') = cb.on_assign_protocol p (record c { proto = some p }) in
                if assigned then dispatch_message cb p c' buf len else (Status.abort, c')
          ] in
            Reply c r
      by_choice none = (a, ground arith)
      by_choice (some p) =
          let c1 = record c { proto = some p } in
          let a1 : IsAccounted c1 = ground arith in
          let r = laws.assign p c1 refl a1 in
          let c2 = (cb.on_assign_protocol p c1).1 in
          if_either (Reply c) (cb.on_assign_protocol p c1).0 _ _
            (λ _.
              let d = dispatch_message_answers p c2 buf len r.2 r.0 in
              (d.0, ground (arith, d.1, r.1)))
            (λ _. (r.0, ground (arith, r.1)))

  pub recv_answers :
      (c : Conn) (buf : List ℕ) (len : ℕ)
      → IsAccounted c
      → Reply c (internal_dispatch_on_recv_message cb c buf len)
  unfolding internal_dispatch_on_recv_message
  recv_answers c buf len a = by_proto c.proto refl
    where
      by_proto :
          (o : Option ℕ)
          → c.proto ≡ o
          → let r : Status × Conn = elim o [
            | none ↦ select_protocol cb c buf len
            | some p ↦ dispatch_message cb p c buf len
          ] in
            Reply c r
      by_proto none e = select_protocol_answers c buf len a
      by_proto (some p) e = dispatch_message_answers p c buf len e a

  message_done-IsValid :
      (m : Mgr) (i : ℕ) (status : Status)
      → IsOpen m i
      → (m.ctl i).length_reads + (m.ctl i).body_reads ≡ 0
      → (m.ctl i).closing ≡ false
      → IsValid (message_done cb m i status)
  unfolding message_done
  message_done-IsValid m i Status.ok v idle going =
      async_read-IsValid m i 2 length_read v idle (omega arith)
  message_done-IsValid m i Status.stop_reading v idle going =
      IsOpen-IsValid m i v (λ e. absurd (cc))
  message_done-IsValid m i Status.close v idle going = close-IsValid m i v
  message_done-IsValid m i Status.abort v idle going = abort-IsValid m i v

  pub read_body_done-IsValid :
      (m : Mgr) (i : ℕ) (err : Bool) (transferred : ℕ) (buf : List ℕ)
      → IsOpen m i
      → (m.ctl i).length_reads + (m.ctl i).body_reads ≡ 0
      → IsValid (read_body_done cb m i err transferred buf)
  unfolding read_body_done
  read_body_done-IsValid m i err transferred buf v idle =
      let c = m.ctl i in
      let r = internal_dispatch_on_recv_message cb c buf c.bodylen in
      let (a, f) = recv_answers c buf c.bodylen v.accounted in
      if_either IsValid c.closing _ _ (λ _. close_if_done-IsValid cb laws m i v)
        (λ going.
          if_either IsValid err _ _
            (λ _. async_read-IsValid m i c.bodylen body_read v idle v.accounted.body_fits)
            (λ _.
              if_either IsValid (transferred == 0) _ _ (λ _. abort-IsValid m i v)
                (λ _.
                  message_done-IsValid (put m i r.1) i r.0
                    (put-IsOpen m i r.1 v f.same_use f.same_uid a)
                    (rw (==_refl i) (f.same_reads ∙ idle))
                    (rw (==_refl i) (f.same_closing ∙ going)))))

  pub answer_done-Ends :
      (m : Mgr) (i : ℕ) (status : Status)
      → IsOpen m i
      → (m.ctl i).closing ≡ false
      → status ≢ Status.stop_reading
      → Ends (answer_done cb m i status)
  unfolding answer_done
  answer_done-Ends m i Status.ok v going ne = (m, refl, IsOpen-IsValid m i v (λ e. absurd (cc)))
  answer_done-Ends m i Status.stop_reading v going ne = absurd (ne refl)
  answer_done-Ends m i Status.close v going ne = (internal_close cb m i, refl, close-IsValid m i v)
  answer_done-Ends m i Status.abort v going ne = (internal_abort cb m i, refl, abort-IsValid m i v)

  pub write_done-Ends :
      (m : Mgr) (i : ℕ) (err : Bool) (transferred : ℕ)
      → IsOpen m i
      → (m.ctl i).writes ≡ 0
      → (m.ctl i).proto ≢ none
      → Ends (write_done cb m i err transferred)
  unfolding write_done internal_dispatch_on_write
  write_done-Ends m i err transferred v idle has_proto =
      if_either Ends (m.ctl i).closing _ _
        (λ _. (close_if_done cb m i, refl, close_if_done-IsValid cb laws m i v))
        (λ going.
          if_either Ends err _ _
            (λ _. (internal_async_write cb m i, refl, async_write-IsValid m i v idle has_proto))
            (λ _.
              if_either Ends (transferred == 0) _ _
                (λ _. (internal_abort cb m i, refl, abort-IsValid m i v))
                (λ _. by_proto going (m.ctl i).proto refl)))
    where
      c1 : Conn
      c1 = record (m.ctl i) { output_in_progress = false }

      by_proto :
          (m.ctl i).closing ≡ false
          → (o : Option ℕ) → (m.ctl i).proto ≡ o
          → let r : Option (Status × Conn) = elim o [
            | none ↦ none
            | some p ↦ some (cb.on_write p (record (m.ctl i) { output_in_progress = false }))
          ] in
            Ends (r >>= λ r. answer_done cb (put m i r.1) i r.0)
      by_proto going none e = absurd (has_proto e)
      by_proto going (some p) e =
          let a1 : IsAccounted c1 = ground (arith, v.accounted) in
          let r = cb.on_write p c1 in
          let (a, f, _) = laws.write p c1 e a1 in
          answer_done-Ends (put m i r.1) i r.0 (put-IsOpen m i r.1 v f.same_use f.same_uid a)
            (rw (==_refl i) (f.same_closing ∙ going)) (laws.write_answer p c1)
