-- ===== src/Server/Connection/Slots.antt =====
-- `internal_alloc` and `internal_free`: the free list threaded through the uids.
pub mod Uid
pub mod Inv
pub mod Chain
pub mod Alloc
pub mod Free
use kaplarc.Base.{
  ℕ, ◌+◌, ◌*◌, ◌%◌, ◌^◌, true, false, not, Option, none, some, u16, u32, bit_and, bit_or, ltb, ◌==◌,
  if◌then◌else◌,
}
use kaplarc.Server.Connection.State.{Conn, Mgr, put, max_connections, uint16_max}

-- ((uid + 0x00010000) & 0xFFFF0000) | slot
unfoldable pub alloc_uid : ℕ → ℕ → ℕ
alloc_uid uid slot = bit_or (bit_and (u32 (uid + 0x00010000)) 0xFFFF0000) slot

-- (uid & 0xFFFF0000) | freelist
unfoldable pub free_uid : ℕ → ℕ → ℕ
free_uid uid freelist = bit_or (bit_and uid 0xFFFF0000) freelist

-- `c->uid = …; c->flags = CONN_INUSE`
unfoldable pub opened : Conn → ℕ → Conn
opened c slot = record c {
  uid = alloc_uid c.uid slot;
  inuse = true;
  closing = false;
  first_msg = false;
  output_in_progress = false;
}

-- The slot that was taken, or NULL when there is none.
unfoldable pub internal_alloc : Mgr → Option (Mgr × ℕ)
internal_alloc m =
    let slot = m.freelist in
    let reused = record (put m slot (opened (m.ctl slot) slot)) {
      freelist = u16 (bit_and (m.ctl slot).uid 0xFFFF);
    } in
    let fresh = m.next_unused_slot in
    let grown = record (put m fresh (opened (m.ctl fresh) fresh)) {
      next_unused_slot = fresh + 1;
    } in
    if not (m.freelist == uint16_max)
    then some (reused, slot)
    else if not (ltb fresh max_connections)
    then none
    else some (grown, fresh)

unfoldable pub internal_free : Mgr → ℕ → Mgr
internal_free m i =
    let c = m.ctl i in
    let slot = bit_and c.uid 0xFFFF in
    record (put m i (record c { uid = free_uid c.uid m.freelist; inuse = not c.inuse })) {
      freelist = slot;
    }

-- CONN_CTL: the slot that a uid names. `none` is a slot outside the array.
unfoldable pub conn_ctl : ℕ → Option ℕ
conn_ctl uid = let slot = bit_and uid 0xFFFF in if ltb slot max_connections then some slot else none
