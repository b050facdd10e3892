-- ===== src/Server/Connection/Slots/Uid.antt =====
-- The uid arithmetic of src/server/iocp_connmgr.c: a counter above, a slot below.
use kaplarc.Base.{ℕ, ◌+◌, ◌*◌, ◌/◌, ◌%◌, ◌^◌, ◌<◌, ◌≡◌, ◌≢◌, arith, some, bit_and, u32, lt→ltb}
use kaplarc.Base.Bits.{or_disjoint, and_ones_mod, and_ones_shifted}
use kaplarc.Server.Connection.State.{max_connections}
use kaplarc.Server.Connection.Slots.{alloc_uid, free_uid, conn_ctl}

pub alloc_uid_lem :
    (uid slot : ℕ)
    → slot < 2 ^ 16
    → alloc_uid uid slot ≡ (uid / 2 ^ 16 + 1) % 2 ^ 16 * 2 ^ 16 + slot
unfolding alloc_uid
alloc_uid_lem uid slot h = ground (
  arith,
  and_ones_shifted 16 16 (u32 (uid + 0x00010000)),
  or_disjoint 16 (u32 (uid + 0x00010000) / 2 ^ 16 % 2 ^ 16) slot h,
)

pub free_uid_lem :
    (uid head : ℕ) → head < 2 ^ 16 → uid < 2 ^ 32 → free_uid uid head ≡ uid / 2 ^ 16 * 2 ^ 16 + head
unfolding free_uid
free_uid_lem uid head h u =
    ground (arith, and_ones_shifted 16 16 uid, or_disjoint 16 (uid / 2 ^ 16 % 2 ^ 16) head h)

pub slot_lem : (uid : ℕ) → bit_and uid 0xFFFF ≡ uid % 2 ^ 16
slot_lem uid = and_ones_mod 16 uid

-- A reused slot gets another uid.
pub alloc_uid-ne : (uid slot : ℕ) → slot < 2 ^ 16 → uid < 2 ^ 32 → alloc_uid uid slot ≢ uid
alloc_uid-ne uid slot h u = omega (arith, alloc_uid_lem uid slot h)

pub conn_ctl_lem : (uid : ℕ) → uid % 2 ^ 16 < max_connections → conn_ctl uid ≡ some (uid % 2 ^ 16)
unfolding conn_ctl
conn_ctl_lem uid h = rw (slot_lem uid, lt→ltb _ _ h)
