-- ===== src/Memory/Outbuf/Tests.antt =====
-- src/outbuf.c: a pool with two idle buffers.
use kaplarc.Base.{arith, refl, [], ◌∷◌}
use kaplarc.Memory.Outbuf.{Pool}
use kaplarc.Memory.Outbuf.Idle.{IsPool, IsIdle}

abbrev two_idle : Pool
two_idle = record { outbuf_list_size = 2; outbuf_head = 100 ∷ 200 ∷ [] }

two_idle-IsPool : IsPool two_idle
two_idle-IsPool = record {
  counted = refl;
  few = omega arith;
  distinct = ((omega arith, tt), (tt, tt));
}

another : IsIdle two_idle 300
another = (omega arith, (omega arith, tt))
