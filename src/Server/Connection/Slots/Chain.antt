-- ===== src/Server/Connection/Slots/Chain.antt =====
-- A slot that is no part of the free list can change.
use kaplarc.Base.{ℕ, ◌^◌, ◌≤◌, ◌<◌, ◌≡◌, false, List, arith}
use kaplarc.Server.Connection.State.{Conn, Mgr, put}
use kaplarc.Server.Connection.Slots.Inv.{has, FreeChain}
use kaplarc.Server.Connection.Slots.Inv.{chain_frame}

module _ (m : Mgr) (x : ℕ) (c : Conn) where
  pub chain_put :
      (bound head : ℕ) (xs : List ℕ)
      → m.next_unused_slot ≤ bound
      → has x xs ≡ false
      → FreeChain m.ctl m.next_unused_slot head xs
      → FreeChain (put m x c).ctl bound head xs
  chain_put bound head xs le out chain =
      chain_frame m.ctl (put m x c).ctl bound head xs le (λ j h. ground arith) chain

  pub uid_put :
      c.uid < 2 ^ 32
      → ((j : ℕ) → (m.ctl j).uid < 2 ^ 32)
      → (j : ℕ) → ((put m x c).ctl j).uid < 2 ^ 32
  uid_put h all j = ground (arith, all j)
