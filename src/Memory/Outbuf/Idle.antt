-- ===== src/Memory/Outbuf/Idle.antt =====
-- src/outbuf.c: the list of idle buffers.
use kaplarc.Base.{
  ℕ, ◌-◌, ◌≤◌, ◌≡◌, ◌≢◌, arith, refl, ap, subst, Option, none, List, [], ◌∷◌, length, ltb,
  if_either, All,
}
use kaplarc.Memory.Outbuf.{Pool, max_idle_outbufs, outbuf_acquire, outbuf_release}

-- No buffer stands twice in the list, whose length is counted and bounded.
abbrev pub Distinct : List ℕ → Type 0
Distinct [] = Unit
Distinct (buf ∷ rest) = All (λ b. b ≢ buf) rest × Distinct rest

pub record IsPool (pool : Pool) : Type 0 where
  pub counted : pool.outbuf_list_size ≡ length pool.outbuf_head
  pub few : pool.outbuf_list_size ≤ max_idle_outbufs
  pub distinct : Distinct pool.outbuf_head

abbrev pub IsIdle : Pool → ℕ → Type 0
IsIdle pool buf = All (λ b. b ≢ buf) pool.outbuf_head

-- A buffer that is acquired from a pool in order is no longer in the pool, which is in order; the
-- buffer that `malloc` gives is a new one.
pub outbuf_acquire-IsPool :
    (pool : Pool) (fresh : ℕ)
    → IsPool pool
    → IsIdle pool fresh
    → let (buf, pool') = outbuf_acquire pool fresh in IsPool pool' × IsIdle pool' buf
unfolding outbuf_acquire
outbuf_acquire-IsPool pool fresh v new = by_list pool.outbuf_head refl
  where
    by_list :
        (l : List ℕ)
        → pool.outbuf_head ≡ l
        → let r : ℕ × Pool = elim l [
          | [] ↦ (fresh, pool)
          | buf ∷ rest ↦
              (buf, record { outbuf_list_size = pool.outbuf_list_size - 1; outbuf_head = rest })
        ] in
          IsPool r.1 × IsIdle r.1 r.0
    by_list [] e = (v, new)
    by_list (buf ∷ rest) e =
        let d = subst Distinct e v.distinct in
        (
          record {
            counted = omega (arith, v.counted, ap length e);
            few = omega (arith, v.few);
            distinct = d.1;
          },
          d.0,
        )

abbrev Released : Pool → ℕ → Option ℕ × Pool → Type 0
Released pool buf r =
    IsPool r.1 × (r.0 ≢ none → (pool.outbuf_list_size ≡ max_idle_outbufs) × (r.1 ≡ pool))

-- A buffer that is released, and not idle yet, leaves the pool in order: it is kept while the pool
-- has fewer than 2048 buffers, and only a full pool has it freed, and does not change.
pub outbuf_release-IsPool :
    (pool : Pool) (buf : ℕ)
    → IsPool pool
    → IsIdle pool buf
    → let (freed, pool') = outbuf_release pool buf in
      IsPool pool' × (freed ≢ none → (pool.outbuf_list_size ≡ max_idle_outbufs) × (pool' ≡ pool))
unfolding outbuf_release
outbuf_release-IsPool pool buf v idle =
    if_either (Released pool buf) (ltb pool.outbuf_list_size max_idle_outbufs) _ _
      (λ room. (
        record {
          counted = omega (arith, v.counted);
          few = ground arith;
          distinct = (idle, v.distinct);
        },
        λ h. absurd (h refl),
      ))
      (λ full. (v, λ _. (ground (arith, v.few), refl)))
