-- ===== src/Tasks/Ring/Pushing.antt =====
-- `task_rbuffer_push` of src/task_rbuffer.c is the push of a bounded queue.
use kaplarc.Base.{
  ℕ, ◌+◌, ◌≤◌, ◌≡◌, arith, refl, ap, ap₂, Bool, true, false, not, ◌&&◌, List, [], ◌∷◌, ◌++◌, sub32,
  ltb, if◌then◌else◌, length, ltb→lt,
}
use kaplarc.Tasks.Ring.{Task, Ring, task_rbuffer_empty, Push, store, task_rbuffer_push, push_woken}
use kaplarc.Tasks.Ring.Queue.{
  queue, is_empty, IsRing, length-queue, queue-store, empty_lem, full_lem,
}

-- The bounded queue that the ring stands for.
pub data Pushed : Type 0 where
  stored : List Task → Bool → Pushed
  refused waits : Pushed

abbrev pub push_spec : Bool → ℕ → List Task → Task → Pushed
push_spec active capacity q t =
    if not active
    then Pushed.refused
    else if ltb (length q) capacity
    then Pushed.stored (q ++ (t ∷ [])) (is_empty q)
    else Pushed.waits

-- What a run of a push says of the queue.
abbrev pub pushed : Push → Pushed
pushed (Push.stored rb signalled) = Pushed.stored (queue rb) signalled
pushed Push.refused = Pushed.refused
pushed Push.waits = Pushed.waits

abbrev spec_of : Bool → Bool → List Task → Task → Pushed
spec_of active room q t =
    if not active
    then Pushed.refused
    else if room
    then Pushed.stored (q ++ (t ∷ [])) (is_empty q)
    else Pushed.waits

-- The tests of the code and those of the queue, once each knows whether there is room.
module _ (x : Push) (q : List Task) (t : Task) where
  agree :
      (active room : Bool)
      → (room ≡ true → pushed x ≡ Pushed.stored (q ++ (t ∷ [])) (is_empty q))
      → pushed (if not active then Push.refused else if not room then Push.waits else x)
        ≡ spec_of active room q t
  agree true true h = h refl
  agree true false h = refl
  agree false room h = refl

pub room_lem :
    (rb : Ring)
    → ltb (length (queue rb)) (rb.index_mask + 1) ≡ true
    → sub32 rb.writepos rb.readpos ≤ rb.index_mask
room_lem rb h =
    let l = ltb→lt (length (queue rb)) (rb.index_mask + 1) h in omega (arith, length-queue rb)

-- For a ring in order, a run of `task_rbuffer_push` from taking the lock is a push on the bounded
-- queue: refused when the ring is not active, waiting when it is full, else behind the tasks that
-- are there, with a signal exactly when there are none.
pub task_rbuffer_push_lem :
    (rb : Ring) (t : Task)
    → IsRing rb
    → pushed (task_rbuffer_push rb t) ≡ push_spec rb.active (rb.index_mask + 1) (queue rb) t
unfolding task_rbuffer_push
task_rbuffer_push_lem rb t v = rw (full_lem rb) (
    agree (Push.stored (store rb t) (task_rbuffer_empty rb)) (queue rb) t rb.active
      (ltb (length (queue rb)) (rb.index_mask + 1))
      (λ room. ap₂ Pushed.stored (queue-store rb t v (room_lem rb room)) (empty_lem rb v)))

abbrev pub unsignalled : Pushed → Pushed
unsignalled (Pushed.stored q signalled) = Pushed.stored q false
unsignalled Pushed.refused = Pushed.refused
unsignalled Pushed.waits = Pushed.waits

woken_agree :
    (x : Push) (q q' : List Task) (e : Bool) (active room : Bool)
    → (room ≡ true → pushed x ≡ Pushed.stored q' false)
    → pushed (if not room && active then Push.waits else if not active then Push.refused else x)
      ≡ unsignalled
          (if not active then Pushed.refused else if room then Pushed.stored q' e else Pushed.waits)
woken_agree x q q' e true true h = h refl
woken_agree x q q' e true false h = refl
woken_agree x q q' e false true h = refl
woken_agree x q q' e false false h = refl

-- For a ring in order, a run that goes on after a wake-up is the same push on the bounded queue,
-- and signals nobody.
pub push_woken_lem :
    (rb : Ring) (t : Task)
    → IsRing rb
    → pushed (push_woken rb t) ≡ unsignalled (push_spec rb.active (rb.index_mask + 1) (queue rb) t)
unfolding push_woken
push_woken_lem rb t v = rw (full_lem rb) (
    woken_agree (Push.stored (store rb t) false) (queue rb) (queue rb ++ (t ∷ []))
      (is_empty (queue rb)) rb.active (ltb (length (queue rb)) (rb.index_mask + 1))
      (λ room. ap (λ q. Pushed.stored q false) (queue-store rb t v (room_lem rb room))))
