-- ===== src/Tasks/Ring/Fifo.antt =====
-- src/task_rbuffer.c over time: the runs of any number of producers and workers, in any order.
use kaplarc.Base.{
  ℕ, zero, suc, ◌+◌, ◌-◌, ◌^◌, ◌≤◌, ◌<◌, ◌≡◌, ◌≢◌, arith, refl, sym, ◌∙◌, ap, ap₂, subst, Bool,
  true, false, not, ◌&&◌, none, some, List, [], ◌∷◌, ◌++◌, u32, sub32, bit_and, ltb, if◌then◌else◌,
  length, ◌⊎◌, inl, inr,
}
use native.Mathlib.Nat.{pow-le-pow_right, one-le-pow}
use kaplarc.Tasks.Ring.{
  Task, Ring, is_power_of_two, task_rbuffer_create, task_rbuffer_empty, task_rbuffer_full, Push,
  store, task_rbuffer_push, push_woken, Run, next_task, taken, task_rbuffer_run_one, run_one_woken,
  task_rbuffer_set_inactive,
}
use kaplarc.Tasks.Ring.Power.{is_power_of_two-IsPower}
use kaplarc.Tasks.Ring.Queue.{
  tasks, queue, IsRing, length-queue, queue-store, store-IsRing, full_lem,
}
use kaplarc.Tasks.Ring.Pushing.{room_lem}
use kaplarc.Tasks.Ring.Running.{queue-taken, taken-IsRing}

-- The ring, the tasks that were accepted and the tasks that were run, the oldest first.
pub record Trace : Type 0 where
  pub rb : Ring
  pub accepted : List Task
  pub ran : List Task

pub data Step : Trace → Trace → Type 0 where
  push :
      {s : Trace} (t : Task) (rb' : Ring) (signalled : Bool)
      → task_rbuffer_push s.rb t ≡ Push.stored rb' signalled
      → Step s (record s { rb = rb'; accepted = s.accepted ++ (t ∷ []) })
  woken_push :
      {s : Trace} (t : Task) (rb' : Ring) (signalled : Bool)
      → push_woken s.rb t ≡ Push.stored rb' signalled
      → Step s (record s { rb = rb'; accepted = s.accepted ++ (t ∷ []) })
  run :
      {s : Trace} (t : Task) (rb' : Ring) (signalled : Bool)
      → task_rbuffer_run_one s.rb ≡ Run.runs t rb' signalled
      → Step s (record s { rb = rb'; ran = s.ran ++ (t ∷ []) })
  woken_run :
      {s : Trace} (t : Task) (rb' : Ring) (signalled : Bool)
      → run_one_woken s.rb ≡ Run.runs t rb' signalled
      → Step s (record s { rb = rb'; ran = s.ran ++ (t ∷ []) })
  set_inactive : {s : Trace} → Step s (record s { rb = task_rbuffer_set_inactive s.rb })

-- From a new ring for fewer than 2 ^ 32 tasks.
pub data Reach : Trace → Type 0 where
  create :
      (memory : ℕ → Task) (max_tasks : ℕ) (rb : Ring)
      → max_tasks < 2 ^ 32
      → task_rbuffer_create memory max_tasks ≡ some rb
      → Reach (record { rb = rb; accepted = []; ran = [] })
  step : {s s' : Trace} → Reach s → Step s s' → Reach s'

-- What a run that stored says.
stored_lem :
    (a room : Bool) (r r' : Ring) (e e' : Bool)
    → (if not a then Push.refused else if not room then Push.waits else Push.stored r e)
      ≡ Push.stored r' e'
    → (room ≡ true) × (r ≡ r')
stored_lem true true r r' e e' h = (refl, cc)
stored_lem true false r r' e e' h = absurd (cc)
stored_lem false room r r' e e' h = absurd (cc)

woken_stored_lem :
    (a room : Bool) (r r' : Ring) (e e' : Bool)
    → (if not room && a then Push.waits else if not a then Push.refused else Push.stored r e)
      ≡ Push.stored r' e'
    → (room ≡ true) × (r ≡ r')
woken_stored_lem true true r r' e e' h = (refl, cc)
woken_stored_lem true false r r' e e' h = absurd (cc)
woken_stored_lem false true r r' e e' h = absurd (cc)
woken_stored_lem false false r r' e e' h = absurd (cc)

ran_lem :
    (a none_left : Bool) (t t' : Task) (r r' : Ring) (e e' : Bool)
    → (if not a then Run.stopped else if none_left then Run.sleeps else Run.runs t r e)
      ≡ Run.runs t' r' e'
    → (none_left ≡ false) × (t ≡ t') × (r ≡ r')
ran_lem true true t t' r r' e e' h = absurd (cc)
ran_lem true false t t' r r' e e' h = (refl, cc, cc)
ran_lem false none_left t t' r r' e e' h = absurd (cc)

woken_ran_lem :
    (a none_left : Bool) (t t' : Task) (r r' : Ring) (e e' : Bool)
    → (if none_left && a then Run.sleeps else if not a then Run.stopped else Run.runs t r e)
      ≡ Run.runs t' r' e'
    → (none_left ≡ false) × (t ≡ t') × (r ≡ r')
woken_ran_lem true true t t' r r' e e' h = absurd (cc)
woken_ran_lem true false t t' r r' e e' h = (refl, cc, cc)
woken_ran_lem false true t t' r r' e e' h = absurd (cc)
woken_ran_lem false false t t' r r' e e' h = absurd (cc)

-- The ring is in order, and its tasks are those that were accepted and have not been run.
pub record IsTrace (s : Trace) : Type 0 where
  pub ring : IsRing s.rb
  pub fifo : s.accepted ≡ s.ran ++ queue s.rb

++_assoc : (xs ys zs : List Task) → (xs ++ ys) ++ zs ≡ xs ++ (ys ++ zs)
++_assoc [] ys zs = refl
++_assoc (x ∷ xs) ys zs = ap (λ l. x ∷ l) (++_assoc xs ys zs)

push-IsTrace :
    (s : Trace) (t : Task) (rb' : Ring)
    → IsTrace s
    → (ltb (length (queue s.rb)) (s.rb.index_mask + 1) ≡ true) × (store s.rb t ≡ rb')
    → IsTrace (record s { rb = rb'; accepted = s.accepted ++ (t ∷ []) })
push-IsTrace s t rb' v (room, e) =
    let fits = room_lem s.rb room in
    record {
      ring = subst IsRing e (store-IsRing s.rb t v.ring fits);
      fifo =
          ap (λ l. l ++ (t ∷ [])) v.fifo
          ∙ ++_assoc s.ran (queue s.rb) (t ∷ [])
          ∙ ap (λ l. s.ran ++ l) (sym (queue-store s.rb t v.ring fits) ∙ ap queue e);
    }

some_left :
    (rb : Ring) → IsRing rb → task_rbuffer_empty rb ≡ false → sub32 rb.writepos rb.readpos ≢ 0
unfolding task_rbuffer_empty
some_left rb v h = ground (arith, v.read_lt, v.write_lt)

run-IsTrace :
    (s : Trace) (t : Task) (rb' : Ring)
    → IsTrace s
    → (task_rbuffer_empty s.rb ≡ false) × (next_task s.rb ≡ t) × (taken s.rb ≡ rb')
    → IsTrace (record s { rb = rb'; ran = s.ran ++ (t ∷ []) })
run-IsTrace s t rb' v (left, same, e) = record {
  ring = subst IsRing e (taken-IsRing s.rb v.ring left);
  fifo =
      v.fifo
      ∙ ap (λ l. s.ran ++ l)
          (queue-taken s.rb v.ring (some_left s.rb v.ring left)
            ∙ ap₂ (λ h l. h ∷ l) same (ap queue e))
      ∙ sym (++_assoc s.ran (t ∷ []) (queue rb'));
}

-- A new ring.
new_ring : (ℕ → Task) → ℕ → Ring
new_ring memory max_tasks = record {
  active = true;
  index_mask = max_tasks - 1;
  readpos = 0;
  writepos = 0;
  buffer = memory;
}

exponent_lt : (k : ℕ) → 2 ^ k < 2 ^ 32 → k < 32
exponent_lt k h = elim (order k) [
  | inl lt ↦ lt
  | inr le ↦ absurd (omega (arith, pow-le-pow_right {n = 2} (omega arith) {i = 32} {j = k} le))
]
  where
    order : (k : ℕ) → (k < 32) ⊎ (32 ≤ k)
    order k = ground arith

new_ring-IsTrace :
    (memory : ℕ → Task) (max_tasks : ℕ)
    → max_tasks < 2 ^ 32
    → is_power_of_two max_tasks ≡ true
    → IsTrace (record { rb = new_ring memory max_tasks; accepted = []; ran = [] })
unfolding new_ring queue tasks
new_ring-IsTrace memory max_tasks h two =
    let (k, p) = is_power_of_two-IsPower max_tasks two in
    record {
      ring = record {
        k = k;
        capacity = omega (arith, p, one-le-pow k 2);
        k_lt = exponent_lt k (omega (arith, p));
        read_lt = omega arith;
        write_lt = omega arith;
        count = omega arith;
      };
      fifo = refl;
    }

created_lem :
    (two : Bool) (r rb : Ring) → (if two then some r else none) ≡ some rb → (two ≡ true) × (r ≡ rb)
created_lem true r rb e = (refl, cc)
created_lem false r rb e = absurd (cc)

create-IsTrace :
    (memory : ℕ → Task) (max_tasks : ℕ) (rb : Ring)
    → max_tasks < 2 ^ 32
    → task_rbuffer_create memory max_tasks ≡ some rb
    → IsTrace (record { rb = rb; accepted = []; ran = [] })
unfolding task_rbuffer_create new_ring
create-IsTrace memory max_tasks rb h e =
    let (two, same) = created_lem (is_power_of_two max_tasks) (new_ring memory max_tasks) rb e in
    subst (λ r. IsTrace (record { rb = r; accepted = []; ran = [] })) same
      (new_ring-IsTrace memory max_tasks h two)

tasks-set_inactive :
    (n pos : ℕ) (rb : Ring) → tasks n pos (task_rbuffer_set_inactive rb) ≡ tasks n pos rb
unfolding tasks task_rbuffer_set_inactive
tasks-set_inactive zero pos rb = refl
tasks-set_inactive (suc n) pos rb =
    ap (λ l. rb.buffer (bit_and pos rb.index_mask) ∷ l) (tasks-set_inactive n (u32 (pos + 1)) rb)

set_inactive-IsTrace :
    (s : Trace) → IsTrace s → IsTrace (record s { rb = task_rbuffer_set_inactive s.rb })
unfolding task_rbuffer_set_inactive queue
set_inactive-IsTrace s v = record {
  ring = record {
    k = v.ring.k;
    capacity = v.ring.capacity;
    k_lt = v.ring.k_lt;
    read_lt = v.ring.read_lt;
    write_lt = v.ring.write_lt;
    count = v.ring.count;
  };
  fifo =
      v.fifo
      ∙ ap (λ l. s.ran ++ l)
          (sym (tasks-set_inactive (sub32 s.rb.writepos s.rb.readpos) s.rb.readpos s.rb));
}

kept_by_run : (s s' : Trace) → IsTrace s → Step s s' → IsTrace s'
unfolding task_rbuffer_push push_woken task_rbuffer_run_one run_one_woken
kept_by_run s s' v (push t rb' sig e) = push-IsTrace s t rb' v (
    stored_lem s.rb.active (ltb (length (queue s.rb)) (s.rb.index_mask + 1)) (store s.rb t) rb'
      (task_rbuffer_empty s.rb) sig (rw (full_lem s.rb) at e))
kept_by_run s s' v (woken_push t rb' sig e) = push-IsTrace s t rb' v (
    woken_stored_lem s.rb.active (ltb (length (queue s.rb)) (s.rb.index_mask + 1)) (store s.rb t)
      rb' false sig (rw (full_lem s.rb) at e))
kept_by_run s s' v (run t rb' sig e) = run-IsTrace s t rb' v (
    ran_lem s.rb.active (task_rbuffer_empty s.rb) (next_task s.rb) t (taken s.rb) rb'
      (task_rbuffer_full s.rb) sig e)
kept_by_run s s' v (woken_run t rb' sig e) = run-IsTrace s t rb' v (
    woken_ran_lem s.rb.active (task_rbuffer_empty s.rb) (next_task s.rb) t (taken s.rb) rb' false
      sig e)
kept_by_run s s' v set_inactive = set_inactive-IsTrace s v

-- Whatever the threads do with a ring that was created for fewer than 2 ^ 32 tasks: the tasks
-- that were accepted are, in their order, those that were run and then those that wait in the
-- ring, of which there are at most `index_mask + 1`.
pub tasks_run_in_order :
    (s : Trace)
    → Reach s
    → (s.accepted ≡ s.ran ++ queue s.rb) × (length (queue s.rb) ≤ s.rb.index_mask + 1)
tasks_run_in_order s r =
    let v = reached s r in (v.fifo, omega (arith, length-queue s.rb, v.ring.count))
  where
    reached : (s : Trace) → Reach s → IsTrace s
    reached s (create memory max_tasks rb h e) = create-IsTrace memory max_tasks rb h e
    reached s' (step {s = s} r st) = kept_by_run s s' (reached s r) st
