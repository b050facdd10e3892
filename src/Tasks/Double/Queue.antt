-- ===== src/Tasks/Double/Queue.antt =====
-- src/task_dbuffer.c: what is added between two swaps is run after the second, in its order.
use kaplarc.Base.{
  ℕ, zero, suc, ◌+◌, ◌-◌, ◌^◌, ◌≤◌, ◌<◌, ◌≡◌, arith, refl, ◌∙◌, ap, ap₂, Bool, true, false, not,
  ◌&&◌, List, [], ◌∷◌, ◌++◌, leb, lt→leb_false, ◌==◌, if◌then◌else◌, ==_refl, ne→==_false, eq→==,
  length,
}
use kaplarc.Tasks.Ring.{Task}
use kaplarc.Tasks.Double.{
  Double, Add, added, refused, waits, put_task, add_at, task_dbuffer_add, swap, run_tasks,
}

-- The tasks that wait for the next swap, the oldest first.
unfoldable pub pending : Double → List Task
pending db = run_tasks db.write_idx 0 (db.count db.write_idx) db

pub record IsDouble (db : Double) : Type 0 where
  pub index : db.write_idx ≤ 1
  pub capacity : db.max_tasks < 2 ^ 32
  pub count_le : (i : ℕ) → db.count i ≤ db.max_tasks

-- A run reads one buffer at its positions alone.
run_frame :
    (idx at n : ℕ) (db db' : Double)
    → ((j : ℕ) → at ≤ j → j < at + n → db'.buffer idx j ≡ db.buffer idx j)
    → run_tasks idx at n db' ≡ run_tasks idx at n db
unfolding run_tasks
run_frame idx at zero db db' same = refl
run_frame idx at (suc n) db db' same =
    ap₂ (λ t l. t ∷ l) (same at (omega arith) (omega arith))
      (run_frame idx (at + 1) n db db' (λ j a b. same j (omega arith) (omega arith)))

-- One task more is run at the end.
run_snoc :
    (idx at n : ℕ) (db : Double)
    → run_tasks idx at (suc n) db ≡ run_tasks idx at n db ++ (db.buffer idx (at + n) ∷ [])
unfolding run_tasks
run_snoc idx at zero db = ap (λ (j : ℕ). db.buffer idx j ∷ []) (omega arith)
run_snoc idx at (suc n) db =
    ap (λ l. db.buffer idx at ∷ l)
      (run_snoc idx (at + 1) n db
        ∙ ap (λ (j : ℕ). run_tasks idx (at + 1) n db ++ (db.buffer idx j ∷ [])) (omega arith))

pending-put_task :
    (db : Double) (t : Task)
    → db.count db.write_idx + 1 < 2 ^ 32
    → pending (put_task db db.write_idx (db.count db.write_idx) t) ≡ pending db ++ (t ∷ [])
unfolding pending put_task
pending-put_task db t small =
    let i = db.write_idx in
    let n = db.count i in
    let db' = put_task db i n t in
    let grown : db'.count i ≡ suc n = rw (==_refl i) (omega arith) in
    let last : db'.buffer i (0 + n) ≡ t = rw (==_refl i, eq→== (0 + n) n (omega arith)) refl in
    ap (λ (c : ℕ). run_tasks i 0 c db') grown
    ∙ run_snoc i 0 n db'
    ∙ ap₂ (λ l x. l ++ (x ∷ []))
        (run_frame i 0 n db db' (λ j a b. rw (==_refl i, ne→==_false j n (omega arith)) refl)) last

put_task-IsDouble :
    (db : Double) (t : Task)
    → IsDouble db
    → db.count db.write_idx < db.max_tasks
    → IsDouble (put_task db db.write_idx (db.count db.write_idx) t)
unfolding put_task
put_task-IsDouble db t v room = record {
  index = v.index;
  capacity = v.capacity;
  count_le = λ i. ground (arith, v.count_le i, v.capacity);
}

-- What an addition says: it waits when its buffer is full, is refused when the buffers are not
-- active, and else the task waits behind those that were there.
abbrev pub AddSpec : Double → Task → Add → Type 0
AddSpec db t (waits idx) = (length (pending db) ≡ db.max_tasks) × (db.active ≡ true)
AddSpec db t refused = db.active ≡ false
AddSpec db t (added db') = IsDouble db' × (pending db' ≡ pending db ++ (t ∷ []))

length-run_tasks : (idx at n : ℕ) (db : Double) → length (run_tasks idx at n db) ≡ n
unfolding run_tasks
length-run_tasks idx at zero db = refl
length-run_tasks idx at (suc n) db = ap suc (length-run_tasks idx (at + 1) n db)

length-pending : (db : Double) → length (pending db) ≡ db.count db.write_idx
unfolding pending
length-pending db = length-run_tasks db.write_idx 0 (db.count db.write_idx) db

-- A run of `task_dbuffer_add` from taking the lock, for buffers in order: it waits only when the
-- buffer holds `max_tasks` tasks, it is refused only when the buffers are not active, and else the
-- task stands behind those that wait, and the buffers are in order.
pub task_dbuffer_add_lem :
    (db : Double) (t : Task) → IsDouble db → AddSpec db t (task_dbuffer_add db t)
unfolding task_dbuffer_add add_at
task_dbuffer_add_lem db t v =
    by_tests (leb db.max_tasks (db.count db.write_idx)) db.active refl refl
  where
    by_tests :
        (full active : Bool)
        → leb db.max_tasks (db.count db.write_idx) ≡ full
        → db.active ≡ active
        → AddSpec db t (
            if full && active
            then waits db.write_idx
            else if not active
            then refused
            else added (put_task db db.write_idx (db.count db.write_idx) t))
    by_tests true true f a = (ground (arith, length-pending db, v.count_le db.write_idx), a)
    by_tests true false f a = a
    by_tests false false f a = a
    by_tests false true f a =
        let room : db.count db.write_idx < db.max_tasks = ground arith in
        (put_task-IsDouble db t v room, pending-put_task db t (omega (arith, v.capacity)))

-- A swap of buffers in order hands out every task that waits, in its order, leaves none waiting
-- and the buffers in order, and wakes the waiting threads exactly when the buffer was full.
pub swap_lem :
    (db : Double)
    → IsDouble db
    → let (idx, count, db', woken) = swap db in
      (run_tasks idx 0 count db' ≡ pending db)
      × (pending db' ≡ [])
      × IsDouble db'
      × (woken ≡ (length (pending db) == db.max_tasks))
unfolding swap pending run_tasks
swap_lem db v =
    let other = 1 - db.write_idx in
    let db' = record db { write_idx = other; count = λ i. if i == other then 0 else db.count i } in
    (
      run_frame db.write_idx 0 (db.count db.write_idx) db db' (λ j a b. refl),
      rw (==_refl other) refl,
      record {
        index = omega (arith, v.index);
        capacity = v.capacity;
        count_le = λ i. ground (arith, v.count_le i);
      },
      ground (arith, length-pending db, v.count_le db.write_idx),
    )

-- What a thread sees that waits in `task_dbuffer_add` while the buffers are swapped: it is woken, and
-- waits again, since it looks at the buffer `idx` that is being run and still counts as full; yet no
-- task waits for the next swap, and a thread that comes now is not held up.
pub record StillWaits (db : Double) (t : Task) (idx : ℕ) : Type 0 where
  pub woken : (swap db).3 ≡ true
  pub waits_again : add_at idx (swap db).2 t ≡ waits idx
  pub empty : pending (swap db).2 ≡ []
  pub room : (db' : Double) × (task_dbuffer_add (swap db).2 t ≡ added db') × (pending db' ≡ t ∷ [])

-- When an addition waits, for buffers in order that hold at least one task.
waits_full :
    (db : Double) (t : Task) (idx : ℕ)
    → task_dbuffer_add db t ≡ waits idx
    → (idx ≡ db.write_idx) × (leb db.max_tasks (db.count db.write_idx) ≡ true) × (db.active ≡ true)
unfolding task_dbuffer_add add_at
waits_full db t idx e = by_tests (leb db.max_tasks (db.count db.write_idx)) db.active e
  where
    by_tests :
        (full active : Bool)
        → (if full && active
            then waits db.write_idx
            else if not active
            then refused
            else added (put_task db db.write_idx (db.count db.write_idx) t))
          ≡ waits idx
        → (idx ≡ db.write_idx) × (full ≡ true) × (active ≡ true)
    by_tests true true e = (cc, refl, refl)
    by_tests true false e = absurd (cc)
    by_tests false false e = absurd (cc)
    by_tests false true e = absurd (cc)

-- The two tests of `add_at`, by their answers.
add_at_tests :
    (idx : ℕ) (db : Double) (t : Task) (full active : Bool)
    → leb db.max_tasks (db.count idx) ≡ full
    → db.active ≡ active
    → add_at idx db t ≡ (
        if full && active
        then waits idx
        else if not active
        then refused
        else added (put_task db idx (db.count idx) t))
unfolding add_at
add_at_tests idx db t full active f a =
    ap₂
      (λ x y.
        if x && y
        then waits idx
        else if not y
        then refused
        else added (put_task db idx (db.count idx) t))
      f a

-- An addition that waits, to buffers in order with room for at least one task each, goes on waiting
-- after the next swap: that swap wakes it,
-- but it looks again at the buffer that it found full, which is now being run and still counts as
-- full, while the buffer that is written is empty and takes the same task from another thread.
pub waiting_add-StillWaits :
    (db : Double) (t : Task) (idx : ℕ)
    → IsDouble db
    → 0 < db.max_tasks
    → task_dbuffer_add db t ≡ waits idx
    → StillWaits db t idx
unfolding swap task_dbuffer_add
waiting_add-StillWaits db t idx v some_room e =
    let (here, full, active) = waits_full db t idx e in
    let db' = (swap db).2 in
    let other = 1 - db.write_idx in
    let elsewhere : (idx == other) ≡ false =
      ne→==_false idx other (λ f. omega (arith, f, here, v.index)) in
    let still_full : leb db.max_tasks (db'.count idx) ≡ true =
      rw elsewhere (ap (λ i. leb db.max_tasks (db.count i)) here ∙ full) in
    let none_there : db'.count other ≡ 0 = rw (==_refl other) refl in
    let some_left : leb db.max_tasks (db'.count other) ≡ false =
      ap (leb db.max_tasks) none_there ∙ lt→leb_false db.max_tasks 0 some_room in
    let (_, empty, _, _) = swap_lem db v in
    record {
      woken = full;
      waits_again = add_at_tests idx db' t true true still_full active;
      empty = empty;
      room = (
        put_task db' other (db'.count other) t,
        add_at_tests other db' t false true some_left active,
        pending-put_task db' t (omega (arith, none_there)) ∙ ap (λ l. l ++ (t ∷ [])) empty,
      );
    }
