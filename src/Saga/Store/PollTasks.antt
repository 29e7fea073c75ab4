-- ===== src/Saga/Store/PollTasks.antt =====
-- saga/store.go: the operations on saga_poll_tasks.
use nsp_platform.Base.{
  ℕ, suc, ◌+◌, ◌*◌, String, Bool, true, false, not, ◌&&◌, ◌||◌, ◌==◌, leb, List, [], ◌∷◌, ◌++◌,
  none, some, if◌then◌else◌,
}
use nsp_platform.Base.Lists.{select, update_where, any_row, delete_where, order_by, take}
use nsp_platform.Saga.Definition.{PollTask}
use nsp_platform.Saga.Errors.{Result, ok, err, plain}
use nsp_platform.Saga.Store.Tables.{Db, step_is, task_of, is_before}

-- `ON CONFLICT (step_id) DO UPDATE` keeps the row with its lock; the sequence advances either way.
unfoldable pub create_poll_task : String → String → ℕ → Db → Result (Unit {0}) × Db
create_poll_task step_id tx_id next db =
    if any_row (step_is step_id) db.steps
    then (
      ok tt,
      record db {
        poll_tasks =
            if any_row (task_of step_id) db.poll_tasks
            then update_where (task_of step_id) (λ task. record task { next_poll_at = next })
                db.poll_tasks
            else db.poll_tasks
              ++ record {
                id = db.next_task;
                step_id = step_id;
                transaction_id = tx_id;
                next_poll_at = next;
                locked_until = none;
                locked_by = none;
              }
                ∷ [];
        next_task = suc db.next_task;
      },
    )
    else (err (plain "failed to create poll task"), db)

unfoldable pub delete_poll_task : String → Db → Db
delete_poll_task step_id db = record db {
  poll_tasks = delete_where (task_of step_id) db.poll_tasks;
}

abbrev pub lock_duration : ℕ
lock_duration = 120 * 1_000_000_000

abbrev is_unlocked : ℕ → PollTask → Bool
is_unlocked db_now task = elim task.locked_until [
  | none ↦ true
  | some u ↦ is_before (some u) db_now
]

-- The `WHERE` of the selection; `busy` are the rows that another session has locked, which
-- SKIP LOCKED passes over.
abbrev pub acquirable : (ℕ → Bool) → ℕ → PollTask → Bool
acquirable busy db_now task =
    leb task.next_poll_at db_now && is_unlocked db_now task && not (busy task.id)

-- `id = ANY($3)`.
abbrev pub is_one_of : List PollTask → PollTask → Bool
is_one_of [] task = false
is_one_of (t ∷ ts) task = t.id == task.id || is_one_of ts task

abbrev pub lock_task : ℕ → String → PollTask → PollTask
lock_task until instance_id task = record task {
  locked_until = some until;
  locked_by = some instance_id;
}

-- The rows are returned as they were selected.
unfoldable pub acquire_poll_tasks : (ℕ → Bool) → ℕ → ℕ → String → ℕ → Db → List PollTask × Db
acquire_poll_tasks busy now db_now instance_id batch_size db =
    let tasks =
      take batch_size
        (order_by (λ t. t.next_poll_at) (select (acquirable busy db_now) db.poll_tasks)) in
    (
      tasks,
      record db {
        poll_tasks =
            update_where (is_one_of tasks) (lock_task (now + lock_duration) instance_id)
              db.poll_tasks;
      },
    )

unfoldable pub release_poll_task : String → Db → Db
release_poll_task step_id db = record db {
  poll_tasks =
      update_where (task_of step_id) (λ t. record t { locked_until = none; locked_by = none })
        db.poll_tasks;
}
