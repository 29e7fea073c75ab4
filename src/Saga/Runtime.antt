-- ===== src/Saga/Runtime.antt =====
-- What the saga engine runs on: the database with its faults and its other sessions, the clocks,
-- the HTTP client, the credential store and the stop signals. An action reads the n-th answer of
-- its environment at the n-th effect; a database statement first sees what the other goroutines and
-- instances have written since the effect before. saga/runtime_context.go is modelled here too.
use nsp_platform.Base.{
  ℕ, suc, leb, String, Bool, false, List, [], ◌∷◌, ◌++◌, Option, none, some, if◌then◌else◌,
}
use nsp_platform.Json.{Codec}
use nsp_platform.Trace.{TraceContext, Headers}
use nsp_platform.Saga.Definition.{Transaction}
use nsp_platform.Saga.Errors.{Error, Result, ok, err, plain, prefix}
use nsp_platform.Saga.Store.Tables.{Db}

pub record Request : Type 0 where
  pub method : String
  pub url : String
  pub body : Option String
  pub headers : Headers

-- `client.Do` and `io.ReadAll`: an error of the client, of the body, or a response.
pub data Reply : Type 0 where
  no_reply : String → Reply
  unreadable : String → Reply
  reply : ℕ → String → Reply

-- A statement works; or it fails; or it takes effect and its answer is lost.
pub data Fault : Type 0 where
  works : Fault
  fails : String → Fault
  loses_answer : String → Fault

pub data PollResult : Type 0 where
  pending success failure timeout error : PollResult

-- How the `select` of waitForAsyncStep ends: by its timeout, by the stop channel, or by a result.
pub data Wakeup : Type 0 where
  timed_out stopped : Wakeup
  notified : PollResult → Wakeup

pub record Credential : Type 0 where
  pub access_key : String
  pub secret_key : String
  pub label : String
  pub enabled : Bool

pub record Env : Type 0 where
  pub codec : Codec
  pub instance_id : String
  pub lease_duration : ℕ
  pub local_clock : ℕ → ℕ
  pub db_clock : ℕ → ℕ
  pub fault : ℕ → Fault
  pub others : ℕ → Db → Db
  pub locked_txs : ℕ → String → Bool
  pub locked_tasks : ℕ → ℕ → Bool
  -- `ctx.Done()` or the stop channel is ready.
  pub is_done : ℕ → Bool
  -- The deadline of the context that the engine was started with.
  pub parent_deadline : Option ℕ
  -- The cause of a context with this deadline is the deadline, not a cancellation.
  pub deadline_fired : ℕ → ℕ → Bool
  pub engine_trace : Option TraceContext
  pub engine_log_trace : Bool
  pub new_span_id : ℕ → String
  pub bad_request : Request → Option String
  pub respond : ℕ → Request → Reply
  pub credentials : Option (ℕ → String → Result (Option Credential))
  pub sign : ℕ → Credential → Request → Result Request
  pub wakes : ℕ → Wakeup

-- The database, the requests sent so far, and the state of the process: the number of effects, the
-- transactions marked active, the task queue, and the notification channels (capacity 1).
pub record World : Type 0 where
  pub db : Db
  pub sent : List Request
  pub tick : ℕ
  pub active_tx : List String
  pub task_queue : List String
  pub notify_chan : List (String × Option PollResult)

-- An action that may return an error; what it has written before stays.
abbrev pub M : Type 0 → Type 0
M A = World → Result A × World

infixl 5 ◌>>=◌ ◌>>◌
abbrev pub continue : {A B : Type 0} → (A → M B) → Result A × World → Result B × World
continue f (ok a, w) = f a w
continue f (err e, w) = (err e, w)

unfoldable pub ◌>>=◌ : {A B : Type 0} → M A → (A → M B) → M B
◌>>=◌ m f w = continue f (m w)

abbrev pub ◌>>◌ : {A B : Type 0} → M A → M B → M B
m >> k = m >>= λ _. k

unfoldable pub pure : {A : Type 0} → A → M A
pure a w = (ok a, w)

unfoldable pub raise : {A : Type 0} → Error → M A
raise e w = (err e, w)

-- The error as a value, for the code that looks at it or drops it.
unfoldable pub attempt : {A : Type 0} → M A → M (Result A)
attempt m w = let (r, w') = m w in (ok r, w')

abbrev pub with_prefix : {A : Type 0} → String → Result A → Result A
with_prefix text (ok a) = ok a
with_prefix text (err e) = err (prefix text e)

-- `return fmt.Errorf("text: %w", err)` where an action fails.
unfoldable pub annotate : {A : Type 0} → String → M A → M A
annotate text m w = let (r, w') = m w in (with_prefix text r, w')

-- An answer of the environment.
unfoldable pub ask : {A : Type 0} → (ℕ → A) → M A
ask f w = (ok (f w.tick), record w { tick = suc w.tick })

unfoldable pub modify : (World → World) → M (Unit {0})
modify f w = (ok tt, f w)

-- `if err != nil`, and the same for a value that may be nil.
unfoldable pub on_result : {A B : Type 0} → Result A → (A → M B) → (Error → M B) → M B
on_result (ok a) f g = f a
on_result (err e) f g = g e

unfoldable pub on_option : {A B : Type 0} → Option A → (A → M B) → M B → M B
on_option (some a) f m = f a
on_option none f m = m

module _ (env : Env) where
  abbrev pub settle : {A : Type 0} → Fault → Db → Result A × Db → Result A × Db
  settle works before after = after
  settle (fails text) before after = (err (plain text), before)
  settle (loses_answer text) before after = (err (plain text), after.1)

  -- A statement, or a database transaction, given the two clocks.
  unfoldable pub statement : {A : Type 0} → (ℕ → ℕ → Db → Result A × Db) → M A
  statement f w =
      let n = w.tick in
      let db = env.others n w.db in
      let (r, db') = settle (env.fault n) db (f (env.local_clock n) (env.db_clock n) db) in
      (r, record w { db = db'; tick = suc n })

  -- A query returns rows and changes nothing.
  unfoldable pub query : {A : Type 0} → (Db → A) → M A
  unfolding statement
  query f = statement (λ now db_now db. (ok (f db), db))

  -- `time.Now()`.
  unfoldable pub now : M ℕ
  unfolding ask
  now = ask env.local_clock

  abbrev passed : Option ℕ → ℕ → Bool
  passed none t = false
  passed (some deadline) t = leb deadline t

  unfoldable pub transaction_timed_out : Transaction → M Bool
  unfolding now ask ◌>>=◌ pure
  transaction_timed_out tx = do t ← now; pure (passed tx.timeout_at t)

  -- The deadline that `withTransactionExecutionContext` puts on the context: none where the
  -- transaction has none, or where the parent's comes no later.
  unfoldable pub execution_deadline : Transaction → Option ℕ
  execution_deadline tx = elim tx.timeout_at [
    | none ↦ none
    | some deadline ↦ elim env.parent_deadline [
      | none ↦ some deadline
      | some parent ↦ if leb parent deadline then none else some deadline
    ]
  ]

  -- `transactionExecutionTimedOut` of a context with that deadline.
  unfoldable pub execution_timed_out : Option ℕ → M Bool
  unfolding ask
  execution_timed_out none = ask (λ n. false)
  execution_timed_out (some deadline) = ask (λ n. env.deadline_fired n deadline)

  abbrev pub read_reply : Reply → Result (ℕ × String)
  read_reply (no_reply text) = err (plain text)
  read_reply (unreadable text) = err (prefix "failed to read response" (plain text))
  read_reply (reply status body) = ok (status, body)

  -- `client.Do(req)`, with the body read.
  unfoldable pub send : Request → M (ℕ × String)
  send request w = (
    read_reply (env.respond w.tick request),
    record w { sent = w.sent ++ request ∷ []; tick = suc w.tick },
  )
