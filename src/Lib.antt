-- ===== src/Lib.antt =====
-- Verification of the NSP platform: the saga engine (saga/*.go), which runs a distributed transaction
-- as a sequence of steps on remote services and compensates the steps in reverse order where one fails;
-- the authentication of requests (auth/*.go); the propagation of traces (trace/*.go); and the task queue
-- (taskqueue).
--
-- The program and its parts. SagaBuilder (saga/definition.go) validates a definition. The engine
-- (saga/engine.go) validates the access keys of its steps and stores it through the store
-- (saga/store.go) in PostgreSQL; a caller may wait for the end of the transaction. Each instance of the
-- engine runs a coordinator (saga/coordinator.go), whose workers take transactions from a queue, claim a
-- lease on them and drive them; a recovery scan at the start and a timeout scan put transactions into
-- the queue. The executor (saga/executor.go) sends the requests of a step, rendered by saga/template.go
-- and signed if the step asks for it, and the poller (saga/poller.go) asks for the result of asynchronous
-- steps, reads it by saga/jsonpath.go and wakes the coordinator through a channel. Instances share
-- nothing but the database. A service that is called may verify the signature of a request
-- (auth/aksk.go) in a middleware (auth/middleware.go), which keeps the nonces it has seen (auth/nonce.go)
-- and looks up the secret key (auth/store.go). A trace goes from service to service in the headers of
-- requests (trace/propagator.go) and in the envelope of a task (taskqueue/asynqbroker/trace_envelope.go).
--
-- The files:
--   Base and its children: native numbers and signed integers, text with its decimal and hexadecimal
--     numbers, maps, and the row operations that SQL statements are made of, with the lemmas on them.
--   Json: the values of `any`; Codec is what the code asks of encoding/json, fmt and strconv.
--   Http: headers under their canonical names, and requests, as far as the code uses net/http.
--   Auth (auth/*.go): Errors; Stores has the credential and the interfaces of the two stores, MemoryStore
--     and MemoryNonceStore implement them; Actions has the monad of Sign and Verify; Signing has Sign
--     and the text that it signs, Header the parsing of the header and of the timestamp, Verifier
--     Verify, Middleware the Gin middleware. Theorems: Accepted, Timestamps, Replay, HeaderRoundTrip,
--     Signed, RoundTrip, Admission, Gate and Authentic.
--   Trace (trace/*.go): the trace context, Inject, Extract, and the metadata; Trace/Laws.
--   Lock (lock/lock.go, lock/option.go): the options of a lock. Lock/Redis and Lock/Connect
--     (lock/redis.go) model its calls and watchdogs, and how a client is made; Lock/Laws.
--   TaskQueue (taskqueue/task.go, taskqueue/inspector.go): the records and the paging. Envelope
--     (taskqueue/asynqbroker/trace_envelope.go), Broker (taskqueue/asynqbroker/broker.go and consumer.go),
--     Laws and Bounds.
--   Saga/Definition, Saga/Builder (saga/definition.go); Builder/Laws has the theorems on Build.
--   Saga/Engine (saga/engine.go): Submit and Query; Config has NewEngine, Wait has SubmitAndWait.
--     ConfigLaws, WaitLaws, Termination and Submission have the theorems.
--   Saga/Store (saga/store.go, saga/migrations/saga.sql): Tables, then the operations on transactions,
--     steps, poll tasks and leases, each named as in the source. Atomic, Cas and Exclusion have the
--     theorems; Exclusion defines the actions of other instances and their sequences.
--   Saga/JsonPath (saga/jsonpath.go), Saga/Template (saga/template.go).
--   Saga/Errors: the sentinel errors and errors.Is.
--   Saga/Runtime: the environment, the state of the process, and the monad of actions that may return
--     an error; saga/runtime_context.go. Saga/Chains has lemmas on chains of such actions.
--   Saga/Executor with Actions and Compensation (saga/executor.go).
--   Saga/Poller (saga/poller.go, rehydrateSagaTraceContext of saga/logging.go); Poller/Laws.
--   Saga/Coordinator (saga/coordinator.go): Forward has executeNextStep and what it calls, Compensation
--     has executeCompensation, Drive has Submit, driveTransaction and the two scans; Moves has
--     the steps of Submit and of the workers in any order; Once and Laws have theorems.
--   Saga/Frame: rules for reasoning about actions by a relation between the database before and after,
--     with the writes of other sessions in between; Frame/Requests counts the requests. Saga/Lifecycle: the order of the statuses, and that
--     the coordinator follows it; Lifecycle/Closing, that a compensation reaches its end.
--   Tests: concrete inputs, and the theorems at them.
--
-- How the code corresponds. An action is a function from the state of the process to a result and a
-- new state. The n-th effect of an action reads the n-th answer of the environment (Env): the clocks,
-- the response of a service, whether the context is done, which result a channel delivered. A statement
-- on the database first sees what other goroutines and instances have written (Env.others), and may
-- work, fail, or take effect and lose its answer (Env.fault). A statement, or a block between BeginTx and
-- Commit, is atomic. A map that mutexes protect is an association list of the state. A loop over a slice
-- is a recursion on a list. What the executor writes into the coordinator's copy of a step is modelled
-- where it is read again. A nanosecond count stands for a time, a natural number for a counter that only
-- grows; that such a counter exceeds 64 bits is not modelled. What
-- a TIMESTAMPTZ column keeps of the times of a new transaction is a parameter (Codec.timestamptz); the
-- clock readings that the other operations of the store write stand for what the columns keep of them. Sleeping and the backoff are not modelled.
--
-- Bounds and fuel. The loop of driveTransaction runs until the code returns, which a step that is polled
-- for ever may prevent, so that the model runs it on fuel, one unit for a round, and says whether it
-- returned. The theorems on it hold for every amount of fuel, also for a loop that is cut off. The loop
-- of waitForTransaction runs until the transaction or the caller's context ends; it has fuel too, and
-- Saga/Engine/Termination says how much is enough. Every other loop is a recursion on a list, on a text,
-- or on the number of rounds that the source computes. A duration of the package auth is a 64-bit
-- number of nanoseconds, with the saturation and the wrap-around of the source written out.
--
-- Not modelled. Start, Stop and the tickers of the engine and of the nonce store, and logging. The
-- observer (saga/observer) and cmd/sagactl, which only read. SHA-256, HMAC, the random source, net/url,
-- Gin's chain of handlers, and the asynq library with the inspector on it are parameters or left out.
-- The executor's calls of the credential store and of Signer.Sign are parameters of its environment. Of
-- the lock, redsync and go-redis are parameters, and the mutex of its fields is left out: a call is one
-- step, and a watchdog renews between calls. The logger and the configuration are not modelled. The text that encoding/json and
-- fmt print of numbers and containers, and in the errors of parseHTTPResponseEnvelope the quotes of %q, the name of
-- %T and the wrapped error of encoding/json. PostgreSQL: its isolation beyond the atomic statements, the order of rows of equal keys,
-- and what FOR UPDATE SKIP LOCKED skips, which is a parameter.

pub mod Base
pub mod Json
pub mod Http
pub mod Auth
pub mod Trace
pub mod Lock
pub mod TaskQueue
pub mod Saga
pub mod Tests
