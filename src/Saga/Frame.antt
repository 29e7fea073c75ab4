-- ===== src/Saga/Frame.antt =====
-- Reasoning about actions by a relation between the database before and after: each statement, and
-- what the other goroutines and instances write between two statements, has to follow the relation.
-- The rules follow the ways in which the actions of Saga/Runtime are built.
pub mod Executor
pub mod Compensation
pub mod Poller
pub mod Requests
use nsp_platform.Base.{
  ℕ, suc, String, ◌≡◌, refl, Bool, true, false, Option, none, some, if◌then◌else◌,
}
use nsp_platform.Saga.Errors.{Error, Result, ok, err}
use nsp_platform.Saga.Store.Tables.{Db}
use nsp_platform.Saga.Poller.{ignore}
use nsp_platform.Saga.Runtime.{
  Env, World, M, Request, Fault, works, fails, loses_answer, settle, continue, ◌>>=◌, pure, raise,
  attempt, annotate, ask, modify, statement, query, send, on_result, on_option,
}

-- A relation that holds along any sequence of steps, that the environment follows, and that allows
-- every change which leaves saga_transactions alone.
pub record Rely (env : Env) (R : Db → Db → Type 0) : Type 0 where
  pub R_refl : (a : Db) → R a a
  pub R_trans : (a b c : Db) → R a b → R b c → R a c
  pub R_others : (n : ℕ) (db : Db) → R db (env.others n db)
  pub R_frame : (a b : Db) → b.transactions ≡ a.transactions → R a b

-- The action follows the relation from every state.
pub record Follows (R : Db → Db → Type 0) {A : Type 0} (m : M A) : Type 0 where
  pub at : (w : World) → R w.db (m w).1.db

module _ {env : Env} {R : Db → Db → Type 0} (rely : Rely env R) where
  pub Follows-pure : {A : Type 0} (a : A) → Follows R (pure a)
  unfolding pure
  Follows-pure a = record { at = λ w. rely.R_refl w.db }

  pub Follows-raise : {A : Type 0} (e : Error) → Follows R (raise {A = A} e)
  unfolding raise
  Follows-raise e = record { at = λ w. rely.R_refl w.db }

  pub Follows-ask : {A : Type 0} (f : ℕ → A) → Follows R (ask f)
  unfolding ask
  Follows-ask f = record { at = λ w. rely.R_refl w.db }

  pub Follows-send : (r : Request) → Follows R (send env r)
  unfolding send
  Follows-send r = record { at = λ w. rely.R_refl w.db }

  pub Follows-modify : (f : World → World) → ((w : World) → (f w).db ≡ w.db) → Follows R (modify f)
  unfolding modify
  Follows-modify f keeps = record { at = λ w. rw (keeps w) (rely.R_refl w.db) }

  pub Follows-bind :
      {A B : Type 0} (m : M A) (f : A → M B)
      → Follows R m
      → ((a : A) → Follows R (f a))
      → Follows R (m >>= f)
  unfolding ◌>>=◌
  Follows-bind m f km kf = record { at = λ w. go (m w) w (km.at w) }
    where
      go : (r : Result _ × World) (w : World) → R w.db r.1.db → R w.db (continue f r).1.db
      go (ok a, w') w h = rely.R_trans w.db w'.db _ h ((kf a).at w')
      go (err e, w') w h = h

  pub Follows-attempt : {A : Type 0} (m : M A) → Follows R m → Follows R (attempt m)
  unfolding attempt
  Follows-attempt m h = record { at = h.at }

  pub Follows-ignore : {A : Type 0} (m : M A) → Follows R m → Follows R (ignore m)
  Follows-ignore m h = Follows-bind (attempt m) _ (Follows-attempt m h) λ _. Follows-pure tt

  pub Follows-annotate :
      {A : Type 0} (text : String) (m : M A) → Follows R m → Follows R (annotate text m)
  unfolding annotate
  Follows-annotate text m h = record { at = h.at }

  pub Follows-if :
      {A : Type 0} (b : Bool) (m n : M A)
      → Follows R m
      → Follows R n
      → Follows R (if b then m else n)
  Follows-if true m n km kn = km
  Follows-if false m n km kn = kn

  -- A statement that follows the relation on what it reads follows it whatever its fate.
  pub Follows-statement :
      {A : Type 0} (f : ℕ → ℕ → Db → Result A × Db)
      → ((now db_now : ℕ) (db : Db) → R db (f now db_now db).1)
      → Follows R (statement env f)
  unfolding statement
  Follows-statement {A} f h = record {
    at = λ w.
        let n = w.tick in
        let db = env.others n w.db in
        rely.R_trans w.db db _ (rely.R_others n w.db)
          (go (env.fault n) db (f (env.local_clock n) (env.db_clock n) db) (h _ _ db));
  }
    where
      go : (x : Fault) (db : Db) (r : Result A × Db) → R db r.1 → R db (settle env x db r).1
      go works db r k = k
      go (fails text) db r k = rely.R_refl db
      go (loses_answer text) db r k = k

  pub Follows-query : {A : Type 0} (f : Db → A) → Follows R (query env f)
  unfolding query
  Follows-query f =
      Follows-statement (λ now db_now db. (ok (f db), db)) (λ now db_now db. rely.R_refl db)

  -- A statement that leaves saga_transactions alone.
  pub Follows-framed :
      {A : Type 0} (f : ℕ → ℕ → Db → Result A × Db)
      → ((now db_now : ℕ) (db : Db) → (f now db_now db).1.transactions ≡ db.transactions)
      → Follows R (statement env f)
  Follows-framed f same =
      Follows-statement f (λ now db_now db. rely.R_frame db _ (same now db_now db))

  -- A statement and what the code does with its answer, where it needs what the answer says.
  pub Follows-answer :
      {A B : Type 0} (f : ℕ → ℕ → Db → Result A × Db) (k : Result A → M B) (Q : A → Db → Type 0)
      → ((now db_now : ℕ) (db : Db) → R db (f now db_now db).1)
      → ((now db_now : ℕ) (db : Db) (a : A) → (f now db_now db).0 ≡ ok a → Q a (f now db_now db).1)
      → ((r : Result A) (w : World) → ((a : A) → r ≡ ok a → Q a w.db) → R w.db (k r w).1.db)
      → Follows R (attempt (statement env f) >>= k)
  unfolding statement attempt ◌>>=◌
  Follows-answer {A} f k Q h says after = record {
    at = λ w.
        let n = w.tick in
        let db = env.others n w.db in
        rely.R_trans w.db db _ (rely.R_others n w.db) (
          go (env.fault n) db (f (env.local_clock n) (env.db_clock n) db) (h _ _ db) (says _ _ db)
            (record w { tick = suc n }));
  }
    where
      go :
          (x : Fault) (db : Db) (r : Result A × Db)
          → R db r.1
          → ((a : A) → r.0 ≡ ok a → Q a r.1)
          → (w : World)
          → R db (k (settle env x db r).0 (record w { db = (settle env x db r).1 })).1.db
      go works db r h' q w = rely.R_trans db r.1 _ h' (after r.0 (record w { db = r.1 }) q)
      go (fails text) db r h' q w = after (err _) (record w { db = db }) (λ a e. cc e)
      go (loses_answer text) db r h' q w =
          rely.R_trans db r.1 _ h' (after (err _) (record w { db = r.1 }) (λ a e. cc e))

module _ {R : Db → Db → Type 0} {A B : Type 0} where
  pub Follows-on_result :
      (r : Result A) (f : A → M B) (g : Error → M B)
      → ((a : A) → Follows R (f a))
      → ((e : Error) → Follows R (g e))
      → Follows R (on_result r f g)
  unfolding on_result
  Follows-on_result (ok a) f g kf kg = kf a
  Follows-on_result (err e) f g kf kg = kg e

  pub Follows-on_option :
      (o : Option A) (f : A → M B) (m : M B)
      → ((a : A) → Follows R (f a))
      → Follows R m
      → Follows R (on_option o f m)
  unfolding on_option
  Follows-on_option (some a) f m kf km = kf a
  Follows-on_option none f m kf km = km

pub ruleset follows_rules = (
  Follows-pure, Follows-raise, Follows-ask, Follows-send, Follows-bind, Follows-attempt,
  Follows-annotate, Follows-if, Follows-query, Follows-on_result, Follows-on_option,
)
