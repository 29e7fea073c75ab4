-- ===== src/Saga/Frame/Requests.antt =====
-- How many requests an action sends at most.
use nsp_platform.Base.{
  arith, ℕ, zero, suc, ◌+◌, ◌≤◌, String, ◌≡◌, refl, Bool, true, false, List, [], ◌∷◌, ◌++◌, Option,
  none, some, if◌then◌else◌,
}
use nsp_platform.Base.Int.{ℤ, pos, negsuc, is_zero}
use nsp_platform.Base.Lists.{length}
use nsp_platform.Base.Text.{is_empty}
use nsp_platform.Saga.Definition.{Step, StepStatus, Transaction}
use nsp_platform.Saga.Errors.{Error, Result, ok, err}
use nsp_platform.Saga.Runtime.{
  Env, World, M, Request, Credential, ◌>>=◌, continue, pure, raise, attempt, annotate, ask,
  statement, send, on_result, on_option,
}
use nsp_platform.Saga.Executor.{
  Context, set_status, request_trace, sign_with, sign_request_if_needed,
}
use nsp_platform.Saga.Executor.Compensation.{
  Attempt, or_compensation_failed, max_retries, rounds, exhausted, send_signed,
  compensation_attempt, after_attempt, back_off, compensation_loop, compensate_step,
}

-- The requests that a step's MaxRetry allows for its compensation.
abbrev pub allowed : ℤ → ℕ
allowed (pos zero) = 4
allowed (pos (suc n)) = suc (suc n)
allowed (negsuc n) = 0

pub record Sends (n : ℕ) {A : Type 0} (m : M A) : Type 0 where
  pub at : (w : World) → length (m w).1.sent ≤ length w.sent + n

length-snoc : {A : Type 0} (xs : List A) (x : A) → length (xs ++ x ∷ []) ≡ suc (length xs)
length-snoc [] x = refl
length-snoc (y ∷ xs) x = omega (arith, length-snoc xs x)

Sends-more : {A : Type 0} (a b : ℕ) (m : M A) → a ≤ b → Sends a m → Sends b m
Sends-more a b m le h = record { at = λ w. omega (arith, h.at w, le) }

Sends-pure : {A : Type 0} (n : ℕ) (a : A) → Sends n (pure a)
unfolding pure
Sends-pure n a = record { at = λ w. omega arith }

Sends-raise : {A : Type 0} (n : ℕ) (e : Error) → Sends n (raise {A = A} e)
unfolding raise
Sends-raise n e = record { at = λ w. omega arith }

Sends-ask : {A : Type 0} (f : ℕ → A) → Sends 0 (ask f)
unfolding ask
Sends-ask f = record { at = λ w. omega arith }

Sends-attempt : {A : Type 0} (n : ℕ) (m : M A) → Sends n m → Sends n (attempt m)
unfolding attempt
Sends-attempt n m h = record { at = h.at }

Sends-annotate :
    {A : Type 0} (n : ℕ) (text : String) (m : M A) → Sends n m → Sends n (annotate text m)
unfolding annotate
Sends-annotate n text m h = record { at = h.at }

Sends-bind :
    {A B : Type 0} (a b : ℕ) (m : M A) (f : A → M B)
    → Sends a m
    → ((x : A) → Sends b (f x))
    → Sends (a + b) (m >>= f)
unfolding ◌>>=◌
Sends-bind a b m f h k = record { at = λ w. go (m w) (length w.sent) (h.at w) }
  where
    go :
        (r : Result _ × World) (l : ℕ)
        → length r.1.sent ≤ l + a
        → length (continue f r).1.sent ≤ l + (a + b)
    go (ok x, w') l le = omega (arith, (k x).at w', le)
    go (err e, w') l le = omega (arith, le)

-- The same where only what follows sends.
Sends-behind :
    {A B : Type 0} (n : ℕ) (m : M A) (f : A → M B)
    → Sends 0 m
    → ((x : A) → Sends n (f x))
    → Sends n (m >>= f)
Sends-behind n m f h k = Sends-more (0 + n) n _ (omega arith) (Sends-bind 0 n m f h k)

Sends-if :
    {A : Type 0} (n : ℕ) (b : Bool) (m k : M A)
    → Sends n m
    → Sends n k
    → Sends n (if b then m else k)
Sends-if n true m k h g = h
Sends-if n false m k h g = g

Sends-on_result :
    {A B : Type 0} (n : ℕ) (r : Result A) (f : A → M B) (g : Error → M B)
    → ((a : A) → Sends n (f a))
    → ((e : Error) → Sends n (g e))
    → Sends n (on_result r f g)
unfolding on_result
Sends-on_result n (ok a) f g h k = h a
Sends-on_result n (err e) f g h k = k e

Sends-on_option :
    {A B : Type 0} (n : ℕ) (o : Option A) (f : A → M B) (m : M B)
    → ((a : A) → Sends n (f a))
    → Sends n m
    → Sends n (on_option o f m)
unfolding on_option
Sends-on_option n (some a) f m h k = h a
Sends-on_option n none f m h k = k

module _ (env : Env) where
  Sends-set_status :
      (id : String) (status : StepStatus) (e : String) → Sends 0 (set_status env id status e)
  unfolding set_status statement
  Sends-set_status id status e = record { at = λ w. omega arith }

  Sends-send : (r : Request) → Sends 1 (send env r)
  unfolding send
  Sends-send r = record { at = λ w. omega (arith, length-snoc w.sent r) }

  Sends-request_trace : (ctx : Context) (tx : Transaction) → Sends 0 (request_trace env ctx tx)
  unfolding request_trace
  Sends-request_trace ctx tx =
      Sends-on_option 0 ctx.trace _ _ (λ tc. Sends-pure 0 _)
        (Sends-bind 0 0 _ _ (Sends-ask _) λ span. Sends-pure 0 _)

  Sends-sign_with :
      (ak : String) (request : Request) (c : Option Credential)
      → Sends 0 (sign_with env ak request c)
  unfolding sign_with
  Sends-sign_with ak request none = Sends-raise 0 _
  Sends-sign_with ak request (some cred) =
      Sends-if 0 cred.enabled _ _
        (Sends-bind 0 0 _ _ (Sends-ask _)
          λ signed. Sends-on_result 0 signed _ _ (λ r. Sends-pure 0 r) (λ e. Sends-raise 0 _))
        (Sends-raise 0 _)

  Sends-sign_request_if_needed :
      (step : Step) (request : Request) → Sends 0 (sign_request_if_needed env step request)
  unfolding sign_request_if_needed sign_with
  Sends-sign_request_if_needed step request =
      Sends-if 0 (is_empty step.auth_ak) _ _ (Sends-pure 0 request) (
        Sends-on_option 0 env.credentials _ _
          (λ get_by_ak. Sends-bind 0 0 _ _ (Sends-ask _) λ found.
            Sends-on_result 0 found _ _ (Sends-sign_with step.auth_ak request)
              (λ e. Sends-raise 0 _))
          (Sends-pure 0 request))

  module _ (ctx : Context) (tx : Transaction) (step : Step) where
    Sends-or_compensation_failed :
        {A : Type 0} (note : String) (r : Result A)
        → Sends 0 (or_compensation_failed env ctx tx step note r)
    unfolding or_compensation_failed
    Sends-or_compensation_failed note (ok a) = Sends-pure 0 a
    Sends-or_compensation_failed note (err e) =
        Sends-bind 0 0 _ _ (Sends-attempt 0 _ (Sends-set_status _ _ _)) λ _. Sends-raise 0 _

    Sends-exhausted : (last : Option Error) → Sends 0 (exhausted env ctx tx step last)
    unfolding exhausted
    Sends-exhausted last =
        Sends-bind 0 0 _ _ (Sends-attempt 0 _ (Sends-set_status _ _ _)) λ _. Sends-raise 0 _

    Sends-send_signed : (r : Result Request) → Sends 1 (send_signed env ctx tx step r)
    unfolding send_signed
    Sends-send_signed (err e) = Sends-pure 1 _
    Sends-send_signed (ok signed) =
        Sends-bind 1 0 _ _ (Sends-attempt 1 _ (Sends-send signed))
          λ sent. Sends-on_result 0 sent _ _ (λ reply. Sends-pure 0 _) (λ e. Sends-pure 0 _)

    Sends-compensation_attempt :
        (url : String) (body : Option String)
        → Sends 1 (compensation_attempt env ctx tx step url body)
    unfolding compensation_attempt
    Sends-compensation_attempt url body =
        Sends-on_option 1 _ _ _ (λ text. Sends-pure 1 _)
          (Sends-bind 0 1 _ _ (Sends-request_trace ctx tx) λ tc.
            Sends-bind 0 1 _ _ (Sends-attempt 0 _ (Sends-sign_request_if_needed step _))
              Sends-send_signed)

    Sends-after_attempt :
        (n : ℕ) (next : Error → M (Unit {0}))
        → ((e : Error) → Sends n (next e))
        → (outcome : Attempt) → Sends n (after_attempt env ctx tx step next outcome)
    unfolding after_attempt
    Sends-after_attempt n next h Attempt.succeeded =
        Sends-more 0 n _ (omega arith) (Sends-annotate 0 _ _ (Sends-set_status _ _ _))
    Sends-after_attempt n next h (Attempt.stops e) =
        Sends-more 0 n _ (omega arith) (Sends-exhausted (some e))
    Sends-after_attempt n next h (Attempt.again e) = h e

    Sends-back_off : (first : Bool) → Sends 0 (back_off env ctx tx step first)
    unfolding back_off
    Sends-back_off true = Sends-pure 0 tt
    Sends-back_off false =
        Sends-bind 0 0 _ _ (Sends-ask _)
          λ cancelled. Sends-if 0 cancelled _ _ (Sends-raise 0 _) (Sends-pure 0 tt)

    Sends-compensation_loop :
        (n : ℕ) (first : Bool) (last : Option Error) (url : String) (body : Option String)
        → Sends n (compensation_loop env ctx tx step n first last url body)
    unfolding compensation_loop
    Sends-compensation_loop zero first last url body = Sends-exhausted last
    Sends-compensation_loop (suc n) first last url body =
        Sends-more (1 + n) (suc n) _ (omega arith) (
          Sends-behind (1 + n) _ _ (Sends-back_off first) λ _.
            Sends-bind 1 n _ _ (Sends-compensation_attempt url body)
              (Sends-after_attempt n _ (λ e. Sends-compensation_loop n false (some e) url body)))

    allowed-rounds : rounds env ctx tx step (max_retries env ctx tx step) ≡ allowed step.max_retry
    allowed-rounds = go step.max_retry
      where
        go : (v : ℤ) → rounds env ctx tx step (if is_zero v then pos 3 else v) ≡ allowed v
        go (pos zero) = refl
        go (pos (suc n)) = refl
        go (negsuc n) = refl

    -- CompensateStep sends at most four requests where the step's MaxRetry is 0, one more than
    -- MaxRetry where that is positive, and none where it is negative.
    pub compensate_step-bound :
        (all_steps : List Step) (w : World)
        → length (compensate_step env ctx tx step all_steps w).1.sent
          ≤ length w.sent + allowed step.max_retry
    unfolding compensate_step
    compensate_step-bound all_steps w =
        let n = allowed step.max_retry in
        (Sends-behind n _ _ (Sends-annotate 0 _ _ (Sends-set_status _ _ _)) λ _.
            Sends-behind n _ _ (Sends-or_compensation_failed _ _) λ url.
              Sends-behind n _ _ (Sends-or_compensation_failed _ _)
                λ body. rw⁻¹ allowed-rounds (Sends-compensation_loop _ true none url body)).at
          w
