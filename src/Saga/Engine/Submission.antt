-- ===== src/Saga/Engine/Submission.antt =====
-- The validation of the access keys in Submit of saga/engine.go.
use nsp_platform.Base.{
  ℕ, String, true, ◌≡◌, refl, ap, ◌∙◌, sym, List, [], ◌∷◌, Option, some, none, Bool-cases, inl, inr,
  ◌⊎◌,
}
use nsp_platform.Base.Lists.{All}
use nsp_platform.Base.Text.{is_empty}
use nsp_platform.Trace.{TraceContext}
use nsp_platform.Saga.Definition.{Step, SagaDefinition}
use nsp_platform.Saga.Errors.{Result, Error, ok, err}
use nsp_platform.Saga.Runtime.{Env, World, Credential, pure, on_option}
use nsp_platform.Saga.Chains.{bind-ok, bind-world, bind-err}
use nsp_platform.Saga.Engine.{
  is_usable, validated, check_credential, check_credentials, validate, submit_definition,
}

abbrev pub Lookup : Type 0
Lookup = ℕ → String → Result (Option Credential)

-- The step needs no signature, or the store has found an enabled credential for its access key.
abbrev pub HasCredential : Lookup → Step → Type 0
HasCredential get_by_ak step =
    (is_empty step.auth_ak ≡ true)
    ⊎ ((n : ℕ) × (cred : Credential) × (get_by_ak n step.auth_ak ≡ ok (some cred))
        × (cred.enabled ≡ true))

usable :
    (found : Option Credential)
    → is_usable found ≡ true
    → (cred : Credential) × (found ≡ some cred) × (cred.enabled ≡ true)
usable none h = cc h
usable (some cred) h = (cred, refl, h)

module _ (env : Env) (get_by_ak : Lookup) where
  validated-ok :
      (ak : String) (r : Result (Option Credential))
      → validated env ak r ≡ ok tt
      → (cred : Credential) × (r ≡ ok (some cred)) × (cred.enabled ≡ true)
  validated-ok ak (err e) h = cc h
  validated-ok ak (ok found) h = elim (Bool-cases (is_usable found)) [
    | inl e ↦ let (cred, p, q) = usable found e in (cred, ap (λ x. ok x) p, q)
    | inr e ↦ cc (rw e at h)
  ]

  check_credential-ok :
      (ak : String) (w : World)
      → (check_credential env get_by_ak ak w).0 ≡ ok tt
      → (n : ℕ) × (cred : Credential) × (get_by_ak n ak ≡ ok (some cred)) × (cred.enabled ≡ true)
  unfolding check_credential
  check_credential-ok ak w h =
      let (cred, p, q) = validated-ok ak (get_by_ak w.tick ak) h in (w.tick, cred, p, q)

  check_credentials-ok :
      (steps : List Step) (w : World)
      → (check_credentials env get_by_ak steps w).0 ≡ ok tt
      → All (HasCredential get_by_ak) steps
  unfolding check_credentials
  check_credentials-ok [] w h = tt
  check_credentials-ok (step ∷ steps) w h = elim (Bool-cases (is_empty step.auth_ak)) [
    | inl e ↦ (inl e, check_credentials-ok steps w (rw e at h))
    | inr e ↦
        let (u, p, q) = bind-ok (check_credential env get_by_ak step.auth_ak) _ w tt (rw e at h) in
        (inr (check_credential-ok step.auth_ak w p), check_credentials-ok steps _ q)
  ]

  -- The validation writes nothing.
  abbrev Same : World → World → Type 0
  Same w w' = (w'.db ≡ w.db) × (w'.active_tx ≡ w.active_tx) × (w'.task_queue ≡ w.task_queue)

  check_credentials-framed :
      (steps : List Step) (start w : World)
      → Same start w
      → Same start (check_credentials env get_by_ak steps w).1
  unfolding check_credentials check_credential pure
  check_credentials-framed [] start w h = h
  check_credentials-framed (step ∷ steps) start w h = elim (Bool-cases (is_empty step.auth_ak)) [
    | inl e ↦ rw e (check_credentials-framed steps start w h)
    | inr e ↦ rw e (
        bind-world (Same start) (check_credential env get_by_ak step.auth_ak)
          (λ _. check_credentials env get_by_ak steps) w h
          λ u. check_credentials-framed steps start _ h)
  ]

  validate-run :
      (steps : List Step) (w : World)
      → env.credentials ≡ some get_by_ak
      → validate env steps w ≡ check_credentials env get_by_ak steps w
  unfolding validate on_option
  validate-run steps w store =
      ap (λ c. on_option c (λ get. check_credentials env get steps) (pure tt) w) store

  module _ (new_uuid : ℕ → String) (caller_trace : Option TraceContext) where
    -- Where the engine has a credential store, Submit succeeds only if the store has found an
    -- enabled credential for the access key of every step that names one.
    pub submit-HasCredential :
        (def : SagaDefinition) (w : World) (id : String)
        → env.credentials ≡ some get_by_ak
        → (submit_definition env new_uuid caller_trace def w).0 ≡ ok id
        → All (HasCredential get_by_ak) def.steps
    unfolding submit_definition
    submit-HasCredential def w id store h =
        let (u, p, q) = bind-ok (validate env def.steps) _ w id h in
        check_credentials-ok def.steps w (sym (ap (λ r. r.0) (validate-run def.steps w store)) ∙ p)

    -- A definition that fails the validation is refused with its error, and the database and the
    -- queue stay as they are.
    pub submit-refused :
        (def : SagaDefinition) (w : World) (e : Error)
        → env.credentials ≡ some get_by_ak
        → (check_credentials env get_by_ak def.steps w).0 ≡ err e
        → ((submit_definition env new_uuid caller_trace def w).0 ≡ err e)
          × ((submit_definition env new_uuid caller_trace def w).1.db ≡ w.db)
          × ((submit_definition env new_uuid caller_trace def w).1.task_queue ≡ w.task_queue)
    unfolding submit_definition
    submit-refused def w e store h =
        let run = validate-run def.steps w store in
        let refused = bind-err (validate env def.steps) _ w e (ap (λ r. r.0) run ∙ h) in
        let (db, active, queue) = check_credentials-framed def.steps w w (refl, refl, refl) in
        (
          ap (λ r. r.0) refused,
          ap (λ r. r.1.db) (refused) ∙ ap (λ r. r.1.db) run ∙ db,
          ap (λ r. r.1.task_queue) refused ∙ ap (λ r. r.1.task_queue) run ∙ queue,
        )
