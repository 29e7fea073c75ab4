-- ===== src/Auth/Stores.antt =====
-- The credentials of auth/store.go, and the two interfaces that a verifier is given: CredentialStore
-- and NonceStore.
use nsp_platform.Base.{ℕ, String, Bool, Option}
use nsp_platform.Auth.Errors.{Result}

pub record Credential : Type 0 where
  pub access_key : String
  pub secret_key : String
  pub label : String
  pub enabled : Bool

-- The interface CredentialStore, at the state that its answers depend on.
abbrev pub CredentialStore : Type 0
CredentialStore = String → Result (Option Credential)

-- The interface NonceStore over the store's state.
pub record NonceStore (S : Type 0) : Type 0 where
  pub check_and_store : ℕ → String → ℕ → S → Result Bool × S
