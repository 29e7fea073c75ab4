-- ===== src/Auth/MemoryStore.antt =====
-- MemoryStore of auth/store.go: the credentials in memory, by their access key.
use nsp_platform.Base.{String, List, [], ◌∷◌, Option, none, some}
use nsp_platform.Base.Maps.{lookup, put}
use nsp_platform.Auth.Errors.{ok}
use nsp_platform.Auth.Stores.{Credential, CredentialStore}

abbrev pub Creds : Type 0
Creds = List (String × Credential)

-- `Add`; a nil credential is ignored.
unfoldable pub add : Option Credential → Creds → Creds
add none creds = creds
add (some c) creds = put c.access_key c creds

add_all : List (Option Credential) → Creds → Creds
unfolding add
add_all [] creds = creds
add_all (c ∷ rest) creds = add_all rest (add c creds)

unfoldable pub new_memory_store : List (Option Credential) → Creds
unfolding add_all
new_memory_store list = add_all list []

unfoldable pub get_by_ak : Creds → CredentialStore
get_by_ak creds ak = ok (lookup ak creds)
