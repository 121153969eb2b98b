-- ===== src/Primary/Resolve.antt =====
-- crates/node/src/primary/deploy/mod.rs: the errors, and `resolve_env`, the values of the environment
-- of a container.
use mill.Prelude.{
  none, some, Option, ◌∷◌, [], List, String, string_key, nat_key, Map, insert, ◌<>◌, display,
}
use mill.Prelude.Exec.{Result, ok, err, pure, raise, ◌>>=◌}
use mill.Config.Env.{EnvPart, EnvValue}
use mill.Fsm.State.{get_secret, list_service_allocs, EncryptedSecret}
use mill.Rpc.Router.{node_error_text}
use mill.Config.Runtime.{Alloc, SocketAddr}
use mill.Primary.World.{read_state, Env, StorageError, DeployError, Task}

unfoldable pub storage_error_text : StorageError → String
storage_error_text (StorageError.not_found name) = "volume not found: " <> name
storage_error_text (StorageError.already_exists name) = "volume already exists: " <> name
storage_error_text (StorageError.attached name) = "volume is attached: " <> name
storage_error_text (StorageError.api text) = "api error: " <> text
storage_error_text (StorageError.http text) = text

unfoldable pub error_text : DeployError → String
unfolding storage_error_text
error_text (DeployError.scheduling_failed service replica) =
    "scheduling failed for " <> service <> ", replica " <> display replica <> ": no nodes available"
error_text (DeployError.health_check_timeout service) = "health check timeout for " <> service
error_text (DeployError.env_resolution text) = "failed to resolve env var: " <> text
error_text (DeployError.validation_failed text) = "deploy validation failed: " <> text
error_text (DeployError.node x) = node_error_text x
error_text (DeployError.storage x) = storage_error_text x

-- `ok_or`
abbrev pub ok_or : {A : Type 0} → DeployError → Option A → Task A
ok_or x none = raise x
ok_or x (some a) = pure a

abbrev pub from_result : {A : Type 0} → (String → DeployError) → Result String A → Task A
from_result f (ok a) = pure a
from_result f (err x) = raise (f x)

-- `Iterator::find_map` with `|a| a.address`
unfoldable pub find_address : List Alloc → Option SocketAddr
find_address [] = none
find_address (a ∷ as') = elim a.address [ none ↦ find_address as' | some addr ↦ some addr ]

module _ (e : Env) where
  unfoldable pub resolve_part : EnvPart → Task String
  unfolding find_address
  resolve_part (EnvPart.literal s) = pure s
  resolve_part (EnvPart.service_address service) = do
    found ← read_state e (λ fsm. find_address (list_service_allocs fsm service))
    addr ← ok_or (DeployError.env_resolution ("no address for service '" <> service <> "'")) found
    pure (Env.addr_to_string e addr)
  resolve_part (EnvPart.secret name) = do
    encrypted ← read_state e (λ fsm. get_secret fsm name)
    secret ← ok_or (DeployError.env_resolution ("secret '" <> name <> "' not found")) encrypted
    plaintext ← from_result DeployError.env_resolution (
        Env.decrypt_secret e (EncryptedSecret.encrypted_value secret)
          (EncryptedSecret.nonce secret))
    from_result (λ x. DeployError.env_resolution ("secret '" <> name <> "' not utf8: " <> x))
        (Env.from_utf8 e plaintext)

  -- The loop over the parts, with the text so far.
  unfoldable pub resolve_parts : List EnvPart → String → Task String
  unfolding resolve_part
  resolve_parts [] result = pure result
  resolve_parts (part ∷ parts) result = do
    text ← resolve_part part
    resolve_parts parts (result <> text)

  unfoldable pub resolve_env_value : EnvValue → Task String
  unfolding resolve_parts
  resolve_env_value (EnvValue.literal s) = pure s
  resolve_env_value (EnvValue.interpolated parts) = resolve_parts parts ""

  unfoldable pub resolve_env : Map String EnvValue → Map String String → Task (Map String String)
  unfolding resolve_env_value
  resolve_env [] resolved = pure resolved
  resolve_env ((key, value) ∷ env) resolved = do
    val ← resolve_env_value value
    resolve_env env (insert key val resolved)
