-- ===== src/Fsm/Errors.antt =====
-- About crates/raft/src/fsm/apply.rs: which commands fail, and what they leave.
use mill.Prelude.{refl, ◌↔◌, string_key, nat_key, ℕ, String, ◌≡◌, ◌≢◌, none, lookup, arith}
use mill.Fsm.State.{FsmState}
use mill.Fsm.Command.{
  Command, deploy, node_heartbeat, node_down, alloc_scheduled, alloc_status, alloc_running,
  secret_delete, volume_attached, volume_detached, node_drain, node_remove, ok, error,
}
use mill.Fsm.Apply.{
  apply_node_register, apply_node_heartbeat, apply_node_down, apply_alloc_scheduled,
  apply_alloc_status, apply_alloc_running, apply_secret_delete, apply_volume_attached,
  apply_volume_detached, apply_node_drain, apply_node_remove, apply_command,
}

-- A command that is answered with an error leaves the whole state as it was, whatever the command.
pub error_unchanged :
    (s : FsmState) (c : Command) (e : String)
    → (apply_command s c).1 ≡ error e
    → (apply_command s c).0 ≡ s
unfolding apply_command apply_node_register apply_node_heartbeat apply_node_down
    apply_alloc_scheduled apply_alloc_status apply_alloc_running apply_secret_delete
    apply_volume_attached apply_volume_detached apply_node_drain apply_node_remove
error_unchanged s (deploy config) e h = ground arith
error_unchanged s _ e h = ground arith

-- What a command needs to be there.
abbrev pub Accepted : FsmState → Command → Type 0
Accepted s (node_heartbeat id statuses) = lookup id s.nodes ≢ none
Accepted s (node_down id) = lookup id s.nodes ≢ none
Accepted s (alloc_scheduled p) = lookup p.node_id s.nodes ≢ none
Accepted s (alloc_status id status) = lookup id s.allocs ≢ none
Accepted s (alloc_running id address started_at) = lookup id s.allocs ≢ none
Accepted s (secret_delete name) = lookup name s.secrets ≢ none
Accepted s (volume_attached name node) =
    (lookup node s.nodes ≢ none) × (lookup name s.volumes ≢ none)
Accepted s (volume_detached name) = lookup name s.volumes ≢ none
Accepted s (node_drain id) = lookup id s.nodes ≢ none
Accepted s _ = Unit

-- Every command but `NodeRemove` is accepted exactly where the node, the allocation, the secret and
-- the volume that it names are known; `Deploy`, `NodeRegister`, `SecretSet`, `VolumeCreated` and
-- `VolumeDestroyed` always are.
pub ok_iff_Accepted :
    (s : FsmState) (c : Command)
    → ((id : ℕ) → c ≢ node_remove id)
    → ((apply_command s c).1 ≡ ok) ↔ Accepted s c
unfolding apply_command apply_node_register apply_node_heartbeat apply_node_down
    apply_alloc_scheduled apply_alloc_status apply_alloc_running apply_secret_delete
    apply_volume_attached apply_volume_detached apply_node_drain
ok_iff_Accepted s (node_remove id) n = absurd (n id refl)
ok_iff_Accepted s _ n = (λ h. ground arith, λ a. ground arith)
