-- ===== src/Fsm/Valid/Commands.antt =====
-- About crates/raft/src/fsm/apply.rs: consistency, with a lemma for each arm of `apply_command`.
use mill.Prelude.{
  some, arith, inr, ◌∷◌, inl, Bool-cases, remove-Distinct, Distinct, Option-cases, lookup, ℕ, Map,
  insert-Distinct, ◌≡◌, [], values, any, nat_key, string_key, is_some, String, List, Option, refl,
}
use mill.Fsm.Command.{
  Command, deploy, node_register, node_heartbeat, node_down, alloc_scheduled, alloc_status,
  alloc_running, secret_set, secret_delete, volume_created, volume_attached, volume_detached,
  volume_destroyed, node_drain, node_remove, Registration, Placement,
}
use mill.Fsm.Apply.{
  apply_node_register, apply_node_heartbeat, apply_node_down, apply_alloc_scheduled,
  apply_alloc_status, apply_alloc_running, apply_secret_delete, apply_volume_attached,
  apply_volume_detached, apply_node_drain, apply_node_remove, apply_command, run_commands, revive,
  put_node, put_alloc, is_pending, is_active_on,
}
use mill.Fsm.State.{EncryptedSecret, FsmVolume, FsmNode, FsmState, default_state}
use mill.Config.Runtime.{AllocId, AllocStatus, Alloc, SocketAddr}
use mill.Fsm.Valid.{
  IsValid, insert-NodesValid, remove-NodesValid, change-NodesValid, insert-AllocsValid,
  retain-AllocsValid, report_all-AllocsValid,
}

module _ (s : FsmState) (v : IsValid s) where
  heartbeat-IsValid :
      (id : ℕ) (statuses : Map AllocId AllocStatus) → IsValid (apply_node_heartbeat s id statuses).0
  unfolding apply_node_heartbeat
  heartbeat-IsValid id statuses = elim (Option-cases (lookup id s.nodes)) [
    | inl e ↦ rw (e, apply_node_heartbeat) v
    | inr (n, e) ↦
        rw (e, apply_node_heartbeat)
          (record {
            nodes_valid = change-NodesValid s id n (revive n) v.nodes_valid e (ground arith);
            allocs_valid = report_all-AllocsValid s.allocs statuses v.allocs_valid;
            secrets_distinct = v.secrets_distinct;
            volumes_distinct = v.volumes_distinct;
          })
  ]

  put_node-IsValid :
      (id : ℕ) (n n' : FsmNode)
      → lookup id s.nodes ≡ some n
      → n'.raft_id ≡ n.raft_id
      → IsValid (put_node s id n')
  put_node-IsValid id n n' h e = record {
    nodes_valid = change-NodesValid s id n n' v.nodes_valid h e;
    allocs_valid = v.allocs_valid;
    secrets_distinct = v.secrets_distinct;
    volumes_distinct = v.volumes_distinct;
  }

  put_alloc-IsValid : (id : AllocId) (a : Alloc) → a.id ≡ id → IsValid (put_alloc s id a)
  put_alloc-IsValid id a e = record {
    nodes_valid = v.nodes_valid;
    allocs_valid = insert-AllocsValid s.allocs id a v.allocs_valid e;
    secrets_distinct = v.secrets_distinct;
    volumes_distinct = v.volumes_distinct;
  }

  node_down-IsValid : (id : ℕ) → IsValid (apply_node_down s id).0
  unfolding apply_node_down
  node_down-IsValid id = elim (Option-cases (lookup id s.nodes)) [
    | inl e ↦ rw (e, apply_node_down) v
    | inr (n, e) ↦ rw (e, apply_node_down) (put_node-IsValid id n _ e refl)
  ]

  node_drain-IsValid : (id : ℕ) → IsValid (apply_node_drain s id).0
  unfolding apply_node_drain
  node_drain-IsValid id = elim (Option-cases (lookup id s.nodes)) [
    | inl e ↦ rw (e, apply_node_drain) v
    | inr (n, e) ↦ rw (e, apply_node_drain) (put_node-IsValid id n _ e refl)
  ]

  node_register-IsValid : (r : Registration) → IsValid (apply_node_register s r).0
  unfolding apply_node_register
  node_register-IsValid r = record {
    nodes_valid = insert-NodesValid s.nodes r.id _ v.nodes_valid refl;
    allocs_valid = v.allocs_valid;
    secrets_distinct = v.secrets_distinct;
    volumes_distinct = v.volumes_distinct;
  }

  alloc_scheduled-IsValid : (p : Placement) → IsValid (apply_alloc_scheduled s p).0
  unfolding apply_alloc_scheduled
  alloc_scheduled-IsValid p = elim (Option-cases (lookup p.node_id s.nodes)) [
    | inl e ↦ rw (e, apply_alloc_scheduled) v
    | inr (n, e) ↦ rw (e, apply_alloc_scheduled) (put_alloc-IsValid p.alloc_id _ refl)
  ]

  alloc_status-IsValid :
      (id : AllocId) (status : AllocStatus) → IsValid (apply_alloc_status s id status).0
  unfolding apply_alloc_status
  alloc_status-IsValid id status = elim (Option-cases (lookup id s.allocs)) [
    | inl e ↦ rw (e, apply_alloc_status) v
    | inr (a, e) ↦ rw (e, apply_alloc_status) (put_alloc-IsValid id _ (v.allocs_valid.ids id a e))
  ]

  alloc_running-IsValid :
      (id : AllocId) (address : Option SocketAddr) (started_at : Option ℕ)
      → IsValid (apply_alloc_running s id address started_at).0
  unfolding apply_alloc_running
  alloc_running-IsValid id address started_at = elim (Option-cases (lookup id s.allocs)) [
    | inl e ↦ rw (e, apply_alloc_running) v
    | inr (a, e) ↦ elim (Bool-cases (is_pending a.status)) [
      | inl p ↦
          rw (e, apply_alloc_running) (rw p (put_alloc-IsValid id _ (v.allocs_valid.ids id a e)))
      | inr p ↦ rw (e, apply_alloc_running) (rw p v)
    ]
  ]

  node_remove-IsValid : (id : ℕ) → IsValid (apply_node_remove s id).0
  unfolding apply_node_remove
  node_remove-IsValid id = elim (Option-cases (lookup id s.nodes)) [
    | inl e ↦ rw (e, apply_node_remove) v
    | inr (n, e) ↦ elim (Bool-cases (any (is_active_on n.mill_id) (values s.allocs))) [
      | inl p ↦ rw (e, apply_node_remove) (rw p v)
      | inr p ↦
          rw (e, apply_node_remove)
            (rw p (record {
              nodes_valid = remove-NodesValid s.nodes id v.nodes_valid;
              allocs_valid = retain-AllocsValid _ s.allocs v.allocs_valid;
              secrets_distinct = v.secrets_distinct;
              volumes_distinct = v.volumes_distinct;
            }))
    ]
  ]

  with_secrets-IsValid :
      (m : Map String EncryptedSecret) → Distinct m → IsValid (record s { secrets = m })
  with_secrets-IsValid m d = record {
    nodes_valid = v.nodes_valid;
    allocs_valid = v.allocs_valid;
    secrets_distinct = d;
    volumes_distinct = v.volumes_distinct;
  }

  with_volumes-IsValid :
      (m : Map String FsmVolume) → Distinct m → IsValid (record s { volumes = m })
  with_volumes-IsValid m d = record {
    nodes_valid = v.nodes_valid;
    allocs_valid = v.allocs_valid;
    secrets_distinct = v.secrets_distinct;
    volumes_distinct = d;
  }

  secret_delete-IsValid : (name : String) → IsValid (apply_secret_delete s name).0
  unfolding apply_secret_delete
  secret_delete-IsValid name = elim (Bool-cases (is_some (lookup name s.secrets))) [
    | inl e ↦ rw e (with_secrets-IsValid _ (remove-Distinct name s.secrets v.secrets_distinct))
    | inr e ↦ rw e v
  ]

  volume_attached-IsValid :
      (name : String) (node : ℕ) → IsValid (apply_volume_attached s name node).0
  unfolding apply_volume_attached
  volume_attached-IsValid name node = elim (Option-cases (lookup node s.nodes)) [
    | inl e ↦ rw (e, apply_volume_attached) v
    | inr (n, e) ↦ elim (Option-cases (lookup name s.volumes)) [
      | inl f ↦ rw (e, apply_volume_attached) (rw (f, apply_volume_attached) v)
      | inr (w, f) ↦
          rw (e, apply_volume_attached)
            (rw (f, apply_volume_attached)
              (with_volumes-IsValid _ (insert-Distinct name _ s.volumes v.volumes_distinct)))
    ]
  ]

  volume_detached-IsValid : (name : String) → IsValid (apply_volume_detached s name).0
  unfolding apply_volume_detached
  volume_detached-IsValid name = elim (Option-cases (lookup name s.volumes)) [
    | inl e ↦ rw (e, apply_volume_detached) v
    | inr (w, e) ↦
        rw (e, apply_volume_detached)
          (with_volumes-IsValid _ (insert-Distinct name _ s.volumes v.volumes_distinct))
  ]

-- Every command keeps the state consistent.
pub apply_command-IsValid : (s : FsmState) (c : Command) → IsValid s → IsValid (apply_command s c).0
unfolding apply_command
apply_command-IsValid s (deploy config) v = record {
  nodes_valid = v.nodes_valid;
  allocs_valid = v.allocs_valid;
  secrets_distinct = v.secrets_distinct;
  volumes_distinct = v.volumes_distinct;
}
apply_command-IsValid s (node_register r) v = node_register-IsValid s v r
apply_command-IsValid s (node_heartbeat id statuses) v = heartbeat-IsValid s v id statuses
apply_command-IsValid s (node_down id) v = node_down-IsValid s v id
apply_command-IsValid s (alloc_scheduled p) v = alloc_scheduled-IsValid s v p
apply_command-IsValid s (alloc_status id status) v = alloc_status-IsValid s v id status
apply_command-IsValid s (alloc_running id address t) v = alloc_running-IsValid s v id address t
apply_command-IsValid s (secret_set name value nonce) v =
    with_secrets-IsValid s v _ (insert-Distinct name _ s.secrets v.secrets_distinct)
apply_command-IsValid s (secret_delete name) v = secret_delete-IsValid s v name
apply_command-IsValid s (volume_created name cloud_id) v =
    with_volumes-IsValid s v _ (insert-Distinct name _ s.volumes v.volumes_distinct)
apply_command-IsValid s (volume_attached name node) v = volume_attached-IsValid s v name node
apply_command-IsValid s (volume_detached name) v = volume_detached-IsValid s v name
apply_command-IsValid s (volume_destroyed name) v =
    with_volumes-IsValid s v _ (remove-Distinct name s.volumes v.volumes_distinct)
apply_command-IsValid s (node_drain id) v = node_drain-IsValid s v id
apply_command-IsValid s (node_remove id) v = node_remove-IsValid s v id

run-IsValid : (s : FsmState) (cs : List Command) → IsValid s → IsValid (run_commands s cs)
unfolding run_commands
run-IsValid s [] v = v
run-IsValid s (c ∷ cs) v = run-IsValid (apply_command s c).0 cs (apply_command-IsValid s c v)

-- After any log of commands, from the empty state, each node stands under its `raft_id`, each
-- allocation under its `id`, and no key of a map stands twice.
pub run_commands-IsValid : (cs : List Command) → IsValid (run_commands default_state cs)
unfolding lookup
run_commands-IsValid cs = run-IsValid default_state cs record {
  nodes_valid = record { distinct = tt; raft_ids = λ id n h. cc };
  allocs_valid = record { distinct = tt; ids = λ id a h. cc };
  secrets_distinct = tt;
  volumes_distinct = tt;
}
