-- ===== src/Secondary/Reconcile.antt =====
-- crates/node/src/secondary/reconcile.rs: what a node takes over after a restart. What containerd
-- answers is an argument; the orphans that are stopped are returned beside the state.
pub mod Restored
use mill.Prelude.{
  inr, inl, Option-cases, Bool-cases, ◌≤◌, ◌<◌, ap, ◌⊎◌, arith, ◌∙◌, sym, subst, refl, none, some,
  ◌≡◌, Option, Bool, true, false, ◌∷◌, [], List, ℕ, zero, suc, ◌+◌, ◌-◌, ◌*◌, ◌%◌, ◌&&◌, ◌||◌, not,
  ltb, leb, ◌==◌, if◌then◌else◌, and_then, option_map, is_some, String, str_eq, str_eq_iff,
  string_key, nat_key, Map, lookup, insert, remove, retain, keys, values, Distinct, map, ◌++◌, ◌<>◌,
  display, any, filterb, find_first, length, In, any-true, any-false, In-filterb, filterb-In,
  lookup-insert, lookup-remove, lookup-retain, ite, max, ℕ_discrete, string_discrete, ◌↔◌, ◌≢◌,
}
use mill.Prelude.Float.{F64}
use mill.Prelude.Int.{negsuc}
use mill.Config.Runtime.{AllocId, AllocKind, AllocStatus, ContainerSpec, ContainerVolume, IpAddr}
use mill.Ports.{PortPool, allocate_specific}
use mill.Rpc.Protocol.{NodeReport}
use mill.Secondary.Allocations.{LocalAlloc, insert_alloc}
use mill.Secondary.Runner.{RunContext, report, mesh_address}

pub record RecoveredContainer : Type 0 where
  pub alloc_id : AllocId
  pub kind : AllocKind
  pub timeout : Option ℕ
  pub command : Option (List String)
  pub host_port : Option ℕ
  pub cpu : F64
  pub memory : ℕ
  pub image : String
  pub volumes : List ContainerVolume

-- The answers of containerd; without one, an error. The number of a log buffer is made up by name.
pub record Managed : Type 0 where
  pub list_managed : Option (List AllocId)
  pub recover_info : AllocId → Option RecoveredContainer
  pub log_buffer : AllocId → ℕ

abbrev pub is_in : List AllocId → AllocId → Bool
is_in l id = any (λ x. str_eq x id) l

abbrev pub recovered_spec : AllocId → RecoveredContainer → ContainerSpec
recovered_spec alloc_id r = record {
  alloc_id = alloc_id;
  kind = r.kind;
  timeout = r.timeout;
  command = r.command;
  image = r.image;
  env = [];
  port = option_map (λ p. 0) r.host_port;
  host_port = r.host_port;
  cpu = r.cpu;
  memory = r.memory;
  volumes = r.volumes;
}

abbrev pub recovered_alloc : AllocId → RecoveredContainer → ℕ → LocalAlloc
recovered_alloc alloc_id r log_buffer = record {
  alloc_id = alloc_id;
  spec = recovered_spec alloc_id r;
  status = AllocStatus.running;
  host_port = r.host_port;
  log_buffer = log_buffer;
}

-- A port that is taken already is only warned about.
abbrev pub take_port : AllocId → Option ℕ → PortPool → PortPool
take_port alloc_id none ports = ports
take_port alloc_id (some port) ports = (allocate_specific ports alloc_id port).0

unfoldable pub rehydrate :
    Managed → Option IpAddr → AllocId → RecoveredContainer → RunContext → RunContext
rehydrate m mesh_ip alloc_id r ctx =
    let ported = record ctx { ports = take_port alloc_id r.host_port ctx.ports } in
    if is_some
      (insert_alloc ctx.allocs (recovered_alloc alloc_id r (Managed.log_buffer m alloc_id))).1
    then ported
    else report (NodeReport.run_started alloc_id r.host_port (mesh_address mesh_ip r.host_port))
        (record ported {
          allocs =
              (insert_alloc ctx.allocs
                (recovered_alloc alloc_id r (Managed.log_buffer m alloc_id))).0;
          waiters = (alloc_id, r.host_port) ∷ ctx.waiters;
        })

unfoldable pub reconcile_one :
    Managed → List AllocId → Option IpAddr → AllocId → RunContext → RunContext
unfolding rehydrate
reconcile_one m running mesh_ip alloc_id ctx =
    if is_in running alloc_id
    then elim (Managed.recover_info m alloc_id) [
      | none ↦ ctx
      | some r ↦ rehydrate m mesh_ip alloc_id r ctx
    ]
    else report (NodeReport.stopped alloc_id (negsuc 0)) ctx

unfoldable pub reconcile_each :
    Managed → List AllocId → Option IpAddr → List AllocId → RunContext → RunContext
unfolding reconcile_one
reconcile_each m running mesh_ip [] ctx = ctx
reconcile_each m running mesh_ip (id ∷ ids) ctx =
    reconcile_each m running mesh_ip ids (reconcile_one m running mesh_ip id ctx)

-- The state, and the containers that are stopped and removed.
unfoldable pub reconcile :
    Managed → List AllocId → Option IpAddr → RunContext → RunContext × List AllocId
unfolding reconcile_each
reconcile m expected mesh_ip ctx = elim m.list_managed [
  | none ↦ (ctx, [])
  | some running ↦ (
    reconcile_each m running mesh_ip expected ctx,
    filterb (λ id. not (is_in expected id)) running,
  )
]
