-- ===== src/Secondary/Runner.antt =====
-- crates/node/src/secondary/runner.rs: the containers of a node. What containerd answers is an
-- argument. The reports are kept in the order in which they are sent, and the exit waiters that run
-- beside the commands are a list: each fires once, at any time after its container was started.
pub mod Ports
pub mod Exits
use mill.Prelude.{
  inr, inl, Option-cases, Bool-cases, ◌≤◌, ◌<◌, ap, ◌⊎◌, arith, ◌∙◌, sym, subst, refl, none, some,
  ◌≡◌, Option, Bool, true, false, ◌∷◌, [], List, ℕ, zero, suc, ◌+◌, ◌-◌, ◌*◌, ◌%◌, ◌&&◌, ◌||◌, not,
  ltb, leb, ◌==◌, if◌then◌else◌, and_then, option_map, is_some, String, str_eq, str_eq_iff,
  string_key, nat_key, Map, lookup, insert, remove, retain, keys, values, Distinct, map, ◌++◌, ◌<>◌,
  display, any, filterb, find_first, length, In, any-true, any-false, In-filterb, filterb-In,
  lookup-insert, lookup-remove, lookup-retain, ite, max, ℕ_discrete, string_discrete, ◌↔◌, ◌≢◌,
}
use mill.Prelude.Exec.{Result, ok, err}
use mill.Prelude.Int.{ℤ, pos, negsuc}
use mill.Config.Runtime.{AllocId, AllocStatus, ContainerSpec, IpAddr, SocketAddr}
use mill.Ports.{PortPool, allocate, release}
use mill.Rpc.Protocol.{NodeReport}
use mill.Rpc.Router.{NodeError}
use mill.Secondary.Allocations.{
  LocalAlloc, AllocationMap, insert_alloc, remove_alloc, set_status, contains, host_port,
}

pub record RunContext : Type 0 where
  pub ports : PortPool
  pub allocs : AllocationMap
  pub reports : List NodeReport
  pub waiters : List (AllocId × Option ℕ)

-- `dyn Containers`: the answers to the calls of one command, with the texts of their errors.
pub record Containers : Type 0 where
  pub is_image_cached : Bool
  pub pull_image : Option String
  pub run : Option String
  pub stop : Result String ℤ

abbrev pub report : NodeReport → RunContext → RunContext
report r ctx = record ctx { reports = ctx.reports ++ r ∷ [] }

abbrev pub status_update : AllocId → AllocStatus → RunContext → RunContext
status_update alloc_id status = report (NodeReport.status_update alloc_id status)

-- The text of a pull that fails; a cached image is not pulled.
abbrev pub pull_failure : Containers → Option String
pull_failure c = if c.is_image_cached then none else c.pull_image

abbrev pub release_port : Option ℕ → RunContext → RunContext
release_port none ctx = ctx
release_port (some port) ctx = record ctx { ports = release ctx.ports port }

-- The spec with its port, which the container learns from `PORT`.
abbrev pub with_port : ContainerSpec → Option ℕ → ContainerSpec
with_port spec none = spec
with_port spec (some port) = record spec {
  host_port = some port;
  env = insert "PORT" (display port) spec.env;
}

-- `mesh_ip.zip(host_port)`
abbrev pub mesh_address : Option IpAddr → Option ℕ → Option SocketAddr
mesh_address none port = none
mesh_address (some ip) none = none
mesh_address (some ip) (some port) = some (record { ip = ip; port = port })

-- What follows the choice of the port.
unfoldable pub launch :
    Containers
    → AllocId
    → ContainerSpec
    → Option IpAddr
    → ℕ
    → Option ℕ
    → RunContext
    → Result NodeError Unit × RunContext
launch c alloc_id spec mesh_ip log_buffer port ctx = elim c.run [
  | some e ↦ (
    err (NodeError.containerd e),
    report (NodeReport.run_failed alloc_id ("container start failed: " <> e))
        (release_port port ctx),
  )
  | none ↦
      let local_alloc : LocalAlloc = record {
        alloc_id = alloc_id;
        spec = with_port spec port;
        status = AllocStatus.running;
        host_port = port;
        log_buffer = log_buffer;
      } in
      let started =
        report (NodeReport.run_started alloc_id port (mesh_address mesh_ip port))
          (record ctx { allocs = (insert_alloc ctx.allocs local_alloc).0 }) in
      (ok tt, record started { waiters = (alloc_id, port) ∷ started.waiters })
]

-- The port of the host, if the container exposes one.
unfoldable pub with_host_port :
    Containers
    → AllocId
    → ContainerSpec
    → Option IpAddr
    → ℕ
    → RunContext
    → Result NodeError Unit × RunContext
unfolding launch
with_host_port c alloc_id spec mesh_ip log_buffer ctx = elim spec.port [
  | none ↦ launch c alloc_id spec mesh_ip log_buffer none ctx
  | some p ↦ elim (allocate ctx.ports alloc_id).1 [
    | none ↦ (err NodeError.port_exhaustion, ctx)
    | some port ↦
        launch c alloc_id spec mesh_ip log_buffer (some port)
          (record ctx { ports = (allocate ctx.ports alloc_id).0 })
  ]
]

unfoldable pub run_container :
    Containers
    → AllocId
    → ContainerSpec
    → Option IpAddr
    → ℕ
    → RunContext
    → Result NodeError Unit × RunContext
unfolding with_host_port
run_container c alloc_id spec mesh_ip log_buffer ctx =
    if contains ctx.allocs alloc_id
    then (err (NodeError.alloc_already_exists alloc_id), ctx)
    else let pulling = status_update alloc_id AllocStatus.pulling ctx in
      elim (pull_failure c) [
        | some e ↦ (
          err (NodeError.containerd e),
          report (NodeReport.run_failed alloc_id ("image pull failed: " <> e)) pulling,
        )
        | none ↦
            with_host_port c alloc_id spec mesh_ip log_buffer
              (status_update alloc_id AllocStatus.starting pulling)
      ]

abbrev pub exit_code_of : Result String ℤ → ℤ
exit_code_of (ok code) = code
exit_code_of (err e) = negsuc 0

abbrev pub outcome_of : Result String ℤ → Result NodeError Unit
outcome_of (ok code) = ok tt
outcome_of (err e) = err (NodeError.containerd e)

unfoldable pub stop_container :
    Containers → AllocId → RunContext → Result NodeError Unit × RunContext
unfolding remove_alloc
stop_container c alloc_id ctx =
    let freed = release_port (host_port ctx.allocs alloc_id) ctx in
    (
      outcome_of c.stop,
      report (NodeReport.stopped alloc_id (exit_code_of c.stop))
          (record freed { allocs = (remove_alloc freed.allocs alloc_id).0 }),
    )

abbrev pub final_status : ℤ → AllocStatus
final_status (pos zero) = AllocStatus.stopped (pos 0)
final_status (pos (suc n)) = AllocStatus.failed ("exit code " <> display (suc n))
final_status (negsuc n) = AllocStatus.failed ("exit code -" <> display (suc n))

-- The task of one exit waiter, with the code of the exit, -1 if it is not known.
unfoldable pub exit_waiter : AllocId → Option ℕ → ℤ → RunContext → RunContext
unfolding remove_alloc set_status
exit_waiter alloc_id port exit_code ctx =
    let freed =
      release_port port
        (record ctx { allocs = set_status ctx.allocs alloc_id (final_status exit_code) }) in
    report (NodeReport.stopped alloc_id exit_code)
      (record freed { allocs = (remove_alloc freed.allocs alloc_id).0 })

unfoldable pub pull_image : Containers → String → RunContext → RunContext
pull_image c image ctx = elim c.pull_image [
  | none ↦ report (NodeReport.pull_complete image) ctx
  | some e ↦ report (NodeReport.pull_failed image e) ctx
]
