-- ===== src/Secondary/Beat.antt =====
-- crates/node/src/secondary/heartbeat.rs: the heartbeat that a node sends at each tick. Whether its
-- receiver is there is given for each tick.
use mill.Prelude.{Bool, ◌∷◌, [], List, ◌-◌, if◌then◌else◌, string_key, nat_key}
use mill.Prelude.Float.{Float}
use mill.Config.Runtime.{NodeId, NodeResources}
use mill.Rpc.Protocol.{NodeReport}
use mill.Secondary.Allocations.{
  AllocationMap, all_statuses, total_reserved_cpu, total_reserved_memory, volume_info,
}
use mill.Secondary.Metrics.{Collector}

-- The resources that are left by what runs.
unfoldable pub left_resources : Float → AllocationMap → NodeResources → NodeResources
unfolding total_reserved_cpu total_reserved_memory
left_resources f allocs r = record r {
  cpu_available =
      Float.f64_max f (Float.sub f r.cpu_total (total_reserved_cpu f (Float.zero_f64 f) allocs))
        (Float.zero_f64 f);
  memory_available = r.memory_total - total_reserved_memory 0 allocs;
}

unfoldable pub beat : Float → NodeId → AllocationMap → Collector → NodeReport
unfolding left_resources all_statuses volume_info
beat f node_id allocs c =
    let (resources, stats) = c.cache in
    NodeReport.heartbeat (record {
      node_id = node_id;
      alloc_statuses = all_statuses allocs;
      resources = left_resources f allocs resources;
      stats = stats;
      volumes = volume_info allocs;
    })

-- The loop over the states at its ticks, up to the first report that nobody takes.
unfoldable pub heartbeat_loop :
    Float → NodeId → List (AllocationMap × Collector × Bool) → List NodeReport
unfolding beat
heartbeat_loop f node_id [] = []
heartbeat_loop f node_id ((allocs, c, taken) ∷ rest) =
    let later = heartbeat_loop f node_id rest in
    if taken then beat f node_id allocs c ∷ later else []
