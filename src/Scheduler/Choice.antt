-- ===== src/Scheduler/Choice.antt =====
-- Which node a request without an attached volume gets.
use mill.Scheduler.Spread.{spread_apart, In-min_from}
use mill.Prelude.{
  arith, sym, subst, none, some, ◌≡◌, Option, Bool, true, false, List, ℕ, ◌&&◌, String, str_eq,
  string_key, nat_key, any, In,
}
use mill.Prelude.Float.{F64, Float}
use mill.Config.Runtime.{is_service, NodeId, NodeResources}
use mill.Fsm.State.{FsmNode, FsmVolume}
use mill.Scheduler.{
  filter_nodes, has_same, volume_node, Candidate, min_from, ScheduleRequest, ExistingAlloc,
  schedule,
}
use mill.Scheduler.Packing.{min_from-IsLeast, IsLeast, IsOrder, Scored}
use mill.Scheduler.Placement.{taken, bin_pack_one, candidates}
use mill.Scheduler.Candidates.{filter_nodes-In, feasible_available, is_feasible}

module _ (f : Float) (request : ScheduleRequest) (nodes : List FsmNode)
    (allocs : List ExistingAlloc) (volumes : List (String × FsmVolume))
    (available_fn : ℕ → Option NodeResources) where
  -- A service that no attached volume binds and that has a feasible node without a copy of it gets
  -- a node without a copy, if it gets one.
  pub schedule_spreads :
      (id : NodeId) (n : FsmNode)
      → volume_node request volumes ≡ none
      → is_service request.kind ≡ true
      → In n nodes
      → is_feasible f available_fn request.need n ≡ true
      → has_same request.name allocs n ≡ false
      → schedule f request nodes allocs volumes available_fn ≡ some id
      → any (λ a. str_eq a.1 request.name && is_service a.2 && str_eq a.0 id) allocs ≡ false
  schedule_spreads id n v s i g apart h =
      let (c, m, k) = taken f request nodes allocs volumes available_fn id v h in
      let (avail, e) = feasible_available f available_fn request.need n g in
      let d = filter_nodes-In f available_fn request.need nodes n avail i e g in
      let r =
        spread_apart request allocs (filter_nodes f available_fn request.need nodes) c (n, avail) s
          d apart m in
      subst
        (λ x. any (λ a. str_eq a.1 request.name && is_service a.2 && str_eq a.0 x) allocs ≡ false) k
        r

  -- If no attached volume binds the request, and `<` orders the scores of the candidates that are
  -- left after the spread, the node that is taken is that of a candidate with the least score of
  -- them.
  pub schedule_packs :
      (is_number : F64 → Bool) (o : IsOrder f is_number) (id : NodeId)
      → Scored f is_number o (candidates f request nodes allocs volumes available_fn)
      → volume_node request volumes ≡ none
      → schedule f request nodes allocs volumes available_fn ≡ some id
      → (c : Candidate) × In c (candidates f request nodes allocs volumes available_fn)
        × (FsmNode.mill_id c.0 ≡ id)
        × IsLeast f is_number o c (candidates f request nodes allocs volumes available_fn)
  unfolding schedule
  schedule_packs is_number o id s v h =
      let (b, rest, e, m) =
        bin_pack_one f request nodes allocs volumes available_fn
          (candidates f request nodes allocs volumes available_fn) id (ground (arith, v, h)) in
      (
        min_from f b rest,
        subst (In (min_from f b rest)) (sym e) (In-min_from f b rest),
        m,
        subst (IsLeast f is_number o (min_from f b rest)) (sym e)
            (min_from-IsLeast f is_number o b rest (subst (Scored f is_number o) e s)),
      )
