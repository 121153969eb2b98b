-- ===== src/Scheduler/Placement.antt =====
-- What the scheduler's choice satisfies.
use mill.Scheduler.Spread.{spread_none, In-min_from, In-spread}
use mill.Prelude.{
  inr, inl, Option-cases, Bool-cases, ◌⊎◌, arith, ◌∙◌, sym, subst, refl, none, some, ◌≡◌, Option,
  true, false, ◌∷◌, [], List, ℕ, String, str_eq_iff, string_key, nat_key, any, In, any-true,
  any-false,
}
use mill.Prelude.Float.{Float}
use mill.Config.Runtime.{NodeId, NodeResources}
use mill.Fsm.State.{FsmVolume, FsmNode}
use mill.Scheduler.{
  fits_on, volume_node, min_from, schedule, spread, bin_pack, ExistingAlloc, ScheduleRequest,
  filter_nodes, Candidate,
}
use mill.Scheduler.Candidates.{is_feasible, In-filter_nodes, filter_nodes_none}

module _ (f : Float) (request : ScheduleRequest) (nodes : List FsmNode)
    (allocs : List ExistingAlloc) (volumes : List (String × FsmVolume))
    (available_fn : ℕ → Option NodeResources) where
  abbrev pub candidates : List Candidate
  candidates = spread request allocs (filter_nodes f available_fn request.need nodes)

  pub bin_pack_one :
      (cs : List Candidate) (id : NodeId)
      → bin_pack f cs ≡ some id
      → (b : Candidate) × (rest : List Candidate) × (cs ≡ b ∷ rest)
        × (FsmNode.mill_id (min_from f b rest).0 ≡ id)
  unfolding bin_pack
  bin_pack_one [] id h = cc
  bin_pack_one (b ∷ rest) id h = (b, rest, refl, ground arith)

  bin_pack-none : (cs : List Candidate) → bin_pack f cs ≡ none → cs ≡ []
  unfolding bin_pack
  bin_pack-none [] h = refl
  bin_pack-none (b ∷ rest) h = cc

  -- The candidate that the scheduler takes where no volume binds it.
  pub taken :
      (id : NodeId)
      → volume_node request volumes ≡ none
      → schedule f request nodes allocs volumes available_fn ≡ some id
      → (c : Candidate) × In c candidates × (FsmNode.mill_id c.0 ≡ id)
  unfolding schedule
  taken id v h =
      let h' : bin_pack f candidates ≡ some id = ground (arith, v, h) in
      let (b, rest, e, m) = bin_pack_one candidates id h' in
      (min_from f b rest, subst (In (min_from f b rest)) (sym e) (In-min_from f b rest), m)

  fits_one :
      (node : NodeId)
      → any (fits_on f available_fn request.need node) nodes ≡ true
      → (n : FsmNode) × In n nodes
        × (n.mill_id ≡ node)
        × (is_feasible f available_fn request.need n ≡ true)
  fits_one node h =
      let (n, i, e) = any-true (fits_on f available_fn request.need node) nodes h in
      (n, i, ground (arith, e, str_eq_iff n.mill_id node), ground (arith, e))

  -- The node that the scheduler chooses is one of the nodes, is ready and has the resources that
  -- the request needs.
  pub schedule_sound :
      (id : NodeId)
      → schedule f request nodes allocs volumes available_fn ≡ some id
      → (n : FsmNode) × In n nodes
        × (n.mill_id ≡ id)
        × (is_feasible f available_fn request.need n ≡ true)
  unfolding schedule
  schedule_sound id h = elim (Option-cases (volume_node request volumes)) [
    | inl e ↦
        let (c, m, k) = taken id e h in
        let (i, a, g) =
          In-filter_nodes f available_fn request.need nodes c
            (In-spread request allocs (filter_nodes f available_fn request.need nodes) c m) in
        (c.0, i, k, g)
    | inr (v, e) ↦ elim (Bool-cases (any (fits_on f available_fn request.need v) nodes)) [
      | inl t ↦ let (n, i, k, g) = fits_one v t in (n, i, k ∙ ground (arith, e, t, h), g)
      | inr t ↦ ground (arith, e, t, h)
    ]
  ]

  -- Where the scheduler gives up, no node is ready and has the resources among those that it may
  -- choose: all nodes if no attached volume binds the request, and else the node of the volume.
  pub schedule-none :
      schedule f request nodes allocs volumes available_fn ≡ none
      → (n : FsmNode) → In n nodes
      → (volume_node request volumes ≡ none) ⊎ (volume_node request volumes ≡ some n.mill_id)
      → is_feasible f available_fn request.need n ≡ false
  unfolding schedule
  schedule-none h n i (inl e) =
      filter_nodes_none f available_fn request.need nodes
        (spread_none request allocs (filter_nodes f available_fn request.need nodes)
          (bin_pack-none candidates (ground (arith, e, h))))
        n i
  schedule-none h n i (inr e) = ground (
    arith,
    e,
    h,
    any-false (fits_on f available_fn request.need n.mill_id) nodes n,
    str_eq_iff n.mill_id n.mill_id,
  )

  -- A request whose volume is attached to a node gets that node or none.
  pub schedule_affinity :
      (node id : NodeId)
      → volume_node request volumes ≡ some node
      → schedule f request nodes allocs volumes available_fn ≡ some id
      → id ≡ node
  unfolding schedule
  schedule_affinity node id e h =
      ground (arith, e, h, Bool-cases (any (fits_on f available_fn request.need node) nodes))
