-- ===== src/Scheduler/Candidates.antt =====
-- About crates/node/src/primary/scheduler.rs: which nodes are candidates.
use mill.Prelude.{
  inr, inl, Option-cases, Bool-cases, ap, ◌⊎◌, arith, ◌∙◌, sym, subst, refl, none, some, ◌≡◌,
  Option, Bool, true, false, ◌∷◌, [], List, ℕ, ◌&&◌, if◌then◌else◌, string_key, nat_key, In,
}
use mill.Prelude.Float.{Float}
use mill.Config.Runtime.{is_ready, NodeResources}
use mill.Fsm.State.{FsmNode}
use mill.Scheduler.{has_capacity, filter_nodes, Resources, Candidate}

-- The node is ready and has what is needed.
abbrev pub is_feasible : Float → (ℕ → Option NodeResources) → Resources → FsmNode → Bool
is_feasible f available_fn need n =
    is_ready n.status && has_capacity f (available_fn n.raft_id) need

-- A candidate that the scheduler may choose: a feasible node of the cluster, and what is available
-- on it.
abbrev pub IsCandidate :
    Float → (ℕ → Option NodeResources) → Resources → List FsmNode → Candidate → Type 0
IsCandidate f available_fn need nodes c =
    In c.0 nodes
    × (available_fn c.0.raft_id ≡ some c.1)
    × (is_feasible f available_fn need c.0 ≡ true)

module _ (f : Float) (available_fn : ℕ → Option NodeResources) (need : Resources) where
  pub In-filter_nodes :
      (nodes : List FsmNode) (c : Candidate)
      → In c (filter_nodes f available_fn need nodes)
      → IsCandidate f available_fn need nodes c
  unfolding filter_nodes
  In-filter_nodes [] c m = absurd m
  In-filter_nodes (n ∷ ns) c m =
      go (is_ready n.status) (available_fn n.raft_id) refl refl (In-filter_nodes ns c) m
    where
      later : IsCandidate f available_fn need ns c → IsCandidate f available_fn need (n ∷ ns) c
      later (i, a, h) = (inr i, a, h)

      go :
          (ready : Bool) (o : Option NodeResources)
          → is_ready n.status ≡ ready
          → available_fn n.raft_id ≡ o
          → (In c (filter_nodes f available_fn need ns) → IsCandidate f available_fn need ns c)
          → In c (
              if ready
              then elim o [
                | none ↦ filter_nodes f available_fn need ns
                | some avail ↦
                    if has_capacity f (some avail) need
                    then (n, avail) ∷ filter_nodes f available_fn need ns
                    else filter_nodes f available_fn need ns
              ]
              else filter_nodes f available_fn need ns)
          → IsCandidate f available_fn need (n ∷ ns) c
      go false o r e rest m = later (rest m)
      go true none r e rest m = later (rest m)
      go true (some avail) r e rest m = here (has_capacity f (some avail) need) refl m
        where
          here :
              (b : Bool)
              → has_capacity f (some avail) need ≡ b
              → In c (
                  if b
                  then (n, avail) ∷ filter_nodes f available_fn need ns
                  else filter_nodes f available_fn need ns)
              → IsCandidate f available_fn need (n ∷ ns) c
          here false h m = later (rest m)
          here true h (inr m) = later (rest m)
          here true h (inl q) =
              subst (IsCandidate f available_fn need (n ∷ ns)) q
                (inl refl, e, ground (arith, r, e, h))

  pub feasible_available :
      (n : FsmNode)
      → is_feasible f available_fn need n ≡ true
      → (avail : NodeResources) × (available_fn n.raft_id ≡ some avail)
  feasible_available n g = elim (Option-cases (available_fn n.raft_id)) [
    | inl e ↦ ground (arith, e, g)
    | inr (a, e) ↦ (a, e)
  ]

  filter_nodes-cons :
      (x : FsmNode) (xs : List FsmNode)
      → (filter_nodes f available_fn need (x ∷ xs) ≡ filter_nodes f available_fn need xs)
        ⊎ ((a : NodeResources) × (filter_nodes f available_fn need (x ∷ xs)
              ≡ (x, a) ∷ filter_nodes f available_fn need xs))
  unfolding filter_nodes
  filter_nodes-cons x xs = elim (Option-cases (available_fn x.raft_id)) [
    | inl e ↦ inl (ground (arith, e))
    | inr (a, e) ↦ elim (Bool-cases (is_feasible f available_fn need x)) [
      | inl g ↦ inr (a, ground (arith, e, g))
      | inr g ↦ inl (ground (arith, e, g))
    ]
  ]

  pub filter_nodes-In :
      (nodes : List FsmNode) (n : FsmNode) (avail : NodeResources)
      → In n nodes
      → available_fn n.raft_id ≡ some avail
      → is_feasible f available_fn need n ≡ true
      → In (n, avail) (filter_nodes f available_fn need nodes)
  unfolding filter_nodes
  filter_nodes-In [] n avail m e g = absurd m
  filter_nodes-In (x ∷ xs) n avail (inl k) e g =
      subst (λ y. In (n, avail) (filter_nodes f available_fn need (y ∷ xs))) (sym k)
        (subst (In (n, avail)) (sym here) (inl refl))
    where
      here :
          filter_nodes f available_fn need (n ∷ xs)
          ≡ (n, avail) ∷ filter_nodes f available_fn need xs
      here = ground (arith, e, g)
  filter_nodes-In (x ∷ xs) n avail (inr m) e g =
      let later = filter_nodes-In xs n avail m e g in
      elim (filter_nodes-cons x xs) [
        | inl q ↦ subst (In (n, avail)) (sym q) later
        | inr (a, q) ↦ subst (In (n, avail)) (sym q) (inr later)
      ]

  pub filter_nodes_none :
      (nodes : List FsmNode)
      → filter_nodes f available_fn need nodes ≡ []
      → (n : FsmNode) → In n nodes
      → is_feasible f available_fn need n ≡ false
  unfolding filter_nodes
  filter_nodes_none [] h n m = absurd m
  filter_nodes_none (x ∷ xs) h n (inl e) =
      sym (ap (is_feasible f available_fn need) e) ∙ elim (Option-cases (available_fn x.raft_id)) [
        | inl e ↦ ground arith
        | inr (a, e) ↦ ground arith
      ]
  filter_nodes_none (x ∷ xs) h n (inr m) =
      filter_nodes_none xs
        (elim (Option-cases (available_fn x.raft_id)) [
          | inl e ↦ ground arith
          | inr (a, e) ↦ ground arith
        ])
        n m
