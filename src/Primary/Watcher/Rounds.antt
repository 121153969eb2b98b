-- ===== src/Primary/Watcher/Rounds.antt =====
-- Which nodes are connected after a round.
use mill.Prelude.{
  inr, inl, Option-cases, Bool-cases, ap, arith, ◌∙◌, subst, refl, none, ◌≡◌, Bool, true, false,
  ◌∷◌, [], List, ◌&&◌, ◌||◌, not, if◌then◌else◌, str_eq, str_eq_iff, string_key, nat_key, lookup,
  map, ◌++◌, filterb, In, any-true, any-false, lookup-remove, ◌↔◌,
}
use mill.Config.Runtime.{NodeId, SocketAddr}
use mill.Prelude.Exec.{Result, ok, err}
use mill.Prelude.{filterb}
use mill.Rpc.Router.{NodeError, CommandRouter, disconnect, deregister}
use mill.Rpc.Reconnect.{wired_if, Dial, ConnParams, connect, is_ok, reaches, do_auth}
use mill.Primary.Watcher.{
  join_one, Dials, Watch, has, add_to, params_of, connect_to, connect_new, disconnect_each,
  watch_round,
}

has-In : (l : List NodeId) (id : NodeId) → (has l id ≡ true) ↔ In id l
has-In l id = (
  λ h.
      let (x, m, e) = any-true (λ x. str_eq x id) l h in
      subst (λ u. In u l) ((str_eq_iff x id).0 e) m,
  λ m. elim (Bool-cases (has l id)) [
    | inl e ↦ e
    | inr e ↦ cc (any-false (λ x. str_eq x id) l id e m, (str_eq_iff id id).1 refl)
  ],
)

has-snoc : (l : List NodeId) (x id : NodeId) → has (l ++ (x ∷ [])) id ≡ (has l id || str_eq x id)
has-snoc [] x id = ground arith
has-snoc (y ∷ l) x id = ground (arith, has-snoc l x id)

has-add_to : (l : List NodeId) (x id : NodeId) → has (add_to l x) id ≡ (has l id || str_eq x id)
has-add_to l x id = elim (Bool-cases (str_eq x id)) [
  | inl e ↦
      let same : has l x ≡ has l id = ap (has l) ((str_eq_iff x id).0 e) in
      ground (arith, has-snoc l x id, same, e)
  | inr e ↦ ground (arith, has-snoc l x id, e)
]

wired_if-ok :
    (h : Result NodeError Unit) (p : ConnParams) (r : CommandRouter)
    → is_ok (wired_if h p r).0 ≡ is_ok h
wired_if-ok (ok u) p r = refl
wired_if-ok (err e) p r = refl

connect-reaches :
    (p : ConnParams) (d : Dial) (r : CommandRouter) → is_ok (connect p d r).0 ≡ reaches d
unfolding connect reaches
connect-reaches p Dial.timed_out r = refl
connect-reaches p Dial.refused r = refl
connect-reaches p (Dial.dialed h) r = wired_if-ok (do_auth h) p r

module _ (d : Dials) where
  has-connect_to :
      (n : NodeId × SocketAddr) (w : Watch) (id : NodeId)
      → has (Watch.connected (connect_to d n w)) id
        ≡ (has w.connected id || (str_eq n.0 id && reaches (Dials.dial d id)))
  unfolding connect_to
  has-connect_to n w id =
      let made = connect-reaches (params_of d n) (Dials.dial d n.0) w.router in
      let added = has-add_to w.connected n.0 id in
      elim (Bool-cases (str_eq n.0 id)) [
        | inl e ↦
            let same = ap (λ u. reaches (Dials.dial d u)) ((str_eq_iff n.0 id).0 e) in
            ground (arith, made, added, same, e)
        | inr e ↦ ground (arith, made, added, e)
      ]

  has-join_one :
      (n : NodeId × SocketAddr) (w : Watch) (id : NodeId)
      → has (Watch.connected (join_one d n w)) id
        ≡ (has w.connected id || (str_eq n.0 id && reaches (Dials.dial d id)))
  unfolding join_one
  has-join_one n w id = elim (Bool-cases (has w.connected n.0)) [
    | inl e ↦
        ap (λ b. has (Watch.connected (if b then w else connect_to d n w)) id) e
        ∙ known (str_eq n.0 id) refl e
    | inr e ↦
        ap (λ b. has (Watch.connected (if b then w else connect_to d n w)) id) e
        ∙ has-connect_to n w id
  ]
    where
      known :
          (b : Bool)
          → str_eq n.0 id ≡ b
          → has w.connected n.0 ≡ true
          → has w.connected id
            ≡ (has w.connected id || (str_eq n.0 id && reaches (Dials.dial d id)))
      known true q e =
          let here : has w.connected id ≡ true =
            subst (λ u. has w.connected u ≡ true) ((str_eq_iff n.0 id).0 q) e in
          ground (arith, here)
      known false q e = ground (arith, q)

  -- Whether a node is connected after the new ones were dialled.
  has-connect_new :
      (ns : List (NodeId × SocketAddr)) (w : Watch) (id : NodeId)
      → has (Watch.connected (connect_new d ns w)) id
        ≡ (has w.connected id || (has (map (λ n. n.0) ns) id && reaches (Dials.dial d id)))
  unfolding connect_new
  has-connect_new [] w id = ground arith
  has-connect_new (n ∷ ns) w id =
      has-connect_new ns (join_one d n w) id ∙ ground (arith, has-join_one n w id)

lookup-disconnect :
    (id x : NodeId) (r : CommandRouter)
    → lookup x (CommandRouter.inner (disconnect id r))
      ≡ (if str_eq id x then none else lookup x r.inner)
unfolding disconnect deregister
lookup-disconnect id x r = elim (Option-cases (lookup id r.connections)) [
  | inl n ↦ rw (n, disconnect) (ground (arith, lookup-remove id x r.inner, str_eq_iff id x))
  | inr (token, n) ↦
      rw (n, disconnect) (ground (arith, lookup-remove id x r.inner, str_eq_iff id x))
]

lookup-disconnect_each :
    (ids : List NodeId) (x : NodeId) (r : CommandRouter)
    → lookup x (CommandRouter.inner (disconnect_each ids r))
      ≡ (if has ids x then none else lookup x r.inner)
unfolding disconnect_each
lookup-disconnect_each [] x r = refl
lookup-disconnect_each (id ∷ ids) x r =
    ground (arith, lookup-disconnect_each ids x (disconnect id r), lookup-disconnect id x r)

has-filterb :
    (p : NodeId → Bool) (l : List NodeId) (x : NodeId) → has (filterb p l) x ≡ (has l x && p x)
has-filterb p [] x = refl
has-filterb p (y ∷ l) x = elim (Bool-cases (str_eq y x)) [
  | inl e ↦ let same = ap p ((str_eq_iff y x).0 e) in ground (arith, same, e, has-filterb p l x)
  | inr e ↦ ground (arith, e, has-filterb p l x)
]

-- After a round a node counts as connected exactly if the replicated state has it and it was
-- connected before or accepts the dial of the round.
pub watch_round_exact :
    (d : Dials) (current : List (NodeId × SocketAddr)) (w : Watch) (id : NodeId)
    → has (Watch.connected (watch_round d current w)) id
      ≡ (has (map (λ n. n.0) current) id && (has w.connected id || reaches (Dials.dial d id)))
unfolding watch_round
watch_round_exact d current w id =
    has-filterb (λ x. has (map (λ n. n.0) current) x) (Watch.connected (connect_new d current w)) id
    ∙ ground (arith, has-connect_new d current w id)

-- The router has no route to a node that was connected and is gone from the replicated state.
pub watch_round_drops :
    (d : Dials) (current : List (NodeId × SocketAddr)) (w : Watch) (id : NodeId)
    → has w.connected id ≡ true
    → has (map (λ n. n.0) current) id ≡ false
    → lookup id (CommandRouter.inner (Watch.router (watch_round d current w))) ≡ none
unfolding watch_round
watch_round_drops d current w id was gone =
    let ids = map (λ n. n.0) current in
    let joined = connect_new d current w in
    lookup-disconnect_each (filterb (λ x. not (has ids x)) joined.connected) id joined.router
    ∙ ground (
      arith,
      has-filterb (λ x. not (has ids x)) joined.connected id,
      has-connect_new d current w id,
      was,
      gone,
    )
