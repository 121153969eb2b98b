-- ===== src/WireGuard/Peers.antt =====
-- Which peers a node knows after it joined.
use mill.Prelude.{
  inr, inl, ◌⊎◌, ◌∙◌, sym, subst, refl, none, some, ◌≡◌, Option, ◌∷◌, [], List, ℕ, String,
  string_key, nat_key, keys, ◌++◌, ◌<>◌, display, length, In,
}
use mill.Prelude.Exec.{
  Keeps-bind, continue, pure, ◌>>◌, Result, ok, err, ◌>>=◌, Keeps, keeps_rules, bind_ok,
}
use mill.Config.Runtime.{SocketAddr, IpAddr}
use mill.WireGuard.{
  endpoint_args, run, NetError, PeerInfo, WireGuardIdentity, Cmd, Outside, KeyFile, Commands, Net,
  peer_args, add_peer, add_peers, join_mesh, set_up, load_or_generate_keypair,
}

abbrev wg_set : List String → Cmd
wg_set args = record { program = "wg"; args = "set" ∷ args; stdin = none }

-- The command that makes a peer known: `wg set <interface> peer <key> allowed-ips <address>/32`, with
-- `endpoint <address>` in between if the peer has one.
abbrev set_peer : Outside → String → String → String → Option SocketAddr → Cmd
set_peer o iface key ip none = wg_set (iface ∷ "peer" ∷ key ∷ "allowed-ips" ∷ (ip <> "/32") ∷ [])
set_peer o iface key ip (some ep) = wg_set (
    iface
    ∷ "peer"
    ∷ key
    ∷ "endpoint"
    ∷ Outside.show_socket o ep
    ∷ "allowed-ips"
    ∷ (ip <> "/32")
    ∷ [])

abbrev pub peer_command : Outside → String → PeerInfo → Cmd
peer_command o iface peer =
    set_peer o iface peer.public_key (Outside.show_ip o peer.tunnel_ip) peer.endpoint

-- The command was run and was answered without an error.
abbrev pub Succeeded : Outside → Cmd → Commands → Type 0
Succeeded o c [] = ⊥
Succeeded o c (x ∷ cmds) =
    ((x ≡ c) × ((out : String) × (Outside.answer o (length cmds) c ≡ ok out))) ⊎ Succeeded o c cmds

args_of_peer :
    (o : Outside) (iface : String) (peer : PeerInfo)
    → record { program = "wg"; args = peer_args o iface peer; stdin = none }
      ≡ peer_command o iface peer
args_of_peer o iface peer = go peer.public_key (Outside.show_ip o peer.tunnel_ip) peer.endpoint
  where
    go :
        (key ip : String) (endpoint : Option SocketAddr)
        → record {
          program = "wg";
          args =
              ("set" ∷ iface ∷ "peer" ∷ key ∷ endpoint_args o endpoint)
              ++ ("allowed-ips" ∷ (ip <> "/32") ∷ []);
          stdin = none;
        }
          ≡ set_peer o iface key ip endpoint
    go key ip none = refl
    go key ip (some ep) = refl

module _ (o : Outside) (iface : String) where
  -- A command that was run stays in the list.
  run-Keeps : (c x : Cmd) → Keeps (Succeeded o c) (run o x)
  run-Keeps c x = record { at = λ s h. inr h }

  add_peer-Keeps : (c : Cmd) (peer : PeerInfo) → Keeps (Succeeded o c) (add_peer o iface peer)
  unfolding add_peer
  add_peer-Keeps c peer = search (run-Keeps, keeps_rules) depth 10

  add_peers-Keeps :
      (c : Cmd) (peers : List PeerInfo) → Keeps (Succeeded o c) (add_peers o iface peers)
  unfolding add_peers
  add_peers-Keeps c [] = search (keeps_rules) depth 10
  add_peers-Keeps c (peer ∷ peers) =
      Keeps-bind (add_peer o iface peer) (λ u. add_peers o iface peers) (add_peer-Keeps c peer)
        (λ u. add_peers-Keeps c peers)

  add_peer-Succeeded :
      (peer : PeerInfo) (cmds : Commands)
      → (add_peer o iface peer cmds).0 ≡ ok tt
      → Succeeded o (peer_command o iface peer) (add_peer o iface peer cmds).1
  unfolding add_peer ◌>>=◌
  add_peer-Succeeded peer cmds h =
      subst
        (λ c.
          (continue (Outside.answer o (length cmds) c) (λ x. pure {E = NetError} tt) (c ∷ cmds)).0
            ≡ ok tt
          → Succeeded o (peer_command o iface peer)
              (continue (Outside.answer o (length cmds) c) (λ x. pure {E = NetError} tt)
                (c ∷ cmds)).1)
        (sym (args_of_peer o iface peer))
        (go (peer_command o iface peer) (Outside.answer o (length cmds) (peer_command o iface peer))
          refl)
        h
    where
      go :
          (c : Cmd) (r : Result NetError String)
          → Outside.answer o (length cmds) c ≡ r
          → (continue r (λ x. pure {E = NetError} tt) (c ∷ cmds)).0 ≡ ok tt
          → Succeeded o c (continue r (λ x. pure {E = NetError} tt) (c ∷ cmds)).1
      go c (ok x) e h = inl (refl, (x, e))
      go c (err x) e h = cc

  add_peers-Succeeded :
      (peers : List PeerInfo) (peer : PeerInfo) (cmds : Commands)
      → (add_peers o iface peers cmds).0 ≡ ok tt
      → In peer peers
      → Succeeded o (peer_command o iface peer) (add_peers o iface peers cmds).1
  unfolding add_peers
  add_peers-Succeeded [] peer cmds h m = absurd m
  add_peers-Succeeded (x ∷ peers) peer cmds h m =
      let (a, here, later, left) =
        bind_ok (add_peer o iface x) (λ u. add_peers o iface peers) cmds tt h in
      subst (Succeeded o (peer_command o iface peer)) (sym left) (elim m [
        | inl e ↦
            Keeps.at (add_peers-Keeps (peer_command o iface peer) peers) (add_peer o iface x cmds).1
              (subst (λ q. Succeeded o (peer_command o iface q) (add_peer o iface x cmds).1) e
                (add_peer-Succeeded x cmds here))
        | inr k ↦ add_peers-Succeeded peers peer (add_peer o iface x cmds).1 later k
      ])

-- Where joining the mesh succeeds, the command that sets each of the peers, with its key, its tunnel
-- address and its endpoint if it has one, was run and was answered without an error.
pub join_mesh-Succeeded :
    (o : Outside) (iface : String) (listen_port : ℕ) (tunnel_ip : IpAddr) (prefix_len : ℕ)
    (peers : List PeerInfo) (key_path : Option KeyFile) (cmds : Commands)
    (identity : WireGuardIdentity) (peer : PeerInfo)
    → (join_mesh o iface listen_port tunnel_ip prefix_len peers key_path cmds).0 ≡ ok identity
    → In peer peers
    → Succeeded o
        (peer_command o iface peer)
        (join_mesh o iface listen_port tunnel_ip prefix_len peers key_path cmds).1
unfolding join_mesh
join_mesh-Succeeded o iface listen_port tunnel_ip prefix_len peers key_path cmds identity peer h m =
    let wanted : Commands → Type 0 = Succeeded o (peer_command o iface peer) in
    let answer : String × String → Net WireGuardIdentity =
      λ keys. pure (record { public_key = keys.1; tunnel_ip = tunnel_ip }) in
    let last : String × String → Net WireGuardIdentity =
      λ keys. add_peers o iface peers >> answer keys in
    let ready : String × String → Net Unit = λ keys.
      set_up o iface listen_port keys.0
        (Outside.show_ip o tunnel_ip <> "/" <> display prefix_len) in
    let (keys, q1, h1, e1) =
      bind_ok (load_or_generate_keypair o key_path) (λ keys. ready keys >> last keys) cmds identity
        h in
    let cmds1 = (load_or_generate_keypair o key_path cmds).1 in
    let (u, q2, h2, e2) = bind_ok (ready keys) (λ u. last keys) cmds1 identity h1 in
    let cmds2 = (ready keys cmds1).1 in
    let (v, q3, h3, e3) = bind_ok (add_peers o iface peers) (λ v. answer keys) cmds2 identity h2 in
    subst wanted (sym (e1 ∙ e2 ∙ e3)) (add_peers-Succeeded o iface peers peer cmds2 q3 m)
