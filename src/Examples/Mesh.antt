-- ===== src/Examples/Mesh.antt =====
-- The theorems about the connections between the nodes.
use mill.Prelude.{
  inl, refl, none, some, ◌≡◌, true, false, ◌∷◌, [], ◌&&◌, ◌||◌, leb, if◌then◌else◌, string_key,
  nat_key, lookup,
}
use mill.Prelude.Exec.{ok}
use mill.Config.Runtime.{IpAddr}
use mill.Rpc.Router.{CommandRouter, new_router}
use mill.Rpc.Reconnect.{ConnParams, Dial, Handshake, wire, reaches, Attempts, reconnect_loop}
use mill.Rpc.Reconnect.Backoff.{Connects, reconnect_loop-Connects}
use mill.Primary.Watcher.{Dials, Watch, has, watch_round}
use mill.Primary.Watcher.Rounds.{watch_round_exact}
use mill.WireGuard
use mill.WireGuard.{PeerInfo, WireGuardIdentity, join_mesh}
use mill.WireGuard.Peers.{peer_command, Succeeded, join_mesh-Succeeded}
use mill.Examples.Data.{addr}

abbrev params : ConnParams
params = record { node_id = "b"; addr = "10.99.0.2:4400"; cmd_tx = 7; conn_cancel = 8 }

-- The node is down for the first two attempts.
abbrev attempts : Attempts
attempts = record {
  cancelled = λ n. false;
  dial = λ n. if leb 2 n then Dial.dialed (Handshake.answered true) else Dial.refused;
}

reconnect_loop-Connects_example :
    Connects params new_router 3 (reconnect_loop 3 attempts params new_router)
    × (lookup "b" (CommandRouter.inner (wire params new_router)) ≡ some 7)
unfolding reaches
reconnect_loop-Connects_example =
    reconnect_loop-Connects attempts params new_router 2 (λ i h. refl) refl

abbrev dials : Dials
dials = record {
  dial = λ id. Dial.dialed (Handshake.answered true);
  addr_text = λ a. "10.99.0.2:4400";
  cmd_tx = λ id. 7;
  conn_cancel = λ id. 8;
}

abbrev watch : Watch
watch = record { router = new_router; connected = "gone" ∷ [] }

watch_round_exact_example :
    has (Watch.connected (watch_round dials (("b", addr 4400) ∷ []) watch)) "b"
    ≡ (has ("b" ∷ []) "b" && (has ("gone" ∷ []) "b" || reaches (Dials.dial dials "b")))
watch_round_exact_example = watch_round_exact dials (("b", addr 4400) ∷ []) watch "b"

abbrev commands : WireGuard.Outside
commands = record {
  answer = λ n c. ok "key";
  show_ip = λ ip. "10.99.0.1";
  show_socket = λ a. "192.0.2.1:51820";
  read_ipv4 = λ s. none;
}

abbrev first_peer : PeerInfo
first_peer = record {
  node_id = "a";
  public_key = "key-a";
  endpoint = some (addr 51820);
  tunnel_ip = IpAddr.v4 174260225;
}

abbrev identity : WireGuardIdentity
identity = record { public_key = "key"; tunnel_ip = IpAddr.v4 174260226 }

joins :
    (join_mesh commands "wg0" 51820 (IpAddr.v4 174260226) 16 (first_peer ∷ []) none []).0
    ≡ ok identity
unfolding join_mesh
joins = refl

join_mesh-Succeeded_example :
    Succeeded commands
      (peer_command commands "wg0" first_peer)
      (join_mesh commands "wg0" 51820 (IpAddr.v4 174260226) 16 (first_peer ∷ []) none []).1
join_mesh-Succeeded_example =
    join_mesh-Succeeded commands "wg0" 51820 (IpAddr.v4 174260226) 16 (first_peer ∷ []) none []
      identity first_peer joins (inl refl)
