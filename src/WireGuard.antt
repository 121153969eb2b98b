-- ===== src/WireGuard.antt =====
-- crates/net/src/wireguard/mod.rs, with generate_keypair of wireguard/cmd.rs: the interface of the
-- mesh. Commands are run outside and answered by their number; the state is the list of them, the
-- last one first. The texts of addresses are the standard library's and a parameter, and so are the
-- answers of the file of the key. The list of the peers and the ping are left out.
pub mod Peers
use mill.Prelude.{
  inr, inl, Option-cases, Bool-cases, ◌≤◌, ◌<◌, ap, ◌⊎◌, arith, ◌∙◌, sym, subst, refl, none, some,
  ◌≡◌, Option, Bool, true, false, ◌∷◌, [], List, ℕ, zero, suc, ◌+◌, ◌-◌, ◌*◌, ◌%◌, ◌&&◌, ◌||◌, not,
  ltb, leb, ◌==◌, if◌then◌else◌, and_then, option_map, is_some, String, str_eq, str_eq_iff,
  string_key, nat_key, Map, lookup, insert, remove, retain, keys, values, Distinct, map, ◌++◌, ◌<>◌,
  display, any, filterb, find_first, length, In, any-true, any-false, In-filterb, filterb-In,
  lookup-insert, lookup-remove, lookup-retain, ite, max, ℕ_discrete, string_discrete, ◌↔◌, ◌≢◌,
  trim, split_first, parse_uint, ◌^◌, ◌/◌,
}
use mill.Prelude.Exec.{Result, ok, err, Exec, pure, raise, lift, ◌>>=◌, ◌>>◌}
use mill.Config.Runtime.{NodeId, IpAddr, SocketAddr}

pub data NetError : Type 0 where
  command : String → String → NetError
  command_not_found io_error invalid_address : String → NetError

pub record PeerInfo : Type 0 where
  pub node_id : NodeId
  pub public_key : String
  pub endpoint : Option SocketAddr
  pub tunnel_ip : IpAddr

pub record WireGuardIdentity : Type 0 where
  pub public_key : String
  pub tunnel_ip : IpAddr

pub record Cmd : Type 0 where
  pub program : String
  pub args : List String
  pub stdin : Option String

-- The file of the private key: what reading it gives if it exists, and the error of writing it.
pub record KeyFile : Type 0 where
  pub content : Option (Result NetError String)
  pub write_error : String → Option NetError

pub record Outside : Type 0 where
  pub answer : ℕ → Cmd → Result NetError String
  pub show_ip : IpAddr → String
  pub show_socket : SocketAddr → String
  pub read_ipv4 : String → Option ℕ

abbrev pub Commands : Type 0
Commands = List Cmd

abbrev pub Net : Type 0 → Type 0
Net A = Exec NetError Commands A

abbrev pub run : Outside → Cmd → Net String
run o c cmds = (Outside.answer o (length cmds) c, c ∷ cmds)

abbrev pub run_command : Outside → String → List String → Net String
run_command o program args = run o (record { program = program; args = args; stdin = none })

abbrev pub run_command_stdin : Outside → String → List String → String → Net String
run_command_stdin o program args input =
    run o (record { program = program; args = args; stdin = some input })

-- A command whose answer is not looked at.
abbrev pub try_command : Outside → String → List String → Net Unit
try_command o program args cmds = (ok tt, (run_command o program args cmds).1)

unfoldable pub generate_keypair : Outside → Net (String × String)
unfolding ◌>>=◌
generate_keypair o = do
  private_key ← run_command o "wg" ("genkey" ∷ [])
  public_key ← run_command_stdin o "wg" ("pubkey" ∷ []) private_key
  pure (private_key, public_key)

abbrev pub written : Option NetError → Net Unit
written none = pure tt
written (some e) = raise e

unfoldable pub load_or_generate_keypair : Outside → Option KeyFile → Net (String × String)
unfolding generate_keypair trim
load_or_generate_keypair o none = generate_keypair o
load_or_generate_keypair o (some file) = elim file.content [
  | some read ↦ do
    content ← lift read
    public_key ← run_command_stdin o "wg" ("pubkey" ∷ []) (trim content)
    pure (trim content, public_key)
  | none ↦ do keys ← generate_keypair o; written (KeyFile.write_error file keys.0); pure keys
]

-- `bits & (MAX << k)` on a word of w bits, for k below w; `k = w` overflows the shift, which keeps
-- the word as it is in a release build.
abbrev pub mask_low : ℕ → ℕ → ℕ → ℕ
mask_low w bits k = if ltb k w then bits / 2 ^ k * 2 ^ k else bits

unfoldable pub network_address : IpAddr → ℕ → IpAddr
network_address (IpAddr.v4 bits) prefix_len =
    IpAddr.v4 (if leb 32 prefix_len then bits else mask_low 32 bits (32 - prefix_len))
network_address (IpAddr.v6 bits) prefix_len =
    IpAddr.v6 (if leb 128 prefix_len then bits else mask_low 128 bits (128 - prefix_len))

-- The number after the base wraps in a release build.
abbrev pub first_of : String → Option ℕ → Option ℕ → Result NetError (IpAddr × ℕ)
first_of subnet (some base) (some prefix_len) = ok (IpAddr.v4 ((base + 1) % 2 ^ 32), prefix_len)
first_of subnet _ _ = err (invalid_address subnet)

unfoldable pub parse_subnet_first_ip : Outside → String → Result NetError (IpAddr × ℕ)
unfolding split_first parse_uint
parse_subnet_first_ip o subnet = elim (split_first subnet "/") [
  | none ↦ err (invalid_address subnet)
  | some (ip, len) ↦
      if is_some (split_first len "/")
      then err (invalid_address subnet)
      else first_of subnet (Outside.read_ipv4 o ip) (parse_uint 255 len)
]

abbrev pub add_route : Outside → String → String → Net Unit
add_route o iface subnet = try_command o "ip" ("route" ∷ "add" ∷ subnet ∷ "dev" ∷ iface ∷ [])

-- what `init` and `join` do alike, up to the interface being up
unfoldable pub set_up : Outside → String → ℕ → String → String → Net Unit
unfolding ◌>>=◌
set_up o iface listen_port private_key addr_cidr = do
  try_command o "ip" ("link" ∷ "del" ∷ iface ∷ [])
  run_command o "ip" ("link" ∷ "add" ∷ iface ∷ "type" ∷ "wireguard" ∷ [])
  run_command_stdin o "wg"
      ("set" ∷ iface ∷ "private-key" ∷ "/dev/stdin" ∷ "listen-port" ∷ display listen_port ∷ [])
      private_key
  run_command o "ip" ("addr" ∷ "add" ∷ addr_cidr ∷ "dev" ∷ iface ∷ [])
  run_command o "ip" ("link" ∷ "set" ∷ iface ∷ "up" ∷ [])
  pure tt

unfoldable pub init : Outside → String → ℕ → String → Option KeyFile → Net WireGuardIdentity
unfolding load_or_generate_keypair parse_subnet_first_ip set_up
init o iface listen_port subnet key_path = do
  keys ← load_or_generate_keypair o key_path
  first ← lift (parse_subnet_first_ip o subnet)
  set_up o iface listen_port keys.0 (Outside.show_ip o first.0 <> "/" <> display first.1)
  add_route o iface subnet
  pure (record { public_key = keys.1; tunnel_ip = first.0 })

abbrev pub endpoint_args : Outside → Option SocketAddr → List String
endpoint_args o none = []
endpoint_args o (some ep) = "endpoint" ∷ Outside.show_socket o ep ∷ []

abbrev pub peer_args : Outside → String → PeerInfo → List String
peer_args o iface peer =
    ("set" ∷ iface ∷ "peer" ∷ peer.public_key ∷ endpoint_args o peer.endpoint)
    ++ ("allowed-ips" ∷ (Outside.show_ip o peer.tunnel_ip <> "/32") ∷ [])

unfoldable pub add_peer : Outside → String → PeerInfo → Net Unit
unfolding ◌>>=◌
add_peer o iface peer = do run_command o "wg" (peer_args o iface peer); pure tt

unfoldable pub remove_peer : Outside → String → String → Net Unit
unfolding ◌>>=◌
remove_peer o iface public_key = do
  run_command o "wg" ("set" ∷ iface ∷ "peer" ∷ public_key ∷ "remove" ∷ [])
  pure tt

unfoldable pub add_peers : Outside → String → List PeerInfo → Net Unit
unfolding add_peer
add_peers o iface [] = pure tt
add_peers o iface (peer ∷ peers) = do add_peer o iface peer; add_peers o iface peers

unfoldable pub join_mesh :
    Outside → String → ℕ → IpAddr → ℕ → List PeerInfo → Option KeyFile → Net WireGuardIdentity
unfolding load_or_generate_keypair set_up add_peers
join_mesh o iface listen_port tunnel_ip prefix_len peers key_path = do
  keys ← load_or_generate_keypair o key_path
  set_up o iface listen_port keys.0 (Outside.show_ip o tunnel_ip <> "/" <> display prefix_len)
  add_peers o iface peers
  pure (record { public_key = keys.1; tunnel_ip = tunnel_ip })

unfoldable pub add_subnet_route : Outside → String → IpAddr → ℕ → Net Unit
unfolding network_address
add_subnet_route o iface tunnel_ip prefix_len =
    add_route o iface
      (Outside.show_ip o (network_address tunnel_ip prefix_len) <> "/" <> display prefix_len)

unfoldable pub teardown : Outside → String → Net Unit
unfolding ◌>>=◌
teardown o iface = do run_command o "ip" ("link" ∷ "del" ∷ iface ∷ []); pure tt
