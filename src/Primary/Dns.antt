-- ===== src/Primary/Dns.antt =====
-- crates/node/src/primary/dns.rs, and `set_records` of crates/net/src/dns/mod.rs: the names that the DNS
-- server answers for. The server itself is not modelled.
pub mod Records
use mill.Prelude.{
  inr, inl, Option-cases, Bool-cases, ◌≤◌, ◌<◌, ap, ◌⊎◌, arith, ◌∙◌, sym, subst, refl, none, some,
  ◌≡◌, Option, Bool, true, false, ◌∷◌, [], List, ℕ, zero, suc, ◌+◌, ◌-◌, ◌*◌, ◌%◌, ◌&&◌, ◌||◌, not,
  ltb, leb, ◌==◌, if◌then◌else◌, and_then, option_map, is_some, String, str_eq, str_eq_iff,
  string_key, nat_key, Map, lookup, insert, remove, retain, keys, values, Distinct, map, ◌++◌, ◌<>◌,
  display, any, filterb, find_first, length, In, any-true, any-false, In-filterb, filterb-In,
  lookup-insert, lookup-remove, lookup-retain, ite, max, ℕ_discrete, string_discrete, ◌↔◌, ◌≢◌,
}
use mill.Config.Runtime.{IpAddr, SocketAddr, DnsRecord, Alloc, is_active}
use mill.Fsm.State.{FsmState}

-- `entry(name).or_default().push(addr)`
unfoldable pub push_address :
    String → SocketAddr → Map String (List SocketAddr) → Map String (List SocketAddr)
push_address name addr groups =
    insert name (elim (lookup name groups) [ none ↦ addr ∷ [] | some l ↦ l ++ addr ∷ [] ]) groups

unfoldable pub group : List Alloc → Map String (List SocketAddr) → Map String (List SocketAddr)
unfolding push_address
group [] groups = groups
group (a ∷ as') groups = group as' (
    if is_active a.status
    then elim a.address [ none ↦ groups | some addr ↦ push_address a.name addr groups ]
    else groups)

unfoldable pub compute_dns_records : FsmState → List DnsRecord
unfolding group
compute_dns_records fsm =
    map (λ e. record { name = e.0; addresses = e.1 }) (group (values fsm.allocs) [])

unfoldable pub insert_records : List DnsRecord → Map String (List IpAddr) → Map String (List IpAddr)
insert_records [] m = m
insert_records (r ∷ rs) m =
    insert_records rs (insert r.name (map (λ a. SocketAddr.ip a) r.addresses) m)

-- The records of before are cleared.
unfoldable pub set_records : List DnsRecord → Map String (List IpAddr) → Map String (List IpAddr)
unfolding insert_records
set_records dns_records old = insert_records dns_records []
