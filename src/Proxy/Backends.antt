-- ===== src/Proxy/Backends.antt =====
-- crates/node/src/primary/proxy.rs: the routes that the cluster's state calls for, and where a
-- request ends up.
use mill.Prelude.{
  inr, inl, ap, arith, ◌∙◌, subst, refl, none, some, ◌≡◌, Option, Bool, true, false, ◌∷◌, [], List,
  ◌&&◌, if◌then◌else◌, String, str_eq, str_eq_iff, string_key, nat_key, Map, values, map, ◌++◌, In,
  In-append,
}
use mill.Config.Runtime.{SocketAddr, ProxyRoute, Alloc, is_active}
use mill.Config.Resolved.{ServiceDef, RouteDef, ClusterConfig}
use mill.Fsm.State.{FsmState}
use mill.Proxy.{RouteMatch, route_entry, route_match, new_table, lookup_route}
use mill.Proxy.Matching.{lookup_route_longest}

unfoldable pub addresses_of : String → List Alloc → List SocketAddr
addresses_of name [] = []
addresses_of name (a ∷ as') =
    let rest = addresses_of name as' in
    if str_eq a.name name && is_active a.status
    then elim a.address [ none ↦ rest | some addr ↦ addr ∷ rest ]
    else rest

abbrev pub proxy_route : RouteDef → SocketAddr → ProxyRoute
proxy_route d backend = record {
  hostname = d.hostname;
  path = d.path;
  backend = backend;
  websocket = d.websocket;
}

unfoldable pub routes_to : List SocketAddr → List RouteDef → List ProxyRoute
routes_to addrs [] = []
routes_to addrs (d ∷ ds) = map (proxy_route d) addrs ++ routes_to addrs ds

unfoldable pub routes_of : List Alloc → Map String ServiceDef → List ProxyRoute
unfolding addresses_of routes_to
routes_of allocs [] = []
routes_of allocs ((name, def) ∷ rest) =
    routes_to (addresses_of name allocs) def.routes ++ routes_of allocs rest

unfoldable pub compute_proxy_routes : FsmState → List ProxyRoute
unfolding routes_of
compute_proxy_routes fsm = elim fsm.config [
  | none ↦ []
  | some c ↦ routes_of (values fsm.allocs) c.services
]

-- An allocation of the name that is running or healthy and has the address.
abbrev pub Serves : List Alloc → String → SocketAddr → Type 0
Serves allocs name addr =
    (a : Alloc) × In a allocs
    × (a.name ≡ name)
    × (is_active a.status ≡ true)
    × (a.address ≡ some addr)

In-addresses_of :
    (name : String) (allocs : List Alloc) (addr : SocketAddr)
    → In addr (addresses_of name allocs)
    → Serves allocs name addr
unfolding addresses_of
In-addresses_of name [] addr m = absurd m
In-addresses_of name (a ∷ as') addr m =
    go (str_eq a.name name && is_active a.status) a.address refl refl m
      (In-addresses_of name as' addr)
  where
    later : Serves as' name addr → Serves (a ∷ as') name addr
    later (b, i, n, k, e) = (b, inr i, n, k, e)

    go :
        (t : Bool) (o : Option SocketAddr)
        → (str_eq a.name name && is_active a.status) ≡ t
        → a.address ≡ o
        → In addr (
            if t
            then elim o [ none ↦ addresses_of name as' | some x ↦ x ∷ addresses_of name as' ]
            else addresses_of name as')
        → (In addr (addresses_of name as') → Serves as' name addr)
        → Serves (a ∷ as') name addr
    go false o e f m g = later (g m)
    go true none e f m g = later (g m)
    go true (some x) e f (inr m) g = later (g m)
    go true (some x) e f (inl q) g =
        (a, inl refl, ground (arith, e, str_eq_iff a.name name), ground (arith, e), f ∙ ap some q)

In-proxy_routes :
    (d : RouteDef) (addrs : List SocketAddr) (r : ProxyRoute)
    → In r (map (proxy_route d) addrs)
    → (x : SocketAddr) × In x addrs × (proxy_route d x ≡ r)
In-proxy_routes d [] r m = absurd m
In-proxy_routes d (x ∷ xs) r (inl e) = (x, inl refl, e)
In-proxy_routes d (x ∷ xs) r (inr m) = let (y, i, e) = In-proxy_routes d xs r m in (y, inr i, e)

In-routes_to :
    (addrs : List SocketAddr) (ds : List RouteDef) (r : ProxyRoute)
    → In r (routes_to addrs ds)
    → (d : RouteDef) × In d ds × (x : SocketAddr) × In x addrs × (proxy_route d x ≡ r)
unfolding routes_to
In-routes_to addrs [] r m = absurd m
In-routes_to addrs (d ∷ ds) r m =
    elim (In-append r (map (proxy_route d) addrs) (routes_to addrs ds) m) [
      | inl k ↦ let (x, i, e) = In-proxy_routes d addrs r k in (d, inl refl, x, i, e)
      | inr k ↦ let (d', j, x, i, e) = In-routes_to addrs ds r k in (d', inr j, x, i, e)
    ]

-- A route of a configured service to one of its allocations that is running or healthy.
abbrev pub IsServed : List Alloc → Map String ServiceDef → ProxyRoute → Type 0
IsServed allocs services r =
    (s : String × ServiceDef) × In s services
    × (d : RouteDef) × In d (ServiceDef.routes s.1)
    × (x : SocketAddr) × Serves allocs s.0 x
    × (proxy_route d x ≡ r)

In-routes_of :
    (allocs : List Alloc) (services : Map String ServiceDef) (r : ProxyRoute)
    → In r (routes_of allocs services)
    → IsServed allocs services r
unfolding routes_of
In-routes_of allocs [] r m = absurd m
In-routes_of allocs ((name, def) ∷ rest) r m =
    elim (In-append r (routes_to (addresses_of name allocs) def.routes) (routes_of allocs rest) m) [
      | inl k ↦
          let (d, j, x, i, e) = In-routes_to (addresses_of name allocs) def.routes r k in
          ((name, def), inl refl, d, j, x, In-addresses_of name allocs x i, e)
      | inr k ↦
          let (s, i, d, j, x, v, e) = In-routes_of allocs rest r k in (s, inr i, d, j, x, v, e)
    ]

-- A request that is routed goes to a running or healthy allocation of a configured service that has
-- the route.
pub routed_to_active :
    (fsm : FsmState) (c : ClusterConfig) (hostname path : String) (m : RouteMatch)
    → fsm.config ≡ some c
    → lookup_route (new_table (compute_proxy_routes fsm)) hostname path ≡ some m
    → (r : ProxyRoute) × (r.hostname ≡ hostname)
      × (route_match (route_entry r) ≡ m)
      × IsServed (values fsm.allocs) c.services r
unfolding compute_proxy_routes
routed_to_active fsm c hostname path m e h =
    let ((r, i, k, q, s), l) = lookup_route_longest (compute_proxy_routes fsm) hostname path m h in
    (
      r,
      k,
      q,
      In-routes_of (values fsm.allocs) c.services r (
          subst
            (λ o. In r (elim o [
              | none ↦ []
              | some x ↦ routes_of (values fsm.allocs) (ClusterConfig.services x)
            ]))
            e i),
    )
