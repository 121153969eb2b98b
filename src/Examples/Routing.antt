-- ===== src/Examples/Routing.antt =====
-- The routes of a cluster, and the frames between its nodes.
use mill.Prelude.{
  ◌≤◌, arith, refl, some, ◌≡◌, Option, true, false, ◌∷◌, [], List, string_key, nat_key, lookup,
  insert, values, In, string_discrete, All,
}
use Prim.Native.String.{len}
use text.Mathlib.Text.{starts_with}
use mill.Config.Runtime.{ProxyRoute}
use mill.Proxy.{
  insert_sorted, sort_entries, sort_all, push_routes, RouteMatch, route_match, route_entry,
  new_table, lookup_route,
}
use mill.Proxy.Matching.{lookup_route_longest}
use mill.Proxy.Backends.{
  addresses_of, routes_to, routes_of, compute_proxy_routes, IsServed, routed_to_active,
}
use mill.Rpc.Codec.{Bytes, write_frame, frame, clean_eof, to_be_bytes}
use mill.Rpc.Framing.{write_frames, read_frames, read_frames-write_frames, IsShort}
use mill.Examples.Data.{cluster, config, addr}

abbrev routes : List ProxyRoute
routes =
    record { hostname = "a.b"; path = "/"; backend = addr 1; websocket = false }
    ∷ record { hostname = "a.b"; path = "/api"; backend = addr 2; websocket = false }
    ∷ []

abbrev api : RouteMatch
api = record { backend = addr 2; websocket = false; path = "/api" }

finds_api : lookup_route (new_table routes) "a.b" "/api/x" ≡ some api
unfolding lookup_route new_table push_routes sort_all sort_entries insert_sorted lookup insert
    string_discrete
finds_api = refl

lookup_route_longest_example :
    ((r : ProxyRoute) × In r routes
      × (r.hostname ≡ "a.b")
      × (route_match (route_entry r) ≡ api)
      × (starts_with "/api/x" "/api" ≡ true))
    × ((r : ProxyRoute)
        → In r routes
        → r.hostname ≡ "a.b"
        → starts_with "/api/x" r.path ≡ true
        → len r.path ≤ 4)
lookup_route_longest_example = lookup_route_longest routes "a.b" "/api/x" api finds_api

abbrev web : RouteMatch
web = record { backend = addr 50000; websocket = false; path = "/api" }

finds_web : lookup_route (new_table (compute_proxy_routes cluster)) "a.b" "/api/x" ≡ some web
unfolding lookup_route new_table push_routes sort_all sort_entries insert_sorted lookup insert
    string_discrete compute_proxy_routes routes_of routes_to addresses_of
finds_web = refl

routed_to_active_example :
    (r : ProxyRoute) × (r.hostname ≡ "a.b")
    × (route_match (route_entry r) ≡ web)
    × IsServed (values cluster.allocs) config.services r
routed_to_active_example = routed_to_active cluster config "a.b" "/api/x" web refl finds_web

-- Messages of any length, written as they are.
abbrev as_is : Bytes → Option Bytes
as_is b = some b

as_is_back : (v p : Bytes) → as_is v ≡ some p → as_is p ≡ some v
as_is_back v p h = cc

abbrev two_messages : List Bytes
two_messages = (7 ∷ 8 ∷ []) ∷ (9 ∷ []) ∷ []

two_messages-IsShort : All (IsShort as_is as_is as_is_back) two_messages
two_messages-IsShort = (λ p h. ground (arith, h), (λ p h. ground (arith, h), tt))

abbrev stream : Bytes
stream = 0 ∷ 0 ∷ 0 ∷ 2 ∷ 7 ∷ 8 ∷ 0 ∷ 0 ∷ 0 ∷ 1 ∷ 9 ∷ []

writes_stream : write_frames as_is as_is as_is_back two_messages ≡ some stream
unfolding write_frames write_frame to_be_bytes
writes_stream = refl

read_frames-write_frames_example :
    read_frames as_is as_is as_is_back 3 stream
    ≡ frame (7 ∷ 8 ∷ []) ∷ frame (9 ∷ []) ∷ clean_eof ∷ []
read_frames-write_frames_example =
    read_frames-write_frames as_is as_is as_is_back two_messages stream two_messages-IsShort
      writes_stream
