-- ===== src/Proxy.antt =====
-- crates/proxy/src/proxy/routes.rs: the table of routes. Lengths are in bytes, as there. The watch
-- channel of `SharedRouteTable` is a cell: an update replaces the table, and a reader that holds
-- one keeps it.
pub mod Sorting
pub mod Grouping
pub mod Matching
pub mod Backends
use mill.Prelude.{
  inr, inl, Option-cases, Bool-cases, ◌≤◌, ◌<◌, ap, ◌⊎◌, arith, ◌∙◌, sym, subst, refl, none, some,
  ◌≡◌, Option, Bool, true, false, ◌∷◌, [], List, ℕ, zero, suc, ◌+◌, ◌-◌, ◌*◌, ◌%◌, ◌&&◌, ◌||◌, not,
  ltb, leb, ◌==◌, if◌then◌else◌, and_then, option_map, is_some, String, str_eq, str_eq_iff,
  string_key, nat_key, Map, lookup, insert, remove, retain, keys, values, Distinct, map, ◌++◌, ◌<>◌,
  display, any, filterb, find_first, length, In, any-true, any-false, In-filterb, filterb-In,
  lookup-insert, lookup-remove, lookup-retain, ite, max,
}
use Prim.Native.String.{len}
use text.Mathlib.Text.{starts_with}
use mill.Config.Runtime.{SocketAddr, ProxyRoute}

pub record RouteEntry : Type 0 where
  pub path : String
  pub backend : SocketAddr
  pub websocket : Bool

pub record RouteMatch : Type 0 where
  pub backend : SocketAddr
  pub websocket : Bool
  pub path : String

abbrev pub RouteTable : Type 0
RouteTable = Map String (List RouteEntry)

abbrev pub route_entry : ProxyRoute → RouteEntry
route_entry r = record { path = r.path; backend = r.backend; websocket = r.websocket }

abbrev pub or_default : Option (List RouteEntry) → List RouteEntry
or_default none = []
or_default (some es) = es

unfoldable pub push_routes : RouteTable → List ProxyRoute → RouteTable
push_routes t [] = t
push_routes t (r ∷ rs) =
    push_routes (insert r.hostname (or_default (lookup r.hostname t) ++ (route_entry r ∷ [])) t) rs

-- `sort_by` is stable: of two paths of the same length the earlier one stays in front.
unfoldable pub insert_sorted : RouteEntry → List RouteEntry → List RouteEntry
insert_sorted e [] = e ∷ []
insert_sorted e (x ∷ xs) =
    let rest = insert_sorted e xs in if ltb (len e.path) (len x.path) then x ∷ rest else e ∷ x ∷ xs

unfoldable pub sort_entries : List RouteEntry → List RouteEntry
unfolding insert_sorted
sort_entries [] = []
sort_entries (e ∷ es) = insert_sorted e (sort_entries es)

unfoldable pub sort_all : RouteTable → RouteTable
sort_all [] = []
sort_all ((h, es) ∷ t) = (h, sort_entries es) ∷ sort_all t

-- `RouteTable::new`
unfoldable pub new_table : List ProxyRoute → RouteTable
unfolding push_routes sort_all
new_table proxy_routes = sort_all (push_routes [] proxy_routes)

abbrev pub route_match : RouteEntry → RouteMatch
route_match e = record { backend = e.backend; websocket = e.websocket; path = e.path }

unfoldable pub lookup_route : RouteTable → String → String → Option RouteMatch
lookup_route t hostname path =
    and_then (lookup hostname t)
      (λ entries. option_map route_match (find_first (λ e. starts_with path e.path) entries))

abbrev pub hostnames : RouteTable → List String
hostnames t = keys t

-- `SharedRouteTable`: `new`, `update` and `current`.
abbrev pub new_shared : RouteTable
new_shared = new_table []

abbrev pub update : RouteTable → List ProxyRoute → RouteTable
update t routes = new_table routes

abbrev pub current : RouteTable → RouteTable
current t = t
