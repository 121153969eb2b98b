-- ===== src/Proxy/Matching.antt =====
-- What a lookup in the table of routes finds.
use mill.Prelude.{
  inr, inl, Option-cases, ◌≤◌, ap, arith, ◌∙◌, sym, subst, refl, none, some, ◌≡◌, Bool, true, false,
  List, option_map, String, string_key, nat_key, find_first, In, ◌↔◌,
}
use Prim.Native.String.{len}
use text.Mathlib.Text.{starts_with}
use mill.Config.Runtime.{ProxyRoute}
use mill.Proxy.{
  RouteEntry, RouteMatch, route_entry, route_match, new_table, lookup_route, sort_entries,
  or_default,
}
use mill.Proxy.Sorting.{
  sort_entries-Descending, In-sort_entries, find_first_longest, find_first-none,
}
use mill.Proxy.Grouping.{collect, IsRoute, lookup-new_table, collect-IsRoute, route-collect}

sorted_routes :
    (h : String) (rs : List ProxyRoute) (es : List RouteEntry) (e : RouteEntry)
    → collect h none rs ≡ some es
    → In e (sort_entries es) ↔ IsRoute h e rs
sorted_routes h rs es e c = (to, from)
  where
    to : In e (sort_entries es) → IsRoute h e rs
    to m =
        elim (collect-IsRoute h none rs e
          (subst (λ o. In e (or_default o)) (sym c) ((In-sort_entries e es).0 m))) [
            | inl x ↦ absurd x
            | inr x ↦ x
          ]

    from : IsRoute h e rs → In e (sort_entries es)
    from r =
        (In-sort_entries e es).1
          (subst (λ o. In e (or_default o)) c (route-collect h none rs e (inr r)))

-- A lookup finds a route of the host whose path the request's path starts with, and no such route
-- of the host has a longer path.
pub lookup_route_longest :
    (rs : List ProxyRoute) (hostname path : String) (m : RouteMatch)
    → lookup_route (new_table rs) hostname path ≡ some m
    → ((r : ProxyRoute) × In r rs
        × (r.hostname ≡ hostname)
        × (route_match (route_entry r) ≡ m)
        × (starts_with path m.path ≡ true))
      × ((r : ProxyRoute)
          → In r rs
          → r.hostname ≡ hostname
          → starts_with path r.path ≡ true
          → len r.path ≤ len m.path)
unfolding lookup_route
lookup_route_longest rs hostname path m h = elim (Option-cases (collect hostname none rs)) [
  | inl c ↦ ground (arith, c, lookup-new_table hostname rs, h)
  | inr (es, c) ↦
      let p : RouteEntry → Bool = λ x. starts_with path (RouteEntry.path x) in
      let (e, f, q) = matched es (ground (arith, c, lookup-new_table hostname rs, h)) in
      let (i, s, longest) =
        find_first_longest p (sort_entries es) e (sort_entries-Descending es) f in
      let (r, j, k, g) = (sorted_routes hostname rs es e c).0 i in
      (
        (r, j, k, ap route_match g ∙ q, ap (λ x. starts_with path (RouteMatch.path x)) (sym q) ∙ s),
        λ r' i' e' s'.
            subst (λ x. len (ProxyRoute.path r') ≤ len (RouteMatch.path x)) q
              (longest (route_entry r')
                ((sorted_routes hostname rs es (route_entry r') c).1 (r', i', e', refl)) s'),
      )
]
  where
    matched :
        (es : List RouteEntry)
        → option_map route_match
            (find_first (λ x. starts_with path (RouteEntry.path x)) (sort_entries es))
          ≡ some m
        → (e : RouteEntry) × (find_first
              (λ x. starts_with path (RouteEntry.path x))
              (sort_entries es)
            ≡ some e)
          × (route_match e ≡ m)
    matched es h =
        elim (Option-cases
          (find_first (λ x. starts_with path (RouteEntry.path x)) (sort_entries es))) [
            | inl f ↦ ground (arith, f, h)
            | inr (e, f) ↦ (e, f, ground (arith, f, h))
          ]

-- A lookup finds nothing only where no route of the host has a path that the request's path starts
-- with.
pub lookup_route-none :
    (rs : List ProxyRoute) (hostname path : String) (r : ProxyRoute)
    → lookup_route (new_table rs) hostname path ≡ none
    → In r rs
    → r.hostname ≡ hostname
    → starts_with path r.path ≡ false
unfolding lookup_route
lookup_route-none rs hostname path r h i e = elim (Option-cases (collect hostname none rs)) [
  | inl c ↦ absurd (
      subst (λ o. In (route_entry r) (or_default o)) c
        (route-collect hostname none rs (route_entry r) (inr (r, i, e, refl))))
  | inr (es, c) ↦
      find_first-none (λ x. starts_with path (RouteEntry.path x)) (sort_entries es) (route_entry r)
        (nothing es (ground (arith, c, lookup-new_table hostname rs, h)))
        ((sorted_routes hostname rs es (route_entry r) c).1 (r, i, e, refl))
]
  where
    nothing :
        (es : List RouteEntry)
        → option_map route_match
            (find_first (λ x. starts_with path (RouteEntry.path x)) (sort_entries es))
          ≡ none
        → find_first (λ x. starts_with path (RouteEntry.path x)) (sort_entries es) ≡ none
    nothing es h = ground (
      arith,
      h,
      Option-cases (find_first (λ x. starts_with path (RouteEntry.path x)) (sort_entries es)),
    )
