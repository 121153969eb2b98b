-- ===== src/Proxy/Grouping.antt =====
-- Which routes stand under a host.
use mill.Prelude.{
  inr, inl, ap, ◌⊎◌, arith, ◌∙◌, refl, none, some, ◌≡◌, Option, ◌∷◌, [], List, option_map, String,
  string_key, nat_key, lookup, insert, ◌++◌, In, lookup-insert, ite, In-append_right, In-append,
  In-append_left, string_discrete,
}
use mill.Config.Runtime.{ProxyRoute}
use mill.Proxy.{
  RouteEntry, RouteTable, route_entry, or_default, push_routes, sort_all, sort_entries, new_table,
}

-- The routes of a host, in their order, after those that it has.
abbrev pub collect : String → Option (List RouteEntry) → List ProxyRoute → Option (List RouteEntry)
collect h o [] = o
collect h o (r ∷ rs) =
    collect h (ite (string_discrete r.hostname h) (some (or_default o ++ (route_entry r ∷ []))) o)
      rs

lookup-push_routes :
    (h : String) (t : RouteTable) (rs : List ProxyRoute)
    → lookup h (push_routes t rs) ≡ collect h (lookup h t) rs
unfolding push_routes
lookup-push_routes h t [] = refl
lookup-push_routes h t (r ∷ rs) =
    let es = or_default (lookup r.hostname t) ++ (route_entry r ∷ []) in
    lookup-push_routes h (insert r.hostname es t) rs
    ∙ ap (λ o. collect h o rs) (ground (arith, lookup-insert r.hostname h es t))

lookup-sort_all :
    (h : String) (t : RouteTable) → lookup h (sort_all t) ≡ option_map sort_entries (lookup h t)
unfolding sort_all lookup
lookup-sort_all h [] = refl
lookup-sort_all h ((k, es) ∷ t) = ground (arith, lookup-sort_all h t)

pub lookup-new_table :
    (h : String) (rs : List ProxyRoute)
    → lookup h (new_table rs) ≡ option_map sort_entries (collect h none rs)
unfolding new_table lookup
lookup-new_table h rs =
    lookup-sort_all h (push_routes [] rs)
    ∙ ap (option_map sort_entries) (lookup-push_routes h [] rs)

-- A route of the host, as the entry.
abbrev pub IsRoute : String → RouteEntry → List ProxyRoute → Type 0
IsRoute h e rs = (r : ProxyRoute) × In r rs × (r.hostname ≡ h) × (route_entry r ≡ e)

abbrev more : Option (List RouteEntry) → ProxyRoute → Option (List RouteEntry)
more o r = some (or_default o ++ (route_entry r ∷ []))

later :
    (h : String) (e : RouteEntry) (rs : List ProxyRoute) (r : ProxyRoute)
    → IsRoute h e rs
    → IsRoute h e (r ∷ rs)
later h e rs r (x, m, k, g) = (x, inr m, k, g)

pub collect-IsRoute :
    (h : String) (o : Option (List RouteEntry)) (rs : List ProxyRoute) (e : RouteEntry)
    → In e (or_default (collect h o rs))
    → In e (or_default o) ⊎ IsRoute h e rs
collect-IsRoute h o [] e m = inl m
collect-IsRoute h o (r ∷ rs) e m =
    go (string_discrete r.hostname h) m (collect-IsRoute h (more o r) rs e)
      (collect-IsRoute h o rs e)
  where
    go :
        (d : Dec (r.hostname ≡ h))
        → In e (or_default (collect h (ite d (more o r) o) rs))
        → (In e (or_default (collect h (more o r) rs))
            → In e (or_default (more o r)) ⊎ IsRoute h e rs)
        → (In e (or_default (collect h o rs)) → In e (or_default o) ⊎ IsRoute h e rs)
        → In e (or_default o) ⊎ IsRoute h e (r ∷ rs)
    go (no k) m f g = elim (g m) [ inl x ↦ inl x | inr x ↦ inr (later h e rs r x) ]
    go (yes k) m f g = elim (f m) [
      | inl x ↦ elim (In-append e (or_default o) (route_entry r ∷ []) x) [
        | inl y ↦ inl y
        | inr (inl y) ↦ inr (r, inl refl, k, y)
        | inr (inr y) ↦ absurd y
      ]
      | inr x ↦ inr (later h e rs r x)
    ]

pub route-collect :
    (h : String) (o : Option (List RouteEntry)) (rs : List ProxyRoute) (e : RouteEntry)
    → In e (or_default o) ⊎ IsRoute h e rs
    → In e (or_default (collect h o rs))
route-collect h o [] e (inl m) = m
route-collect h o [] e (inr (r, m, k, g)) = absurd m
route-collect h o (r ∷ rs) e m =
    go (string_discrete r.hostname h) m (route-collect h (more o r) rs e) (route-collect h o rs e)
  where
    go :
        (d : Dec (r.hostname ≡ h))
        → In e (or_default o) ⊎ IsRoute h e (r ∷ rs)
        → (In e (or_default (more o r)) ⊎ IsRoute h e rs
            → In e (or_default (collect h (more o r) rs)))
        → (In e (or_default o) ⊎ IsRoute h e rs → In e (or_default (collect h o rs)))
        → In e (or_default (collect h (ite d (more o r) o) rs))
    go (no k) (inl x) f g = g (inl x)
    go (no k) (inr (x, inl q, n, y)) f g = absurd (k (ap (λ z. ProxyRoute.hostname z) q ∙ n))
    go (no k) (inr (x, inr m, n, y)) f g = g (inr (x, m, n, y))
    go (yes k) (inl x) f g = f (inl (In-append_left e (or_default o) (route_entry r ∷ []) x))
    go (yes k) (inr (x, inl q, n, y)) f g =
        f (inl (In-append_right e (or_default o) (route_entry r ∷ []) (inl (ap route_entry q ∙ y))))
    go (yes k) (inr (x, inr m, n, y)) f g = f (inr (x, m, n, y))
