-- ===== src/Proxy/Sorting.antt =====
-- The entries of a host, the longest paths first.
use mill.Prelude.{
  inr, inl, Bool-cases, ◌≤◌, ap, arith, ◌∙◌, sym, subst, none, some, ◌≡◌, Bool, true, false, ◌∷◌,
  [], List, ℕ, ltb, if◌then◌else◌, string_key, nat_key, find_first, In, All, ◌↔◌,
}
use Prim.Native.String.{len}
use mill.Proxy.{RouteEntry, insert_sorted, sort_entries}

-- No later path is longer.
abbrev pub Descending : List RouteEntry → Type 0
Descending [] = Unit
Descending (e ∷ es) = All (λ x. len (RouteEntry.path x) ≤ len e.path) es × Descending es

All-insert :
    (n : ℕ) (e : RouteEntry) (es : List RouteEntry)
    → len e.path ≤ n
    → All (λ x. len (RouteEntry.path x) ≤ n) es
    → All (λ x. len (RouteEntry.path x) ≤ n) (insert_sorted e es)
unfolding insert_sorted
All-insert n e [] h a = (h, tt)
All-insert n e (x ∷ xs) h a = ground (arith, All-insert n e xs h a.1)

All-mono :
    (m n : ℕ) (es : List RouteEntry)
    → m ≤ n
    → All (λ x. len (RouteEntry.path x) ≤ m) es
    → All (λ x. len (RouteEntry.path x) ≤ n) es
All-mono m n [] h a = tt
All-mono m n (x ∷ xs) h a = (omega (arith, a.0), All-mono m n xs h a.1)

insert_sorted-Descending :
    (e : RouteEntry) (es : List RouteEntry) → Descending es → Descending (insert_sorted e es)
unfolding insert_sorted
insert_sorted-Descending e [] d = (tt, tt)
insert_sorted-Descending e (x ∷ xs) d = ground (
  arith,
  insert_sorted-Descending e xs d.1,
  All-insert (len x.path) e xs,
  All-mono (len x.path) (len e.path) xs,
)

pub sort_entries-Descending : (es : List RouteEntry) → Descending (sort_entries es)
unfolding sort_entries
sort_entries-Descending [] = tt
sort_entries-Descending (e ∷ es) =
    insert_sorted-Descending e (sort_entries es) (sort_entries-Descending es)

In-insert_sorted :
    (e x : RouteEntry) (es : List RouteEntry) → In x (insert_sorted e es) ↔ In x (e ∷ es)
unfolding insert_sorted
In-insert_sorted e x [] = (λ m. m, λ m. m)
In-insert_sorted e x (y ∷ ys) = go (ltb (len e.path) (len y.path)) (In-insert_sorted e x ys)
  where
    go :
        (b : Bool)
        → (In x (insert_sorted e ys) ↔ In x (e ∷ ys))
        → In x (if b then y ∷ insert_sorted e ys else e ∷ y ∷ ys) ↔ In x (e ∷ y ∷ ys)
    go false ih = (λ m. m, λ m. m)
    go true ih = (to, from)
      where
        to : In x (y ∷ insert_sorted e ys) → In x (e ∷ y ∷ ys)
        to (inl k) = inr (inl k)
        to (inr m) = elim (ih.0 m) [ inl k ↦ inl k | inr k ↦ inr (inr k) ]

        from : In x (e ∷ y ∷ ys) → In x (y ∷ insert_sorted e ys)
        from (inl k) = inr (ih.1 (inl k))
        from (inr (inl k)) = inl k
        from (inr (inr k)) = inr (ih.1 (inr k))

pub In-sort_entries : (x : RouteEntry) (es : List RouteEntry) → In x (sort_entries es) ↔ In x es
unfolding sort_entries
In-sort_entries x [] = (λ m. m, λ m. m)
In-sort_entries x (e ∷ es) =
    let (to, from) = In-sort_entries x es in
    let (to1, from1) = In-insert_sorted e x (sort_entries es) in
    (
      λ m. elim (to1 m) [ inl k ↦ inl k | inr k ↦ inr (to k) ],
      λ m. from1 (elim m [ inl k ↦ inl k | inr k ↦ inr (from k) ]),
    )

All-In :
    (n : ℕ) (es : List RouteEntry) (x : RouteEntry)
    → All (λ y. len (RouteEntry.path y) ≤ n) es
    → In x es
    → len x.path ≤ n
All-In n [] x a m = absurd m
All-In n (y ∷ ys) x a (inl e) = subst (λ z. len (RouteEntry.path z) ≤ n) e a.0
All-In n (y ∷ ys) x a (inr m) = All-In n ys x a.1 m

-- The first entry of a descending list that passes a test is a longest one that does.
pub find_first_longest :
    (p : RouteEntry → Bool) (es : List RouteEntry) (e : RouteEntry)
    → Descending es
    → find_first p es ≡ some e
    → In e es × (p e ≡ true) × ((x : RouteEntry) → In x es → p x ≡ true → len x.path ≤ len e.path)
find_first_longest p [] e d h = cc
find_first_longest p (y ∷ ys) e d h = elim (Bool-cases (p y)) [
  | inl t ↦ hit (ground arith) t
  | inr t ↦ miss t (find_first_longest p ys e d.1 (ground arith))
]
  where
    hit :
        y ≡ e
        → p y ≡ true
        → In e (y ∷ ys)
          × (p e ≡ true)
          × ((x : RouteEntry) → In x (y ∷ ys) → p x ≡ true → len x.path ≤ len e.path)
    hit q t = (inl q, sym (ap p q) ∙ t, longest)
      where
        longest : (x : RouteEntry) → In x (y ∷ ys) → p x ≡ true → len x.path ≤ len e.path
        longest x (inl k) s = omega (arith, ap (λ z. len (RouteEntry.path z)) (sym q ∙ k))
        longest x (inr m) s =
            subst (λ z. len x.path ≤ len (RouteEntry.path z)) q (All-In (len y.path) ys x d.0 m)

    miss :
        p y ≡ false
        → In e ys
          × (p e ≡ true)
          × ((x : RouteEntry) → In x ys → p x ≡ true → len x.path ≤ len e.path)
        → In e (y ∷ ys)
          × (p e ≡ true)
          × ((x : RouteEntry) → In x (y ∷ ys) → p x ≡ true → len x.path ≤ len e.path)
    miss t (m, s, l) = (inr m, s, later)
      where
        later : (x : RouteEntry) → In x (y ∷ ys) → p x ≡ true → len x.path ≤ len e.path
        later x (inl k) r = ground (arith, ap p k)
        later x (inr k) r = l x k r

pub find_first-none :
    (p : RouteEntry → Bool) (es : List RouteEntry) (x : RouteEntry)
    → find_first p es ≡ none
    → In x es
    → p x ≡ false
find_first-none p [] x h m = absurd m
find_first-none p (y ∷ ys) x h (inl e) = sym (ap p e) ∙ ground arith
find_first-none p (y ∷ ys) x h (inr m) = find_first-none p ys x (ground arith) m
