-- ===== src/Primary/Dns/Records.antt =====
-- What the DNS server answers for a name.
use mill.Prelude.{
  inr, inl, Option-cases, Bool-cases, ap, arith, ◌∙◌, refl, none, some, ◌≡◌, Option, Bool, true,
  false, ◌∷◌, [], List, ◌&&◌, if◌then◌else◌, String, str_eq, str_eq_iff, string_key, nat_key, Map,
  lookup, insert, values, Distinct, map, ◌++◌, lookup-insert, insert-Distinct,
}
use mill.Config.Runtime.{IpAddr, SocketAddr, Alloc, is_active}
use mill.Fsm.State.{FsmState}
use mill.Primary.Dns.{push_address, group, compute_dns_records, insert_records, set_records}

-- The addresses of the active allocations of a service, in the order of the allocations.
abbrev pub active_addresses : String → List Alloc → List SocketAddr
active_addresses name [] = []
active_addresses name (a ∷ as') =
    let rest = active_addresses name as' in
    if is_active a.status && str_eq a.name name
    then elim a.address [ none ↦ rest | some addr ↦ addr ∷ rest ]
    else rest

-- A name without addresses has no entry.
abbrev pub joined : Option (List SocketAddr) → List SocketAddr → Option (List SocketAddr)
joined (some l) xs = some (l ++ xs)
joined none [] = none
joined none (x ∷ xs) = some (x ∷ xs)

append_one : {A : Type 0} (l : List A) (x : A) (xs : List A) → (l ++ x ∷ []) ++ xs ≡ l ++ x ∷ xs
append_one [] x xs = refl
append_one (y ∷ l) x xs = ap (λ t. y ∷ t) (append_one l x xs)

joined-push_address :
    (name service : String) (addr : SocketAddr) (g : Map String (List SocketAddr))
    (rest : List SocketAddr)
    → joined (lookup name (push_address service addr g)) rest
      ≡ joined (lookup name g) (if str_eq service name then addr ∷ rest else rest)
unfolding push_address
joined-push_address name service addr g rest = elim (Option-cases (lookup service g)) [
  | inl e ↦
      rw (e, push_address)
        (ground (arith, lookup-insert service name (addr ∷ []) g, str_eq_iff service name, e))
  | inr (l, e) ↦
      rw (e, push_address)
        (ground (
          arith,
          lookup-insert service name (l ++ addr ∷ []) g,
          str_eq_iff service name,
          e,
          append_one l addr rest,
        ))
]

append_nil : {A : Type 0} (l : List A) → l ≡ l ++ []
append_nil [] = refl
append_nil (x ∷ l) = ap (λ t. x ∷ t) (append_nil l)

joined_nil : (o : Option (List SocketAddr)) → o ≡ joined o []
joined_nil none = refl
joined_nil (some l) = ap some (append_nil l)

lookup-group :
    (name : String) (allocs : List Alloc) (g : Map String (List SocketAddr))
    → lookup name (group allocs g) ≡ joined (lookup name g) (active_addresses name allocs)
unfolding group
lookup-group name [] g = joined_nil (lookup name g)
lookup-group name (a ∷ as') g = elim (Bool-cases (is_active a.status)) [
  | inr k ↦ rw (group, k) (lookup-group name as' g)
  | inl k ↦ elim (Option-cases a.address) [
    | inl e ↦ rw (group, k, e) (ground (arith, lookup-group name as' g))
    | inr (addr, e) ↦
        rw (group, k, e)
          (lookup-group name as' (push_address a.name addr g)
            ∙ joined-push_address name a.name addr g (active_addresses name as'))
  ]
]

group-Distinct :
    (allocs : List Alloc) (g : Map String (List SocketAddr))
    → Distinct g
    → Distinct (group allocs g)
unfolding group push_address
group-Distinct [] g d = d
group-Distinct (a ∷ as') g d = group-Distinct as' _ (step (is_active a.status) a.address)
  where
    step :
        (b : Bool) (o : Option SocketAddr)
        → Distinct (
            if b
            then elim o as (λ _. Map String (List SocketAddr)) [
              | none ↦ g
              | some addr ↦ push_address a.name addr g
            ]
            else g)
    step false o = d
    step true none = d
    step true (some addr) = insert-Distinct a.name _ g d

abbrev known : Option (List IpAddr) → Option (List SocketAddr) → Option (List IpAddr)
known old none = old
known old (some l) = some (map (λ a. SocketAddr.ip a) l)

lookup-insert_records :
    (name : String) (g : Map String (List SocketAddr)) (m : Map String (List IpAddr))
    → Distinct g
    → lookup name (insert_records (map (λ e. record { name = e.0; addresses = e.1 }) g) m)
      ≡ known (lookup name m) (lookup name g)
unfolding insert_records lookup
lookup-insert_records name [] m d = refl
lookup-insert_records name ((k, l) ∷ g) m d = ground (
  arith,
  lookup-insert_records name g (insert k (map (λ a. SocketAddr.ip a) l) m) d.1,
  lookup-insert k name (map (λ a. SocketAddr.ip a) l) m,
  d.0,
)

-- The address list of a name, without an entry if it is empty.
abbrev pub entry : List SocketAddr → Option (List IpAddr)
entry [] = none
entry (x ∷ xs) = some (map (λ a. SocketAddr.ip a) (x ∷ xs))

known_entry : (xs : List SocketAddr) → known none (joined none xs) ≡ entry xs
known_entry [] = refl
known_entry (x ∷ xs) = refl

-- The DNS server knows exactly the names of services and tasks with an allocation that is running or
-- healthy and has an address: under such a name it has the addresses of these allocations, in their
-- order, and nothing of what it had before.
pub lookup-set_records :
    (fsm : FsmState) (old : Map String (List IpAddr)) (name : String)
    → lookup name (set_records (compute_dns_records fsm) old)
      ≡ entry (active_addresses name (values fsm.allocs))
unfolding set_records compute_dns_records lookup
lookup-set_records fsm old name =
    lookup-insert_records name (group (values fsm.allocs) []) []
      (group-Distinct (values fsm.allocs) [] tt)
    ∙ ap (known none) (lookup-group name (values fsm.allocs) [])
    ∙ known_entry (active_addresses name (values fsm.allocs))
