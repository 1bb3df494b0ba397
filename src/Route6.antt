-- ===== src/Route6.antt =====
-- The IPv6 routes of src/kernel/net/route6.c. An address is the list of its 16 bytes, an interface
-- is its number, and the list `heads` of the namespaces is part of the state. What `slab_alloc` gives
-- for a new head and for a new entry are arguments.
pub mod Lookup
pub mod Table
pub mod Order
mod Tests
use Prim.Native.Nat.{bit_and, bit_xor}
use cosmo_rt.Common.{
  ℕ, zero, suc, ◌+◌, ◌^◌, Bool, true, false, ◌&&◌, not, Option, none, some, List, [], ◌∷◌, ltb, leb,
  ◌==◌, if◌then◌else◌, replicate, ◌++◌,
}

abbrev pub Address : Type 0
Address = List ℕ

abbrev pub in6addr_any : Address
in6addr_any = replicate 16 0

abbrev pub in6addr_loopback : Address
in6addr_loopback = replicate 15 0 ++ 1 ∷ []

-- `route6_entry_t`
pub record Route : Type 0 where
  pub prefix : Address
  pub prefix_len : ℕ
  pub metric : ℕ
  pub gateway : Address
  pub oif : ℕ

-- `ns_route_head_t`
pub record Head : Type 0 where
  pub ns_id : ℕ
  pub routes : List Route

-- `init_net_ns.ns_id`
abbrev pub init_ns_id : ℕ
init_ns_id = 1

-- `if (!ns) ns = &init_net_ns`
abbrev pub ns_of : Option ℕ → ℕ
ns_of none = init_ns_id
ns_of (some ns) = ns

unfoldable pub in6_eq : Address → Address → Bool
in6_eq [] [] = true
in6_eq [] (y ∷ ys) = false
in6_eq (x ∷ xs) [] = false
in6_eq (x ∷ xs) (y ∷ ys) = (x == y) && in6_eq xs ys

-- The bits from `bits` - 1 down: `n` and the number of zeros before the first one.
unfoldable pub zeros_above : (bits x n : ℕ) → ℕ
zeros_above zero x n = n
zeros_above (suc b) x n =
    let rest = zeros_above b x (n + 1) in if not (bit_and x (2 ^ b) == 0) then n else rest

-- `common_bits` of the bytes that are left, with `n` counted.
unfoldable pub common_from : Address → Address → ℕ → ℕ
unfolding zeros_above
common_from [] ys n = n
common_from (x ∷ xs) [] n = n
common_from (x ∷ xs) (y ∷ ys) n =
    let rest = common_from xs ys (n + 8) in
    let d = bit_xor x y in if d == 0 then rest else zeros_above 8 d n

unfoldable pub common_bits : Address → Address → ℕ
unfolding common_from
common_bits a b = common_from a b 0

-- The test of `route6_lookup`.
abbrev pub matches : Address → Route → Bool
matches dst e = leb e.prefix_len (common_bits e.prefix dst)

-- `find_head` without allocation.
unfoldable pub find_head : ℕ → List Head → Option (List Route)
find_head ns [] = none
find_head ns (h ∷ hs) =
    let later = find_head ns hs in if h.ns_id == ns then some h.routes else later

-- What `find_head` does with the list that it found or did not find, where a new head is wanted.
unfoldable pub or_new :
    (ns : ℕ) (allocated : Bool) → List Head → Option (List Route) → List Head × Option (List Route)
or_new ns allocated hs (some rs) = (hs, some rs)
or_new ns true hs none = (record { ns_id = ns; routes = [] } ∷ hs, some [])
or_new ns false hs none = (hs, none)

-- `find_head` with allocation: a new head goes to the front.
unfoldable pub with_head : (ns : ℕ) (allocated : Bool) → List Head → List Head × Option (List Route)
unfolding find_head or_new
with_head ns allocated hs = or_new ns allocated hs (find_head ns hs)

-- A store through `h->head` for the first head of the namespace.
unfoldable pub store : ℕ → List Route → List Head → List Head
store ns rs [] = []
store ns rs (h ∷ hs) =
    let later = h ∷ store ns rs hs in if h.ns_id == ns then record h { routes = rs } ∷ hs else later

-- The search for a route with this prefix.
unfoldable pub known : Address → ℕ → List Route → Bool
unfolding in6_eq
known prefix len [] = false
known prefix len (e ∷ es) =
    let later = known prefix len es in
    if e.prefix_len == len && in6_eq e.prefix prefix then true else later

-- `e`, put before the first entry with a shorter prefix.
unfoldable pub insert_route : Route → List Route → List Route
insert_route r [] = r ∷ []
insert_route r (e ∷ es) =
    let later = e ∷ insert_route r es in if leb r.prefix_len e.prefix_len then later else r ∷ e ∷ es

abbrev pub new_route : Address → ℕ → (gateway : Option Address) → (oif : ℕ) → Route
new_route prefix len gateway oif = record {
  prefix = prefix;
  prefix_len = len;
  metric = 0;
  gateway = elim gateway [ none ↦ in6addr_any | some g ↦ g ];
  oif = oif;
}

-- What `route6_add` does to the list of one namespace; `false` for -1.
unfoldable pub add_to : (allocated : Bool) → Route → List Route → List Route × Bool
unfolding known insert_route
add_to allocated r rs =
    if known r.prefix r.prefix_len rs
    then (rs, true)
    else if allocated
    then (insert_route r rs, true)
    else (rs, false)

unfoldable pub add_at :
    ℕ → (allocated : Bool) → Route → List Head × Option (List Route) → List Head × Bool
unfolding store add_to
add_at ns allocated r (hs, none) = (hs, false)
add_at ns allocated r (hs, some rs) =
    (store ns (add_to allocated r rs).0 hs, (add_to allocated r rs).1)

unfoldable pub route6_add :
    (ns : Option ℕ) (prefix : Address) (len : ℕ) (gateway : Option Address) (oif : ℕ)
    → (head_allocated allocated : Bool) → List Head
    → List Head × Bool
unfolding with_head add_at
route6_add ns prefix len gateway oif head_allocated allocated hs =
    add_at (ns_of ns) allocated (new_route prefix len gateway oif)
      (with_head (ns_of ns) head_allocated hs)

-- The walk of `route6_lookup` along the list of a namespace.
unfoldable pub first_match : Address → List Route → Option Route
first_match dst [] = none
first_match dst (e ∷ es) = let later = first_match dst es in if matches dst e then some e else later

unfoldable pub lookup_in : Address → Option (List Route) → Option Route
unfolding first_match
lookup_in dst none = none
lookup_in dst (some rs) = first_match dst rs

unfoldable pub route6_lookup : (ns : Option ℕ) → Address → List Head → Option Route
unfolding find_head lookup_in
route6_lookup ns dst hs = lookup_in dst (find_head (ns_of ns) hs)

-- `loopback` is what `netif_loopback_ns` gives.
unfoldable pub route6_attach_lo :
    (ns loopback : Option ℕ) → (head_allocated allocated : Bool) → List Head → List Head
unfolding route6_add
route6_attach_lo ns none head_allocated allocated hs = hs
route6_attach_lo ns (some lo) head_allocated allocated hs =
    (route6_add ns in6addr_loopback 128 (some in6addr_any) lo head_allocated allocated hs).0
