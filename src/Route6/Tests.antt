-- ===== src/Route6/Tests.antt =====
-- Routes at concrete addresses (src/kernel/net/route6.c).
use cosmo_rt.Common.{
  ◌≡◌, ◌++◌, refl, true, false, ◌&&◌, none, some, List, [], ◌∷◌, map, arith, replicate,
  if◌then◌else◌,
}
use cosmo_rt.Route6.{
  Address, Route, Head, in6addr_loopback, common_bits, matches, find_head, known, route6_add,
  route6_lookup, route6_attach_lo, new_route, in6_eq,
}
use cosmo_rt.Route6.Order.{AllFalling}
use cosmo_rt.Route6.Lookup.{beats}
use cosmo_rt.Route6.Table.{
  Answers, routes_of, route6_lookup-Answers, route6_add-others, route6_add_lookup,
  route6_add-AllFalling, route6_add-known,
}

-- 2001:db8::, and an address below 2001:db8:1::.
abbrev doc : Address
doc = 0x20 ∷ 0x01 ∷ 0x0d ∷ 0xb8 ∷ [] ++ replicate 12 0

abbrev inner : Address
inner = 0x20 ∷ 0x01 ∷ 0x0d ∷ 0xb8 ∷ 0 ∷ 1 ∷ [] ++ replicate 10 0

-- The root namespace with the loopback route on the interface 1, and a /32.
abbrev wide : Route
wide = new_route doc 32 none 7

abbrev table : List Head
table = record { ns_id = 1; routes = new_route in6addr_loopback 128 none 1 ∷ wide ∷ [] } ∷ []

shared_prefix : common_bits doc inner ≡ 47
unfolding common_bits
shared_prefix = refl

loopback_attached :
    map (λ (h : Head). h.ns_id) (route6_attach_lo (some 4) (some 2) true true table) ≡ 4 ∷ 1 ∷ []
unfolding route6_attach_lo find_head
loopback_attached = refl

no_memory : (route6_add none inner 48 none 9 true false table).1 ≡ false
unfolding route6_add find_head known in6_eq
no_memory = refl

route6_lookup-Answers_example : Answers inner (find_head 1 table) (route6_lookup none inner table)
route6_lookup-Answers_example =
    route6_lookup-Answers none inner table ((omega arith, (omega arith, tt)), tt)

route6_add-others_run :
    route6_lookup (some 5) inner (route6_add none inner 48 none 9 true true table).0
    ≡ route6_lookup (some 5) inner table
route6_add-others_run =
    route6_add-others none (some 5) inner 48 none 9 true true inner table (omega arith)

unknown_prefix : known inner 48 (routes_of (find_head 1 table)) ≡ false
unfolding known find_head in6_eq
unknown_prefix = refl

route6_add_lookup_example :
    ((route6_add none inner 48 none 9 true true table).1 ≡ true)
    × (route6_lookup none inner (route6_add none inner 48 none 9 true true table).0 ≡ (
        if matches inner (new_route inner 48 none 9)
          && beats (new_route inner 48 none 9) (route6_lookup none inner table)
        then some (new_route inner 48 none 9)
        else route6_lookup none inner table))
route6_add_lookup_example =
    route6_add_lookup none inner 48 none 9 inner table ((omega arith, (omega arith, tt)), tt)
      unknown_prefix

route6_add-AllFalling_run : AllFalling (route6_add none inner 48 none 9 true true table).0
route6_add-AllFalling_run =
    route6_add-AllFalling none inner 48 none 9 true true table (omega arith)
      ((omega arith, (omega arith, tt)), tt)

root_routes : find_head 1 table ≡ some (new_route in6addr_loopback 128 none 1 ∷ wide ∷ [])
unfolding find_head
root_routes = refl

wide-known : known doc 32 (new_route in6addr_loopback 128 none 1 ∷ wide ∷ []) ≡ true
unfolding known in6_eq
wide-known = refl

wide_added_again : route6_add none doc 32 none 8 true true table ≡ (table, true)
wide_added_again =
    route6_add-known none doc 32 none 8 true true
      (new_route in6addr_loopback 128 none 1 ∷ wide ∷ []) table root_routes wide-known
