-- ===== src/Route6/Order.antt =====
-- The order of a list of routes (src/kernel/net/route6.c).
use cosmo_rt.Common.{
  ℕ, ◌≤◌, Bool, Option, none, some, List, [], ◌∷◌, leb, ◌==◌, arith, Bool-cases, inl, inr,
}
use cosmo_rt.Route6.{Route, Head, find_head, store, known, insert_route, add_to}

-- The prefix lengths fall from `bound` on.
abbrev pub Falling : ℕ → List Route → Type 0
Falling bound [] = Unit
Falling bound (e ∷ es) = (e.prefix_len ≤ bound) × Falling e.prefix_len es

pub insert-Falling :
    (r : Route) (es : List Route) (bound : ℕ)
    → r.prefix_len ≤ bound
    → Falling bound es
    → Falling bound (insert_route r es)
unfolding insert_route
insert-Falling r [] bound p h = (p, tt)
insert-Falling r (e ∷ es) bound p h = elim (Bool-cases (leb r.prefix_len e.prefix_len)) [
  | inl y ↦ rw y (h.0, insert-Falling r es e.prefix_len (ground arith) h.1)
  | inr n ↦ rw n (p, (ground arith, h.1))
]

pub add_to-Falling :
    (allocated : Bool) (r : Route) (es : List Route) (bound : ℕ)
    → r.prefix_len ≤ bound
    → Falling bound es
    → Falling bound (add_to allocated r es).0
unfolding add_to
add_to-Falling allocated r es bound p h = elim (Bool-cases (known r.prefix r.prefix_len es)) [
  | inl k ↦ rw k h
  | inr k ↦ elim (Bool-cases allocated) [
    | inl a ↦ rw (k, a) (insert-Falling r es bound p h)
    | inr a ↦ rw (k, a) h
  ]
]

-- The list of every namespace is in falling order; a prefix length is a byte.
abbrev pub AllFalling : List Head → Type 0
AllFalling [] = Unit
AllFalling (h ∷ hs) = Falling 255 h.routes × AllFalling hs

pub store-AllFalling :
    (ns : ℕ) (rs : List Route) (hs : List Head)
    → Falling 255 rs
    → AllFalling hs
    → AllFalling (store ns rs hs)
unfolding store
store-AllFalling ns rs [] f a = tt
store-AllFalling ns rs (h ∷ hs) f a = elim (Bool-cases (h.ns_id == ns)) [
  | inl e ↦ rw e (f, a.1)
  | inr e ↦ rw e (a.0, store-AllFalling ns rs hs f a.1)
]

-- A list that `find_head` gives is in falling order.
abbrev pub Found : Option (List Route) → Type 0
Found none = Unit
Found (some rs) = Falling 255 rs

pub find_head-Found : (ns : ℕ) (hs : List Head) → AllFalling hs → Found (find_head ns hs)
unfolding find_head
find_head-Found ns [] a = tt
find_head-Found ns (h ∷ hs) a = elim (Bool-cases (h.ns_id == ns)) [
  | inl e ↦ rw e a.0
  | inr e ↦ rw e (find_head-Found ns hs a.1)
]
