-- ===== src/Route6/Table.antt =====
-- The routes of all namespaces (`route6_add` and `route6_lookup` in src/kernel/net/route6.c).
use cosmo_rt.Common.{
  ℕ, ◌≤◌, ◌≡◌, ◌≢◌, refl, sym, ap, ◌∙◌, Bool, true, false, Option, none, some, List, [], ◌∷◌, ◌==◌,
  ◌&&◌, if◌then◌else◌, arith, Bool-cases, inl, inr,
}
use cosmo_rt.Route6.{
  Address, Route, Head, first_match, matches, insert_route, find_head, with_head, store, known,
  add_to, route6_add, route6_lookup, new_route, ns_of, lookup_in, or_new, add_at,
}
use cosmo_rt.Route6.Order.{
  Falling, AllFalling, find_head-Found, Found, store-AllFalling, add_to-Falling,
}
use cosmo_rt.Route6.Lookup.{Best, first_match-Best, first_match-insert, beats}

find_head-store :
    (ns : ℕ) (rs rs' : List Route) (hs : List Head)
    → find_head ns hs ≡ some rs
    → find_head ns (store ns rs' hs) ≡ some rs'
unfolding find_head store
find_head-store ns rs rs' [] f = absurd (cc)
find_head-store ns rs rs' (h ∷ hs) f = elim (Bool-cases (h.ns_id == ns)) [
  | inl e ↦ rw (e, e) refl
  | inr e ↦ rw (e, e) (find_head-store ns rs rs' hs (ground arith))
]

find_head-store_ne :
    (ns ns' : ℕ) (rs : List Route) (hs : List Head)
    → ns ≢ ns'
    → find_head ns' (store ns rs hs) ≡ find_head ns' hs
unfolding find_head store
find_head-store_ne ns ns' rs [] d = refl
find_head-store_ne ns ns' rs (h ∷ hs) d = elim (Bool-cases (h.ns_id == ns)) [
  | inl e ↦ rw (e, other e) refl
  | inr e ↦ elim (Bool-cases (h.ns_id == ns')) [
    | inl e' ↦ rw (e, e') refl
    | inr e' ↦ rw (e, e') (find_head-store_ne ns ns' rs hs d)
  ]
]
  where
    other : (h.ns_id == ns) ≡ true → (h.ns_id == ns') ≡ false
    other e = ground arith

store_same :
    (ns : ℕ) (rs : List Route) (hs : List Head) → find_head ns hs ≡ some rs → store ns rs hs ≡ hs
unfolding find_head store
store_same ns rs [] f = refl
store_same ns rs (h ∷ hs) f = elim (Bool-cases (h.ns_id == ns)) [
  | inl e ↦ rw e (ap (λ q. record h { routes = q } ∷ hs) (sym (same e)))
  | inr e ↦ rw e (ap (λ q. h ∷ q) (store_same ns rs hs (ground arith)))
]
  where
    same : (h.ns_id == ns) ≡ true → h.routes ≡ rs
    same e = ground arith

-- What a lookup in the list of a namespace, if it has one, promises.
abbrev pub Answers : Address → Option (List Route) → Option Route → Type 0
Answers dst none r = r ≡ none
Answers dst (some rs) r = Best dst rs r

-- On lists in falling order `route6_lookup` returns a route of the namespace that matches the
-- address, such that no matching route of the namespace has a longer prefix; or null, and then none
-- matches, or the namespace has no list.
pub route6_lookup-Answers :
    (ns : Option ℕ) (dst : Address) (hs : List Head)
    → AllFalling hs
    → Answers dst (find_head (ns_of ns) hs) (route6_lookup ns dst hs)
unfolding route6_lookup
route6_lookup-Answers ns dst hs a =
    answer (find_head (ns_of ns) hs) (find_head-Found (ns_of ns) hs a)
  where
    answer : (o : Option (List Route)) → Found o → Answers dst o (lookup_in dst o)
    answer none f = unfold lookup_in in refl
    answer (some rs) f = unfold lookup_in in first_match-Best dst rs 255 f

-- The list of a namespace, empty where it has none.
abbrev pub routes_of : Option (List Route) → List Route
routes_of none = []
routes_of (some rs) = rs

-- `find_head` that is given a head leaves the list of the namespace where it finds it, and the
-- lists of the others alone.
or_new-routes :
    (ns : ℕ) (hs : List Head) (o : Option (List Route))
    → find_head ns hs ≡ o
    → ((or_new ns true hs o).1 ≡ some (routes_of o))
      × (find_head ns (or_new ns true hs o).0 ≡ some (routes_of o))
unfolding or_new find_head
or_new-routes ns hs none e = (refl, ground arith)
or_new-routes ns hs (some rs) e = (refl, e)

or_new-others :
    (ns ns' : ℕ) (allocated : Bool) (hs : List Head) (o : Option (List Route))
    → ns ≢ ns'
    → find_head ns' (or_new ns allocated hs o).0 ≡ find_head ns' hs
unfolding or_new find_head
or_new-others ns ns' true hs none d = ground arith
or_new-others ns ns' false hs none d = refl
or_new-others ns ns' allocated hs (some rs) d = refl

add_at-others :
    (ns ns' : ℕ) (allocated : Bool) (r : Route) (x : List Head × Option (List Route))
    → ns ≢ ns'
    → find_head ns' (add_at ns allocated r x).0 ≡ find_head ns' x.0
unfolding add_at
add_at-others ns ns' allocated r (hs, none) d = refl
add_at-others ns ns' allocated r (hs, some rs) d =
    find_head-store_ne ns ns' (add_to allocated r rs).0 hs d

add_at-routes :
    (ns : ℕ) (allocated : Bool) (r : Route) (rs : List Route) (x : List Head × Option (List Route))
    → x.1 ≡ some rs
    → find_head ns x.0 ≡ some rs
    → (find_head ns (add_at ns allocated r x).0 ≡ some (add_to allocated r rs).0)
      × ((add_at ns allocated r x).1 ≡ (add_to allocated r rs).1)
unfolding add_at
add_at-routes ns allocated r rs (hs, none) e f = absurd (cc)
add_at-routes ns allocated r rs (hs, some rs') e f =
    let same : rs' ≡ rs = cc (e) in
    rw same (find_head-store ns rs (add_to allocated r rs).0 hs f, refl)

-- Adding a route to one namespace, with both allocations given or refused, leaves every lookup in
-- another namespace as it was.
pub route6_add-others :
    (ns ns' : Option ℕ) (prefix : Address) (len : ℕ) (gateway : Option Address) (oif : ℕ)
    (head_allocated allocated : Bool) (dst : Address) (hs : List Head)
    → ns_of ns ≢ ns_of ns'
    → route6_lookup ns' dst (route6_add ns prefix len gateway oif head_allocated allocated hs).0
      ≡ route6_lookup ns' dst hs
unfolding route6_add route6_lookup
route6_add-others ns ns' prefix len gateway oif head_allocated allocated dst hs d =
    let n = ns_of ns in
    let k = ns_of ns' in
    let x = or_new n head_allocated hs (find_head n hs) in
    ap (lookup_in dst) (
      add_at-others n k allocated (new_route prefix len gateway oif) x d
      ∙ or_new-others n k head_allocated hs (find_head n hs) d)

lookup_in-routes :
    (dst : Address) (o : Option (List Route)) → lookup_in dst o ≡ first_match dst (routes_of o)
unfolding lookup_in first_match
lookup_in-routes dst none = refl
lookup_in-routes dst (some rs) = refl

routes_of-Falling : (o : Option (List Route)) → Found o → Falling 255 (routes_of o)
routes_of-Falling none f = tt
routes_of-Falling (some rs) f = f

add_to-new :
    (r : Route) (rs : List Route)
    → known r.prefix r.prefix_len rs ≡ false
    → add_to true r rs ≡ (insert_route r rs, true)
unfolding add_to
add_to-new r rs k = rw k refl

-- In lists in falling order, where the allocations succeed and the namespace has no route with this
-- prefix yet, `route6_add` returns 0, and a lookup after it gives the new route where that matches
-- and has a longer prefix than the route found before, and the route found before where not.
pub route6_add_lookup :
    (ns : Option ℕ) (prefix : Address) (len : ℕ) (gateway : Option Address) (oif : ℕ)
    (dst : Address) (hs : List Head)
    → AllFalling hs
    → known prefix len (routes_of (find_head (ns_of ns) hs)) ≡ false
    → let added = route6_add ns prefix len gateway oif true true hs in
      let r = new_route prefix len gateway oif in
      let before = route6_lookup ns dst hs in
      (added.1 ≡ true)
      × (route6_lookup ns dst added.0
          ≡ (if matches dst r && beats r before then some r else before))
unfolding route6_add route6_lookup
route6_add_lookup ns prefix len gateway oif dst hs a k =
    let n = ns_of ns in
    let r = new_route prefix len gateway oif in
    let o = find_head n hs in
    let rs = routes_of o in
    let head = or_new-routes n hs o refl in
    let x = or_new n true hs o in
    let after = add_at-routes n true r rs x head.0 head.1 in
    let new = add_to-new r rs k in
    let falling = routes_of-Falling o (find_head-Found n hs a) in
    (
      after.1 ∙ ap (λ p. p.1) new,
      ap (lookup_in dst) (after.0 ∙ ap (λ p. some p.0) new)
          ∙ (lookup_in-routes dst (some (insert_route r rs))
              ∙ (first_match-insert dst r rs 255 falling
                  ∙ ap (λ b. if matches dst r && beats r b then some r else b)
                      (sym (lookup_in-routes dst o)))),
    )

-- `route6_add` of a prefix of at most 255 bits keeps the list of every namespace in falling order of
-- the prefix lengths, whatever the allocations give.
pub route6_add-AllFalling :
    (ns : Option ℕ) (prefix : Address) (len : ℕ) (gateway : Option Address) (oif : ℕ)
    (head_allocated allocated : Bool) (hs : List Head)
    → len ≤ 255
    → AllFalling hs
    → AllFalling (route6_add ns prefix len gateway oif head_allocated allocated hs).0
unfolding route6_add
route6_add-AllFalling ns prefix len gateway oif head_allocated allocated hs p a =
    let n = ns_of ns in
    let o = find_head n hs in
    added (or_new n head_allocated hs o)
      (or_new-AllFalling o (find_head-Found n hs a) head_allocated)
  where
    or_new-AllFalling :
        (o : Option (List Route))
        → Found o
        → (b : Bool) → let x = or_new (ns_of ns) b hs o in AllFalling x.0 × Found x.1
    or_new-AllFalling (some rs) f b = unfold or_new in (a, f)
    or_new-AllFalling none f true = unfold or_new in ((tt, a), tt)
    or_new-AllFalling none f false = unfold or_new in (a, tt)

    added :
        (x : List Head × Option (List Route))
        → AllFalling x.0 × Found x.1
        → AllFalling (add_at (ns_of ns) allocated (new_route prefix len gateway oif) x).0
    added (ks, none) f = unfold add_at in f.0
    added (ks, some rs) f =
        unfold add_at in
        store-AllFalling (ns_of ns) _ ks
          (add_to-Falling allocated (new_route prefix len gateway oif) rs 255 p f.1) f.0

-- `route6_add` of a prefix that the namespace has already returns 0 and changes nothing.
pub route6_add-known :
    (ns : Option ℕ) (prefix : Address) (len : ℕ) (gateway : Option Address) (oif : ℕ)
    (head_allocated allocated : Bool) (rs : List Route) (hs : List Head)
    → find_head (ns_of ns) hs ≡ some rs
    → known prefix len rs ≡ true
    → route6_add ns prefix len gateway oif head_allocated allocated hs ≡ (hs, true)
unfolding route6_add with_head or_new add_at add_to
route6_add-known ns prefix len gateway oif head_allocated allocated rs hs f k =
    rw (f, k) (ap (λ q. (q, true)) (store_same (ns_of ns) rs hs f))
