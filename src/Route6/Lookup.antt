-- ===== src/Route6/Lookup.antt =====
-- Longest-prefix lookup (`route6_lookup` in src/kernel/net/route6.c).
use cosmo_rt.Common.{
  ℕ, ◌≤◌, ◌<◌, ◌≡◌, refl, sym, ap, Bool, true, false, Option, none, some, List, [], ◌∷◌, leb, ltb,
  ◌&&◌, if◌then◌else◌, arith, Bool-cases, ◌⊎◌, inl, inr,
}
use cosmo_rt.Route6.{Address, Route, first_match, matches, insert_route}
use cosmo_rt.Route6.Order.{Falling}

-- A route of the list.
abbrev pub In : Route → List Route → Type 0
In r [] = ⊥
In r (e ∷ es) = (e ≡ r) ⊎ In r es

In-bound :
    (r : Route) (es : List Route) (bound : ℕ) → Falling bound es → In r es → r.prefix_len ≤ bound
In-bound r [] bound f i = elim i [ ]
In-bound r (e ∷ es) bound f (inl q) = rw (sym q) f.0
In-bound r (e ∷ es) bound f (inr i) =
    let p = In-bound r es e.prefix_len f.1 i in omega (arith, p, f.0)

-- What a lookup promises of its result.
pub data Best (dst : Address) (es : List Route) : Option Route → Type 0 where
  found :
      (r : Route)
      → In r es
      → matches dst r ≡ true
      → ((e : Route) → In e es → matches dst e ≡ true → e.prefix_len ≤ r.prefix_len)
      → Best dst es (some r)
  missing : ((e : Route) → In e es → matches dst e ≡ false) → Best dst es none

pub first_match-Best :
    (dst : Address) (es : List Route) (bound : ℕ)
    → Falling bound es
    → Best dst es (first_match dst es)
unfolding first_match
first_match-Best dst [] bound f = missing (λ e i. elim i [ ])
first_match-Best dst (e ∷ es) bound f = elim (Bool-cases (matches dst e)) [
  | inl m ↦ rw m (
      found e (inl refl) m (λ e' i m'. elim i [
        | inl q ↦ rw q (ground arith)
        | inr j ↦ In-bound e' es e.prefix_len f.1 j
      ]))
  | inr m ↦ rw m (past e es m (first_match-Best dst es e.prefix_len f.1))
]
  where
    past :
        (e : Route) (es : List Route) {o : Option Route}
        → matches dst e ≡ false
        → Best dst es o
        → Best dst (e ∷ es) o
    past e es m (found r i x best) = found r (inr i) x (λ e' j m'. elim j [
      | inl q ↦ absurd (cc (m, m', ap (matches dst) q))
      | inr k ↦ best e' k m'
    ])
    past e es m (missing none_) =
        missing (λ e' j. elim j [ inl q ↦ rw (sym q) m | inr k ↦ none_ e' k ])

-- Whether the route beats what a lookup gave.
abbrev pub beats : Route → Option Route → Bool
beats r none = true
beats r (some e) = ltb e.prefix_len r.prefix_len

-- A route with a longer prefix than the bound beats every lookup.
beats-Falling :
    (dst : Address) (r : Route) (es : List Route) (bound : ℕ)
    → Falling bound es
    → bound < r.prefix_len
    → beats r (first_match dst es) ≡ true
unfolding first_match
beats-Falling dst r [] bound f p = refl
beats-Falling dst r (e ∷ es) bound f p = elim (Bool-cases (matches dst e)) [
  | inl m ↦ rw m (ground (arith, f.0))
  | inr m ↦ rw m (beats-Falling dst r es e.prefix_len f.1 (omega (arith, f.0)))
]

-- In a list in falling order, the lookup after an insertion gives the new route where it matches and
-- its prefix is longer than that of the route found before, and the route found before where not.
pub first_match-insert :
    (dst : Address) (r : Route) (es : List Route) (bound : ℕ)
    → Falling bound es
    → first_match dst (insert_route r es)
      ≡ (if matches dst r && beats r (first_match dst es) then some r else first_match dst es)
unfolding first_match insert_route
first_match-insert dst r [] bound f = ground arith
first_match-insert dst r (e ∷ es) bound f = elim (Bool-cases (leb r.prefix_len e.prefix_len)) [
  | inl l ↦ elim (Bool-cases (matches dst e)) [
    | inl m ↦ rw (l, m) (stays l)
    | inr m ↦ rw (l, m) (first_match-insert dst r es e.prefix_len f.1)
  ]
  | inr l ↦ elim (Bool-cases (matches dst e)) [
    | inl m ↦ rw (l, m) (goes l)
    | inr m ↦ rw (l, m, beats-Falling dst r es e.prefix_len f.1 (ground arith)) drop_true
  ]
]
  where
    stays :
        leb r.prefix_len e.prefix_len ≡ true
        → some e ≡ (if matches dst r && ltb e.prefix_len r.prefix_len then some r else some e)
    stays l = elim (Bool-cases (matches dst r)) [ inl m ↦ rw m (ground arith) | inr m ↦ rw m refl ]

    goes :
        leb r.prefix_len e.prefix_len ≡ false
        → (if matches dst r then some r else some e)
          ≡ (if matches dst r && ltb e.prefix_len r.prefix_len then some r else some e)
    goes l = elim (Bool-cases (matches dst r)) [ inl m ↦ rw m (ground arith) | inr m ↦ rw m refl ]

    drop_true :
        (if matches dst r then some r else first_match dst es)
        ≡ (if matches dst r && true then some r else first_match dst es)
    drop_true = elim (Bool-cases (matches dst r)) [ inl m ↦ rw m refl | inr m ↦ rw m refl ]
