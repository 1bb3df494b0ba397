-- ===== src/Inotify/Watch/Named.antt =====
-- Under which name a watch on a path hears of an event on another (src/kernel/event/inotify.c), told by
-- where the last slash of the path stands.
use mathlib.Core.Path.{subst}
use native.Mathlib.Decide.{ℕ_discrete}
use mathlib.Core.List.{head-eq_of_cons-eq, tail-eq_of_cons-eq}
use cosmo_rt.Common.{
  ℕ, ◌≡◌, ◌≢◌, refl, sym, ap, ap₂, ◌∙◌, Bool, true, false, Option, none, some, List, [], ◌∷◌, ◌++◌,
  ◌==◌, if◌then◌else◌, arith, Bool-cases, inl, inr,
}
use cosmo_rt.Inotify.Watch.{ino_streq, normalized, is_direct_child}
use cosmo_rt.Inotify.Watch.Path.{NoSlash, is_direct_child_iff}
use cosmo_rt.Inotify.Watch.Table.{ino_streq_sound, ino_streq_refl}

-- What stands before the last slash and behind it.
abbrev pub put_before : ℕ → Option (List ℕ × List ℕ) → (later : List ℕ) → Option (List ℕ × List ℕ)
put_before c (some (d, n)) cs = some (c ∷ d, n)
put_before c none cs = if c == 47 then some ([], cs) else none

abbrev pub last_split : List ℕ → Option (List ℕ × List ℕ)
last_split [] = none
last_split (c ∷ cs) = put_before c (last_split cs) cs

no_split : (n : List ℕ) → NoSlash n → last_split n ≡ none
no_split [] h = refl
no_split (c ∷ cs) h =
    let other : (c == 47) ≡ false = ne c h.0 in
    ap (λ o. put_before c o cs) (no_split cs h.1)
    ∙ ap (λ b. if b then some ([], cs) else none) other
  where
    ne : (k : ℕ) → k ≢ 47 → (k == 47) ≡ false
    ne k q = ground arith

last_split-append : (d n : List ℕ) → NoSlash n → last_split (d ++ (47 ∷ n)) ≡ some (d, n)
last_split-append [] n h = ap (λ o. put_before 47 o n) (no_split n h)
last_split-append (c ∷ cs) n h =
    ap (λ o. put_before c o (cs ++ (47 ∷ n))) (last_split-append cs n h)

-- The two sides of the split make up the path.
data Splits (p : List ℕ) : Option (List ℕ × List ℕ) → Type 0 where
  whole : NoSlash p → Splits p none
  split : (d n : List ℕ) → p ≡ d ++ (47 ∷ n) → NoSlash n → Splits p (some (d, n))

last_split-Splits : (p : List ℕ) → Splits p (last_split p)
last_split-Splits [] = whole tt
last_split-Splits (c ∷ cs) = before (last_split-Splits cs)
  where
    at :
        (b : Bool)
        → (c == 47) ≡ b
        → NoSlash cs
        → Splits (c ∷ cs) (if b then some ([], cs) else none)
    at true e h = split [] cs (ap (λ k. k ∷ cs) (ground (arith, e))) h
    at false e h = whole (ground (arith, e), h)

    before : {o : Option (List ℕ × List ℕ)} → Splits cs o → Splits (c ∷ cs) (put_before c o cs)
    before (whole h) = at (c == 47) refl h
    before (split d n e h) = split (c ∷ d) n (ap (λ k. c ∷ k) e) h

abbrev pub both_dec :
    {x y : ℕ} {xs ys : List ℕ} → Dec (x ≡ y) → Dec (xs ≡ ys) → Dec (x ∷ xs ≡ y ∷ ys)
both_dec (yes p) (yes q) = yes (ap₂ (λ k ks. k ∷ ks) p q)
both_dec (yes p) (no n) = no (λ e. n (tail-eq_of_cons-eq e))
both_dec (no n) q = no (λ e. n (head-eq_of_cons-eq e))

unfoldable pub path_dec : (xs ys : List ℕ) → Dec (xs ≡ ys)
unfolding ℕ_discrete
path_dec [] [] = yes refl
path_dec [] (y ∷ ys) = no (λ e. cc (e))
path_dec (x ∷ xs) [] = no (λ e. cc (e))
path_dec (x ∷ xs) (y ∷ ys) = both_dec (ℕ_discrete x y) (path_dec xs ys)

-- A child's name stands behind the last slash, and is not empty.
abbrev pub child_in : (dir : List ℕ) → Option (List ℕ × List ℕ) → Option (List ℕ)
child_in dir none = none
child_in dir (some (d, [])) = none
child_in dir (some (d, c ∷ cs)) = elim (path_dec d dir) [ yes e ↦ some (c ∷ cs) | no n ↦ none ]

abbrev pub name_in : (dir path : List ℕ) → Option (List ℕ)
name_in dir path = elim (path_dec dir path) [
  | yes e ↦ some []
  | no n ↦ child_in (normalized dir) (last_split path)
]

-- Two options are equal where each of them has what the other has.
same_option :
    (o u : Option (List ℕ))
    → ((n : List ℕ) → o ≡ some n → u ≡ some n)
    → ((n : List ℕ) → u ≡ some n → o ≡ some n)
    → o ≡ u
same_option none none f g = refl
same_option none (some n) f g = g n refl
same_option (some n) u f g = sym (f n refl)

child_in_sound :
    (dir path name : List ℕ) {o : Option (List ℕ × List ℕ)}
    → Splits path o
    → child_in dir o ≡ some name
    → (path ≡ dir ++ (47 ∷ name)) × (name ≢ []) × NoSlash name
child_in_sound dir path name (whole h) e = absurd (cc (e))
child_in_sound dir path name (split d [] s h) e = absurd (cc (e))
child_in_sound dir path name (split d (c ∷ cs) s h) e = at (path_dec d dir) e
  where
    at :
        (k : Dec (d ≡ dir))
        → (elim k [ yes z ↦ some (c ∷ cs) | no n ↦ none ]) ≡ some name
        → (path ≡ dir ++ (47 ∷ name)) × (name ≢ []) × NoSlash name
    at (yes z) r =
        let same : c ∷ cs ≡ name = cc (r) in
        (s ∙ ap₂ (λ x y. x ++ (47 ∷ y)) z same, (λ q. cc (same, q)), subst NoSlash same h)
    at (no n) r = absurd (cc (r))

child_in_complete : (dir name : List ℕ) → name ≢ [] → child_in dir (some (dir, name)) ≡ some name
child_in_complete dir [] n = absurd (n refl)
child_in_complete dir (c ∷ cs) n = at (path_dec dir dir)
  where
    at : (k : Dec (dir ≡ dir)) → (elim k [ yes z ↦ some (c ∷ cs) | no n ↦ none ]) ≡ some (c ∷ cs)
    at (yes z) = refl
    at (no d) = absurd (d refl)

child_lem :
    (dir path : List ℕ) → is_direct_child dir path ≡ child_in (normalized dir) (last_split path)
child_lem dir path =
    same_option (is_direct_child dir path) (child_in (normalized dir) (last_split path))
      (λ name e.
        let p = (is_direct_child_iff dir path name).0 e in
        ap (child_in (normalized dir))
          (ap last_split p.0 ∙ last_split-append (normalized dir) name p.2)
        ∙ child_in_complete (normalized dir) name p.1)
      (λ name e.
        (is_direct_child_iff dir path name).1
          (child_in_sound (normalized dir) path name (last_split-Splits path) e))

pub name_in_lem :
    (dir path : List ℕ)
    → (if ino_streq dir path then some [] else is_direct_child dir path) ≡ name_in dir path
name_in_lem dir path = at (path_dec dir path)
  where
    at :
        (k : Dec (dir ≡ path))
        → (if ino_streq dir path then some [] else is_direct_child dir path)
          ≡ (elim k [ yes e ↦ some [] | no n ↦ child_in (normalized dir) (last_split path) ])
    at (yes e) =
        ap (λ b. if b then some [] else is_direct_child dir path)
          (subst (λ z. ino_streq dir z ≡ true) e (ino_streq_refl dir))
    at (no n) = elim (Bool-cases (ino_streq dir path)) [
      | inl t ↦ absurd (n (ino_streq_sound dir path t))
      | inr f ↦ ap (λ b. if b then some [] else is_direct_child dir path) f ∙ child_lem dir path
    ]
