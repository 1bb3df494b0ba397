-- ===== src/Inotify/Watch/Path.antt =====
-- Which paths are children of a directory (src/kernel/event/inotify.c).
use cosmo_rt.Common.{
  ℕ, ◌≡◌, ◌≢◌, refl, ap, ap₂, ◌∙◌, true, false, Option, none, some, List, [], ◌∷◌, ◌++◌, ◌==◌,
  arith, Bool-cases, inl, inr, ◌↔◌,
}
use cosmo_rt.Inotify.Watch.{normalized, after_prefix, has_slash, base_name, is_direct_child}

-- A name within a directory: some characters, none of them a slash.
abbrev pub NoSlash : List ℕ → Type 0
NoSlash [] = Unit
NoSlash (c ∷ cs) = (c ≢ 47) × NoSlash cs

has_slash-NoSlash : (xs : List ℕ) → has_slash xs ≡ false → NoSlash xs
unfolding has_slash
has_slash-NoSlash [] e = tt
has_slash-NoSlash (c ∷ cs) e = elim (Bool-cases (c == 47)) [
  | inl t ↦ absurd (ground (arith, t))
  | inr f ↦ (ground (arith, f), has_slash-NoSlash cs (ground (arith, f)))
]

NoSlash-has_slash : (xs : List ℕ) → NoSlash xs → has_slash xs ≡ false
unfolding has_slash
NoSlash-has_slash [] n = refl
NoSlash-has_slash (c ∷ cs) n =
    let rest = NoSlash-has_slash cs n.1 in let here : (c == 47) ≡ false = ne c n.0 in rw here rest
  where
    ne : (k : ℕ) → k ≢ 47 → (k == 47) ≡ false
    ne k q = ground arith

after_prefix_sound : (p x y : List ℕ) → after_prefix p x ≡ some y → x ≡ p ++ y
unfolding after_prefix
after_prefix_sound [] x y e = cc (e)
after_prefix_sound (c ∷ cs) [] y e = absurd (cc (e))
after_prefix_sound (c ∷ cs) (d ∷ ds) y e = elim (Bool-cases (c == d)) [
  | inl t ↦
      let same : d ≡ c = ground (arith, t) in
      ap₂ (λ k ks. k ∷ ks) same (after_prefix_sound cs ds y (ground (arith, t)))
  | inr f ↦ absurd (ground (arith, f))
]

after_prefix_complete : (p y : List ℕ) → after_prefix p (p ++ y) ≡ some y
unfolding after_prefix
after_prefix_complete [] y = refl
after_prefix_complete (c ∷ cs) y =
    let here : (c == c) ≡ true = ground arith in rw here (after_prefix_complete cs y)

base_name_sound :
    (o : Option (List ℕ)) (name : List ℕ)
    → base_name o ≡ some name
    → (o ≡ some (47 ∷ name)) × (name ≢ []) × (has_slash name ≡ false)
base_name_sound none name e = absurd (cc (e))
base_name_sound (some []) name e = absurd (cc (e))
base_name_sound (some (c ∷ [])) name e = absurd (cc (e))
base_name_sound (some (c ∷ d ∷ ds)) name e = elim (Bool-cases (c == 47)) [
  | inl t ↦ elim (Bool-cases (has_slash (d ∷ ds))) [
    | inl s ↦ absurd (ground (arith, t, s))
    | inr n ↦
        let same : d ∷ ds ≡ name = ground (arith, t, n) in
        let first : c ≡ 47 = ground (arith, t) in rw (← same) (rw first (refl, (λ z. cc (z)), n))
  ]
  | inr f ↦ absurd (ground (arith, f))
]

base_name_complete :
    (name : List ℕ) → name ≢ [] → has_slash name ≡ false → base_name (some (47 ∷ name)) ≡ some name
base_name_complete [] n h = absurd (n refl)
base_name_complete (d ∷ ds) n h = rw h refl

-- `is_direct_child` gives a name exactly where the path is the directory, without slashes at its end
-- but for its first character, then a slash and the name, which is not empty and has no slash.
pub is_direct_child_iff :
    (dir child name : List ℕ)
    → (is_direct_child dir child ≡ some name)
      ↔ ((child ≡ normalized dir ++ (47 ∷ name)) × (name ≢ []) × NoSlash name)
unfolding is_direct_child
is_direct_child_iff dir child name = (sound, complete)
  where
    sound :
        is_direct_child dir child ≡ some name
        → (child ≡ normalized dir ++ (47 ∷ name)) × (name ≢ []) × NoSlash name
    sound e =
        let b = base_name_sound (after_prefix (normalized dir) child) name e in
        (after_prefix_sound (normalized dir) child (47 ∷ name) b.0, b.1, has_slash-NoSlash name b.2)

    complete :
        (child ≡ normalized dir ++ (47 ∷ name)) × (name ≢ []) × NoSlash name
        → is_direct_child dir child ≡ some name
    complete p =
        ap (λ k. base_name (after_prefix (normalized dir) k)) p.0
        ∙ ap base_name (after_prefix_complete (normalized dir) (47 ∷ name))
        ∙ base_name_complete name p.1 (NoSlash-has_slash name p.2)
