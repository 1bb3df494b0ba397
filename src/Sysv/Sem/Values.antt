-- ===== src/Sysv/Sem/Values.antt =====
-- The values of a semaphore set before and after `do_semop` (src/kernel/ipc/sysv_ipc.c).
use mathlib.Core.Path.{subst}
use mathlib.Core.List.{head-eq_of_cons-eq, tail-eq_of_cons-eq}
use cosmo_rt.Common.{
  ℕ, ◌+◌, ◌%◌, ◌^◌, ◌≤◌, ◌<◌, ◌≡◌, ◌≢◌, refl, sym, ap, ◌∙◌, true, false, Option, none, some, List,
  [], ◌∷◌, ◌++◌, ◌==◌, if◌then◌else◌, arith, Bool-cases, ◌⊎◌, inl, inr,
}
use cosmo_rt.Sysv.Sem.{Sembuf, is_negative, add16, below_zero, set_val, try_ops}

abbrev own : (j : ℕ) → Sembuf → ℕ
own j o = if o.sem_num == j then o.sem_op else 0

-- What the operations add to the semaphore `j` in all, up to multiples of 2 ^ 16.
abbrev pub change : (j : ℕ) → List Sembuf → ℕ
change j [] = 0
change j (o ∷ os) = own j o + change j os

-- An operation on a semaphore of the value `v` has to wait: for 0, or for enough to take from.
abbrev pub Blocks : (op v : ℕ) → Type 0
Blocks op v = ((op ≡ 0) × (v ≢ 0)) ⊎ ((2 ^ 15 ≤ op) × ((2 ^ 15 ≤ v) ⊎ (v + op < 2 ^ 16)))

abbrev pub Bounded : (ℕ → ℕ) → Type 0
Bounded f = (j : ℕ) → f j < 2 ^ 16

-- The outcome of the loop over the copy of the values.
pub data Tries (ops : List Sembuf) (tmp : ℕ → ℕ) : Option (ℕ → ℕ) → Type 0 where
  stuck :
      (before after : List Sembuf)
      → (o : Sembuf) → ops ≡ before ++ (o ∷ after)
      → Blocks o.sem_op ((tmp o.sem_num + change o.sem_num before) % 2 ^ 16)
      → Tries ops tmp none
  moved :
      (new : ℕ → ℕ)
      → ((j : ℕ) → new j ≡ (tmp j + change j ops) % 2 ^ 16)
      → ((before after : List Sembuf) (o : Sembuf)
          → ops ≡ before ++ (o ∷ after)
          → Blocks o.sem_op ((tmp o.sem_num + change o.sem_num before) % 2 ^ 16)
          → ⊥)
      → Tries ops tmp (some new)

-- The copy after the first operation leads on to that after all of them.
further :
    (o : Sembuf) (os : List Sembuf) (tmp mid : ℕ → ℕ) {r : Option (ℕ → ℕ)}
    → Bounded tmp
    → ((j : ℕ) → mid j ≡ (tmp j + own j o) % 2 ^ 16)
    → (Blocks o.sem_op (tmp o.sem_num) → ⊥)
    → Tries os mid r
    → Tries (o ∷ os) tmp r
further o os tmp mid l m n (stuck before after p e b) =
    stuck (o ∷ before) after p (ap (λ k. o ∷ k) e)
      (subst (λ k. Blocks p.sem_op k) (shift p.sem_num before) b)
  where
    shift :
        (j : ℕ) (xs : List Sembuf)
        → (mid j + change j xs) % 2 ^ 16 ≡ (tmp j + change j (o ∷ xs)) % 2 ^ 16
    shift j xs = omega (arith, m j)
further o os tmp mid l m n (moved new f g) = moved new (λ j. f j ∙ shift j os) each
  where
    shift :
        (j : ℕ) (xs : List Sembuf)
        → (mid j + change j xs) % 2 ^ 16 ≡ (tmp j + change j (o ∷ xs)) % 2 ^ 16
    shift j xs = omega (arith, m j)

    each :
        (before after : List Sembuf) (p : Sembuf)
        → o ∷ os ≡ before ++ (p ∷ after)
        → Blocks p.sem_op ((tmp p.sem_num + change p.sem_num before) % 2 ^ 16)
        → ⊥
    each [] after p e b =
        let same : o ≡ p = head-eq_of_cons-eq e in
        let start : (tmp p.sem_num + 0) % 2 ^ 16 ≡ tmp p.sem_num = omega (arith, l p.sem_num) in
        n (
          subst (λ k. Blocks k.sem_op (tmp k.sem_num)) (sym same)
            (subst (λ k. Blocks p.sem_op k) start b))
    each (x ∷ xs) after p e b =
        let same : x ≡ o = sym (head-eq_of_cons-eq e) in
        let here : Blocks p.sem_op ((tmp p.sem_num + change p.sem_num (o ∷ xs)) % 2 ^ 16) =
          subst (λ k. Blocks p.sem_op ((tmp p.sem_num + change p.sem_num (k ∷ xs)) % 2 ^ 16)) same
            b in
        g xs after p (tail-eq_of_cons-eq e)
          (subst (λ k. Blocks p.sem_op k) (sym (shift p.sem_num xs)) here)

set_val-change :
    (o : Sembuf) (tmp : ℕ → ℕ) (j : ℕ)
    → Bounded tmp
    → set_val o.sem_num (add16 (tmp o.sem_num) o.sem_op) tmp j ≡ (tmp j + own j o) % 2 ^ 16
set_val-change o tmp j l = elim (Bool-cases (j == o.sem_num)) [
  | inl e ↦
      let same : j ≡ o.sem_num = ground (arith, e) in
      let back : (o.sem_num == j) ≡ true = ground (arith, e) in rw e (rw back (rw same refl))
  | inr e ↦
      let back : (o.sem_num == j) ≡ false = ground (arith, e) in rw e (rw back (omega (arith, l j)))
]

set_val-Bounded :
    (o : Sembuf) (tmp : ℕ → ℕ)
    → Bounded tmp
    → Bounded (set_val o.sem_num (add16 (tmp o.sem_num) o.sem_op) tmp)
set_val-Bounded o tmp l j = omega (arith, set_val-change o tmp j l)

at_start : (op v : ℕ) → v < 2 ^ 16 → Blocks op v → Blocks op ((v + 0) % 2 ^ 16)
at_start op v l b = let same : v ≡ (v + 0) % 2 ^ 16 = omega arith in subst (λ k. Blocks op k) same b

-- The tests of the loop, as what they mean.
module _ (op v : ℕ) where
  zero_waits : (op == 0) ≡ true → (v == 0) ≡ false → Blocks op v
  zero_waits z n = inl (ground (arith, z), ground (arith, n))

  zero_goes : (op == 0) ≡ true → (v == 0) ≡ true → Blocks op v → ⊥
  zero_goes z n (inl (e, m)) = m (ground (arith, n))
  zero_goes z n (inr (p, q)) = ground (arith, z)

  take_waits : is_negative op ≡ true → below_zero v op ≡ true → Blocks op v
  take_waits g b = elim (Bool-cases (is_negative v)) [
    | inl n ↦ inr (ground (arith, g), inl (ground (arith, n)))
    | inr n ↦ inr (ground (arith, g), inr (ground (arith, n, b)))
  ]

  take_goes : (op == 0) ≡ false → below_zero v op ≡ false → Blocks op v → ⊥
  take_goes z n (inl (e, m)) = ground (arith, z)
  take_goes z n (inr (p, inl q)) = ground (arith, n)
  take_goes z n (inr (p, inr q)) = ground (arith, n)

  add_goes : (op == 0) ≡ false → is_negative op ≡ false → Blocks op v → ⊥
  add_goes z g (inl (e, m)) = ground (arith, z)
  add_goes z g (inr (p, q)) = ground (arith, g)

no_operation :
    (tmp : ℕ → ℕ) (before after : List Sembuf) (o : Sembuf) → [] ≡ before ++ (o ∷ after) → ⊥
no_operation tmp [] after o e = cc (e)
no_operation tmp (x ∷ xs) after o e = cc (e)

pub try_ops-Tries :
    (ops : List Sembuf) (tmp : ℕ → ℕ) → Bounded tmp → Tries ops tmp (try_ops ops tmp)
unfolding try_ops
try_ops-Tries [] tmp l = moved tmp (λ j. omega (arith, l j)) (λ x y p e b. no_operation tmp x y p e)
try_ops-Tries (o ∷ os) tmp l =
    let mid = set_val o.sem_num (add16 (tmp o.sem_num) o.sem_op) tmp in
    let goes = try_ops-Tries os mid (set_val-Bounded o tmp l) in
    let stays = try_ops-Tries os tmp l in
    elim (Bool-cases (o.sem_op == 0)) [
      | inl z ↦ elim (Bool-cases (tmp o.sem_num == 0)) [
        | inl v ↦ rw z (
            rw v (
              further o os tmp tmp l (λ j. unmoved z j)
                (λ b. zero_goes o.sem_op (tmp o.sem_num) z v b) stays))
        | inr v ↦ rw z (
            rw v (
              stuck [] os o refl (
                at_start o.sem_op (tmp o.sem_num) (l o.sem_num)
                  (zero_waits o.sem_op (tmp o.sem_num) z v))))
      ]
      | inr z ↦ elim (Bool-cases (is_negative o.sem_op)) [
        | inl g ↦ elim (Bool-cases (below_zero (tmp o.sem_num) o.sem_op)) [
          | inl v ↦ rw z (
              rw g (
                rw v (
                  stuck [] os o refl (
                    at_start o.sem_op (tmp o.sem_num) (l o.sem_num)
                      (take_waits o.sem_op (tmp o.sem_num) g v)))))
          | inr v ↦ rw z (
              rw g (
                rw v (
                  further o os tmp mid l (λ j. set_val-change o tmp j l)
                    (λ b. take_goes o.sem_op (tmp o.sem_num) z v b) goes)))
        ]
        | inr g ↦ rw z (
            rw g (
              further o os tmp mid l (λ j. set_val-change o tmp j l)
                (λ b. add_goes o.sem_op (tmp o.sem_num) z g b) goes))
      ]
    ]
  where
    unmoved : (o.sem_op == 0) ≡ true → (j : ℕ) → tmp j ≡ (tmp j + own j o) % 2 ^ 16
    unmoved z j = ground (arith, z, l j)
