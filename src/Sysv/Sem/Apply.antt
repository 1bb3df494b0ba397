-- ===== src/Sysv/Sem/Apply.antt =====
-- `do_semop` of src/kernel/ipc/sysv_ipc.c as a whole.
use cosmo_rt.Common.{
  ℕ, ◌+◌, ◌%◌, ◌^◌, ◌<◌, ◌≡◌, ◌≢◌, refl, sym, ap, ◌∙◌, Bool, true, false, ◌||◌, not, Option, some,
  List, [], ◌∷◌, ◌++◌, length, Errno, Reply, ok, err, ltb, leb, ◌==◌, if◌then◌else◌, arith,
  Bool-cases, inl, inr,
}
use cosmo_rt.Common.Int.{pos}
use cosmo_rt.Sysv.{Caller}
use cosmo_rt.Sysv.Sem.{Sembuf, Semset, Semsets, set_val, in_range, apply_ops, semop_tried, do_semop}
use cosmo_rt.Sysv.Sem.Values.{change, Blocks, Bounded, Tries, stuck, moved, try_ops-Tries}

-- Whether an operation of the list is on the semaphore `j`.
abbrev pub names : (j : ℕ) → List Sembuf → Bool
names j [] = false
names j (o ∷ os) = if o.sem_num == j then true else names j os

abbrev pub AllBelow : ℕ → List Sembuf → Type 0
AllBelow n [] = Unit
AllBelow n (o ∷ os) = (o.sem_num < n) × AllBelow n os

in_range-AllBelow : (n : ℕ) (ops : List Sembuf) → in_range n ops ≡ true → AllBelow n ops
unfolding in_range
in_range-AllBelow n [] e = tt
in_range-AllBelow n (o ∷ os) e = elim (Bool-cases (leb n o.sem_num)) [
  | inl t ↦ absurd (ground (arith, t))
  | inr f ↦ (ground (arith, f), in_range-AllBelow n os (ground (arith, f)))
]

unnamed_change : (j : ℕ) (ops : List Sembuf) → names j ops ≡ false → change j ops ≡ 0
unnamed_change j [] e = refl
unnamed_change j (o ∷ os) e = elim (Bool-cases (o.sem_num == j)) [
  | inl t ↦ absurd (ground (arith, t))
  | inr f ↦ rw f (omega (arith, unnamed_change j os (ground (arith, f))))
]

-- What `apply_ops` leaves: the copy's values, the caller at the semaphores that are named, and the rest.
record Applied (c : Caller) (tmp : ℕ → ℕ) (ops : List Sembuf) (q r : Semset) : Type 0 where
  pub values : (j : ℕ) → r.vals j ≡ tmp j
  pub by : (j : ℕ) → r.pids j ≡ (if names j ops then c.pid else q.pids j)
  pub same_used : r.used ≡ q.used
  pub same_nsems : r.nsems ≡ q.nsems

apply_ops-Applied :
    (c : Caller) (tmp : ℕ → ℕ) (ops : List Sembuf) (q : Semset)
    → ((j : ℕ) → names j ops ≡ false → tmp j ≡ q.vals j)
    → Applied c tmp ops q (apply_ops c tmp ops q)
unfolding apply_ops
apply_ops-Applied c tmp [] q h = record {
  values = λ j. sym (h j refl);
  by = λ j. refl;
  same_used = refl;
  same_nsems = refl;
}
apply_ops-Applied c tmp (o ∷ os) q h =
    let q' : Semset = record q {
      vals = set_val o.sem_num (tmp o.sem_num) q.vals;
      pids = set_val o.sem_num c.pid q.pids;
    } in
    let r = apply_ops-Applied c tmp os q' step in
    record {
      values = r.values;
      by = λ j. r.by j ∙ whose j;
      same_used = r.same_used;
      same_nsems = r.same_nsems;
    }
  where
    step : (j : ℕ) → names j os ≡ false → tmp j ≡ set_val o.sem_num (tmp o.sem_num) q.vals j
    step j e = elim (Bool-cases (j == o.sem_num)) [
      | inl t ↦ let same : j ≡ o.sem_num = ground (arith, t) in rw t (ap tmp same)
      | inr f ↦ let back : (o.sem_num == j) ≡ false = ground (arith, f) in rw f (h j (rw back e))
    ]

    whose :
        (j : ℕ)
        → (if names j os then c.pid else set_val o.sem_num c.pid q.pids j)
          ≡ (if names j (o ∷ os) then c.pid else q.pids j)
    whose j = elim (Bool-cases (j == o.sem_num)) [
      | inl t ↦
          let back : (o.sem_num == j) ≡ true = ground (arith, t) in rw t (rw back (ground arith))
      | inr f ↦ let back : (o.sem_num == j) ≡ false = ground (arith, f) in rw f (rw back refl)
    ]

-- What `do_semop` does with the operations that it read: an error that changes nothing, EAGAIN only
-- where one of them has to wait at the value that those before it lead to; or each semaphore moves by
-- what the operations on it add up to, and no one of them had to wait.
pub data Semops (c : Caller) (i : ℕ) (ops : List Sembuf) (s : Semsets)
    : Semsets × Reply → Type 0 where
  refused : (e : Errno) → e ≢ Errno.eagain → Semops c i ops s (s, err e)
  waits :
      (before after : List Sembuf)
      → (o : Sembuf) → ops ≡ before ++ (o ∷ after)
      → Blocks o.sem_op (((s i).vals o.sem_num + change o.sem_num before) % 2 ^ 16)
      → Semops c i ops s (s, err Errno.eagain)
  done :
      (r : Semsets)
      → AllBelow (s i).nsems ops
      → ((before after : List Sembuf) (o : Sembuf)
          → ops ≡ before ++ (o ∷ after)
          → Blocks o.sem_op (((s i).vals o.sem_num + change o.sem_num before) % 2 ^ 16)
          → ⊥)
      → ((j : ℕ) → (r i).vals j ≡ ((s i).vals j + change j ops) % 2 ^ 16)
      → ((j : ℕ) → (r i).pids j ≡ (if names j ops then c.pid else (s i).pids j))
      → (r i).used ≡ true
      → (r i).nsems ≡ (s i).nsems
      → ((k : ℕ) → k ≢ i → r k ≡ s k)
      → Semops c i ops s (r, ok 0)

tried-Semops :
    (c : Caller) (i : ℕ) (ops : List Sembuf) (s : Semsets) {o : Option (ℕ → ℕ)}
    → Bounded (s i).vals
    → (s i).used ≡ true
    → AllBelow (s i).nsems ops
    → Tries ops (s i).vals o
    → Semops c i ops s (semop_tried c i ops o s)
tried-Semops c i ops s l u b (stuck before after o e w) = waits before after o e w
tried-Semops c i ops s l u b (moved tmp f g) =
    let unnamed = λ (j : ℕ) (n : names j ops ≡ false).
      let none_ = unnamed_change j ops n in
      let got : tmp j ≡ (s i).vals j = omega (arith, f j, none_, l j) in got in
    let a = apply_ops-Applied c tmp ops (s i) unnamed in
    let here : (i == i) ≡ true = ground arith in
    done (semop_tried c i ops (some tmp) s).0 b g (λ j. rw here (a.values j ∙ f j))
      (λ j. rw here (a.by j)) (rw here (a.same_used ∙ u)) (rw here a.same_nsems) (λ k n. other k n)
  where
    other : (k : ℕ) → k ≢ i → (semop_tried c i ops (some tmp) s).0 k ≡ s k
    other k n = let test : (k == i) ≡ false = ground arith in rw test refl

if-Semops :
    (b : Bool) {c : Caller} {i : ℕ} {ops : List Sembuf} {s : Semsets} {x y : Semsets × Reply}
    → (b ≡ true → Semops c i ops s x)
    → (b ≡ false → Semops c i ops s y)
    → Semops c i ops s (if b then x else y)
if-Semops true p q = p refl
if-Semops false p q = q refl

-- `do_semop` on a set whose values are 16 bits wide does all of the operations or none of them. It
-- returns EAGAIN only where an operation has to wait at the value that those before it lead to, and
-- after any error nothing has changed; where it returns 0 no operation had to wait, all name
-- semaphores of the set, each value has moved by what the operations on it add up to, modulo 2 ^ 16,
-- the caller is noted at just the semaphores that are named, and the other sets are as they were.
pub do_semop-Semops :
    (c : Caller) (i : ℕ) (ops : List Sembuf) (s : Semsets)
    → Bounded (s i).vals
    → Semops c i ops s (do_semop c (pos i) (length ops) (some ops) s)
unfolding do_semop
do_semop-Semops c i ops s l =
    if-Semops (leb 32 i || ((length ops == 0) || ltb 32 (length ops)))
      (λ e. refused Errno.einval (λ z. cc (z)))
      (λ e.
        if-Semops (not (s i).used) (λ u. refused Errno.einval (λ z. cc (z)))
          (λ u.
            if-Semops (not (in_range (s i).nsems ops)) (λ n. refused Errno.efbig (λ z. cc (z)))
              (λ n.
                tried-Semops c i ops s l (ground (arith, u))
                  (in_range-AllBelow (s i).nsems ops (ground (arith, n)))
                  (try_ops-Tries ops (s i).vals l))))
