-- ===== src/Sysv/Sem/Holders.antt =====
-- A semaphore as a lock with places: callers that take one place each and give it back
-- (`do_semop` of src/kernel/ipc/sysv_ipc.c).
use cosmo_rt.Common.{
  ℕ, ◌+◌, ◌-◌, ◌%◌, ◌^◌, ◌≤◌, ◌<◌, ◌≡◌, refl, some, List, [], ◌∷◌, Reply, ok, err, ◌==◌,
  if◌then◌else◌, arith, Bool-cases, inl, inr,
}
use cosmo_rt.Common.Int.{pos}
use cosmo_rt.Sysv.{Caller}
use cosmo_rt.Sysv.Sem.{Sembuf, Semsets, do_semop}
use cosmo_rt.Sysv.Sem.Values.{Blocks, Bounded}
use cosmo_rt.Sysv.Sem.Apply.{Semops, refused, waits, done, do_semop-Semops}

-- A call of `do_semop` with the operation -1, or with +1 by one who holds a place.
pub data Call : Type 0 where
  acquire release : (caller : Caller) → Call

abbrev pub take_one : (j : ℕ) → List Sembuf
take_one j = record { sem_num = j; sem_op = 2 ^ 16 - 1 } ∷ []

abbrev pub give_one : (j : ℕ) → List Sembuf
give_one j = record { sem_num = j; sem_op = 1 } ∷ []

abbrev pub if_ok : Semsets × Reply → (then_ else_ : ℕ) → Semsets × ℕ
if_ok (s, ok n) then_ else_ = (s, then_)
if_ok (s, err e) then_ else_ = (s, else_)

-- The sets, and how many hold a place of the semaphore `j` of the set `i`.
unfoldable pub step : (i j : ℕ) → Call → Semsets × ℕ → Semsets × ℕ
step i j (acquire c) (s, held) = if_ok (do_semop c (pos i) 1 (some (take_one j)) s) (held + 1) held
step i j (release c) (s, held) =
    if held == 0
    then (s, held)
    else if_ok (do_semop c (pos i) 1 (some (give_one j)) s) (held - 1) held

unfoldable pub run : (i j : ℕ) → List Call → Semsets × ℕ → Semsets × ℕ
run i j [] st = st
run i j (c ∷ cs) st = run i j cs (step i j c st)

-- The value and the places that are held add up to `places`.
pub record IsShared (i j places : ℕ) (st : Semsets × ℕ) : Type 0 where
  pub sum : (st.0 i).vals j + st.1 ≡ places
  pub wide : Bounded (st.0 i).vals

after-IsShared :
    (c : Caller) (i j places held next delta : ℕ) (s : Semsets) {r : Semsets × Reply}
    → let ops : List Sembuf = record { sem_num = j; sem_op = delta } ∷ [] in
      IsShared i j places (s, held)
      → ((Blocks delta ((s i).vals j) → ⊥) → ((s i).vals j + delta) % 2 ^ 16 + next ≡ places)
      → Semops c i ops s r
      → IsShared i j places (if_ok r next held)
after-IsShared c i j places held next delta s h f (refused e n) = h
after-IsShared c i j places held next delta s h f (waits before after o e b) = h
after-IsShared c i j places held next delta s h f (done r below free values by u n others) =
    let whole : (if j == j then delta else 0) ≡ delta = ground arith in
    record {
      sum = omega (
        arith,
        values j,
        whole,
        f (λ b. free [] [] (record { sem_num = j; sem_op = delta }) refl (start b)),
      );
      wide = λ k. omega (arith, values k);
    }
  where
    start : Blocks delta ((s i).vals j) → Blocks delta (((s i).vals j + 0) % 2 ^ 16)
    start b =
        let same : (s i).vals j ≡ ((s i).vals j + 0) % 2 ^ 16 = omega (arith, h.wide j) in
        rw (← same) b

step-IsShared :
    (i j places : ℕ) (c : Call) (st : Semsets × ℕ)
    → places < 2 ^ 15
    → IsShared i j places st
    → IsShared i j places (step i j c st)
unfolding step
step-IsShared i j places (acquire c) (s, held) p h =
    after-IsShared c i j places held (held + 1) (2 ^ 16 - 1) s h (λ n. taken ((s i).vals j) n h.sum)
      (do_semop-Semops c i (take_one j) s h.wide)
  where
    taken :
        (v : ℕ)
        → (Blocks (2 ^ 16 - 1) v → ⊥)
        → v + held ≡ places
        → (v + (2 ^ 16 - 1)) % 2 ^ 16 + (held + 1) ≡ places
    taken v n e = elim (Bool-cases (v == 0)) [
      | inl z ↦ absurd (n (inr (omega arith, inr (ground (arith, z)))))
      | inr z ↦ let some_ : 0 < v = ground (arith, z) in omega arith
    ]
step-IsShared i j places (release c) (s, held) p h = elim (Bool-cases (held == 0)) [
  | inl z ↦ rw z h
  | inr z ↦ rw z (
      after-IsShared c i j places held (held - 1) 1 s h
        (λ n. let some_ : 0 < held = ground (arith, z) in omega (arith, h.sum))
        (do_semop-Semops c i (give_one j) s h.wide))
]

each_step-IsShared :
    (i j places : ℕ) (cs : List Call) (st : Semsets × ℕ)
    → places < 2 ^ 15
    → IsShared i j places st
    → IsShared i j places (run i j cs st)
unfolding run
each_step-IsShared i j places [] st p h = h
each_step-IsShared i j places (c ∷ cs) st p h =
    each_step-IsShared i j places cs (step i j c st) p (step-IsShared i j places c st p h)

-- From a semaphore of the value `places`, below 2 ^ 15, that nobody holds, whatever calls take and give
-- back places of it: its value and the places that are held add up to `places`, so that never more than
-- that are held.
pub run-IsShared :
    (i j places : ℕ) (cs : List Call) (s : Semsets)
    → places < 2 ^ 15
    → (s i).vals j ≡ places
    → Bounded (s i).vals
    → let r = run i j cs (s, 0) in ((r.0 i).vals j + r.1 ≡ places) × (r.1 ≤ places)
run-IsShared i j places cs s p e l =
    let h =
      each_step-IsShared i j places cs (s, 0) p (record { sum = omega (arith, e); wide = l }) in
    (h.sum, omega (arith, h.sum))
