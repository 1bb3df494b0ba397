-- ===== src/Sysv/Table.antt =====
-- The search of the tables of src/kernel/ipc/sysv_ipc.c for a key.
use cosmo_rt.Common.{
  ℕ, zero, suc, ◌+◌, ◌≤◌, ◌<◌, ◌≡◌, ◌≢◌, Bool, true, false, ◌&&◌, not, Option, none, some, Errno,
  ◌==◌, arith, Bool-cases, inl, inr,
}
use cosmo_rt.Sysv.{
  ipc_creat, ipc_excl, has_flag, first_from, Lookup, present, refused, vacant, unused_place,
  place_for, lookup,
}

-- The outcome of a search from `lo` to below `hi`.
pub data First (lo hi : ℕ) (test : ℕ → Bool) : Option ℕ → Type 0 where
  nowhere : ((i : ℕ) → lo ≤ i → i < hi → test i ≡ false) → First lo hi test none
  first :
      (i : ℕ)
      → lo ≤ i
      → i < hi
      → test i ≡ true
      → ((j : ℕ) → lo ≤ j → j < i → test j ≡ false)
      → First lo hi test (some i)

pub first_from-First : (n i : ℕ) (test : ℕ → Bool) → First i (i + n) test (first_from n i test)
unfolding first_from
first_from-First zero i test = nowhere (λ j p q. absurd (omega arith))
first_from-First (suc n) i test = elim (Bool-cases (test i)) [
  | inl t ↦ rw t (first i (omega arith) (omega arith) t (λ j p q. absurd (omega arith)))
  | inr f ↦ rw f (widen f (first_from-First n (i + 1) test))
]
  where
    widen :
        test i ≡ false
        → {o : Option ℕ} → First (i + 1) (i + 1 + n) test o
        → First i (i + suc n) test o
    widen f (nowhere h) = nowhere (λ j p q. elim (Bool-cases (j == i)) [
      | inl e ↦ let same : j ≡ i = ground arith in rw same f
      | inr e ↦ h j (ground (arith, e)) (omega arith)
    ])
    widen f (first k p q t h) = first k (omega arith) (omega arith) t (λ j r s.
        elim (Bool-cases (j == i)) [
          | inl e ↦ let same : j ≡ i = ground arith in rw same f
          | inr e ↦ h j (ground (arith, e)) s
        ])

abbrev pub Unheld : (key : ℕ) (used : ℕ → Bool) (keys : ℕ → ℕ) → Type 0
Unheld key used keys = (i : ℕ) → i < 32 → used i ≡ true → keys i ≢ key

-- What a search for a key means: an object that is used and holds the key, unless both flags ask for
-- a new one; an error; or the first unused place, for a key that no used object holds.
pub data Looks (key flags : ℕ) (used : ℕ → Bool) (keys : ℕ → ℕ) : Lookup → Type 0 where
  holds :
      (i : ℕ)
      → i < 32
      → used i ≡ true
      → keys i ≡ key
      → key ≢ 0
      → (has_flag flags ipc_creat && has_flag flags ipc_excl) ≡ false
      → Looks key flags used keys (present i)
  exclusive :
      (i : ℕ)
      → i < 32
      → used i ≡ true
      → keys i ≡ key
      → key ≢ 0
      → (has_flag flags ipc_creat && has_flag flags ipc_excl) ≡ true
      → Looks key flags used keys (refused Errno.eexist)
  missing :
      key ≢ 0
      → has_flag flags ipc_creat ≡ false
      → Unheld key used keys
      → Looks key flags used keys (refused Errno.enoent)
  full : ((i : ℕ) → i < 32 → used i ≡ true) → Looks key flags used keys (refused Errno.enospc)
  fresh :
      (i : ℕ)
      → i < 32
      → used i ≡ false
      → ((j : ℕ) → j < i → used j ≡ true)
      → (key ≢ 0 → Unheld key used keys)
      → (key ≢ 0 → has_flag flags ipc_creat ≡ true)
      → Looks key flags used keys (vacant i)

module _ (key flags : ℕ) (used : ℕ → Bool) (keys : ℕ → ℕ) where
  unused-Looks :
      (key ≢ 0 → Unheld key used keys)
      → (key ≢ 0 → has_flag flags ipc_creat ≡ true)
      → {o : Option ℕ} → First 0 32 (λ i. not (used i)) o
      → Looks key flags used keys (unused_place o)
  unused-Looks u c (nowhere h) = full (λ i p. ground (arith, h i (omega arith) p))
  unused-Looks u c (first i p q t h) =
      fresh i q (ground (arith, t)) (λ j r. ground (arith, h j (omega arith) r)) u c

  private_place :
      {o : Option ℕ}
      → First 0 32 (λ i. not (used i)) o
      → key ≡ 0
      → Looks key flags used keys (place_for key flags o none)
  private_place f e =
      let zero_ : (key == 0) ≡ true = ground arith in
      elim (Bool-cases (has_flag flags ipc_creat)) [
        | inl t ↦ rw t ((unused-Looks (λ n. absurd (n e)) (λ n. absurd (n e)) f))
        | inr t ↦ rw t (rw zero_ (unused-Looks (λ n. absurd (n e)) (λ n. absurd (n e)) f))
      ]

  keyed_place :
      {o r : Option ℕ}
      → First 0 32 (λ i. not (used i)) o
      → First 0 32 (λ i. used i && (keys i == key)) r
      → key ≢ 0
      → Looks key flags used keys (place_for key flags o r)
  keyed_place f (nowhere h) n =
      let keyed : (key == 0) ≡ false = ground arith in
      let unheld : Unheld key used keys = λ i p u e. clash i u e (h i (omega arith) p) in
      elim (Bool-cases (has_flag flags ipc_creat)) [
        | inl t ↦ rw t (unused-Looks (λ m. unheld) (λ m. t) f)
        | inr t ↦ rw t (rw keyed (missing n t unheld))
      ]
    where
      clash : (i : ℕ) → used i ≡ true → keys i ≡ key → (used i && (keys i == key)) ≡ false → ⊥
      clash i u e h = ground arith
  keyed_place f (first i p q t h) n =
      elim (Bool-cases (has_flag flags ipc_creat && has_flag flags ipc_excl)) [
        | inl b ↦ rw b (exclusive i q (ground (arith, t)) (ground (arith, t)) n b)
        | inr b ↦ rw b (holds i q (ground (arith, t)) (ground (arith, t)) n b)
      ]

  pub lookup-Looks : Looks key flags used keys (lookup key flags used keys)
  unfolding lookup
  lookup-Looks =
      let free = first_from-First 32 0 (λ i. not (used i)) in
      let found = first_from-First 32 0 (λ i. used i && (keys i == key)) in
      elim (Bool-cases (key == 0)) [
        | inl e ↦ rw e (private_place free (ground (arith, e)))
        | inr e ↦ rw e (keyed_place free found (ground (arith, e)))
      ]
