-- ===== src/Ipc/Table.antt =====
-- The endpoint table as a whole (src/kernel/ipc/ipc.c): creation, and what an operation on one
-- endpoint does to the others.
use cosmo_rt.Common.{
  ℕ, zero, suc, ◌+◌, ◌≤◌, ◌<◌, ◌≡◌, ◌≢◌, Bool, true, false, Option, none, some, arith, ◌⊎◌, inl,
  inr, Bool-cases,
}
use cosmo_rt.Ipc.{
  Message, Ipc, max_endpoints, put, owned, is_free, send_at, try_recv_at, notify_at, create_from,
  create,
}

-- Sending to, receiving from and notifying an endpoint leave every other endpoint alone.
pub others_unchanged :
    (is_blocked : ℕ → Bool) (current : Option ℕ) (i j : ℕ) (msg : Message) (bits : ℕ) (m : Ipc)
    → i ≢ j
    → ((send_at is_blocked current i msg m).0.endpoints j ≡ m.endpoints j)
      × ((try_recv_at i m).0.endpoints j ≡ m.endpoints j)
      × ((notify_at is_blocked i bits m).0.endpoints j ≡ m.endpoints j)
unfolding send_at try_recv_at notify_at
others_unchanged is_blocked current i j msg bits m h = (ground arith, ground arith, ground arith)

-- What `ipc_create_endpoint` returns: the lowest free endpoint, now idle and owned, the others
-- unchanged; or -1 where none of the endpoints looked at is free, the table unchanged.
pub data Creates (lo hi pid : ℕ) (m : Ipc) : Ipc × Option ℕ → Type 0 where
  at_lowest :
      (i : ℕ)
      → lo ≤ i
      → i < hi
      → is_free (m.endpoints i).state ≡ true
      → ((j : ℕ) → lo ≤ j → j < i → is_free (m.endpoints j).state ≡ false)
      → Creates lo hi pid m (put i (owned pid (m.endpoints i)) m, some i)
  full :
      ((j : ℕ) → lo ≤ j → j < hi → is_free (m.endpoints j).state ≡ false)
      → Creates lo hi pid m (m, none)

-- The lower bound moves down over an endpoint that is in use.
Creates_down :
    (lo hi pid : ℕ) (m : Ipc) {r : Ipc × Option ℕ}
    → is_free (m.endpoints lo).state ≡ false
    → Creates (lo + 1) hi pid m r
    → Creates lo hi pid m r
Creates_down lo hi pid m u (at_lowest i a b c d) =
    at_lowest i (omega arith) b c (λ j p q. elim (split j p) [ inl e ↦ rw e u | inr g ↦ d j g q ])
  where
    split : (j : ℕ) → lo ≤ j → (j ≡ lo) ⊎ (lo + 1 ≤ j)
    split j p = ground arith
Creates_down lo hi pid m u (full d) =
    full (λ j p q. elim (split j p) [ inl e ↦ rw e u | inr g ↦ d j g q ])
  where
    split : (j : ℕ) → lo ≤ j → (j ≡ lo) ⊎ (lo + 1 ≤ j)
    split j p = ground arith

create_from-Creates :
    (n i hi pid : ℕ) (m : Ipc) → i + n ≡ hi → Creates i hi pid m (create_from n i pid m)
unfolding create_from
create_from-Creates zero i hi pid m e = full (λ j p q. absurd (omega arith))
create_from-Creates (suc n) i hi pid m e = elim (Bool-cases (is_free (m.endpoints i).state)) [
  | inl f ↦ rw f (at_lowest i (omega arith) (omega arith) f (λ j p q. absurd (omega arith)))
  | inr f ↦ rw f (Creates_down i hi pid m f (create_from-Creates n (i + 1) hi pid m (omega arith)))
]

-- `ipc_create_endpoint` takes the lowest free endpoint of the 64, makes it idle and owned, and
-- leaves the others; or returns -1 with the table unchanged, and then none of the 64 is free.
pub create-Creates : (pid : ℕ) (m : Ipc) → Creates 0 max_endpoints pid m (create pid m)
unfolding create
create-Creates pid m = create_from-Creates max_endpoints 0 max_endpoints pid m (omega arith)
