-- ===== src/Eventfd/Blocking.antt =====
-- The blocking loops of `eventfd_read` and `eventfd_write` (src/kernel/event/eventfd.c).
use cosmo_rt.Common.{
  ℕ, ◌+◌, ◌-◌, ◌≤◌, ◌<◌, ◌≡◌, true, false, List, [], ◌∷◌, ◌++◌, arith, if◌then◌else◌, eintr,
}
use cosmo_rt.Eventfd.{
  Eventfd, max_val, efd_semaphore, has_flag, Round, done, failed, read_loop, write_loop,
}

-- At each of the rounds the attempt to read fails and no signal is deliverable; the rounds take the
-- counter from `e` to `e'`.
abbrev pub ReadSleeps : List Round → Eventfd → Eventfd → Type 0
ReadSleeps [] e e' = e ≡ e'
ReadSleeps (r ∷ rs) e e' = (e.counter ≡ 0) × (r.signal ≡ false) × ReadSleeps rs (r.others e) e'

abbrev pub WriteSleeps : ℕ → List Round → Eventfd → Eventfd → Type 0
WriteSleeps v [] e e' = e ≡ e'
WriteSleeps v (r ∷ rs) e e' =
    (max_val - v < e.counter) × (r.signal ≡ false) × WriteSleeps v rs (r.others e) e'

-- A reader that slept through any rounds takes the counter at the first round that finds it not 0,
-- a deliverable signal or none.
pub read_loop_wakes :
    (rs : List Round) (r : Round) (rest : List Round) (e e' : Eventfd)
    → ReadSleeps rs e e'
    → 0 < e'.counter
    → read_loop (rs ++ r ∷ rest) e ≡ (
      record e' { counter = if has_flag e'.flags efd_semaphore then e'.counter - 1 else 0 },
      done (if has_flag e'.flags efd_semaphore then 1 else e'.counter),
    )
unfolding read_loop
read_loop_wakes [] r rest e e' s p = rw s (ground arith)
read_loop_wakes (q ∷ rs) r rest e e' s p =
    ground (arith, read_loop_wakes rs r rest (q.others e) e' s.2 p)

-- A reader that finds the counter at 0 and a signal deliverable returns -EINTR, and leaves the
-- counter.
pub read_loop_interrupted :
    (rs : List Round) (r : Round) (rest : List Round) (e e' : Eventfd)
    → ReadSleeps rs e e'
    → e'.counter ≡ 0
    → r.signal ≡ true
    → read_loop (rs ++ r ∷ rest) e ≡ (e', failed eintr)
unfolding read_loop
read_loop_interrupted [] r rest e e' s p q = rw s (ground arith)
read_loop_interrupted (k ∷ rs) r rest e e' s p q =
    ground (arith, read_loop_interrupted rs r rest (k.others e) e' s.2 p q)

-- A writer that slept through any rounds adds its value at the first round that finds room for it.
pub write_loop_wakes :
    (v : ℕ) (rs : List Round) (r : Round) (rest : List Round) (e e' : Eventfd)
    → WriteSleeps v rs e e'
    → e'.counter ≤ max_val - v
    → write_loop v (rs ++ r ∷ rest) e ≡ (record e' { counter = e'.counter + v }, done 8)
unfolding write_loop
write_loop_wakes v [] r rest e e' s p = rw s (ground arith)
write_loop_wakes v (k ∷ rs) r rest e e' s p =
    ground (arith, write_loop_wakes v rs r rest (k.others e) e' s.2 p)
