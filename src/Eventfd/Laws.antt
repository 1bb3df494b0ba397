-- ===== src/Eventfd/Laws.antt =====
-- The counter of an eventfd (src/kernel/event/eventfd.c) never overflows, and what is written is
-- what is read or still there.
use cosmo_rt.Common.{
  ℕ, ◌+◌, ◌-◌, ◌≤◌, ◌<◌, ◌≡◌, ◌⊎◌, true, false, Option, none, some, List, [], ◌∷◌, arith,
  if◌then◌else◌,
}
use cosmo_rt.Eventfd.{Eventfd, max_val, efd_semaphore, has_flag, try_read, try_write}

-- A client's attempts: to read, and to write a value.
pub data Op : Type 0 where
  get : Op
  put : ℕ → Op

-- `eventfd_write` refuses 2 ^ 64 - 1, so a value that reaches the counter is at most `max_val`.
abbrev pub IsOp : Op → Type 0
IsOp get = Unit
IsOp (put v) = v ≤ max_val

abbrev pub IsBounded : Eventfd → Type 0
IsBounded e = e.counter ≤ max_val

-- The counter, and the totals of what was taken out and what was put in.
pub record Totals : Type 0 where
  pub final : Eventfd
  pub taken : ℕ
  pub given : ℕ

abbrev taken_by : Option ℕ → ℕ
taken_by none = 0
taken_by (some v) = v

unfoldable pub run : List Op → Totals → Totals
run [] t = t
run (get ∷ ops) t =
    let (e, v) = try_read t.final in run ops (record t { final = e; taken = t.taken + taken_by v })
run (put v ∷ ops) t =
    let (e, ok_) = try_write v t.final in
    run ops (record t { final = e; given = t.given + (if ok_ then v else 0) })

abbrev pub AllOps : List Op → Type 0
AllOps [] = Unit
AllOps (o ∷ os) = IsOp o × AllOps os

-- `counter += val` does not wrap, and the counter stays within its bound.
try_write-IsBounded :
    (v : ℕ) (e : Eventfd)
    → v ≤ max_val
    → IsBounded e
    → IsBounded (try_write v e).0
      × ((try_write v e).0.counter ≡ e.counter + (if (try_write v e).1 then v else 0))
unfolding try_write
try_write-IsBounded v e p h = ground arith

try_read-IsBounded :
    (e : Eventfd)
    → IsBounded e
    → IsBounded (try_read e).0 × ((try_read e).0.counter + taken_by (try_read e).1 ≡ e.counter)
unfolding try_read
try_read-IsBounded e h = ground arith

-- Over every sequence of attempts to read and to write values that `eventfd_write` lets through,
-- what the counter held and what was put in are what was taken out and what it holds, and the
-- counter stays at most `max_val`.
pub run_conserves :
    (ops : List Op) (t : Totals)
    → AllOps ops
    → IsBounded t.final
    → IsBounded (run ops t).final
      × ((run ops t).final.counter + (run ops t).taken + t.given
          ≡ t.final.counter + t.taken + (run ops t).given)
unfolding run
run_conserves [] t a h = (h, omega arith)
run_conserves (get ∷ ops) t a h =
    let (e, v) = try_read t.final in
    let step = try_read-IsBounded t.final h in
    let rest =
      run_conserves ops (record t { final = e; taken = t.taken + taken_by v }) a.1 step.0 in
    (rest.0, omega (arith, rest.1, step.1))
run_conserves (put v ∷ ops) t a h =
    let (e, ok_) = try_write v t.final in
    let given = t.given + (if ok_ then v else 0) in
    let step = try_write-IsBounded v t.final a.0 h in
    let rest = run_conserves ops (record t { final = e; given = given }) a.1 step.0 in
    (rest.0, omega (arith, rest.1, step.1))

-- A read takes the whole counter, or 1 in semaphore mode, and fails exactly at 0; a write adds its
-- value, and fails exactly where the sum would exceed `max_val`.
pub try_exact :
    (v : ℕ) (e : Eventfd)
    → v ≤ max_val
    → IsBounded e
    → ((try_read e ≡ (e, none)) × (e.counter ≡ 0)
        ⊎ (try_read e ≡ (
          record e { counter = if has_flag e.flags efd_semaphore then e.counter - 1 else 0 },
          some (if has_flag e.flags efd_semaphore then 1 else e.counter),
        ))
          × (0 < e.counter))
      × ((try_write v e ≡ (e, false)) × (max_val < e.counter + v)
          ⊎ (try_write v e ≡ (record e { counter = e.counter + v }, true))
            × (e.counter + v ≤ max_val))
unfolding try_read try_write
try_exact v e p h = ground arith
