-- ===== src/Sysv.antt =====
-- System V IPC, src/kernel/ipc/sysv_ipc.c: what its three tables share. A key is its 32 bits, so
-- that IPC_PRIVATE is 0; flags and modes are their bits.
pub mod Table
pub mod Msg
pub mod Sem
use Prim.Native.Nat.{bit_and}
use cosmo_rt.Common.{
  ℕ, zero, suc, ◌+◌, ◌%◌, Bool, true, false, ◌&&◌, not, Option, none, some, Errno, Reply, ok, err,
  ◌==◌, if◌then◌else◌,
}

abbrev pub ipc_creat : ℕ
ipc_creat = 512

abbrev pub ipc_excl : ℕ
ipc_excl = 1024

-- Who calls, and when: `current_pid` and `current_time_sec`.
pub record Caller : Type 0 where
  pub pid : ℕ
  pub time : ℕ

unfoldable pub has_flag : (flags flag : ℕ) → Bool
has_flag flags flag = not (bit_and flags flag == 0)

-- The first of the `n` indices from `i` on at which the test holds.
unfoldable pub first_from : (n i : ℕ) → (ℕ → Bool) → Option ℕ
first_from zero i test = none
first_from (suc n) i test =
    let later = first_from n (i + 1) test in if test i then some i else later

-- Where a call that gets an object by its key ends: at an object there is, at an error, or at the
-- first unused place.
pub data Lookup : Type 0 where
  present : ℕ → Lookup
  refused : Errno → Lookup
  vacant : ℕ → Lookup

abbrev pub unused_place : Option ℕ → Lookup
unused_place none = refused Errno.enospc
unused_place (some i) = vacant i

abbrev pub place_for : (key flags : ℕ) → (unused : Option ℕ) → (existing : Option ℕ) → Lookup
place_for key flags unused (some i) =
    if has_flag flags ipc_creat && has_flag flags ipc_excl then refused Errno.eexist else present i
place_for key flags unused none =
    if not (has_flag flags ipc_creat) && not (key == 0)
    then refused Errno.enoent
    else unused_place unused

-- The common part of `do_msgget`, `do_semget` and `do_shmget` over a table of 32 objects.
unfoldable pub lookup : (key flags : ℕ) → (used : ℕ → Bool) → (keys : ℕ → ℕ) → Lookup
unfolding first_from
lookup key flags used keys =
    place_for key flags (first_from 32 0 (λ i. not (used i)))
      (if key == 0 then none else first_from 32 0 (λ i. used i && (keys i == key)))
