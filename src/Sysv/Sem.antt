-- ===== src/Sysv/Sem.antt =====
-- The semaphore sets of src/kernel/ipc/sysv_ipc.c. The value of a semaphore is a 16-bit `int16_t`,
-- given by its bits.
pub mod Values
pub mod Apply
pub mod Holders
mod Tests
use cosmo_rt.Common.{
  ℕ, zero, suc, ◌+◌, ◌-◌, ◌*◌, ◌%◌, ◌^◌, Bool, true, false, ◌&&◌, ◌||◌, not, Option, none, some,
  List, [], ◌∷◌, length, Errno, Reply, ok, err, ltb, leb, ◌==◌, if◌then◌else◌, ◌⊎◌, inl, inr,
}
use cosmo_rt.Common.Int.{ℤ, pos, negsuc}
use cosmo_rt.Sysv.{Caller, has_flag, Lookup, present, refused, vacant, lookup}

-- `struct k_sembuf`; sem_op is its 16 bits.
pub record Sembuf : Type 0 where
  pub sem_num : ℕ
  pub sem_op : ℕ

-- `semset_t`; `owner` is its uid, gid, cuid and cgid.
pub record Semset : Type 0 where
  pub used : Bool
  pub key : ℕ
  pub nsems : ℕ
  pub vals : ℕ → ℕ
  pub pids : ℕ → ℕ
  pub otime : ℕ
  pub ctime : ℕ
  pub mode : ℕ
  pub owner : ℕ × ℕ × ℕ × ℕ

abbrev pub Semsets : Type 0
Semsets = ℕ → Semset

abbrev pub put_set : ℕ → Semset → Semsets → Semsets
put_set i q s = λ k. if k == i then q else s k

abbrev pub is_negative : ℕ → Bool
is_negative v = leb (2 ^ 15) v

-- `int16_t` addition, which wraps around.
abbrev pub add16 : ℕ → ℕ → ℕ
add16 v op = (v + op) % 2 ^ 16

-- The value as an integer.
abbrev pub to_int : ℕ → ℤ
to_int v = if is_negative v then negsuc (2 ^ 16 - 1 - v) else pos v

-- `tmp[idx] + op < 0`, which is computed as an `int`, for a negative `op`.
abbrev pub below_zero : (v op : ℕ) → Bool
below_zero v op = is_negative v || ltb (v + op) (2 ^ 16)

-- The first `n` entries are set to 0.
unfoldable pub cleared_upto : ℕ → (ℕ → ℕ) → ℕ → ℕ
cleared_upto n f = λ j. if ltb j n then 0 else f j

abbrev pub new_set : Caller → (key nsems flags : ℕ) → Semset → Semset
new_set c key nsems flags q = record q {
  used = true;
  key = key;
  nsems = nsems;
  vals = cleared_upto nsems q.vals;
  pids = cleared_upto nsems q.pids;
  otime = 0;
  ctime = c.time;
  mode = flags % 512;
  owner = (0, 0, 0, 0);
}

abbrev pub semget_at : Caller → (key nsems flags : ℕ) → Semsets → Lookup → Semsets × Reply
semget_at c key nsems flags s (present i) = (s, ok i)
semget_at c key nsems flags s (refused e) = (s, err e)
semget_at c key nsems flags s (vacant i) =
    (put_set i (new_set c key (if nsems == 0 then 1 else nsems) flags (s i)) s, ok i)

unfoldable pub do_semget :
    Caller → (key : ℕ) → (nsems : ℤ) → (flags : ℕ) → Semsets → Semsets × Reply
unfolding lookup cleared_upto
do_semget c key (negsuc n) flags s = (s, err Errno.einval)
do_semget c key (pos n) flags s =
    if ltb 64 n
    then (s, err Errno.einval)
    else semget_at c key n flags s (lookup key flags (λ i. (s i).used) (λ i. (s i).key))

-- Whether every operation names a semaphore of the set.
unfoldable pub in_range : (nsems : ℕ) → List Sembuf → Bool
in_range nsems [] = true
in_range nsems (o ∷ os) =
    let rest = in_range nsems os in if leb nsems o.sem_num then false else rest

abbrev pub set_val : ℕ → ℕ → (ℕ → ℕ) → ℕ → ℕ
set_val j v f = λ k. if k == j then v else f k

-- The loop over the copy `tmp` of the values: none where an operation cannot proceed.
unfoldable pub try_ops : List Sembuf → (tmp : ℕ → ℕ) → Option (ℕ → ℕ)
try_ops [] tmp = some tmp
try_ops (o ∷ os) tmp =
    let moved = try_ops os (set_val o.sem_num (add16 (tmp o.sem_num) o.sem_op) tmp) in
    let stayed = try_ops os tmp in
    if o.sem_op == 0
    then (if tmp o.sem_num == 0 then stayed else none)
    else if is_negative o.sem_op
    then (if below_zero (tmp o.sem_num) o.sem_op then none else moved)
    else moved

-- The values and the process ids of the semaphores that the operations name.
unfoldable pub apply_ops : Caller → (tmp : ℕ → ℕ) → List Sembuf → Semset → Semset
apply_ops c tmp [] q = q
apply_ops c tmp (o ∷ os) q = apply_ops c tmp os (record q {
  vals = set_val o.sem_num (tmp o.sem_num) q.vals;
  pids = set_val o.sem_num c.pid q.pids;
})

abbrev pub semop_tried : Caller → (i : ℕ) → List Sembuf → Option (ℕ → ℕ) → Semsets → Semsets × Reply
semop_tried c i ops none s = (s, err Errno.eagain)
semop_tried c i ops (some tmp) s =
    (put_set i (record (apply_ops c tmp ops (s i)) { otime = c.time }) s, ok 0)

abbrev pub semop_copied : Caller → (i : ℕ) → Option (List Sembuf) → Semsets → Semsets × Reply
semop_copied c i none s = (s, err Errno.efault)
semop_copied c i (some ops) s =
    if not (s i).used
    then (s, err Errno.einval)
    else if not (in_range (s i).nsems ops)
    then (s, err Errno.efbig)
    else semop_tried c i ops (try_ops ops (s i).vals) s

-- `copied` are the `nsops` operations, or none for a fault. It never blocks: with and without IPC_NOWAIT
-- an operation that cannot proceed gives the same error.
unfoldable pub do_semop :
    Caller → (semid : ℤ) → (nsops : ℕ) → (copied : Option (List Sembuf)) → Semsets → Semsets × Reply
unfolding in_range try_ops apply_ops
do_semop c (negsuc i) nsops copied s = (s, err Errno.einval)
do_semop c (pos i) nsops copied s =
    if leb 32 i || ((nsops == 0) || ltb 32 nsops)
    then (s, err Errno.einval)
    else semop_copied c i copied s

-- The settings that IPC_SET reads.
pub record SemSettings : Type 0 where
  pub uid : ℕ
  pub gid : ℕ
  pub mode : ℕ

-- The commands of `do_semctl`; the fourth argument of SETVAL is a `long`, by its bits.
pub data SemCommand : Type 0 where
  rmid getval getpid getncnt getzcnt other : SemCommand
  setval : (value : ℕ) → SemCommand
  stat : (buf copied : Bool) → SemCommand
  set_ : (buf : Bool) → (settings : Option SemSettings) → SemCommand

-- The reply of a command that reads a value may be negative.
abbrev pub at_sem :
    (semnum : ℤ) → Semset → Semsets → (ℕ → Semsets × (Errno ⊎ ℤ)) → Semsets × (Errno ⊎ ℤ)
at_sem (negsuc j) q s f = (s, inl Errno.einval)
at_sem (pos j) q s f = if leb q.nsems j then (s, inl Errno.einval) else f j

abbrev pub semctl_at :
    Caller → (i : ℕ) → (semnum : ℤ) → SemCommand → Semsets → Semsets × (Errno ⊎ ℤ)
semctl_at c i semnum rmid s = (put_set i (record (s i) { used = false }) s, inr (pos 0))
semctl_at c i semnum getval s = at_sem semnum (s i) s (λ j. (s, inr (to_int ((s i).vals j))))
semctl_at c i semnum (setval v) s = at_sem semnum (s i) s (λ j. (
  put_set i (record (s i) { vals = set_val j (v % 2 ^ 16) (s i).vals; ctime = c.time }) s,
  inr (pos 0),
))
semctl_at c i semnum getpid s = at_sem semnum (s i) s (λ j. (s, inr (pos ((s i).pids j))))
semctl_at c i semnum getncnt s = at_sem semnum (s i) s (λ j. (s, inr (pos 0)))
semctl_at c i semnum getzcnt s = at_sem semnum (s i) s (λ j. (s, inr (pos 0)))
semctl_at c i semnum (stat false copied) s = (s, inl Errno.efault)
semctl_at c i semnum (stat true false) s = (s, inl Errno.efault)
semctl_at c i semnum (stat true true) s = (s, inr (pos 0))
semctl_at c i semnum (set_ false m) s = (s, inl Errno.efault)
semctl_at c i semnum (set_ true none) s = (s, inl Errno.efault)
semctl_at c i semnum (set_ true (some m)) s = (
  put_set i
      (record (s i) {
        mode = m.mode % 512;
        ctime = c.time;
        owner = (m.uid, m.gid, (s i).owner.2, (s i).owner.3);
      })
      s,
  inr (pos 0),
)
semctl_at c i semnum other s = (s, inl Errno.einval)

-- For IPC_STAT the set itself is the answer.
unfoldable pub do_semctl :
    Caller → (semid semnum : ℤ) → SemCommand → Semsets → Semsets × (Errno ⊎ ℤ)
do_semctl c (negsuc i) semnum cmd s = (s, inl Errno.einval)
do_semctl c (pos i) semnum cmd s =
    if leb 32 i
    then (s, inl Errno.einval)
    else if not (s i).used
    then (s, inl Errno.einval)
    else semctl_at c i semnum cmd s
