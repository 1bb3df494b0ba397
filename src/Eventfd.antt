-- ===== src/Eventfd.antt =====
-- Event counters of src/kernel/event/eventfd.c. A call that blocks takes the rounds of its loop as
-- a list: at each round whether a signal is deliverable, and what other threads do to the counter
-- until the thread runs again. Where the list ends the thread still sleeps.
pub mod Laws
pub mod Blocking
mod Tests
use Prim.Native.Nat.{bit_and, bit_or}
use cosmo_rt.Common.{
  ℕ, ◌+◌, ◌-◌, ◌^◌, Bool, true, false, ◌||◌, not, Option, none, some, List, [], ◌∷◌, ltb, ◌==◌,
  if◌then◌else◌, Reply, ok, err, Errno, eintr, ebadf, eagain, enomem, efault, einval, emfile,
}
use cosmo_rt.Common.Int.{ℤ, pos, negsuc}

-- `eventfd_t` without its lock and wait queues.
pub record Eventfd : Type 0 where
  pub counter : ℕ
  pub flags : ℕ
  pub refcount : ℕ

abbrev pub efd_semaphore : ℕ
efd_semaphore = 1

abbrev pub efd_cloexec : ℕ
efd_cloexec = 0x80000

abbrev pub efd_nonblock : ℕ
efd_nonblock = 0x800

abbrev pub o_rdwr : ℕ
o_rdwr = 2

-- 0xFFFFFFFFFFFFFFFE
abbrev pub max_val : ℕ
max_val = 2 ^ 64 - 2

pub has_flag : (flags flag : ℕ) → Bool
has_flag flags flag = not (bit_and flags flag == 0)

-- The flags of the file descriptor.
pub fd_flags : ℕ → ℕ
unfolding has_flag
fd_flags flags =
    let f = if has_flag flags efd_cloexec then bit_or o_rdwr efd_cloexec else o_rdwr in
    if has_flag flags efd_nonblock then bit_or f efd_nonblock else f

-- A new counter: the file descriptor that `fd_alloc` gives for it, the object and its flags.
pub record Created : Type 0 where
  pub reply : Reply
  pub object : Option Eventfd
  pub opened : ℕ

abbrev refused : Errno → Created
refused e = record { reply = err e; object = none; opened = 0 }

with_fd : Option ℕ → Eventfd → Created
unfolding fd_flags
with_fd none made = refused emfile
with_fd (some n) made = record { reply = ok n; object = some made; opened = fd_flags made.flags }

-- `flags` is the 32-bit pattern. What `proc_current`, `slab_alloc` and `fd_alloc` give are
-- arguments; an object whose `fd_alloc` fails goes back to the slab.
pub do_eventfd2 : (initval flags : ℕ) (current allocated : Bool) (fd : Option ℕ) → Created
unfolding with_fd
do_eventfd2 initval flags current allocated fd =
    if not (bit_and flags (2 ^ 32 - 1 - (efd_semaphore + efd_cloexec + efd_nonblock)) == 0)
    then refused einval
    else if not current
    then refused efault
    else if not allocated
    then refused enomem
    else with_fd fd (record { counter = initval; flags = flags; refcount = 1 })

-- The value read, or `none` for -EAGAIN.
pub try_read : Eventfd → Eventfd × Option ℕ
unfolding has_flag
try_read e =
    if e.counter == 0
    then (e, none)
    else if has_flag e.flags efd_semaphore
    then (record e { counter = e.counter - 1 }, some 1)
    else (record e { counter = 0 }, some e.counter)

-- Whether the value was added; `false` for -EAGAIN.
pub try_write : (val : ℕ) → Eventfd → Eventfd × Bool
try_write val e =
    if ltb (max_val - val) e.counter
    then (e, false)
    else (record e { counter = e.counter + val }, true)

-- A round of a blocked call.
pub record Round : Type 0 where
  pub signal : Bool
  pub others : Eventfd → Eventfd

-- What a call returns: its error, or the value that it read.
pub data Outcome : Type 0 where
  done : ℕ → Outcome
  failed : Errno → Outcome
  asleep : Outcome

after_read :
    (signal : Bool) → Eventfd × Option ℕ → (Eventfd → Eventfd × Outcome) → Eventfd × Outcome
after_read signal (e, some v) sleep = (e, done v)
after_read true (e, none) sleep = (e, failed eintr)
after_read false (e, none) sleep = sleep e

pub read_loop : List Round → Eventfd → Eventfd × Outcome
unfolding try_read after_read
read_loop [] e = (e, asleep)
read_loop (r ∷ rs) e = after_read r.signal (try_read e) (λ e'. read_loop rs (r.others e'))

abbrev pub too_short : ℤ → Bool
too_short (pos n) = ltb n 8
too_short (negsuc n) = true

first_read :
    Eventfd × Option ℕ → (nonblock : Bool) → (Eventfd → Eventfd × Outcome) → Eventfd × Outcome
first_read (e, some v) nonblock block = (e, done v)
first_read (e, none) true block = (e, failed eagain)
first_read (e, none) false block = block e

-- `eventfd_read`; the object is `none` for a null pointer.
pub read : (count : ℤ) (nonblock : Bool) → List Round → Option Eventfd → Option Eventfd × Outcome
unfolding first_read read_loop
read count nonblock rounds none = (none, if too_short count then failed einval else failed ebadf)
read count nonblock rounds (some e) =
    let r = first_read (try_read e) nonblock (read_loop rounds) in
    if too_short count then (some e, failed einval) else (some r.0, r.1)

after_write : (signal : Bool) → Eventfd × Bool → (Eventfd → Eventfd × Outcome) → Eventfd × Outcome
after_write signal (e, true) sleep = (e, done 8)
after_write true (e, false) sleep = (e, failed eintr)
after_write false (e, false) sleep = sleep e

pub write_loop : (val : ℕ) → List Round → Eventfd → Eventfd × Outcome
unfolding try_write after_write
write_loop val [] e = (e, asleep)
write_loop val (r ∷ rs) e =
    after_write r.signal (try_write val e) (λ e'. write_loop val rs (r.others e'))

first_write : Eventfd × Bool → (nonblock : Bool) → (Eventfd → Eventfd × Outcome) → Eventfd × Outcome
first_write (e, true) nonblock block = (e, done 8)
first_write (e, false) true block = (e, failed eagain)
first_write (e, false) false block = block e

-- `eventfd_write` of the value that is copied from the user.
pub write :
    (count : ℤ) (val : ℕ) (nonblock : Bool) → List Round → Option Eventfd → Option Eventfd × Outcome
unfolding first_write write_loop
write count val nonblock rounds none =
    (none, if too_short count then failed einval else failed ebadf)
write count val nonblock rounds (some e) =
    let r = first_write (try_write val e) nonblock (write_loop val rounds) in
    if too_short count
    then (some e, failed einval)
    else if val == 2 ^ 64 - 1
    then (some e, failed einval)
    else (some r.0, r.1)

-- `eventfd_destroy`: the object after it, `none` where it went back to the slab.
pub destroy : Option Eventfd → Option Eventfd
destroy none = none
destroy (some e) = if ltb 1 e.refcount then some (record e { refcount = e.refcount - 1 }) else none
