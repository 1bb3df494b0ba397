-- ===== src/Timerfd.antt =====
-- The timers behind a file descriptor, src/kernel/event/timerfd.c. Times are milliseconds of `timer_ms`,
-- 64 bits wide; the high-resolution timer is the deadline that it is started for.
pub mod Ticks
pub mod Run
mod Tests
use Prim.Native.Nat.{bit_and}
use cosmo_rt.Common.{
  ℕ, zero, suc, ◌+◌, ◌-◌, ◌*◌, ◌/◌, ◌%◌, ◌^◌, Bool, true, false, ◌&&◌, not, Option, none, some,
  Errno, Reply, ok, err, ltb, leb, ◌==◌, if◌then◌else◌,
}

-- `timerfd_t`; `deadline` is where its hrtimer is armed, in milliseconds.
pub record Timerfd : Type 0 where
  pub expire_ms : ℕ
  pub interval_ms : ℕ
  pub expirations : ℕ
  pub armed : Bool
  pub deadline : Option ℕ

-- One round of the loops that catch up.
abbrev pub expire_once : Timerfd → Timerfd
expire_once t =
    if ltb 0 t.interval_ms
    then record t {
      expirations = (t.expirations + 1) % 2 ^ 64;
      expire_ms = (t.expire_ms + t.interval_ms) % 2 ^ 64;
    }
    else record t { expirations = (t.expirations + 1) % 2 ^ 64; armed = false }

-- `while (tfd->armed && now >= tfd->expire_ms)`, in at most `fuel` rounds.
unfoldable pub catch_up : (fuel now : ℕ) → Timerfd → Timerfd
catch_up zero now t = t
catch_up (suc fuel) now t =
    let rest = catch_up fuel now (expire_once t) in
    if t.armed && leb t.expire_ms now then rest else t

-- The callback of the hrtimer at the time `now`, and the time `now2` at which it is started again.
unfoldable pub timerfd_expire_fn : (now now2 : ℕ) → Timerfd → Timerfd
unfolding catch_up
timerfd_expire_fn now now2 t =
    let r = catch_up (now + 1) now t in
    if not t.armed then t else record r {
      deadline =
          if r.armed
          then some (now2 + (if ltb now2 r.expire_ms then r.expire_ms - now2 else 0))
          else none;
    }

-- `k_timespec`, both parts not negative.
pub record Timespec : Type 0 where
  pub tv_sec : ℕ
  pub tv_nsec : ℕ

unfoldable pub ts_to_ms : Timespec → ℕ
ts_to_ms ts = (ts.tv_sec * 1000 + ts.tv_nsec / 1000000) % 2 ^ 64

unfoldable pub ms_to_ts : ℕ → Timespec
ms_to_ts ms = record { tv_sec = ms / 1000; tv_nsec = ms % 1000 * 1000000 }

-- The remaining time and the interval, which `do_timerfd_settime` reports of the old setting.
unfoldable pub old_value : (now : ℕ) → Timerfd → Timespec × Timespec
unfolding ms_to_ts
old_value now t =
    if t.armed
    then (ms_to_ts (if ltb now t.expire_ms then t.expire_ms - now else 0), ms_to_ts t.interval_ms)
    else (record { tv_sec = 0; tv_nsec = 0 }, record { tv_sec = 0; tv_nsec = 0 })

-- The new setting, at the time `now`; `tfd_flags` has the bit 0 for an absolute time.
unfoldable pub do_timerfd_settime :
    (now tfd_flags : ℕ) → (it_value it_interval : Timespec) → Timerfd → Timerfd
unfolding ts_to_ms
do_timerfd_settime now tfd_flags it_value it_interval t =
    let val_ms = ts_to_ms it_value in
    let int_ms = ts_to_ms it_interval in
    let expire = if bit_and tfd_flags 1 == 0 then (now + val_ms) % 2 ^ 64 else val_ms in
    if (val_ms == 0) && (int_ms == 0)
    then record t { armed = false; expirations = 0; deadline = none }
    else record {
      expire_ms = expire;
      interval_ms = int_ms;
      expirations = 0;
      armed = true;
      deadline = some (now + (if ltb now expire then expire - now else 0));
    }

-- `timerfd_collect` at the time `now`.
unfoldable pub timerfd_collect : (now : ℕ) → Timerfd → Timerfd × ℕ
unfolding catch_up
timerfd_collect now t =
    let r = catch_up (now + 1) now t in (record r { expirations = 0 }, r.expirations)

-- A read that does not block: the count that it copies out, or EAGAIN.
unfoldable pub timerfd_read : (now count : ℕ) → Timerfd → Timerfd × Reply × Option ℕ
unfolding timerfd_collect
timerfd_read now count t =
    let r = timerfd_collect now t in
    if ltb count 8
    then (t, err Errno.einval, none)
    else if ltb 0 r.1
    then (r.0, ok 8, some r.1)
    else (r.0, err Errno.eagain, none)
