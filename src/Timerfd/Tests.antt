-- ===== src/Timerfd/Tests.antt =====
-- A timer of 250 ms that starts at 1000 (src/kernel/event/timerfd.c).
use cosmo_rt.Common.{◌+◌, ◌≡◌, refl, true, false, none, List, [], ◌∷◌, err, Errno, arith}
use cosmo_rt.Timerfd.{
  Timerfd, Timespec, catch_up, timerfd_expire_fn, ts_to_ms, ms_to_ts, old_value, do_timerfd_settime,
  timerfd_collect, timerfd_read,
}
use cosmo_rt.Timerfd.Run.{Op, callback, collect, run, step, Passed, run_ticks}

abbrev idle : Timerfd
idle = record { expire_ms = 0; interval_ms = 0; expirations = 0; armed = false; deadline = none }

abbrev quarter : Timespec
quarter = record { tv_sec = 0; tv_nsec = 250000000 }

abbrev one_second : Timespec
one_second = record { tv_sec = 1; tv_nsec = 0 }

-- At the time 0, relative.
abbrev ticking : Timerfd
ticking = do_timerfd_settime 0 0 one_second quarter idle

abbrev ops : List Op
ops = callback 1000 1001 ∷ collect 1600 ∷ callback 1750 1750 ∷ []

run_ticks_example : let r = run ops (ticking, 0) in Passed 1000 250 (r.1 + r.0.expirations) 1750
unfolding do_timerfd_settime ts_to_ms
run_ticks_example =
    run_ticks 1000 250 0 ops ticking (omega arith) (omega arith) (omega arith) refl refl refl refl
      ((omega arith, omega arith, (omega arith, omega arith, (omega arith, omega arith, tt))))

four_ticks : (run ops (ticking, 0)).0.expirations ≡ 1
unfolding do_timerfd_settime ts_to_ms run step timerfd_expire_fn catch_up timerfd_collect
four_ticks = refl

three_read : (run ops (ticking, 0)).1 ≡ 3
unfolding do_timerfd_settime ts_to_ms run step timerfd_expire_fn catch_up timerfd_collect
three_read = refl

read_early : (timerfd_read 999 8 ticking).1 ≡ err Errno.eagain
unfolding do_timerfd_settime ts_to_ms catch_up timerfd_collect timerfd_read
read_early = refl

remaining : (old_value 400 ticking).0 ≡ record { tv_sec = 0; tv_nsec = 600000000 }
unfolding do_timerfd_settime ts_to_ms ms_to_ts old_value
remaining = refl

-- Half a millisecond disarms the timer.
half_disarms :
    (do_timerfd_settime 0 0
      (record { tv_sec = 0; tv_nsec = 500000 })
      (record { tv_sec = 0; tv_nsec = 0 })
      ticking).armed
    ≡ false
unfolding do_timerfd_settime ts_to_ms
half_disarms = refl

-- A value of 0 with an interval arms it.
zero_arms : (do_timerfd_settime 7 0 (record { tv_sec = 0; tv_nsec = 0 }) quarter idle).armed ≡ true
unfolding do_timerfd_settime ts_to_ms
zero_arms = refl
