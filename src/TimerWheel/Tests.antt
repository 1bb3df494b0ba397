-- ===== src/TimerWheel/Tests.antt =====
-- The timer wheel at concrete timeouts (src/kernel/core/timer_wheel.c).
use cosmo_rt.Common.{◌+◌, ◌%◌, ◌^◌, ◌≡◌, refl, true, [], ◌∷◌, arith, map, length}
use cosmo_rt.TimerWheel.{Entry, Wheel, init, add, cancel, tick, tick_once, ticks}
use cosmo_rt.TimerWheel.Due.{Fires, add-Fires}
use cosmo_rt.TimerWheel.Count.{
  IsCounted, init-IsCounted, add-IsCounted, cancel-IsCounted, tick-IsCounted,
}

abbrev fresh : Wheel
fresh = init 1000

abbrev armed : Wheel
armed = (add true 1 7 300 fresh).0

-- A timeout of 300 ms fires at the tick 44, and one of 512 ms at the tick 512.
early_300 : map (λ (e : Entry). e.ctx) (ticks 44 armed).1 ≡ 7 ∷ []
unfolding ticks add init
early_300 = refl

on_time_512 : length (ticks 511 (add true 1 7 512 fresh).0).1 ≡ 0
unfolding ticks add init
on_time_512 = refl

add-Fires_example : Fires 1 7 (300 % 2 ^ 32) (tick_once (ticks 43 (add true 1 7 300 fresh).0).0).1
unfolding init
add-Fires_example = add-Fires 1 7 300 fresh refl (omega arith) (omega arith)

one_armed : IsCounted (add true 1 7 300 fresh).0
one_armed = add-IsCounted true 1 7 300 fresh (init-IsCounted 1000)

armed-IsCounted : IsCounted armed
armed-IsCounted = add-IsCounted true 1 7 300 fresh (init-IsCounted 1000)

cancel-IsCounted_run :
    IsCounted (cancel 7 armed).0 × ((cancel 7 armed).1 + (cancel 7 armed).0.active_count ≡ 1)
unfolding add init
cancel-IsCounted_run = cancel-IsCounted 7 armed armed-IsCounted

tick-IsCounted_run :
    IsCounted (tick 1044 armed).0
    × ((tick 1044 armed).0.active_count + length (tick 1044 armed).1 ≡ 1)
unfolding add init
tick-IsCounted_run = tick-IsCounted 1044 armed armed-IsCounted
