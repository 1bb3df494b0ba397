-- ===== src/Timerfd/Ticks.antt =====
-- How many expirations a periodic timer counts (src/kernel/event/timerfd.c).
use cosmo_rt.Common.{
  ℕ, zero, suc, ◌+◌, ◌*◌, ◌%◌, ◌^◌, ◌≤◌, ◌<◌, ◌≡◌, refl, true, false, ◌&&◌, ltb, leb, arith,
  Bool-cases, inl, inr,
}
use cosmo_rt.Timerfd.{Timerfd, expire_once, catch_up}

-- The timer has counted the `k` first ticks of those at `start`, `start + interval` and so on, of which
-- `given` are handed out and the others wait.
pub record IsTicking (start interval k given : ℕ) (t : Timerfd) : Type 0 where
  pub is_armed : t.armed ≡ true
  pub same_interval : t.interval_ms ≡ interval
  pub next : t.expire_ms ≡ start + k * interval
  pub counted : given + t.expirations ≡ k

-- The ticks up to `now` are counted, and no later one.
pub record CaughtUp (start interval k0 k now : ℕ) : Type 0 where
  pub grown : k0 ≤ k
  pub later : now < start + k * interval
  pub due : k0 < k → start + k * interval ≤ now + interval

last_tick :
    (start interval k k' now : ℕ)
    → start + k * interval ≤ now
    → k + 1 ≤ k'
    → (k + 1 < k' → start + k' * interval ≤ now + interval)
    → start + k' * interval ≤ now + interval
last_tick start interval k k' now a g d = elim (Bool-cases (ltb (k + 1) k')) [
  | inl t ↦ d (ground (arith, t))
  | inr f ↦
      let same : k' ≡ k + 1 = ground (arith, f, g) in
      let step : (k + 1) * interval ≡ k * interval + interval = omega arith in
      rw same (omega (arith, a, step))
]

pub catch_up-IsTicking :
    (fuel now start interval k given : ℕ) (t : Timerfd)
    → 0 < interval
    → now + interval < 2 ^ 64
    → now < fuel + (start + k * interval)
    → k + fuel < 2 ^ 64
    → IsTicking start interval k given t
    → (k' : ℕ) × IsTicking start interval k' given (catch_up fuel now t)
      × CaughtUp start interval k k' now
unfolding catch_up
catch_up-IsTicking zero now start interval k given t p w f c h = (
  k,
  h,
  record { grown = omega arith; later = omega arith; due = λ x. absurd (omega (arith, x)) },
)
catch_up-IsTicking (suc fuel) now start interval k given t p w f c h =
    elim (Bool-cases (leb t.expire_ms now)) [
      | inl due_ ↦
          let more : ltb 0 t.interval_ms ≡ true = ground (arith, h.same_interval) in
          let test : (t.armed && leb t.expire_ms now) ≡ true = ground (arith, h.is_armed, due_) in
          let one : Timerfd = record t {
            expirations = (t.expirations + 1) % 2 ^ 64;
            expire_ms = (t.expire_ms + t.interval_ms) % 2 ^ 64;
          } in
          let step : start + (k + 1) * interval ≡ start + k * interval + interval = omega arith in
          let at : start + k * interval ≤ now = ground (arith, due_, h.next) in
          let once : expire_once t ≡ one = rw more refl in
          let r =
            catch_up-IsTicking fuel now start interval (k + 1) given one p w (omega (arith, step))
              (omega arith)
              (record {
                is_armed = h.is_armed;
                same_interval = h.same_interval;
                next = omega (arith, h.next, h.same_interval, step, at);
                counted = omega (arith, h.counted);
              }) in
          (
            r.0,
            rw test (rw once r.1),
            record {
              grown = omega (arith, r.2.grown);
              later = r.2.later;
              due = λ x. last_tick start interval k r.0 now at r.2.grown r.2.due;
            },
          )
      | inr not_due ↦
          let test : (t.armed && leb t.expire_ms now) ≡ false =
            ground (arith, not_due, h.is_armed) in
          let early : now < start + k * interval = ground (arith, not_due, h.next) in
          (
            k,
            rw test h,
            record { grown = omega arith; later = early; due = λ x. absurd (omega (arith, x)) },
          )
    ]
