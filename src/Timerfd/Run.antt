-- ===== src/Timerfd/Run.antt =====
-- Expirations and reads of a periodic timer in any order (src/kernel/event/timerfd.c).
use cosmo_rt.Common.{
  ℕ, zero, suc, ◌+◌, ◌*◌, ◌^◌, ◌≤◌, ◌<◌, ◌≡◌, refl, ap, ◌∙◌, Bool, true, false, not, ◌⊎◌, List, [],
  ◌∷◌, ltb, if◌then◌else◌, arith, Bool-cases, inl, inr,
}
use cosmo_rt.Timerfd.{Timerfd, catch_up, timerfd_expire_fn, timerfd_collect}
use cosmo_rt.Timerfd.Ticks.{IsTicking, CaughtUp, catch_up-IsTicking}

-- The hrtimer's callback, or a read that collects, at the time `now`.
pub data Op : Type 0 where
  callback : (now now2 : ℕ) → Op
  collect : (now : ℕ) → Op

abbrev pub time_of : Op → ℕ
time_of (callback now now2) = now
time_of (collect now) = now

-- The timer, and how many expirations are read so far.
unfoldable pub step : Op → Timerfd × ℕ → Timerfd × ℕ
step (callback now now2) (t, given) = (timerfd_expire_fn now now2 t, given)
step (collect now) (t, given) = let r = timerfd_collect now t in (r.0, given + r.1)

unfoldable pub run : List Op → Timerfd × ℕ → Timerfd × ℕ
run [] st = st
run (o ∷ os) st = run os (step o st)

-- The times go on from `last` and stay below 2 ^ 62.
abbrev pub InOrder : (last : ℕ) → List Op → Type 0
InOrder last [] = Unit
InOrder last (o ∷ os) = (last ≤ time_of o) × (time_of o < 2 ^ 62) × InOrder (time_of o) os

abbrev pub last_time : (last : ℕ) → List Op → ℕ
last_time last [] = last
last_time last (o ∷ os) = last_time (time_of o) os

-- `k` is the number of the ticks at `start`, `start + interval` and so on up to the time `last`.
abbrev pub Passed : (start interval k last : ℕ) → Type 0
Passed start interval k last =
    (last < start + k * interval) × ((k ≡ 0) ⊎ (start + k * interval ≤ last + interval))

at_least : (k interval : ℕ) → 0 < interval → k ≤ k * interval
at_least zero interval p = omega arith
at_least (suc k) interval p =
    let step_ : suc k * interval ≡ k * interval + interval = omega arith in
    omega (arith, at_least k interval p, step_)

ticks_bound :
    (start interval k last : ℕ) → 0 < interval → Passed start interval k last → k ≤ last + interval
ticks_bound start interval k last p (l, inl z) = omega (arith, z)
ticks_bound start interval k last p (l, inr d) = omega (arith, at_least k interval p, d)

Passed-on :
    (start interval k k' last now : ℕ)
    → last ≤ now
    → Passed start interval k last
    → CaughtUp start interval k k' now
    → Passed start interval k' now
Passed-on start interval k k' last now l h c = (c.later, due h.1)
  where
    due :
        (k ≡ 0) ⊎ (start + k * interval ≤ last + interval)
        → (k' ≡ 0) ⊎ (start + k' * interval ≤ now + interval)
    due d = elim (Bool-cases (ltb k k')) [
      | inl t ↦ inr (c.due (ground (arith, t)))
      | inr f ↦
          let same : k' ≡ k = ground (arith, f, c.grown) in
          elim d [ inl z ↦ inl (same ∙ z) | inr x ↦ rw same (inr (omega (arith, x, l))) ]
    ]

if-IsTicking :
    (start interval k given : ℕ) (b : Bool) (x : Timerfd) {y : Timerfd}
    → b ≡ false
    → IsTicking start interval k given y
    → IsTicking start interval k given (if b then x else y)
if-IsTicking start interval k given true x e h = absurd (cc (e))
if-IsTicking start interval k given false x e h = h

module _ (start interval : ℕ) (p : 0 < interval) (w : interval < 2 ^ 62) where
  caught :
      (k given last now : ℕ) (t : Timerfd)
      → last ≤ now
      → now < 2 ^ 62
      → IsTicking start interval k given t
      → Passed start interval k last
      → (k' : ℕ) × IsTicking start interval k' given (catch_up (now + 1) now t)
        × Passed start interval k' now
  caught k given last now t l b h q =
      let many = ticks_bound start interval k last p q in
      let r =
        catch_up-IsTicking (now + 1) now start interval k given t p (omega arith) (omega arith)
          (omega (arith, many)) h in
      (r.0, r.1, Passed-on start interval k r.0 last now l q r.2)

  step-IsTicking :
      (o : Op) (k given last : ℕ) (t : Timerfd)
      → last ≤ time_of o
      → time_of o < 2 ^ 62
      → IsTicking start interval k given t
      → Passed start interval k last
      → let r = step o (t, given) in
        (k' : ℕ) × IsTicking start interval k' r.1 r.0 × Passed start interval k' (time_of o)
  unfolding step timerfd_expire_fn timerfd_collect
  step-IsTicking (callback now now2) k given last t l b h q =
      let r = caught k given last now t l b h q in
      let on : t.armed ≡ true = h.is_armed in
      (
        r.0,
        if-IsTicking start interval r.0 given (not t.armed) t (ap not on) (record {
          is_armed = r.1.is_armed;
          same_interval = r.1.same_interval;
          next = r.1.next;
          counted = r.1.counted;
        }),
        r.2,
      )
  step-IsTicking (collect now) k given last t l b h q =
      let r = caught k given last now t l b h q in
      (
        r.0,
        record {
          is_armed = r.1.is_armed;
          same_interval = r.1.same_interval;
          next = r.1.next;
          counted = omega (arith, r.1.counted);
        },
        r.2,
      )

  each_step-IsTicking :
      (os : List Op) (k given last : ℕ) (t : Timerfd)
      → InOrder last os
      → IsTicking start interval k given t
      → Passed start interval k last
      → let r = run os (t, given) in
        (k' : ℕ) × IsTicking start interval k' r.1 r.0
        × Passed start interval k' (last_time last os)
  unfolding run
  each_step-IsTicking [] k given last t i h q = (k, h, q)
  each_step-IsTicking (o ∷ os) k given last t i h q =
      let r = step-IsTicking o k given last t i.0 i.1 h q in
      each_step-IsTicking os r.0 (step o (t, given)).1 (time_of o) (step o (t, given)).0 i.2 r.1 r.2

-- A timer that is armed for `start`, after `last`, with an interval below 2 ^ 62 ms: after callbacks and
-- reads in any order, at times that do not go back and stay below 2 ^ 62, the expirations that were read
-- and those that wait are together the ticks up to the last of the times, none lost and none twice.
pub run_ticks :
    (start interval last : ℕ) (os : List Op) (t : Timerfd)
    → 0 < interval
    → interval < 2 ^ 62
    → last < start
    → t.armed ≡ true
    → t.interval_ms ≡ interval
    → t.expire_ms ≡ start
    → t.expirations ≡ 0
    → InOrder last os
    → let r = run os (t, 0) in Passed start interval (r.1 + r.0.expirations) (last_time last os)
run_ticks start interval last os t p w l a i e z o =
    let r =
      each_step-IsTicking start interval p w os 0 0 last t o
        (record {
          is_armed = a;
          same_interval = i;
          next = omega (arith, e);
          counted = omega (arith, z);
        })
        (omega arith, inl refl) in
    rw r.1.counted r.2
