-- ===== src/TimerWheel/Count.antt =====
-- `active_count` of the wheel counts the entries of its slots (src/kernel/core/timer_wheel.c).
use cosmo_rt.Common.{
  ℕ, zero, suc, ◌+◌, ◌-◌, ◌*◌, ◌%◌, ◌^◌, ◌≤◌, ◌<◌, min, ◌≡◌, refl, ◌∙◌, ap, Bool, true, false, List,
  [], ◌∷◌, length, length-append, ltb, ◌==◌, arith, Bool-cases, inl, inr,
}
use native.Mathlib.Nat.{zero-add}
use cosmo_rt.TimerWheel.{
  slots_count, Entry, Wheel, init, update, ticks_of, offset_of, new_entry, add, cancel_slot,
  cancel_from, cancel, process, process_slot, tick_once, ticks, tick, elapsed_of,
}

-- The entries of the slots below `n`.
pub entries_below : ℕ → (ℕ → List Entry) → ℕ
entries_below zero f = 0
entries_below (suc n) f = entries_below n f + length (f n)

-- The count is that of the entries in the 256 slots, and the current slot is one of them.
pub record IsCounted (w : Wheel) : Type 0 where
  pub counted : w.active_count ≡ entries_below slots_count w.slots

update_above :
    (n s : ℕ) (f : ℕ → List Entry) (v : List Entry)
    → n ≤ s
    → entries_below n (update f s v) ≡ entries_below n f
unfolding entries_below
update_above zero s f v h = refl
update_above (suc n) s f v h =
    let other : (n == s) ≡ false = ground arith in
    rw other (ap (λ k. k + length (f n)) (update_above n s f v (omega arith)))

pub entries-update :
    (n s : ℕ) (f : ℕ → List Entry) (v : List Entry)
    → s < n
    → entries_below n (update f s v) + length (f s) ≡ entries_below n f + length v
unfolding entries_below
entries-update zero s f v h = absurd (omega arith)
entries-update (suc n) s f v h = elim (Bool-cases (n == s)) [
  | inl e ↦
      let same : n ≡ s = ground arith in
      let below = update_above n s f v (omega arith) in
      rw e (let at : length (f n) ≡ length (f s) = ap (λ k. length (f k)) same in omega arith)
  | inr e ↦ rw e (omega (arith, entries-update n s f v (ground arith)))
]

process_counts :
    (es keep : List Entry) (n : ℕ)
    → (length (process es keep n).0 + length (process es keep n).1 ≡ length keep + length es)
      × ((process es keep n).2 ≡ n - length (process es keep n).1)
unfolding process
process_counts [] keep n = omega arith
process_counts (e ∷ es) keep n = elim (Bool-cases (ltb 0 e.rounds)) [
  | inl p ↦
      let ih = process_counts es (record e { rounds = e.rounds - 1 } ∷ keep) n in
      rw p (omega arith, ih.1)
  | inr p ↦ let ih = process_counts es keep (n - 1) in rw p (omega arith, omega arith)
]

cancel_slot_counts :
    (ctx : ℕ) (es : List Entry) → length (cancel_slot ctx es).0 + (cancel_slot ctx es).1 ≡ length es
unfolding cancel_slot
cancel_slot_counts ctx [] = omega arith
cancel_slot_counts ctx (e ∷ es) = elim (Bool-cases (e.ctx == ctx)) [
  | inl p ↦ rw p (omega (arith, cancel_slot_counts ctx es))
  | inr p ↦ rw p (omega (arith, cancel_slot_counts ctx es))
]

length-le-entries : (n s : ℕ) (f : ℕ → List Entry) → s < n → length (f s) ≤ entries_below n f
length-le-entries n s f h = omega (arith, entries-update n s f [] h)

pub init-IsCounted : (now : ℕ) → IsCounted (init now)
unfolding init entries_below
init-IsCounted now = record { counted = none_below slots_count }
  where
    none_below : (n : ℕ) → 0 ≡ entries_below n (λ s. [])
    none_below zero = refl
    none_below (suc n) = omega (arith, none_below n)

-- Adding a timer keeps `active_count` the number of the entries in the slots, whether or not the slab has an entry.
pub add-IsCounted :
    (allocated : Bool) (action ctx timeout : ℕ) (w : Wheel)
    → IsCounted w
    → IsCounted (add allocated action ctx timeout w).0
unfolding add
add-IsCounted false action ctx timeout w h = h
add-IsCounted true action ctx timeout w h =
    let t = ticks_of timeout in
    let s = (w.current_slot + offset_of t) % slots_count in
    record {
      counted = omega (
        arith,
        h.counted,
        entries-update slots_count s w.slots (new_entry action ctx t w ∷ w.slots s) (omega arith),
      );
    }

cancel_from-IsCounted :
    (n s ctx : ℕ) (w : Wheel) (cancelled : ℕ)
    → s + n ≤ slots_count
    → IsCounted w
    → IsCounted (cancel_from n s ctx w cancelled).0
      × ((cancel_from n s ctx w cancelled).1 + (cancel_from n s ctx w cancelled).0.active_count
          ≡ cancelled + w.active_count)
unfolding cancel_from
cancel_from-IsCounted zero s ctx w c b h = (h, refl)
cancel_from-IsCounted (suc n) s ctx w c b h =
    let (stay, k) = cancel_slot ctx (w.slots s) in
    let w' = record w { slots = update w.slots s stay; active_count = w.active_count - k } in
    let sizes = cancel_slot_counts ctx (w.slots s) in
    let fits = length-le-entries slots_count s w.slots (omega arith) in
    let h' : IsCounted w' = record {
      counted = omega (arith, h.counted, entries-update slots_count s w.slots stay (omega arith));
    } in
    let rest = cancel_from-IsCounted n (s + 1) ctx w' (c + k) (omega arith) h' in
    (rest.0, omega (arith, rest.1, h.counted))

-- Cancelling keeps `active_count` the number of the entries in the slots, and reports by how much it
-- falls.
pub cancel-IsCounted :
    (ctx : ℕ) (w : Wheel)
    → IsCounted w
    → IsCounted (cancel ctx w).0
      × ((cancel ctx w).1 + (cancel ctx w).0.active_count ≡ w.active_count)
unfolding cancel
cancel-IsCounted ctx w h =
    let r = cancel_from-IsCounted slots_count 0 ctx w 0 (omega arith) h in
    (r.0, r.1 ∙ zero-add w.active_count)

tick_once-IsCounted :
    (w : Wheel)
    → IsCounted w
    → IsCounted (tick_once w).0
      × ((tick_once w).0.active_count + length (tick_once w).1 ≡ w.active_count)
unfolding tick_once process_slot
tick_once-IsCounted w h =
    let s = (w.current_tick + 1) % 2 ^ 64 % slots_count in
    let q = process (w.slots s) [] w.active_count in
    let sizes = process_counts (w.slots s) [] w.active_count in
    let fits = length-le-entries slots_count s w.slots (omega arith) in
    (
      record {
        counted = omega (arith, h.counted, entries-update slots_count s w.slots q.0 (omega arith));
      },
      omega (arith, h.counted),
    )

ticks-IsCounted :
    (n : ℕ) (w : Wheel)
    → IsCounted w
    → IsCounted (ticks n w).0 × ((ticks n w).0.active_count + length (ticks n w).1 ≡ w.active_count)
unfolding ticks
ticks-IsCounted zero w h = (h, omega arith)
ticks-IsCounted (suc n) w h =
    let once = tick_once-IsCounted w h in
    let rest = ticks-IsCounted n (tick_once w).0 once.0 in
    (
      rest.0,
      omega (arith, once.1, rest.1, length-append (tick_once w).1 (ticks n (tick_once w).0).1),
    )

-- A tick at any time keeps `active_count` the number of the entries in the slots; it falls by the
-- number of the entries that fire.
pub tick-IsCounted :
    (now : ℕ) (w : Wheel)
    → IsCounted w
    → IsCounted (tick now w).0
      × ((tick now w).0.active_count + length (tick now w).1 ≡ w.active_count)
unfolding tick
tick-IsCounted now w h = elim (Bool-cases (w.last_ms == 0)) [
  | inl e ↦ rw e (record { counted = h.counted }, omega arith)
  | inr e ↦ elim (Bool-cases (elapsed_of now w.last_ms == 0)) [
    | inl f ↦ rw (e, f) (h, omega arith)
    | inr f ↦
        let r = ticks-IsCounted (min (elapsed_of now w.last_ms) (slots_count * 2)) w h in
        rw (e, f) (record { counted = r.0.counted }, r.1)
  ]
]
