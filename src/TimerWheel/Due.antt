-- ===== src/TimerWheel/Due.antt =====
-- When an entry of the wheel fires (src/kernel/core/timer_wheel.c).
use cosmo_rt.Common.{
  ℕ, zero, suc, ◌+◌, ◌-◌, ◌*◌, ◌%◌, ◌^◌, ◌<◌, ◌≡◌, ◌≢◌, refl, ◌∙◌, true, false, none, List, [], ◌∷◌,
  ltb, leb, ◌==◌, if◌then◌else◌, arith, Bool-cases, inl, inr, ◌⊎◌,
}
use mathlib.Core.Path.{subst}
use cosmo_rt.TimerWheel.{
  slots_count, Entry, Wheel, ticks_of, rounds_of, offset_of, new_entry, add, process, process_slot,
  tick_once, ticks,
}

abbrev pub Has : Entry → List Entry → Type 0
Has x [] = ⊥
Has x (e ∷ es) = (x ≡ e) ⊎ Has x es

-- The current slot is the one of the current tick.
abbrev pub IsAligned : Wheel → Type 0
IsAligned w = w.current_slot ≡ w.current_tick % slots_count

process-keep : (x : Entry) (es keep : List Entry) (n : ℕ) → Has x keep → Has x (process es keep n).0
unfolding process
process-keep x [] keep n h = h
process-keep x (e ∷ es) keep n h = elim (Bool-cases (ltb 0 e.rounds)) [
  | inl p ↦ rw p (process-keep x es (record e { rounds = e.rounds - 1 } ∷ keep) n (inr h))
  | inr p ↦ rw p (process-keep x es keep (n - 1) h)
]

-- An entry with a round left stays with one round less.
process-waits :
    (x : Entry) (es keep : List Entry) (n : ℕ)
    → Has x es
    → 0 < x.rounds
    → Has (record x { rounds = x.rounds - 1 }) (process es keep n).0
unfolding process
process-waits x [] keep n h p = elim h [ ]
process-waits x (e ∷ es) keep n (inl q) p =
    let yes_ : ltb 0 e.rounds ≡ true = ground arith in
    rw (yes_, q)
      (process-keep (record e { rounds = e.rounds - 1 }) es
        (record e { rounds = e.rounds - 1 } ∷ keep) n (inl refl))
process-waits x (e ∷ es) keep n (inr h) p = elim (Bool-cases (ltb 0 e.rounds)) [
  | inl q ↦ rw q (process-waits x es (record e { rounds = e.rounds - 1 } ∷ keep) n h p)
  | inr q ↦ rw q (process-waits x es keep (n - 1) h p)
]

-- An entry with no round left fires.
process-fires :
    (x : Entry) (es keep : List Entry) (n : ℕ)
    → Has x es
    → x.rounds ≡ 0
    → Has (record x { slot = none }) (process es keep n).1
unfolding process
process-fires x [] keep n h p = elim h [ ]
process-fires x (e ∷ es) keep n (inl q) p =
    let no_ : ltb 0 e.rounds ≡ false = ground arith in rw (no_, q) (inl refl)
process-fires x (e ∷ es) keep n (inr h) p = elim (Bool-cases (ltb 0 e.rounds)) [
  | inl q ↦ rw q (process-fires x es (record e { rounds = e.rounds - 1 } ∷ keep) n h p)
  | inr q ↦ rw q (inr (process-fires x es keep (n - 1) h p))
]

due_here :
    (k p c s r : ℕ)
    → c < 256
    → s ≡ (c + 1) % 256
    → p ≡ s
    → suc k ≡ (p + 255 - c) % 256 + 1 + 256 * r
    → 0 < r
    → k ≡ (p + 255 - s) % 256 + 1 + 256 * (r - 1)
due_here k p c s r a b d e f = omega arith

due_elsewhere :
    (k p c s r : ℕ)
    → c < 256
    → p < 256
    → s ≡ (c + 1) % 256
    → p ≢ s
    → suc k ≡ (p + 255 - c) % 256 + 1 + 256 * r
    → k ≡ (p + 255 - s) % 256 + 1 + 256 * r
due_elsewhere k p c s r a b d e f = omega arith

due_now :
    (k p c s r : ℕ)
    → c < 256
    → s ≡ (c + 1) % 256
    → p ≡ s
    → suc k ≡ (p + 255 - c) % 256 + 1 + 256 * r
    → r ≡ 0
    → k ≡ 0
due_now k p c s r a b d e f = omega arith

-- The same timer: its action, its context and its tick of expiry.
pub record IsTimer (action ctx expiry : ℕ) (x : Entry) : Type 0 where
  pub same_action : x.action ≡ action
  pub same_ctx : x.ctx ≡ ctx
  pub same_expiry : x.expiry_tick ≡ expiry

module _ (action ctx expiry : ℕ) where
  -- The timer stands in a slot of the wheel, and is due in `k` ticks.
  pub record IsPending (k : ℕ) (w : Wheel) : Type 0 where
    pub entry : Entry
    pub place : ℕ
    pub in_range : place < slots_count
    pub linked : Has entry (w.slots place)
    pub timer : IsTimer action ctx expiry entry
    pub due : k ≡ (place + 255 - w.current_slot) % 256 + 1 + 256 * entry.rounds

  -- The timer is among the entries that fire.
  pub record Fires (fired : List Entry) : Type 0 where
    pub entry : Entry
    pub fired_in : Has entry fired
    pub timer : IsTimer action ctx expiry entry

  -- A tick fires a timer that is due in one tick, and brings any other one tick nearer.
  pub tick_once-IsPending :
      (k : ℕ) (w : Wheel)
      → IsAligned w
      → IsPending (suc k) w
      → ((k ≡ 0) × Fires (tick_once w).1) ⊎ IsPending k (tick_once w).0
  unfolding tick_once process_slot
  tick_once-IsPending k w al p =
      let s = (w.current_tick + 1) % 2 ^ 64 % slots_count in
      let q = process (w.slots s) [] w.active_count in
      let small : w.current_slot < 256 = omega arith in
      let next : s ≡ (w.current_slot + 1) % 256 = omega arith in
      elim (Bool-cases (p.place == s)) [
        | inl e ↦
            let here : p.place ≡ s = ground arith in
            let linked : Has p.entry (w.slots s) = rw here at p.linked in
            elim (zero_or p.entry.rounds) [
              | inl z ↦ inl (
                due_now k p.place w.current_slot s p.entry.rounds small next here p.due z,
                record {
                  entry = record p.entry { slot = none };
                  fired_in = process-fires p.entry (w.slots s) [] w.active_count linked z;
                  timer = record {
                    same_action = p.timer.same_action;
                    same_ctx = p.timer.same_ctx;
                    same_expiry = p.timer.same_expiry;
                  };
                },
              )
              | inr pos_ ↦ inr (record {
                entry = record p.entry { rounds = p.entry.rounds - 1 };
                place = p.place;
                in_range = p.in_range;
                linked = rw e (process-waits p.entry (w.slots s) [] w.active_count linked pos_);
                timer = record {
                  same_action = p.timer.same_action;
                  same_ctx = p.timer.same_ctx;
                  same_expiry = p.timer.same_expiry;
                };
                due = due_here k p.place w.current_slot s p.entry.rounds small next here p.due pos_;
              })
            ]
        | inr e ↦ inr (record {
          entry = p.entry;
          place = p.place;
          in_range = p.in_range;
          linked = rw e p.linked;
          timer = p.timer;
          due =
              due_elsewhere k p.place w.current_slot s p.entry.rounds small p.in_range next (ne e)
                p.due;
        })
      ]
    where
      ne : {a b : ℕ} → (a == b) ≡ false → a ≢ b
      ne h = ground arith

      zero_or : (n : ℕ) → (n ≡ 0) ⊎ (0 < n)
      zero_or n = ground arith

  tick_once-IsAligned : (w : Wheel) → IsAligned (tick_once w).0
  unfolding tick_once process_slot
  tick_once-IsAligned w = refl

  -- A timer that is due in `j + k` ticks is due in `k` after `j` ticks, for `k` at least 1.
  pub ticks-IsPending :
      (j k : ℕ) (w : Wheel)
      → IsAligned w
      → IsPending (j + suc k) w
      → IsPending (suc k) (ticks j w).0 × IsAligned (ticks j w).0
  unfolding ticks
  ticks-IsPending zero k w al p =
      let e : 0 + suc k ≡ suc k = omega arith in (subst (λ n. IsPending n w) e p, al)
  ticks-IsPending (suc j) k w al p =
      let e : suc j + suc k ≡ suc (j + suc k) = omega arith in
      elim (tick_once-IsPending (j + suc k) w al (subst (λ n. IsPending n w) e p)) [
        | inl q ↦ absurd (omega (arith, q.0))
        | inr q ↦ ticks-IsPending j k (tick_once w).0 (tick_once-IsAligned w) q
      ]

-- After how many ticks a timeout fires.
abbrev pub delay : ℕ → ℕ
delay timeout =
    if leb timeout 256 then timeout else if timeout % 256 == 0 then timeout else timeout - 256

offset-rounds-delay :
    (t : ℕ) → 0 < t → t < 2 ^ 24 → delay t ≡ (offset_of t + 255) % 256 + 1 + 256 * rounds_of t
unfolding offset_of rounds_of
offset-rounds-delay t p q = ground arith

-- A timer that is added on an aligned wheel with a timeout from 1 to 2 ^ 24 - 1 is due after
-- `delay timeout` ticks: the timeout, if it is at most 256 or a multiple of 256, and 256 ticks
-- less, if it is any other.
pub add-IsPending :
    (action ctx timeout : ℕ) (w : Wheel)
    → IsAligned w
    → 0 < timeout
    → timeout < 2 ^ 24
    → IsPending action ctx
        ((w.current_tick + timeout) % 2 ^ 32)
        (delay timeout)
        (add true action ctx timeout w).0
unfolding add
add-IsPending action ctx timeout w al p q =
    let same : ticks_of timeout ≡ timeout = ground arith in
    let target = (w.current_slot + offset_of timeout) % slots_count in
    let x = new_entry action ctx timeout w in
    let self : (target == target) ≡ true = ground arith in
    rw same (record {
      entry = x;
      place = target;
      in_range = omega arith;
      linked = rw self (inl refl);
      timer =
          unfold new_entry in record { same_action = refl; same_ctx = refl; same_expiry = refl };
      due =
          offset-rounds-delay timeout p q
          ∙ place_due w.current_slot (offset_of timeout) (rounds_of timeout) (omega arith);
    })
  where
    place_due :
        (c o r : ℕ)
        → c < 256
        → (o + 255) % 256 + 1 + 256 * r ≡ ((c + o) % 256 + 255 - c) % 256 + 1 + 256 * r
    place_due c o r h = omega arith

-- On an aligned wheel a timer that is added with a timeout from 1 to 2 ^ 24 - 1 is among the entries
-- that fire at the tick number `delay timeout` after it, where nothing but ticks happens meanwhile.
pub add-Fires :
    (action ctx timeout : ℕ) (w : Wheel)
    → IsAligned w
    → 0 < timeout
    → timeout < 2 ^ 24
    → let w' = (add true action ctx timeout w).0 in
      Fires action ctx
        ((w.current_tick + timeout) % 2 ^ 32)
        (tick_once (ticks (delay timeout - 1) w').0).1
add-Fires action ctx timeout w al p q =
    let expiry = (w.current_tick + timeout) % 2 ^ 32 in
    let w' = (add true action ctx timeout w).0 in
    let positive : 0 < delay timeout = ground arith in
    let e : delay timeout ≡ delay timeout - 1 + suc 0 = omega arith in
    let pending : IsPending action ctx expiry (delay timeout - 1 + suc 0) w' =
      subst (λ n. IsPending action ctx expiry n w') e (add-IsPending action ctx timeout w al p q) in
    let after =
      ticks-IsPending action ctx expiry (delay timeout - 1) 0 w'
        (add-IsAligned action ctx timeout w al) pending in
    elim (tick_once-IsPending action ctx expiry 0 (ticks (delay timeout - 1) w').0 after.1
      after.0) [ inl f ↦ f.1 | inr f ↦ absurd (omega (arith, f.due)) ]
  where
    add-IsAligned :
        (action ctx timeout : ℕ) (w : Wheel)
        → IsAligned w
        → IsAligned (add true action ctx timeout w).0
    add-IsAligned action ctx timeout w al = unfold add in al
