-- ===== src/TimerWheel.antt =====
-- The timer wheel of src/kernel/core/timer_wheel.c: 256 slots of entries, one slot visited for each
-- tick of a millisecond. The callbacks that `tw_fire` makes are the list of the entries that fire;
-- what a callback does to the wheel itself is not modelled.
pub mod Due
pub mod Count
mod Tests
use cosmo_rt.Common.{
  ℕ, zero, suc, ◌+◌, ◌-◌, ◌*◌, ◌/◌, ◌%◌, ◌^◌, Bool, true, false, Option, none, some, List, [], ◌∷◌,
  ◌++◌, ltb, leb, ◌==◌, if◌then◌else◌, min,
}

abbrev pub slots_count : ℕ
slots_count = 256

-- `tw_entry_t`; the slot -1 of an entry that fires is `none`.
pub record Entry : Type 0 where
  pub action : ℕ
  pub ctx : ℕ
  pub expiry_tick : ℕ
  pub rounds : ℕ
  pub slot : Option ℕ

-- `timer_wheel_t`, with `tw_last_ms`.
pub record Wheel : Type 0 where
  pub slots : ℕ → List Entry
  pub current_tick : ℕ
  pub current_slot : ℕ
  pub active_count : ℕ
  pub last_ms : ℕ

pub init : (now : ℕ) → Wheel
init now = record {
  slots = λ s. [];
  current_tick = 0;
  current_slot = 0;
  active_count = 0;
  last_ms = now;
}

abbrev pub update : (ℕ → List Entry) → ℕ → List Entry → ℕ → List Entry
update f s v i = if i == s then v else f i

-- A timeout of 0 is one of 1.
abbrev pub ticks_of : ℕ → ℕ
ticks_of timeout = if timeout == 0 then 1 else timeout

-- `(uint16_t)`
pub rounds_of : ℕ → ℕ
rounds_of ticks = (if ltb slots_count ticks then ticks / slots_count - 1 else 0) % 2 ^ 16

pub offset_of : ℕ → ℕ
offset_of ticks =
    let off = if leb ticks slots_count then ticks else ticks % slots_count in
    if off == 0 then slots_count else off

pub new_entry : (action ctx ticks : ℕ) → Wheel → Entry
unfolding rounds_of offset_of
new_entry action ctx ticks w = record {
  action = action;
  ctx = ctx;
  expiry_tick = (w.current_tick + ticks) % 2 ^ 32;
  rounds = rounds_of ticks;
  slot = some ((w.current_slot + offset_of ticks) % slots_count);
}

-- `allocated` is whether the slab has an entry. The result is `false` for -1.
pub add : (allocated : Bool) → (action ctx timeout : ℕ) → Wheel → Wheel × Bool
unfolding new_entry
add false action ctx timeout w = (w, false)
add true action ctx timeout w =
    let ticks = ticks_of timeout in
    let target = (w.current_slot + offset_of ticks) % slots_count in
    (
      record w {
        slots = update w.slots target (new_entry action ctx ticks w ∷ w.slots target);
        active_count = w.active_count + 1;
      },
      true,
    )

-- One slot of `timer_wheel_cancel`: the entries that stay, and how many are cancelled.
pub cancel_slot : (ctx : ℕ) → List Entry → List Entry × ℕ
cancel_slot ctx [] = ([], 0)
cancel_slot ctx (e ∷ es) =
    let (stay, n) = cancel_slot ctx es in if e.ctx == ctx then (stay, n + 1) else (e ∷ stay, n)

-- The loop over the slots, from `s` on for `n` slots, with the count of the cancelled so far.
pub cancel_from : (n s ctx : ℕ) → Wheel → (cancelled : ℕ) → Wheel × ℕ
unfolding cancel_slot
cancel_from zero s ctx w cancelled = (w, cancelled)
cancel_from (suc n) s ctx w cancelled =
    let (stay, k) = cancel_slot ctx (w.slots s) in
    cancel_from n (s + 1) ctx
      (record w { slots = update w.slots s stay; active_count = w.active_count - k })
      (cancelled + k)

pub cancel : (ctx : ℕ) → Wheel → Wheel × ℕ
unfolding cancel_from
cancel ctx w = cancel_from slots_count 0 ctx w 0

-- The loop of `tw_process_slot`: the kept entries in front of `keep`, the fired ones in order, and
-- the count of active entries.
pub process : List Entry → (keep : List Entry) → (active : ℕ) → List Entry × List Entry × ℕ
process [] keep active = (keep, [], active)
process (e ∷ es) keep active =
    let waits = process es (record e { rounds = e.rounds - 1 } ∷ keep) active in
    let fires = process es keep (active - 1) in
    if ltb 0 e.rounds then waits else (fires.0, record e { slot = none } ∷ fires.1, fires.2)

pub process_slot : (slot : ℕ) → Wheel → Wheel × List Entry
unfolding process
process_slot slot w =
    let (keep, fired, active) = process (w.slots slot) [] w.active_count in
    (record w { slots = update w.slots slot keep; active_count = active }, fired)

-- One round of the loop of `timer_wheel_tick`.
pub tick_once : Wheel → Wheel × List Entry
unfolding process_slot
tick_once w =
    let t = (w.current_tick + 1) % 2 ^ 64 in
    process_slot (t % slots_count) (record w { current_tick = t; current_slot = t % slots_count })

pub ticks : ℕ → Wheel → Wheel × List Entry
unfolding tick_once
ticks zero w = (w, [])
ticks (suc n) w =
    let (w', fired) = tick_once w in let (w'', later) = ticks n w' in (w'', fired ++ later)

-- `now - tw_last_ms` on `uint64_t`
abbrev pub elapsed_of : (now last : ℕ) → ℕ
elapsed_of now last = (now + 2 ^ 64 - last) % 2 ^ 64

pub tick : (now : ℕ) → Wheel → Wheel × List Entry
unfolding ticks
tick now w =
    if w.last_ms == 0
    then (record w { last_ms = now }, [])
    else if elapsed_of now w.last_ms == 0
    then (w, [])
    else (let (w', fired) = ticks (min (elapsed_of now w.last_ms) (slots_count * 2)) w in
        (record w' { last_ms = now }, fired))
