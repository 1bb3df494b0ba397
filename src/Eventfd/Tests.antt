-- ===== src/Eventfd/Tests.antt =====
-- Event counters at concrete values (src/kernel/event/eventfd.c).
use cosmo_rt.Common.{
  ◌+◌, ◌-◌, ◌^◌, ◌≡◌, ◌⊎◌, if◌then◌else◌, ◌≤◌, ◌<◌, refl, true, false, none, some, [], ◌∷◌, arith,
  err, einval, emfile, eintr,
}
use cosmo_rt.Common.Int.{pos}
use cosmo_rt.Eventfd.{
  Eventfd, Round, done, failed, asleep, try_read, try_write, read_loop, write_loop, read, write,
  do_eventfd2, max_val, has_flag,
}
use cosmo_rt.Eventfd.Laws.{run_conserves, try_exact, Totals, get, put, run, IsBounded}
use cosmo_rt.Eventfd.Blocking.{read_loop_wakes, read_loop_interrupted, write_loop_wakes}

abbrev zeroed : Eventfd
zeroed = record { counter = 0; flags = 0; refcount = 1 }

abbrev full : Eventfd
full = record { counter = max_val; flags = 0; refcount = 1 }

-- A round that another thread spends on nothing, one that writes 5, and one that reads.
abbrev quiet : Round
quiet = record { signal = false; others = λ e. e }

abbrev writes_5 : Round
writes_5 = record { signal = false; others = λ e. record e { counter = 5 } }

abbrev empties : Round
empties = record { signal = false; others = λ e. record e { counter = 0 } }

abbrev interrupted : Round
interrupted = record { signal = true; others = λ e. e }

read_after_sleep : read_loop (quiet ∷ writes_5 ∷ quiet ∷ []) zeroed ≡ (zeroed, done 5)
unfolding read_loop try_read has_flag
read_after_sleep = refl

still_asleep : (read (pos 8) false (quiet ∷ []) (some zeroed)).1 ≡ asleep
unfolding read read_loop try_read has_flag
still_asleep = refl

no_all_ones : (write (pos 8) (2 ^ 64 - 1) false [] (some zeroed)).1 ≡ failed einval
unfolding write write_loop try_write
no_all_ones = refl

unknown_flag : (do_eventfd2 3 2 true true (some 4)).reply ≡ err einval
unfolding do_eventfd2
unknown_flag = refl

table_full : (do_eventfd2 3 1 true true none).reply ≡ err emfile
unfolding do_eventfd2
table_full = refl

abbrev start : Totals
start = record { final = zeroed; taken = 0; given = 0 }

abbrev after : Totals
after = run (put 3 ∷ put 4 ∷ get ∷ put 1 ∷ []) start

run_conserves_example :
    IsBounded after.final × (after.final.counter + after.taken + 0 ≡ 0 + 0 + after.given)
run_conserves_example =
    run_conserves (put 3 ∷ put 4 ∷ get ∷ put 1 ∷ []) start
      (omega arith, (omega arith, (tt, (omega arith, tt)))) (omega arith)

try_exact_run :
    ((try_read zeroed ≡ (zeroed, none)) × (zeroed.counter ≡ 0)
      ⊎ (try_read zeroed ≡ (
        record { counter = if has_flag 0 1 then 0 - 1 else 0; flags = 0; refcount = 1 },
        some (if has_flag 0 1 then 1 else 0),
      ))
        × (0 < 0))
    × ((try_write 9 zeroed ≡ (zeroed, false)) × (max_val < 0 + 9)
        ⊎ (try_write 9 zeroed ≡ (record { counter = 0 + 9; flags = 0; refcount = 1 }, true))
          × (0 + 9 ≤ max_val))
try_exact_run = try_exact 9 zeroed (omega arith) (omega arith)

read_loop_wakes_run : read_loop (quiet ∷ writes_5 ∷ interrupted ∷ []) zeroed ≡ (
  record { counter = if has_flag 0 1 then 5 - 1 else 0; flags = 0; refcount = 1 },
  done (if has_flag 0 1 then 1 else 5),
)
read_loop_wakes_run =
    read_loop_wakes (quiet ∷ writes_5 ∷ []) interrupted [] zeroed
      (record { counter = 5; flags = 0; refcount = 1 }) (refl, refl, (refl, refl, refl))
      (omega arith)

interrupted_reader : read_loop (quiet ∷ interrupted ∷ []) zeroed ≡ (zeroed, failed eintr)
interrupted_reader =
    read_loop_interrupted (quiet ∷ []) interrupted [] zeroed zeroed (refl, refl, refl) refl refl

write_loop_wakes_run :
    write_loop 2 (empties ∷ quiet ∷ []) full
    ≡ (record { counter = 0 + 2; flags = 0; refcount = 1 }, done 8)
write_loop_wakes_run =
    write_loop_wakes 2 (empties ∷ []) quiet [] full zeroed (omega arith, refl, refl) (omega arith)
