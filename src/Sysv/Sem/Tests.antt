-- ===== src/Sysv/Sem/Tests.antt =====
-- A set of two semaphores (src/kernel/ipc/sysv_ipc.c).
use cosmo_rt.Common.{◌+◌, ◌≤◌, ◌≡◌, refl, false, some, List, [], ◌∷◌, ok, arith, inr}
use cosmo_rt.Common.Int.{pos, negsuc}
use cosmo_rt.Sysv.{Caller, has_flag, first_from, lookup}
use cosmo_rt.Sysv.Sem.{
  Sembuf, Semsets, do_semget, cleared_upto, do_semop, in_range, try_ops, apply_ops, do_semctl,
  SemCommand,
}
use cosmo_rt.Sysv.Sem.Values.{Bounded}
use cosmo_rt.Sysv.Sem.Apply.{Semops, do_semop-Semops}
use cosmo_rt.Sysv.Sem.Holders.{acquire, release, run, step, run-IsShared}

abbrev me : Caller
me = record { pid = 7; time = 100 }

abbrev no_sets : Semsets
no_sets = λ i. record {
  used = false;
  key = 0;
  nsems = 0;
  vals = λ j. 0;
  pids = λ j. 0;
  otime = 0;
  ctime = 0;
  mode = 0;
  owner = (0, 0, 0, 0);
}

-- Two semaphores, the first with two places.
abbrev two_places : Semsets
two_places =
    (do_semctl me (pos 0) (pos 0) (SemCommand.setval 2) (do_semget me 5 (pos 2) 896 no_sets).0).0

two_places-Bounded : Bounded (two_places 0).vals
unfolding do_semget do_semctl lookup first_from has_flag cleared_upto
two_places-Bounded = λ j. ground arith

-- Take one place and wait for the other semaphore to be 0.
abbrev both : List Sembuf
both = record { sem_num = 0; sem_op = 65535 } ∷ record { sem_num = 1; sem_op = 0 } ∷ []

do_semop-Semops_example : Semops me 0 both two_places (do_semop me (pos 0) 2 (some both) two_places)
do_semop-Semops_example = do_semop-Semops me 0 both two_places two_places-Bounded

both_done : (do_semop me (pos 0) 2 (some both) two_places).1 ≡ ok 0
unfolding do_semget do_semctl lookup first_from has_flag cleared_upto do_semop in_range try_ops
    apply_ops
both_done = refl

places_of_two : (two_places 0).vals 0 ≡ 2
unfolding do_semget do_semctl lookup first_from has_flag cleared_upto
places_of_two = refl

run-IsShared_example :
    let r = run 0 0 (acquire me ∷ acquire me ∷ acquire me ∷ release me ∷ []) (two_places, 0) in
    ((r.0 0).vals 0 + r.1 ≡ 2) × (r.1 ≤ 2)
run-IsShared_example =
    run-IsShared 0 0 2 (acquire me ∷ acquire me ∷ acquire me ∷ release me ∷ []) two_places
      (omega arith) places_of_two two_places-Bounded

two_held : (run 0 0 (acquire me ∷ acquire me ∷ acquire me ∷ []) (two_places, 0)).1 ≡ 2
unfolding do_semget do_semctl lookup first_from has_flag cleared_upto do_semop in_range try_ops
    apply_ops run step
two_held = refl

abbrev full : Semsets
full = (do_semctl me (pos 0) (pos 0) (SemCommand.setval 32767) two_places).0

-- One more than the largest value is the smallest.
value_wraps :
    (do_semctl me
      (pos 0)
      (pos 0)
      SemCommand.getval
      (do_semop me (pos 0) 1 (some (record { sem_num = 0; sem_op = 1 } ∷ [])) full).0).1
    ≡ inr (negsuc 32767)
unfolding do_semget do_semctl lookup first_from has_flag cleared_upto do_semop in_range try_ops
    apply_ops
value_wraps = refl
