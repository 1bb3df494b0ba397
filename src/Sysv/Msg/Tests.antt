-- ===== src/Sysv/Msg/Tests.antt =====
-- Two queues and a few messages (src/kernel/ipc/sysv_ipc.c).
use cosmo_rt.Common.{◌≡◌, refl, false, true, none, some, [], ◌∷◌, ok, err, Errno, arith}
use cosmo_rt.Common.Int.{pos}
use cosmo_rt.Sysv.{Caller, has_flag, first_from, lookup}
use cosmo_rt.Sysv.Msg.{
  Queue, Queues, new_queue, do_msgget, enqueue, do_msgsnd, find_msg, dequeue, do_msgrcv, do_msgctl,
  rmid, Copies,
}
use cosmo_rt.Sysv.Msg.Chain.{IsQueue, contents}
use cosmo_rt.Sysv.Msg.Send.{do_msgsnd-IsQueue}
use cosmo_rt.Sysv.Msg.Receive.{Receives, do_msgrcv-Receives}
use cosmo_rt.Sysv.Msg.Keys.{IsKeyed, Gets, do_msgget-Gets}
use cosmo_rt.Sysv.Msg.Others.{Kept, do_msgsnd-Kept, do_msgrcv-Kept}

abbrev whole : Copies
whole = record { kind_copied = true; bytes_copied = true }

abbrev me : Caller
me = record { pid = 7; time = 100 }

abbrev unused : Queue
unused = record (new_queue me 0 0) { used = false }

abbrev no_queues : Queues
no_queues = record {
  table = λ i. unused;
  next = λ a. none;
  message = λ a. record { mtype = 0; size = 0; data_ = [] };
}

-- IPC_CREAT and mode 0600
abbrev two_queues : Queues
two_queues = (do_msgget me 9 896 (do_msgget me 5 896 no_queues).0).0

no_queues-IsKeyed : IsKeyed no_queues
no_queues-IsKeyed = record { keyed = λ i j p q u v e n. absurd (ground (arith, u)) }

do_msgget-Gets_example : Gets 5 no_queues (do_msgget me 5 896 no_queues)
do_msgget-Gets_example = do_msgget-Gets me 5 896 no_queues no_queues-IsKeyed

gets_second : (do_msgget me 9 896 (do_msgget me 5 896 no_queues).0).1 ≡ ok 1
unfolding do_msgget lookup first_from has_flag
gets_second = refl

exclusive_refused : (do_msgget me 9 1920 two_queues).1 ≡ err Errno.eexist
unfolding do_msgget lookup first_from has_flag
exclusive_refused = refl

first-IsQueue : IsQueue two_queues 0 []
unfolding do_msgget lookup first_from has_flag
first-IsQueue = record {
  used_ = refl;
  chain = refl;
  distinct = tt;
  last = refl;
  counted = refl;
  summed = refl;
}

second-IsQueue : IsQueue two_queues 1 []
unfolding do_msgget lookup first_from has_flag
second-IsQueue = record {
  used_ = refl;
  chain = refl;
  distinct = tt;
  last = refl;
  counted = refl;
  summed = refl;
}

abbrev sent_one : Queues
sent_one = (do_msgsnd me (pos 0) (some (pos 3)) 2 (some (104 ∷ 105 ∷ [])) (some 40) two_queues).0

do_msgsnd-IsQueue_example :
    let r = do_msgsnd me (pos 0) (some (pos 3)) 2 (some (104 ∷ 105 ∷ [])) (some 40) two_queues in
    (r.1 ≡ ok 0)
    × IsQueue r.0 0 (40 ∷ [])
    × (contents r.0 (40 ∷ []) ≡ record { mtype = 3; size = 2; data_ = 104 ∷ 105 ∷ [] } ∷ [])
unfolding do_msgget lookup first_from has_flag
do_msgsnd-IsQueue_example =
    do_msgsnd-IsQueue me 0 2 40 (104 ∷ 105 ∷ []) two_queues [] (omega arith) (omega arith)
      (omega arith) (omega arith) tt first-IsQueue

abbrev sent_two : Queues
sent_two = (do_msgsnd me (pos 0) (some (pos 4)) 1 (some (120 ∷ [])) (some 41) sent_one).0

sent_two-IsQueue : IsQueue sent_two 0 (40 ∷ 41 ∷ [])
unfolding do_msgsnd do_msgget lookup first_from has_flag enqueue
sent_two-IsQueue = record {
  used_ = refl;
  chain = (refl, (refl, refl));
  distinct = (((λ e. omega (arith, e)), tt), (tt, tt));
  last = refl;
  counted = refl;
  summed = refl;
}

do_msgrcv-Receives_example :
    Receives whole 0 10
      (pos 4)
      0
      sent_two
      (40 ∷ 41 ∷ [])
      (do_msgrcv me whole (pos 0) 10 (pos 4) 0 sent_two)
do_msgrcv-Receives_example =
    do_msgrcv-Receives me whole 0 10 (pos 4) 0 sent_two (40 ∷ 41 ∷ []) (omega arith)
      sent_two-IsQueue

second_by_type : (do_msgrcv me whole (pos 0) 10 (pos 4) 0 sent_two).1 ≡ ok 1
unfolding do_msgrcv do_msgsnd do_msgget lookup first_from has_flag enqueue find_msg dequeue
second_by_type = refl

-- A receiver whose buffer faults is told so, and the message is gone.
faulted :
    let r = do_msgrcv me (record whole { bytes_copied = false }) (pos 0) 10 (pos 0) 0 sent_two in
    (r.1 ≡ err Errno.efault) × ((r.0.table 0).qnum ≡ 1)
unfolding do_msgrcv do_msgsnd do_msgget lookup first_from has_flag enqueue find_msg dequeue
faulted = (refl, refl)

too_long_kept : (do_msgrcv me whole (pos 0) 1 (pos 0) 0 sent_two).1 ≡ err Errno.e2big
unfolding do_msgrcv do_msgsnd do_msgget lookup first_from has_flag enqueue find_msg dequeue
too_long_kept = refl

removed_refuses :
    (do_msgrcv me whole (pos 0) 9 (pos 0) 0 (do_msgctl me (pos 0) rmid sent_two).0).1
    ≡ err Errno.einval
unfolding do_msgrcv do_msgctl do_msgsnd do_msgget lookup first_from has_flag enqueue find_msg
    dequeue
removed_refuses = refl

abbrev both_sent : Queues
both_sent = (do_msgsnd me (pos 1) (some (pos 8)) 0 none (some 60) sent_two).0

both_first-IsQueue : IsQueue both_sent 0 (40 ∷ 41 ∷ [])
unfolding do_msgsnd do_msgget lookup first_from has_flag enqueue
both_first-IsQueue = record {
  used_ = refl;
  chain = (refl, (refl, refl));
  distinct = (((λ e. omega (arith, e)), tt), (tt, tt));
  last = refl;
  counted = refl;
  summed = refl;
}

both_second-IsQueue : IsQueue both_sent 1 (60 ∷ [])
unfolding do_msgsnd do_msgget lookup first_from has_flag enqueue
both_second-IsQueue = record {
  used_ = refl;
  chain = (refl, refl);
  distinct = (tt, tt);
  last = refl;
  counted = refl;
  summed = refl;
}

do_msgsnd-Kept_example :
    Kept both_sent 1
      (60 ∷ [])
      (do_msgsnd me (pos 0) (some (pos 3)) 2 (some (104 ∷ 105 ∷ [])) (some 70) both_sent).0
do_msgsnd-Kept_example =
    do_msgsnd-Kept me 0 1 2 (some (pos 3)) (some (104 ∷ 105 ∷ [])) (some 70) both_sent
      (40 ∷ 41 ∷ []) (60 ∷ []) (omega arith) (λ m e. ((λ z. ground (arith, e, z)), tt))
      (((λ e. omega (arith, e)), tt), (((λ e. omega (arith, e)), tt), tt)) both_first-IsQueue
      both_second-IsQueue

do_msgrcv-Kept_run :
    Kept both_sent 1 (60 ∷ []) (do_msgrcv me whole (pos 0) 10 (pos 4) 0 both_sent).0
do_msgrcv-Kept_run =
    do_msgrcv-Kept me whole 0 1 10 (pos 4) 0 both_sent (40 ∷ 41 ∷ []) (60 ∷ []) (omega arith)
      (((λ e. omega (arith, e)), tt), (((λ e. omega (arith, e)), tt), tt)) both_first-IsQueue
      both_second-IsQueue
