-- ===== src/Sysv/Msg/Send.antt =====
-- `do_msgsnd` of src/kernel/ipc/sysv_ipc.c.
use mathlib.Core.Path.{subst}
use cosmo_rt.Common.{
  ℕ, suc, ◌+◌, ◌%◌, ◌^◌, ◌≤◌, ◌<◌, ◌≡◌, ◌≢◌, refl, sym, ap, ap₂, ◌∙◌, true, false, ◌||◌, Option,
  none, some, List, [], ◌∷◌, ◌++◌, map, length, length-append, append-nil, ok, ltb, leb, ◌==◌,
  if◌then◌else◌, arith,
}
use cosmo_rt.Common.Int.{pos}
use cosmo_rt.Sysv.{Caller}
use cosmo_rt.Sysv.Msg.{
  Message, Queues, set_next, linked_last, head_after, enqueue, text, msg_max_size, do_msgsnd,
}
use cosmo_rt.Sysv.Msg.Chain.{
  Chain, Absent, Distinct, last_or, total, IsQueue, contents, Absent-append, last_or-append,
  last_of, last_or-last_of, last_of-ne, Chain-set_next, Chain-join,
}

abbrev stored : ℕ → Message → (ℕ → Message) → ℕ → Message
stored m msg f = λ b. if b == m then msg else f b

stored-other : (m a : ℕ) (msg : Message) (f : ℕ → Message) → m ≢ a → stored m msg f a ≡ f a
stored-other m a msg f n = ground arith

stored_self : (m : ℕ) (msg : Message) (f : ℕ → Message) → stored m msg f m ≡ msg
stored_self m msg f = ground arith

contents-stored :
    (m : ℕ) (msg : Message) (f : ℕ → Message) (ms : List ℕ)
    → Absent m ms
    → map (stored m msg f) (ms ++ (m ∷ [])) ≡ map f ms ++ (msg ∷ [])
contents-stored m msg f [] n = ap (λ k. k ∷ []) (stored_self m msg f)
contents-stored m msg f (x ∷ xs) n =
    ap₂ (λ k ks. k ∷ ks) (stored-other m x msg f n.0) (contents-stored m msg f xs n.1)

total-stored :
    (m : ℕ) (msg : Message) (f : ℕ → Message) (ms : List ℕ)
    → Absent m ms
    → total (stored m msg f) (ms ++ (m ∷ [])) ≡ total f ms + msg.size
total-stored m msg f [] n = omega (arith, ap (λ k. k.size) (stored_self m msg f))
total-stored m msg f (x ∷ xs) n =
    omega (arith, ap (λ k. k.size) (stored-other m x msg f n.0), total-stored m msg f xs n.1)

Distinct-append : (m : ℕ) (ms : List ℕ) → Absent m ms → Distinct ms → Distinct (ms ++ (m ∷ []))
Distinct-append m [] n d = (tt, tt)
Distinct-append m (x ∷ xs) n d =
    (Absent-append x xs (m ∷ []) d.0 ((λ e. n.0 (sym e)), tt), Distinct-append m xs n.1 d.1)

-- The links after the message is put behind the last one.
Chain-sent :
    (next : ℕ → Option ℕ) (head tail : Option ℕ) (m : ℕ) (ms : List ℕ)
    → Absent m ms
    → Distinct ms
    → tail ≡ last_or none ms
    → Chain next head ms
    → Chain (linked_last tail m (set_next m none next)) (head_after tail m head) (ms ++ (m ∷ []))
Chain-sent next head tail m [] n d e c = rw e (refl, own)
  where
    own : set_next m none next m ≡ none
    own = ground arith
Chain-sent next head tail m (x ∷ xs) n d e c =
    let cut = set_next m none next in
    let own : cut m ≡ none = ground arith in
    let kept = Chain-set_next next m none head (x ∷ xs) n c in
    let apart : Absent (last_of x xs) (m ∷ []) = ((λ q. last_of-ne m x xs n.0 n.1 (sym q)), tt) in
    subst (λ t. Chain (linked_last t m cut) (head_after t m head) (x ∷ (xs ++ (m ∷ []))))
      (sym (e ∙ last_or-last_of x xs))
      (
        c.0,
        Chain-join cut x xs (m ∷ []) [] (some m) d apart (rw (append-nil xs) kept.1) (refl, own),
      )

-- The message goes behind the others.
pub enqueue-IsQueue :
    (c : Caller) (i m : ℕ) (msg : Message) (s : Queues) (ms : List ℕ)
    → Absent m ms
    → IsQueue s i ms
    → let r = enqueue c i m msg s in
      IsQueue r i (ms ++ (m ∷ [])) × (contents r (ms ++ (m ∷ [])) ≡ contents s ms ++ (msg ∷ []))
unfolding enqueue
enqueue-IsQueue c i m msg s ms n h = (
  record {
    used_ = rw here h.used_;
    chain =
        rw here
          (Chain-sent s.next (s.table i).head (s.table i).tail m ms n h.distinct h.last h.chain);
    distinct = Distinct-append m ms n h.distinct;
    last = rw here (sym (last_or-append none ms (m ∷ [])));
    counted = rw here (omega (arith, h.counted, length-append ms (m ∷ [])));
    summed = rw here (omega (arith, h.summed, total-stored m msg s.message ms n));
  },
  contents-stored m msg s.message ms n,
)
  where
    here : (i == i) ≡ true
    here = ground arith

-- A call of `do_msgsnd` with a positive type on a queue in use that has room for the bytes of a
-- message of at most 8192, with memory for it that no message of the queue stands in: it returns 0,
-- and the queue, linked with its tail and its counts right, has the messages it had and this one
-- behind them.
pub do_msgsnd-IsQueue :
    (c : Caller) (i kind m : ℕ) (bytes : List ℕ) (s : Queues) (ms : List ℕ)
    → i < 32
    → length bytes ≤ 8192
    → (s.table i).cbytes + length bytes ≤ (s.table i).qbytes
    → (s.table i).qbytes < 2 ^ 64
    → Absent m ms
    → IsQueue s i ms
    → let r = do_msgsnd c (pos i) (some (pos (suc kind))) (length bytes) (some bytes) (some m) s in
      let msg : Message = record { mtype = suc kind; size = length bytes; data_ = bytes } in
      (r.1 ≡ ok 0)
      × IsQueue r.0 i (ms ++ (m ∷ []))
      × (contents r.0 (ms ++ (m ∷ [])) ≡ contents s ms ++ (msg ∷ []))
unfolding do_msgsnd
do_msgsnd-IsQueue c i kind m bytes s ms p q room w n h =
    let msg : Message = record { mtype = suc kind; size = length bytes; data_ = bytes } in
    let valid : (leb 32 i || ltb msg_max_size (length bytes)) ≡ false = ground arith in
    let fits : ltb (s.table i).qbytes (((s.table i).cbytes + length bytes) % 2 ^ 64) ≡ false =
      ground arith in
    let sent = enqueue-IsQueue c i m msg s ms n h in
    rw valid (rw h.used_ (rw fits (rw (text_all bytes) (refl, sent.0, sent.1))))
  where
    text_all : (xs : List ℕ) → text (length xs) (some xs) ≡ some xs
    text_all [] = refl
    text_all (x ∷ xs) = refl
