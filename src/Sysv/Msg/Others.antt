-- ===== src/Sysv/Msg/Others.antt =====
-- What sending to and receiving from one queue does to another (src/kernel/ipc/sysv_ipc.c).
use mathlib.Core.Path.{subst}
use cosmo_rt.Common.{
  ℕ, zero, suc, ◌+◌, ◌%◌, ◌^◌, ◌≡◌, ◌≢◌, refl, sym, ap, ap₂, ◌∙◌, Bool, true, false, Option, none,
  some, List, [], ◌∷◌, ◌++◌, map, Reply, ◌==◌, if◌then◌else◌, ltb, leb, ◌&&◌, ◌||◌, not, arith,
}
use cosmo_rt.Common.Int.{ℤ, pos, negsuc}
use cosmo_rt.Sysv.{Caller, has_flag}
use cosmo_rt.Sysv.Msg.{
  Message, Queues, set_next, linked_last, enqueue, text, msgsnd_filled, msgsnd_node, msgsnd_typed,
  do_msgsnd, unlinked_next, dequeue, msgrcv_at, do_msgrcv, msg_noerror, Received, Copies,
}
use cosmo_rt.Sysv.Msg.Chain.{
  Chain, Absent, last_or, total, IsQueue, contents, last_of, last_or-last_of, Chain-set_next,
}
use cosmo_rt.Sysv.Msg.Receive.{Finds, missing, found, find_msg-Finds}

-- No message of the second list is in the first.
abbrev pub Apart : List ℕ → List ℕ → Type 0
Apart js [] = Unit
Apart js (x ∷ xs) = Absent x js × Apart js xs

-- The queue `j` has the messages that it had.
pub record Kept (s : Queues) (j : ℕ) (js : List ℕ) (r : Queues) : Type 0 where
  pub queue : IsQueue r j js
  pub content : contents r js ≡ contents s js

last_of-Absent :
    (js : List ℕ) (x : ℕ) (xs : List ℕ) → Absent x js → Apart js xs → Absent (last_of x xs) js
last_of-Absent js x [] a p = a
last_of-Absent js x (y ∷ ys) a p = last_of-Absent js y ys p.0 p.1

-- A change of the links that keeps the chain, and of messages outside the list.
change-Kept :
    (s r : Queues) (j : ℕ) (js : List ℕ)
    → r.table j ≡ s.table j
    → Chain r.next (s.table j).head js
    → map r.message js ≡ map s.message js
    → total r.message js ≡ total s.message js
    → IsQueue s j js
    → Kept s j js r
change-Kept s r j js t c m n h = record {
  queue = record {
    used_ = rw t h.used_;
    chain = rw t c;
    distinct = h.distinct;
    last = rw t h.last;
    counted = rw t h.counted;
    summed = rw t (h.summed ∙ sym n);
  };
  content = m;
}

stored-same :
    (m : ℕ) (msg : Message) (f : ℕ → Message) (js : List ℕ)
    → Absent m js
    → let g = λ (b : ℕ). if b == m then msg else f b in
      (map g js ≡ map f js) × (total g js ≡ total f js)
stored-same m msg f [] n = (refl, refl)
stored-same m msg f (x ∷ xs) n =
    let same : (if x == m then msg else f x) ≡ f x = ground arith in
    let rest = stored-same m msg f xs n.1 in
    (ap₂ (λ k ks. k ∷ ks) same rest.0, omega (arith, ap (λ k. k.size) same, rest.1))

linked_last-Chain :
    (next : ℕ → Option ℕ) (p : Option ℕ) (m : ℕ) (ms js : List ℕ)
    → Absent m js
    → Apart js ms
    → Chain next p js
    → Chain (linked_last (last_or none ms) m (set_next m none next)) p js
linked_last-Chain next p m [] js n a c = Chain-set_next next m none p js n c
linked_last-Chain next p m (x ∷ xs) js n a c =
    subst (λ t. Chain (linked_last t m (set_next m none next)) p js) (sym (last_or-last_of x xs))
      (Chain-set_next (set_next m none next) (last_of x xs) (some m) p js
        (last_of-Absent js x xs a.0 a.1) (Chain-set_next next m none p js n c))

enqueue-Kept :
    (c : Caller) (i j m : ℕ) (msg : Message) (s : Queues) (ms js : List ℕ)
    → j ≢ i
    → Absent m js
    → Apart js ms
    → IsQueue s i ms
    → IsQueue s j js
    → Kept s j js (enqueue c i m msg s)
unfolding enqueue
enqueue-Kept c i j m msg s ms js d n a h g =
    let same = stored-same m msg s.message js n in
    change-Kept s (enqueue c i m msg s) j js other
      (rw h.last (linked_last-Chain s.next (s.table j).head m ms js n a g.chain)) same.0 same.1 g
  where
    test : (j == i) ≡ false
    test = ground arith

    other : (enqueue c i m msg s).table j ≡ s.table j
    other = unfold enqueue in rw test refl

-- The same of a result with the state in it.
record KeptIn {P : Type 0} (state : P → Queues) (s : Queues) (j : ℕ) (js : List ℕ) (p : P)
    : Type 0 where
  pub kept : Kept s j js (state p)

if-KeptIn :
    {P : Type 0} (state : P → Queues) (b : Bool) {x y : P} {s : Queues} {j : ℕ} {js : List ℕ}
    → KeptIn state s j js x
    → KeptIn state s j js y
    → KeptIn state s j js (if b then x else y)
if-KeptIn state true p q = p
if-KeptIn state false p q = q

abbrev sent : Queues × Reply → Queues
sent r = r.0

abbrev taken_from : Queues × Reply × Option Received → Queues
taken_from r = r.0

unchanged-Kept : (s : Queues) (j : ℕ) (js : List ℕ) → IsQueue s j js → Kept s j js s
unchanged-Kept s j js g = (record { queue = g; content = refl })

-- A send to the queue `i`, whatever comes of it, leaves another queue whose messages stand elsewhere
-- its messages, and so the links between them, its tail and its counts.
pub do_msgsnd-Kept :
    (c : Caller) (i j msgsz : ℕ) (mtype : Option ℤ) (copied : Option (List ℕ)) (page : Option ℕ)
    (s : Queues) (ms js : List ℕ)
    → j ≢ i
    → ((m : ℕ) → page ≡ some m → Absent m js)
    → Apart js ms
    → IsQueue s i ms
    → IsQueue s j js
    → Kept s j js (do_msgsnd c (pos i) mtype msgsz copied page s).0
unfolding do_msgsnd
do_msgsnd-Kept c i j msgsz mtype copied page s ms js d n a h g =
    (if-KeptIn sent (leb 32 i || ltb 8192 msgsz) same (typed mtype)).kept
  where
    same : {r : Reply} → KeptIn sent s j js (s, r)
    same = record { kept = unchanged-Kept s j js g }

    filled :
        (kind m : ℕ) (bytes : Option (List ℕ))
        → Absent m js
        → KeptIn sent s j js (msgsnd_filled c i m kind msgsz bytes s)
    filled kind m none e = same
    filled kind m (some bytes) e = record {
      kept =
          enqueue-Kept c i j m (record { mtype = kind; size = msgsz; data_ = bytes }) s ms js d e a
            h g;
    }

    placed :
        (kind : ℕ) (p : Option ℕ)
        → ((m : ℕ) → p ≡ some m → Absent m js)
        → KeptIn sent s j js (msgsnd_node c i kind msgsz copied p s)
    placed kind none e = same
    placed kind (some m) e = filled kind m (text msgsz copied) (e m refl)

    typed : (t : Option ℤ) → KeptIn sent s j js (msgsnd_typed c i t msgsz copied page s)
    typed none = same
    typed (some (negsuc k)) = same
    typed (some (pos zero)) = same
    typed (some (pos (suc k))) = if-KeptIn sent (not (s.table i).used) same (
        if-KeptIn sent (ltb (s.table i).qbytes (((s.table i).cbytes + msgsz) % 2 ^ 64)) same
          (placed (suc k) page n))

unlinked-Kept :
    (c : Caller) (i j m : ℕ) (xs : List ℕ) (s : Queues) (js : List ℕ)
    → j ≢ i
    → Apart js xs
    → IsQueue s j js
    → Kept s j js (dequeue c i (last_or none xs) m s)
unfolding dequeue
unlinked-Kept c i j m xs s js d a g =
    change-Kept s (dequeue c i (last_or none xs) m s) j js (unfold dequeue in rw test refl)
      (links xs a) refl refl g
  where
    test : (j == i) ≡ false
    test = ground arith

    links :
        (ys : List ℕ)
        → Apart js ys
        → Chain (unlinked_next (last_or none ys) m s.next) (s.table j).head js
    links [] p = g.chain
    links (y ∷ ys) p =
        subst (λ t. Chain (unlinked_next t m s.next) (s.table j).head js)
          (sym (last_or-last_of y ys))
          (Chain-set_next s.next (last_of y ys) (s.next m) (s.table j).head js
            (last_of-Absent js y ys p.0 p.1) g.chain)

Apart-before : (js xs ys : List ℕ) → Apart js (xs ++ ys) → Apart js xs
Apart-before js [] ys a = tt
Apart-before js (x ∷ xs) ys a = (a.0, Apart-before js xs ys a.1)

-- A receive from the queue `i`, whatever comes of it, leaves another queue whose messages stand
-- elsewhere its messages, the links between them, its tail and its counts.
pub do_msgrcv-Kept :
    (c : Caller) (copies : Copies) (i j msgsz : ℕ) (typ : ℤ) (flags : ℕ) (s : Queues)
    (ms js : List ℕ)
    → j ≢ i
    → Apart js ms
    → IsQueue s i ms
    → IsQueue s j js
    → Kept s j js (do_msgrcv c copies (pos i) msgsz typ flags s).0
unfolding do_msgrcv
do_msgrcv-Kept c copies i j msgsz typ flags s ms js d a h g =
    let search =
      find_msg-Finds (s.table i).qnum s typ none (s.table i).head ms h.chain
        (omega (arith, h.counted)) in
    (if-KeptIn taken_from (leb 32 i) same
      (if-KeptIn taken_from (not (s.table i).used) same (taken search))).kept
  where
    same : {r : Reply} {o : Option Received} → KeptIn taken_from s j js (s, r, o)
    same = record { kept = unchanged-Kept s j js g }

    taken :
        {o : Option (Option ℕ × ℕ)}
        → Finds s typ none ms o
        → KeptIn taken_from s j js (msgrcv_at c copies i msgsz flags o s)
    taken (missing n) = same
    taken (found before after m e n t) =
        if-KeptIn taken_from (ltb msgsz (s.message m).size && not (has_flag flags msg_noerror)) same
          (record {
            kept =
                unlinked-Kept c i j m before s js d
                  (Apart-before js before (m ∷ after) (subst (λ k. Apart js k) e a)) g;
          })
