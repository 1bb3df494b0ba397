-- ===== src/Sysv/Msg/Receive.antt =====
-- `do_msgrcv` of src/kernel/ipc/sysv_ipc.c.
use mathlib.Core.Path.{subst}
use cosmo_rt.Common.{
  ℕ, zero, suc, ◌+◌, ◌≤◌, ◌<◌, ◌≡◌, ◌≢◌, refl, sym, ap, Bool, true, false, ◌&&◌, not, Option, none,
  some, List, [], ◌∷◌, ◌++◌, length, length-append, take, Errno, Reply, ok, err, ltb, leb, ◌==◌,
  if◌then◌else◌, arith, Bool-cases, inl, inr,
}
use cosmo_rt.Common.Int.{ℤ, pos}
use cosmo_rt.Sysv.{Caller, has_flag}
use cosmo_rt.Sysv.Msg.{
  Message, Queues, matches, find_msg, is_at, unlinked_next, unlinked_head, dequeue, Received,
  Copies, msgrcv_answer, msgrcv_at, do_msgrcv, msg_noerror,
}
use cosmo_rt.Sysv.Msg.Chain.{
  Chain, Absent, Distinct, last_or, total, IsQueue, Absent-append, Absent-split, last_or-append,
  last_of, last_or-last_of, last_of-ne, Chain-join,
}

-- No message of the list is one that the receiver asks for.
abbrev pub Misses : (message : ℕ → Message) → ℤ → List ℕ → Type 0
Misses message typ [] = Unit
Misses message typ (x ∷ xs) = (matches typ (message x).mtype ≡ false) × Misses message typ xs

-- The outcome of the search in the messages of the list.
pub data Finds (s : Queues) (typ : ℤ) (prev : Option ℕ) (ms : List ℕ)
    : Option (Option ℕ × ℕ) → Type 0 where
  missing : Misses s.message typ ms → Finds s typ prev ms none
  found :
      (before after : List ℕ)
      → (m : ℕ) → ms ≡ before ++ (m ∷ after)
      → Misses s.message typ before
      → matches typ (s.message m).mtype ≡ true
      → Finds s typ prev ms (some (last_or prev before, m))

pub find_msg-Finds :
    (fuel : ℕ) (s : Queues) (typ : ℤ) (prev p : Option ℕ) (ms : List ℕ)
    → Chain s.next p ms
    → length ms ≤ fuel
    → Finds s typ prev ms (find_msg fuel s typ prev p)
unfolding find_msg
find_msg-Finds fuel s typ prev p [] c l = rw c (missing tt)
find_msg-Finds zero s typ prev p (x ∷ xs) c l = absurd (omega arith)
find_msg-Finds (suc fuel) s typ prev p (x ∷ xs) c l =
    rw c.0 (elim (Bool-cases (matches typ (s.message x).mtype)) [
      | inl t ↦ rw t (found [] xs x refl tt t)
      | inr f ↦
          rw f (further f (find_msg-Finds fuel s typ (some x) (s.next x) xs c.1 (omega arith)))
    ])
  where
    further :
        matches typ (s.message x).mtype ≡ false
        → {o : Option (Option ℕ × ℕ)} → Finds s typ (some x) xs o
        → Finds s typ prev (x ∷ xs) o
    further f (missing n) = missing (f, n)
    further f (found before after m e n t) = found (x ∷ before) after m (ap (λ k. x ∷ k) e) (f, n) t

Distinct-split :
    (m : ℕ) (xs ys : List ℕ)
    → Distinct (xs ++ (m ∷ ys))
    → Absent m xs × Absent m ys × Distinct xs × Distinct (xs ++ ys)
Distinct-split m [] ys d = (tt, d.0, tt, d.1)
Distinct-split m (x ∷ xs) ys d =
    let r = Distinct-split m xs ys d.1 in
    let a = Absent-split x xs (m ∷ ys) d.0 in
    (((λ e. a.1.0 (sym e)), r.0), r.1, (a.0, r.2), (Absent-append x xs ys a.0 a.1.1, r.3))

Chain-after :
    (next : ℕ → Option ℕ) (p : Option ℕ) (m : ℕ) (xs ys : List ℕ)
    → Chain next p (xs ++ (m ∷ ys))
    → Chain next (next m) ys
Chain-after next p m [] ys c = c.1
Chain-after next p m (x ∷ xs) ys c = Chain-after next (next x) m xs ys c.1

total-append : (f : ℕ → Message) (xs ys : List ℕ) → total f (xs ++ ys) ≡ total f xs + total f ys
total-append f [] ys = omega arith
total-append f (x ∷ xs) ys = omega (arith, total-append f xs ys)

-- No message of the second part is the last of the first.
last-Absent : (x : ℕ) (xs ys : List ℕ) → Distinct (x ∷ (xs ++ ys)) → Absent (last_of x xs) ys
last-Absent x [] ys d = d.0
last-Absent x (y ∷ xs) ys d = last-Absent y xs ys d.1

Chain-received :
    (next : ℕ → Option ℕ) (head : Option ℕ) (m : ℕ) (xs ys : List ℕ)
    → Distinct (xs ++ (m ∷ ys))
    → Chain next head (xs ++ (m ∷ ys))
    → let prev = last_or none xs in
      Chain (unlinked_next prev m next) (unlinked_head prev m next head) (xs ++ ys)
Chain-received next head m [] ys d c = c.1
Chain-received next head m (x ∷ xs) ys d c =
    let r = Distinct-split m (x ∷ xs) ys d in
    subst (λ t. Chain (unlinked_next t m next) (unlinked_head t m next head) (x ∷ (xs ++ ys)))
      (sym (last_or-last_of x xs))
      (
        c.0,
        Chain-join next x xs ys (m ∷ ys) (next m) r.2 (last-Absent x xs ys r.3) c.1
            (Chain-after next head m (x ∷ xs) ys c),
      )

tail_received :
    (m : ℕ) (xs ys : List ℕ)
    → Absent m ys
    → (if is_at (last_or none (xs ++ (m ∷ ys))) m
        then last_or none xs
        else last_or none (xs ++ (m ∷ ys)))
      ≡ last_or none (xs ++ ys)
tail_received m xs [] n =
    let here : (m == m) ≡ true = ground arith in
    rw (last_or-append none xs (m ∷ [])) (rw (last_or-append none xs []) (rw here refl))
tail_received m xs (y ∷ ys) n =
    let other : (last_of y ys == m) ≡ false = ne (last_of y ys) (last_of-ne m y ys n.0 n.1) in
    rw (last_or-append none xs (m ∷ y ∷ ys))
      (rw (last_or-append none xs (y ∷ ys)) (rw (last_or-last_of y ys) (rw other refl)))
  where
    ne : (k : ℕ) → m ≢ k → (k == m) ≡ false
    ne k q = ground arith

-- The message leaves, and the others keep their order.
pub dequeue-IsQueue :
    (c : Caller) (i m : ℕ) (s : Queues) (before after : List ℕ)
    → IsQueue s i (before ++ (m ∷ after))
    → IsQueue (dequeue c i (last_or none before) m s) i (before ++ after)
unfolding dequeue
dequeue-IsQueue c i m s before after h =
    let d = Distinct-split m before after h.distinct in
    record {
      used_ = rw here h.used_;
      chain = rw here (Chain-received s.next (s.table i).head m before after h.distinct h.chain);
      distinct = d.3;
      last = rw here (rw h.last (tail_received m before after d.1));
      counted =
          rw here (
            omega (arith, h.counted, length-append before (m ∷ after), length-append before after));
      summed = rw here (
          omega (
            arith,
            h.summed,
            total-append s.message before (m ∷ after),
            total-append s.message before after,
          ));
    }
  where
    here : (i == i) ≡ true
    here = ground arith

-- The answer that reaches the receiver of a message with `n` bytes to copy: the type and the bytes where
-- both copies succeed, else EFAULT.
pub data Answers (copies : Copies) (n : ℕ) (msg : Message) : Reply → Option Received → Type 0 where
  copied :
      copies.kind_copied ≡ true
      → (0 < n → copies.bytes_copied ≡ true)
      → Answers copies n msg (ok n) (some (record { kind = msg.mtype; bytes = take n msg.data_ }))
  no_kind : copies.kind_copied ≡ false → Answers copies n msg (err Errno.efault) none
  no_bytes :
      copies.kind_copied ≡ true
      → 0 < n
      → copies.bytes_copied ≡ false
      → Answers copies n msg (err Errno.efault) (some (record { kind = msg.mtype; bytes = [] }))

if-Answers :
    (b : Bool) (copies : Copies) (n : ℕ) (msg : Message) {x y : Reply × Option Received}
    → (b ≡ true → Answers copies n msg x.0 x.1)
    → (b ≡ false → Answers copies n msg y.0 y.1)
    → let a = if b then x else y in Answers copies n msg a.0 a.1
if-Answers true copies n msg p q = p refl
if-Answers false copies n msg p q = q refl

msgrcv_answer-Answers :
    (copies : Copies) (n : ℕ) (msg : Message)
    → let a = msgrcv_answer copies n msg in Answers copies n msg a.0 a.1
msgrcv_answer-Answers copies n msg =
    if-Answers (not copies.kind_copied) copies n msg (λ f. no_kind (ground (arith, f)))
      (λ t.
        if-Answers (ltb 0 n && not copies.bytes_copied) copies n msg
          (λ b. no_bytes (ground (arith, t)) (ground (arith, b)) (ground (arith, b)))
          (λ b. copied (ground (arith, t)) (λ p. ground (arith, b, p))))

-- What a receiver gets from a queue with the messages of the list: an error where none matches or
-- where the first that matches is too long and may not be cut, with nothing changed; else the first
-- that matches leaves the queue with the others in their order, and the receiver is answered with it,
-- cut to the size, or with a fault of the copy.
pub data Receives (copies : Copies) (i msgsz : ℕ) (typ : ℤ) (flags : ℕ) (s : Queues) (ms : List ℕ)
    : Queues × Reply × Option Received → Type 0 where
  no_message :
      Misses s.message typ ms → Receives copies i msgsz typ flags s ms (s, err Errno.enomsg, none)
  too_long :
      (before after : List ℕ)
      → (m : ℕ) → ms ≡ before ++ (m ∷ after)
      → Misses s.message typ before
      → matches typ (s.message m).mtype ≡ true
      → msgsz < (s.message m).size
      → has_flag flags msg_noerror ≡ false
      → Receives copies i msgsz typ flags s ms (s, err Errno.e2big, none)
  received :
      (before after : List ℕ)
      → (m n : ℕ) → (r : Queues) → (reply : Reply) → (given : Option Received)
      → ms ≡ before ++ (m ∷ after)
      → Misses s.message typ before
      → matches typ (s.message m).mtype ≡ true
      → n ≤ msgsz
      → n ≤ (s.message m).size
      → ((s.message m).size ≤ msgsz → n ≡ (s.message m).size)
      → (msgsz < (s.message m).size → (n ≡ msgsz) × (has_flag flags msg_noerror ≡ true))
      → IsQueue r i (before ++ after)
      → r.message ≡ s.message
      → Answers copies n (s.message m) reply given
      → Receives copies i msgsz typ flags s ms (r, reply, given)

received-Receives :
    (c : Caller) (copies : Copies) (i msgsz : ℕ) (typ : ℤ) (flags : ℕ) (s : Queues) (ms : List ℕ)
    {o : Option (Option ℕ × ℕ)}
    → IsQueue s i ms
    → Finds s typ none ms o
    → Receives copies i msgsz typ flags s ms (msgrcv_at c copies i msgsz flags o s)
received-Receives c copies i msgsz typ flags s ms h (missing n) = no_message n
received-Receives c copies i msgsz typ flags s ms h (found before after m e n t) =
    elim (Bool-cases (ltb msgsz (s.message m).size && not (has_flag flags msg_noerror))) [
      | inl b ↦ rw b (too_long before after m e n t (ground (arith, b)) (ground (arith, b)))
      | inr b ↦
          let size = if ltb (s.message m).size msgsz then (s.message m).size else msgsz in
          let answer = msgrcv_answer copies size (s.message m) in
          rw b (
            received before after m size (dequeue c i (last_or none before) m s) answer.0 answer.1 e
              n t (ground arith) (ground arith) (λ k. ground arith)
              (λ k. (ground (arith, k), ground (arith, b, k)))
              (dequeue-IsQueue c i m s before after (subst (λ k. IsQueue s i k) e h))
              (unfold dequeue in refl) (msgrcv_answer-Answers copies size (s.message m)))
    ]

-- On a queue in use that is linked, with its tail and its counts right, `do_msgrcv` returns ENOMSG
-- only where no message matches the type that is asked for, E2BIG only where the first that matches is
-- longer than the size without MSG_NOERROR, and changes nothing then. Else the first that matches leaves
-- the queue, which is linked, with its tail and its counts right, through the others in their order; and
-- the call gives its type and its bytes, cut to the size, where the copies to user memory succeed, and
-- EFAULT where one of them fails.
pub do_msgrcv-Receives :
    (c : Caller) (copies : Copies) (i msgsz : ℕ) (typ : ℤ) (flags : ℕ) (s : Queues) (ms : List ℕ)
    → i < 32
    → IsQueue s i ms
    → Receives copies i msgsz typ flags s ms (do_msgrcv c copies (pos i) msgsz typ flags s)
unfolding do_msgrcv
do_msgrcv-Receives c copies i msgsz typ flags s ms p h =
    let valid : leb 32 i ≡ false = ground arith in
    let search =
      find_msg-Finds (s.table i).qnum s typ none (s.table i).head ms h.chain
        (omega (arith, h.counted)) in
    rw valid (rw h.used_ (received-Receives c copies i msgsz typ flags s ms h search))
