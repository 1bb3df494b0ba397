-- ===== src/Sysv/Msg.antt =====
-- The message queues of src/kernel/ipc/sysv_ipc.c. A message is known by its address; `next` holds the
-- links and `message` the rest. What `pages_alloc` gives and what the copies from user memory bring is
-- an argument.
pub mod Chain
pub mod Send
pub mod Receive
pub mod Keys
pub mod Others
mod Tests
use cosmo_rt.Common.{
  ℕ, zero, suc, ◌+◌, ◌-◌, ◌*◌, ◌%◌, ◌^◌, min, Bool, true, false, ◌&&◌, not, ◌||◌, Option, none,
  some, List, [], ◌∷◌, take, Errno, Reply, ok, err, ltb, leb, ◌==◌, if◌then◌else◌,
}
use cosmo_rt.Common.Int.{ℤ, pos, negsuc}
use cosmo_rt.Sysv.{Caller, has_flag, Lookup, present, refused, vacant, lookup}

abbrev pub msg_noerror : ℕ
msg_noerror = 4096

abbrev pub msg_qbytes : ℕ
msg_qbytes = 16384

abbrev pub msg_max_size : ℕ
msg_max_size = 8192

-- `sysv_msg_t` without its link
pub record Message : Type 0 where
  pub mtype : ℕ
  pub size : ℕ
  pub data_ : List ℕ

-- `msgq_t`; `owner` is its uid, gid, cuid and cgid.
pub record Queue : Type 0 where
  pub used : Bool
  pub key : ℕ
  pub head : Option ℕ
  pub tail : Option ℕ
  pub cbytes : ℕ
  pub qnum : ℕ
  pub qbytes : ℕ
  pub lspid : ℕ
  pub lrpid : ℕ
  pub stime : ℕ
  pub rtime : ℕ
  pub ctime : ℕ
  pub mode : ℕ
  pub owner : ℕ × ℕ × ℕ × ℕ

-- `msg_table` and the messages.
pub record Queues : Type 0 where
  pub table : ℕ → Queue
  pub next : ℕ → Option ℕ
  pub message : ℕ → Message

abbrev pub put_queue : ℕ → Queue → Queues → Queues
put_queue i q s = record s { table = λ k. if k == i then q else s.table k }

abbrev pub new_queue : Caller → (key flags : ℕ) → Queue
new_queue c key flags = record {
  used = true;
  key = key;
  head = none;
  tail = none;
  cbytes = 0;
  qnum = 0;
  qbytes = msg_qbytes;
  lspid = 0;
  lrpid = 0;
  stime = 0;
  rtime = 0;
  ctime = c.time;
  mode = flags % 512;
  owner = (0, 0, 0, 0);
}

abbrev pub msgget_at : Caller → (key flags : ℕ) → Queues → Lookup → Queues × Reply
msgget_at c key flags s (present i) = (s, ok i)
msgget_at c key flags s (refused e) = (s, err e)
msgget_at c key flags s (vacant i) = (put_queue i (new_queue c key flags) s, ok i)

unfoldable pub do_msgget : Caller → (key flags : ℕ) → Queues → Queues × Reply
unfolding lookup
do_msgget c key flags s =
    msgget_at c key flags s (lookup key flags (λ i. (s.table i).used) (λ i. (s.table i).key))

abbrev pub set_next : ℕ → Option ℕ → (ℕ → Option ℕ) → ℕ → Option ℕ
set_next a p next = λ b. if b == a then p else next b

-- `if (q->tail) q->tail->next = m; else q->head = m;`
abbrev pub linked_last : (tail : Option ℕ) → (m : ℕ) → (ℕ → Option ℕ) → ℕ → Option ℕ
linked_last none m next = next
linked_last (some t) m next = set_next t (some m) next

abbrev pub head_after : (tail : Option ℕ) → (m : ℕ) → (head : Option ℕ) → Option ℕ
head_after none m head = some m
head_after (some t) m head = head

unfoldable pub enqueue : Caller → (i m : ℕ) → Message → Queues → Queues
enqueue c i m msg s =
    let q = s.table i in
    record (put_queue i
      (record q {
        head = head_after q.tail m q.head;
        tail = some m;
        cbytes = q.cbytes + msg.size;
        qnum = q.qnum + 1;
        lspid = c.pid;
        stime = c.time;
      })
      s) {
        next = linked_last q.tail m (set_next m none s.next);
        message = λ b. if b == m then msg else s.message b;
      }

-- The bytes of the message, which are not read where there are none.
abbrev pub text : (msgsz : ℕ) → Option (List ℕ) → Option (List ℕ)
text zero copied = some []
text (suc n) copied = copied

abbrev pub msgsnd_filled :
    Caller → (i m mtype msgsz : ℕ) → Option (List ℕ) → Queues → Queues × Reply
msgsnd_filled c i m mtype msgsz none s = (s, err Errno.efault)
msgsnd_filled c i m mtype msgsz (some bytes) s =
    (enqueue c i m (record { mtype = mtype; size = msgsz; data_ = bytes }) s, ok 0)

abbrev pub msgsnd_node :
    Caller → (i mtype msgsz : ℕ) → Option (List ℕ) → Option ℕ → Queues → Queues × Reply
msgsnd_node c i mtype msgsz copied none s = (s, err Errno.enomem)
msgsnd_node c i mtype msgsz copied (some m) s =
    msgsnd_filled c i m mtype msgsz (text msgsz copied) s

abbrev pub msgsnd_typed :
    Caller
    → (i : ℕ) → (mtype : Option ℤ) → (msgsz : ℕ) → Option (List ℕ)
    → Option ℕ
    → Queues
    → Queues × Reply
msgsnd_typed c i none msgsz copied page s = (s, err Errno.efault)
msgsnd_typed c i (some (negsuc k)) msgsz copied page s = (s, err Errno.einval)
msgsnd_typed c i (some (pos zero)) msgsz copied page s = (s, err Errno.einval)
msgsnd_typed c i (some (pos (suc k))) msgsz copied page s =
    let q = s.table i in
    if not q.used
    then (s, err Errno.einval)
    else if ltb q.qbytes ((q.cbytes + msgsz) % 2 ^ 64)
    then (s, err Errno.eagain)
    else msgsnd_node c i (suc k) msgsz copied page s

-- `mtype` and `copied` are what the two copies read, or none for a fault; `page` is the memory for the
-- message. It never blocks: with and without IPC_NOWAIT a full queue gives the same error.
unfoldable pub do_msgsnd :
    Caller
    → (msqid : ℤ) → (mtype : Option ℤ) → (msgsz : ℕ) → (copied : Option (List ℕ))
    → (page : Option ℕ) → Queues
    → Queues × Reply
unfolding enqueue
do_msgsnd c (negsuc i) mtype msgsz copied page s = (s, err Errno.einval)
do_msgsnd c (pos i) mtype msgsz copied page s =
    if leb 32 i || ltb msg_max_size msgsz
    then (s, err Errno.einval)
    else msgsnd_typed c i mtype msgsz copied page s

-- Whether a receiver that asks for `msgtyp` takes a message of the type.
abbrev pub matches : (msgtyp : ℤ) → (mtype : ℕ) → Bool
matches (pos zero) mtype = true
matches (pos (suc n)) mtype = mtype == suc n
matches (negsuc n) mtype = leb mtype (n + 1)

-- The loop over the queue from `m` on, in at most `fuel` rounds: the message that matches, and the one
-- before it.
unfoldable pub find_msg :
    (fuel : ℕ) → Queues → (msgtyp : ℤ) → (prev m : Option ℕ) → Option (Option ℕ × ℕ)
find_msg fuel s msgtyp prev none = none
find_msg zero s msgtyp prev (some m) = none
find_msg (suc fuel) s msgtyp prev (some m) =
    let later = find_msg fuel s msgtyp (some m) (s.next m) in
    if matches msgtyp (s.message m).mtype then some (prev, m) else later

abbrev pub is_at : Option ℕ → ℕ → Bool
is_at none m = false
is_at (some t) m = t == m

-- `if (prev) prev->next = m->next; else q->head = m->next;`
abbrev pub unlinked_next : (prev : Option ℕ) → (m : ℕ) → (ℕ → Option ℕ) → ℕ → Option ℕ
unlinked_next none m next = next
unlinked_next (some p) m next = set_next p (next m) next

abbrev pub unlinked_head : (prev : Option ℕ) → (m : ℕ) → (ℕ → Option ℕ) → Option ℕ → Option ℕ
unlinked_head none m next head = next m
unlinked_head (some p) m next head = head

unfoldable pub dequeue : Caller → (i : ℕ) → (prev : Option ℕ) → (m : ℕ) → Queues → Queues
dequeue c i prev m s =
    let q = s.table i in
    record (put_queue i
      (record q {
        head = unlinked_head prev m s.next q.head;
        tail = if is_at q.tail m then prev else q.tail;
        cbytes = q.cbytes - (s.message m).size;
        qnum = q.qnum - 1;
        lrpid = c.pid;
        rtime = c.time;
      })
      s) { next = unlinked_next prev m s.next }

-- What a receiver gets: the type and the first bytes.
pub record Received : Type 0 where
  pub kind : ℕ
  pub bytes : List ℕ

-- Whether the copy of the type and the copy of the bytes to user memory succeed.
pub record Copies : Type 0 where
  pub kind_copied : Bool
  pub bytes_copied : Bool

-- The answer for a message that has left the queue: a fault of a copy is answered although the message
-- is gone, and the second copy is not made where there is nothing to copy.
abbrev pub msgrcv_answer : Copies → (copy_sz : ℕ) → Message → Reply × Option Received
msgrcv_answer copies copy_sz msg =
    if not copies.kind_copied
    then (err Errno.efault, none)
    else if ltb 0 copy_sz && not copies.bytes_copied
    then (err Errno.efault, some (record { kind = msg.mtype; bytes = [] }))
    else (ok copy_sz, some (record { kind = msg.mtype; bytes = take copy_sz msg.data_ }))

abbrev pub msgrcv_at :
    Caller
    → Copies
    → (i msgsz flags : ℕ) → Option (Option ℕ × ℕ)
    → Queues
    → Queues × Reply × Option Received
msgrcv_at c copies i msgsz flags none s = (s, err Errno.enomsg, none)
msgrcv_at c copies i msgsz flags (some (prev, m)) s =
    let msg = s.message m in
    let copy_sz = if ltb msg.size msgsz then msg.size else msgsz in
    let answer = msgrcv_answer copies copy_sz msg in
    if ltb msgsz msg.size && not (has_flag flags msg_noerror)
    then (s, err Errno.e2big, none)
    else (dequeue c i prev m s, answer.0, answer.1)

-- The loop has a round for each message that the queue counts. What user memory gets is the third part
-- of the result; bytes of a copy that faults part of the way are not counted.
unfoldable pub do_msgrcv :
    Caller
    → Copies
    → (msqid : ℤ) → (msgsz : ℕ) → (msgtyp : ℤ) → (flags : ℕ) → Queues
    → Queues × Reply × Option Received
unfolding find_msg dequeue has_flag
do_msgrcv c copies (negsuc i) msgsz msgtyp flags s = (s, err Errno.einval, none)
do_msgrcv c copies (pos i) msgsz msgtyp flags s =
    let q = s.table i in
    if leb 32 i
    then (s, err Errno.einval, none)
    else if not q.used
    then (s, err Errno.einval, none)
    else msgrcv_at c copies i msgsz flags (find_msg q.qnum s msgtyp none q.head) s

-- The settings that IPC_SET reads.
pub record MsgSet : Type 0 where
  pub uid : ℕ
  pub gid : ℕ
  pub mode : ℕ
  pub qbytes : ℕ

-- The commands of `do_msgctl`: `buf` is whether there is a buffer, `copied` whether the copy to it
-- succeeds; `settings` is none for a fault.
pub data MsgCommand : Type 0 where
  rmid : MsgCommand
  stat : (buf copied : Bool) → MsgCommand
  set_ : (buf : Bool) → (settings : Option MsgSet) → MsgCommand
  other : MsgCommand

abbrev pub with_settings : Caller → MsgSet → Queue → Queue
with_settings c m q = record q {
  mode = m.mode % 512;
  qbytes = m.qbytes;
  ctime = c.time;
  owner = (m.uid, m.gid, q.owner.2, q.owner.3);
}

abbrev pub msgctl_at : Caller → (i : ℕ) → MsgCommand → Queues → Queues × Reply
msgctl_at c i rmid s = (put_queue i (record (s.table i) { used = false }) s, ok 0)
msgctl_at c i (stat false copied) s = (s, err Errno.efault)
msgctl_at c i (stat true false) s = (s, err Errno.efault)
msgctl_at c i (stat true true) s = (s, ok 0)
msgctl_at c i (set_ false m) s = (s, err Errno.efault)
msgctl_at c i (set_ true none) s = (s, err Errno.efault)
msgctl_at c i (set_ true (some m)) s = (put_queue i (with_settings c m (s.table i)) s, ok 0)
msgctl_at c i other s = (s, err Errno.einval)

-- For IPC_STAT the queue itself is the answer. The messages of a queue that is removed go back to the
-- page allocator.
unfoldable pub do_msgctl : Caller → (msqid : ℤ) → MsgCommand → Queues → Queues × Reply
do_msgctl c (negsuc i) cmd s = (s, err Errno.einval)
do_msgctl c (pos i) cmd s =
    if leb 32 i
    then (s, err Errno.einval)
    else if not (s.table i).used
    then (s, err Errno.einval)
    else msgctl_at c i cmd s
