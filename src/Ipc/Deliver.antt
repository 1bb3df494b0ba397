-- ===== src/Ipc/Deliver.antt =====
-- Which messages of `ipc_send` reach a receiver (src/kernel/ipc/ipc.c).
use Prim.Native.Nat.{bit_or}
use cosmo_rt.Common.{ℕ, suc, ◌≡◌, ◌≢◌, Bool, true, false, Option, none, some, ◌==◌, arith}
use cosmo_rt.Ipc.{
  State, Message, Ipc, put, is_free, is_send_wait, or_keep, notification, send_at, try_recv_at,
  refused, spin, recv_at, notify_at,
}

module _ (is_blocked : ℕ → Bool) (current : Option ℕ) (i : ℕ) (m : Ipc) where
  -- A message that is sent to an idle endpoint with no notification pending is received once: the
  -- first `ipc_try_recv` after it returns that message, and the second returns -1.
  pub send_received_once :
      (msg : Message)
      → (m.endpoints i).state ≡ State.idle
      → (m.endpoints i).notify_word ≡ 0
      → let sent = send_at is_blocked current i msg m in
        let first = try_recv_at i sent.0 in
        (sent.1 ≡ true) × (first.1 ≡ some msg) × ((try_recv_at i first.0).1 ≡ none)
  unfolding send_at try_recv_at
  send_received_once msg s w = ground arith

  -- On an idle endpoint with no notification pending, a second message replaces one that is not
  -- received yet: both sends return 0, and only the second message is received.
  pub send_overwrites :
      (msg msg' : Message)
      → (m.endpoints i).state ≡ State.idle
      → (m.endpoints i).notify_word ≡ 0
      → let one = send_at is_blocked current i msg m in
        let two = send_at is_blocked current i msg' one.0 in
        let first = try_recv_at i two.0 in
        (one.1 ≡ true) × (two.1 ≡ true) × (first.1 ≡ some msg') × ((try_recv_at i first.0).1 ≡ none)
  unfolding send_at try_recv_at
  send_overwrites msg msg' s w = ground arith

  -- A message that is sent while a receiver waits, with no notification pending, is lost: the send
  -- returns 0, the receiver's `ipc_try_recv` after it returns -1, and the endpoint is idle.
  pub send_to_waiting_lost :
      (msg : Message)
      → (m.endpoints i).state ≡ State.recv_wait
      → (m.endpoints i).notify_word ≡ 0
      → let sent = send_at is_blocked current i msg m in
        (sent.1 ≡ true)
        × (try_recv_at i sent.0 ≡ (sent.0, none))
        × ((sent.0.endpoints i).state ≡ State.idle)
  unfolding send_at try_recv_at
  send_to_waiting_lost msg s w = ground arith

  -- Where a message waits and the notification word with the new bits is not 0, `ipc_notify` returns 0,
  -- the next `ipc_try_recv` returns the notification, and the one after it the message.
  pub notify_before_message :
      (bits : ℕ)
      → (m.endpoints i).state ≡ State.send_wait
      → bit_or (m.endpoints i).notify_word bits ≢ 0
      → let told = notify_at is_blocked i bits m in
        let first = try_recv_at i told.0 in
        (told.1 ≡ true)
        × (first.1 ≡ some (notification (bit_or (m.endpoints i).notify_word bits)))
        × ((try_recv_at i first.0).1 ≡ some (m.endpoints i).msg)
  unfolding notify_at try_recv_at
  notify_before_message bits s w = ground arith

-- The spin of a waiting receiver, where the first thing that happens is a send.
spin_misses :
    (is_blocked : ℕ → Bool) (sender : Option ℕ) (n i : ℕ) (msg : Message) (m : Ipc)
    → (m.endpoints i).state ≡ State.recv_wait
    → (m.endpoints i).notify_word ≡ 0
    → (spin (suc n) i (λ k c. (send_at is_blocked sender i msg c).0) m).1 ≡ refused
unfolding spin send_at try_recv_at
spin_misses is_blocked sender n i msg m s w = ground arith

-- Where `ipc_recv` runs on an idle endpoint with no notification pending, and another core sends to
-- the endpoint before each round of the spin, `ipc_recv` returns -1.
pub recv_misses_send :
    (is_blocked : ℕ → Bool) (current thread sender : Option ℕ) (i : ℕ) (msg : Message) (m : Ipc)
    → (m.endpoints i).state ≡ State.idle
    → (m.endpoints i).notify_word ≡ 0
    → (recv_at current thread i (λ n k. (send_at is_blocked sender i msg k).0) m).1 ≡ refused
unfolding recv_at
recv_misses_send is_blocked current thread sender i msg m s w =
    let e = m.endpoints i in
    let waiting =
      put i
        (record e {
          state = State.recv_wait;
          blocked_pid = or_keep current e.blocked_pid;
          blocked_tid = or_keep thread e.blocked_tid;
        })
        m in
    let here : (i == i) ≡ true = ground arith in
    let missed : (spin 100 i (λ k c. (send_at is_blocked sender i msg c).0) waiting).1 ≡ refused =
      spin_misses is_blocked sender 99 i msg waiting (rw here) (rw here w) in
    let idle : is_free (m.endpoints i).state ≡ false = ground (arith, s) in
    let quiet : ((m.endpoints i).notify_word == 0) ≡ true = ground (arith, w) in
    let no_sender : is_send_wait (m.endpoints i).state ≡ false = ground (arith, s) in
    rw (idle, quiet, no_sender) missed
