-- ===== src/Ipc.antt =====
-- Endpoints of src/kernel/ipc/ipc.c: synchronous messages and notifications. The endpoint table is
-- a function of the index; a thread that `ipc_wake_receiver` hands to the scheduler is put in front
-- of the list `woken`.
pub mod Deliver
pub mod Table
mod Tests
use Prim.Native.Nat.{bit_or}
use cosmo_rt.Common.{
  ℕ, zero, suc, ◌+◌, ◌-◌, Bool, true, false, ◌&&◌, ◌||◌, not, Option, none, some, List, [], ◌∷◌,
  ltb, ◌==◌, if◌then◌else◌,
}
use cosmo_rt.Common.Int.{ℤ, pos, negsuc}

-- EP_FREE, EP_IDLE, EP_SEND_WAIT and EP_RECV_WAIT.
pub data State : Type 0 where
  free idle send_wait recv_wait : State

-- `ipc_msg_t`; the sender -1 is `none`.
pub record Message : Type 0 where
  pub word0 : ℕ
  pub word1 : ℕ
  pub word2 : ℕ
  pub word3 : ℕ
  pub sender_pid : Option ℕ

-- `ipc_endpoint_t` without its lock; a pid or tid of -1 is `none`.
pub record Endpoint : Type 0 where
  pub state : State
  pub owner_pid : Option ℕ
  pub msg : Message
  pub blocked_pid : Option ℕ
  pub blocked_tid : Option ℕ
  pub notify_word : ℕ

pub record Ipc : Type 0 where
  pub endpoints : ℕ → Endpoint
  pub woken : List ℕ

abbrev pub max_endpoints : ℕ
max_endpoints = 64

abbrev pub is_free : State → Bool
is_free State.free = true
is_free _ = false

abbrev pub is_send_wait : State → Bool
is_send_wait State.send_wait = true
is_send_wait _ = false

abbrev pub is_recv_wait : State → Bool
is_recv_wait State.recv_wait = true
is_recv_wait _ = false

abbrev pub put : ℕ → Endpoint → Ipc → Ipc
put i e m = record m { endpoints = λ j. if j == i then e else m.endpoints j }

-- The index behind `ep_id < 0 || ep_id >= IPC_MAX_ENDPOINTS`.
pub index_of : ℤ → Option ℕ
index_of (pos n) = if ltb n max_endpoints then some n else none
index_of (negsuc n) = none

-- `endpoints[i]` after `ipc_init`; the message is what the zeroed table holds.
pub init_endpoint : Endpoint
init_endpoint = record {
  state = State.free;
  owner_pid = none;
  msg = record { word0 = 0; word1 = 0; word2 = 0; word3 = 0; sender_pid = some 0 };
  blocked_pid = none;
  blocked_tid = none;
  notify_word = 0;
}

pub init : Ipc
unfolding init_endpoint
init = record { endpoints = λ i. init_endpoint; woken = [] }

-- The endpoint that `ipc_wake_receiver` leaves.
abbrev pub unblocked : Endpoint → Endpoint
unblocked e = record e { blocked_pid = none; blocked_tid = cleared e.blocked_tid }
  where
    cleared : Option ℕ → Option ℕ
    cleared none = none
    cleared (some t) = if ltb 0 t then none else some t

-- The threads that it wakes; `is_blocked` is what the thread table says of a tid.
pub wakes : (is_blocked : ℕ → Bool) → Option ℕ → List ℕ → List ℕ
wakes is_blocked none woken = woken
wakes is_blocked (some t) woken = if ltb 0 t && is_blocked t then t ∷ woken else woken

abbrev pub owned : (pid : ℕ) → Endpoint → Endpoint
owned pid e = record e {
  state = State.idle;
  owner_pid = some pid;
  blocked_pid = none;
  blocked_tid = none;
  notify_word = 0;
}

-- The search of `ipc_create_endpoint` from the index `i` on, for `n` more.
pub create_from : (n i pid : ℕ) → Ipc → Ipc × Option ℕ
create_from zero i pid m = (m, none)
create_from (suc n) i pid m =
    let later = create_from n (i + 1) pid m in
    if is_free (m.endpoints i).state then (put i (owned pid (m.endpoints i)) m, some i) else later

pub create : (pid : ℕ) → Ipc → Ipc × Option ℕ
unfolding create_from
create pid m = create_from max_endpoints 0 pid m

-- `if (cur) ep->blocked_pid = cur->pid`
abbrev pub or_keep : Option ℕ → Option ℕ → Option ℕ
or_keep none old = old
or_keep (some pid) old = some pid

pub send_at : (is_blocked : ℕ → Bool) (current : Option ℕ) → ℕ → Message → Ipc → Ipc × Bool
unfolding wakes
send_at is_blocked current i msg m =
    let e = m.endpoints i in
    if is_free e.state
    then (m, false)
    else if is_recv_wait e.state
    then (
      record (put i (unblocked (record e { msg = msg; state = State.idle })) m) {
        woken = wakes is_blocked e.blocked_tid m.woken;
      },
      true,
    )
    else (
      put i
          (record e {
            msg = msg;
            state = State.send_wait;
            blocked_pid = or_keep current e.blocked_pid;
          })
          m,
      true,
    )

-- `true` for 0 and `false` for -1.
pub send : (is_blocked : ℕ → Bool) (current : Option ℕ) → ℤ → Message → Ipc → Ipc × Bool
unfolding index_of send_at
send is_blocked current id msg m = elim (index_of id) [
  | none ↦ (m, false)
  | some i ↦ send_at is_blocked current i msg m
]

abbrev pub notification : ℕ → Message
notification bits = record { word0 = bits; word1 = 0; word2 = 0; word3 = 0; sender_pid = none }

-- `none` for -1.
pub try_recv_at : ℕ → Ipc → Ipc × Option Message
try_recv_at i m =
    let e = m.endpoints i in
    if not (e.notify_word == 0)
    then (put i (record e { notify_word = 0 }) m, some (notification e.notify_word))
    else if is_send_wait e.state
    then (put i (record e { state = State.idle; blocked_pid = none }) m, some e.msg)
    else (m, none)

pub try_recv : ℤ → Ipc → Ipc × Option Message
unfolding index_of try_recv_at
try_recv id m = elim (index_of id) [ none ↦ (m, none) | some i ↦ try_recv_at i m ]

-- What `ipc_recv` returns: 0 with the message, -1, or -EAGAIN.
pub data Received : Type 0 where
  got : Message → Received
  refused : Received
  again : Received

abbrev pub as_received : Option Message → Received
as_received none = refused
as_received (some msg) = got msg

-- The 100 rounds of the spin; `others` is what the other cores do before each.
pub spin : (n i : ℕ) → (others : ℕ → Ipc → Ipc) → Ipc → Ipc × Received
unfolding try_recv_at
spin zero i others m = (m, again)
spin (suc n) i others m =
    let m' = others n m in
    let e = m'.endpoints i in
    let r = try_recv_at i m' in
    let rest = spin n i others m' in
    if not (e.notify_word == 0) || is_send_wait e.state || not (is_recv_wait e.state)
    then (r.0, as_received r.1)
    else rest

pub recv_at : (current thread : Option ℕ) → ℕ → (others : ℕ → Ipc → Ipc) → Ipc → Ipc × Received
unfolding try_recv_at
recv_at current thread i others m =
    let e = m.endpoints i in
    let r = try_recv_at i m in
    let waiting =
      put i
        (record e {
          state = State.recv_wait;
          blocked_pid = or_keep current e.blocked_pid;
          blocked_tid = or_keep thread e.blocked_tid;
        })
        m in
    let spun = spin 100 i others waiting in
    if is_free e.state
    then (m, refused)
    else if not (e.notify_word == 0) || is_send_wait e.state
    then (r.0, as_received r.1)
    else spun

pub recv : (current thread : Option ℕ) → ℤ → (others : ℕ → Ipc → Ipc) → Ipc → Ipc × Received
unfolding index_of recv_at
recv current thread id others m = elim (index_of id) [
  | none ↦ (m, refused)
  | some i ↦ recv_at current thread i others m
]

pub notify_at : (is_blocked : ℕ → Bool) → ℕ → (bits : ℕ) → Ipc → Ipc × Bool
unfolding wakes
notify_at is_blocked i bits m =
    let e = m.endpoints i in
    let told = record e { notify_word = bit_or e.notify_word bits } in
    if is_free e.state
    then (m, false)
    else if is_recv_wait e.state
    then (
      record (put i (unblocked (record told { state = State.idle })) m) {
        woken = wakes is_blocked e.blocked_tid m.woken;
      },
      true,
    )
    else (put i told m, true)

pub notify : (is_blocked : ℕ → Bool) → ℤ → (bits : ℕ) → Ipc → Ipc × Bool
unfolding index_of notify_at
notify is_blocked id bits m = elim (index_of id) [
  | none ↦ (m, false)
  | some i ↦ notify_at is_blocked i bits m
]

-- One round of `ipc_wait_any`: the position of the first endpoint that has a message.
pub wait_round : (ids : List ℤ) → (k : ℕ) → Ipc → Ipc × Option (ℕ × Message)
unfolding try_recv
wait_round [] k m = (m, none)
wait_round (id ∷ ids) k m =
    let r = try_recv id m in
    let rest = wait_round ids (k + 1) m in
    elim r.1 [ some msg ↦ (r.0, some (k, msg)) | none ↦ rest ]

-- Two rounds, with what the other cores do between them.
pub wait_any : (ids : List ℤ) → (others : Ipc → Ipc) → Ipc → Ipc × Option (ℕ × Message)
unfolding wait_round
wait_any ids others m =
    let first = wait_round ids 0 m in
    let second = wait_round ids 0 (others first.0) in
    elim first.1 [ some r ↦ (first.0, some r) | none ↦ second ]
