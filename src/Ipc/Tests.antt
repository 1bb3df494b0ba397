-- ===== src/Ipc/Tests.antt =====
-- Endpoints at concrete messages (src/kernel/ipc/ipc.c).
use Prim.Native.Nat.{bit_or}
use cosmo_rt.Common.{ℕ, ◌≡◌, refl, Bool, true, false, none, some, [], ◌∷◌, arith}
use cosmo_rt.Common.Int.{pos, negsuc}
use cosmo_rt.Ipc.{
  State, Message, Endpoint, Ipc, max_endpoints, put, init, create, send, try_recv, wait_any,
  notification, send_at, try_recv_at, notify_at, recv_at, refused,
}
use cosmo_rt.Ipc.Deliver.{
  send_received_once, send_overwrites, send_to_waiting_lost, notify_before_message,
  recv_misses_send,
}
use cosmo_rt.Ipc.Table.{Creates, others_unchanged, create-Creates}

abbrev hello : Message
hello = record { word0 = 7; word1 = 8; word2 = 9; word3 = 10; sender_pid = some 5 }

abbrev bye : Message
bye = record { word0 = 1; word1 = 1; word2 = 1; word3 = 1; sender_pid = some 6 }

abbrev quiet : Endpoint
quiet = record {
  state = State.idle;
  owner_pid = some 3;
  msg = bye;
  blocked_pid = none;
  blocked_tid = none;
  notify_word = 0;
}

abbrev table : Ipc
table = record { endpoints = λ i. quiet; woken = [] }

abbrev waiting : Ipc
waiting = put 2 (record quiet { state = State.recv_wait; blocked_tid = some 9 }) table

abbrev sending : Ipc
sending = put 2 (record quiet { state = State.send_wait; msg = hello; notify_word = 1 }) table

abbrev blocked : ℕ → Bool
blocked t = true

second_endpoint : (create 4 (create 3 init).0).1 ≡ some 1
unfolding create init
second_endpoint = refl

bad_endpoint : (send blocked none (pos 64) hello table).1 ≡ false
unfolding send
bad_endpoint = refl

negative_endpoint : (try_recv (negsuc 0) table).1 ≡ none
unfolding try_recv
negative_endpoint = refl

wakes_receiver : (send blocked none (pos 2) hello waiting).0.woken ≡ 9 ∷ []
unfolding send
wakes_receiver = refl

first_of_two : (wait_any (pos 1 ∷ pos 2 ∷ []) (λ m. m) sending).1 ≡ some (1, notification 1)
unfolding wait_any try_recv
first_of_two = refl

send_received_once_example :
    let sent = send_at blocked none 2 hello table in
    let first = try_recv_at 2 sent.0 in
    (sent.1 ≡ true) × (first.1 ≡ some hello) × ((try_recv_at 2 first.0).1 ≡ none)
send_received_once_example = send_received_once blocked none 2 table hello refl refl

send_overwrites_run :
    let one = send_at blocked none 2 hello table in
    let two = send_at blocked none 2 bye one.0 in
    let first = try_recv_at 2 two.0 in
    (one.1 ≡ true) × (two.1 ≡ true) × (first.1 ≡ some bye) × ((try_recv_at 2 first.0).1 ≡ none)
send_overwrites_run = send_overwrites blocked none 2 table hello bye refl refl

lost_message :
    let sent = send_at blocked none 2 hello waiting in
    (sent.1 ≡ true)
    × (try_recv_at 2 sent.0 ≡ (sent.0, none))
    × ((sent.0.endpoints 2).state ≡ State.idle)
lost_message = send_to_waiting_lost blocked none 2 waiting hello refl refl

notify_before_message_run :
    let told = notify_at blocked 2 6 sending in
    let first = try_recv_at 2 told.0 in
    (told.1 ≡ true)
    × (first.1 ≡ some (notification (bit_or 1 6)))
    × ((try_recv_at 2 first.0).1 ≡ some hello)
notify_before_message_run = notify_before_message blocked none 2 sending 6 refl (omega arith)

recv_misses_send_example :
    (recv_at none (some 9) 2 (λ n k. (send_at blocked (some 5) 2 hello k).0) table).1 ≡ refused
recv_misses_send_example = recv_misses_send blocked none (some 9) (some 5) 2 hello table refl refl

other_endpoint :
    ((send_at blocked none 2 hello table).0.endpoints 3 ≡ quiet)
    × ((try_recv_at 2 table).0.endpoints 3 ≡ quiet)
    × ((notify_at blocked 2 6 table).0.endpoints 3 ≡ quiet)
other_endpoint = others_unchanged blocked none 2 3 hello 6 table (omega arith)

create-Creates_run : Creates 0 max_endpoints 4 table (create 4 table)
create-Creates_run = create-Creates 4 table
