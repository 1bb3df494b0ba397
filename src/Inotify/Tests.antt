-- ===== src/Inotify/Tests.antt =====
-- Two events in the ring (src/kernel/event/inotify.c).
use cosmo_rt.Common.{◌≡◌, refl, true, false, [], ◌∷◌, err, Errno, arith}
use cosmo_rt.Inotify.{
  Inotify, queue_event, inotify_read, inotify_has_events, put_bytes, ring_write, ring_read,
  ring_peek, bytes_at, advance, bytes_of, number_of, padded_len, ring_free, read_loop,
}
use cosmo_rt.Inotify.Ring.{IsRing}
use cosmo_rt.Inotify.Event.{Event, encode, header, body, Queues, queue_event-Queues}
use cosmo_rt.Inotify.Read.{encode_all}
use cosmo_rt.Inotify.Answer.{waiting, Answers, inotify_read-Answers}

-- The ring is empty in the middle, so that what is written wraps around.
abbrev empty : Inotify
empty = record {
  ring = λ p. 9;
  ring_head = 2030;
  ring_tail = 2030;
  ring_used = 0;
  overflow = false;
}

empty-IsRing : IsRing empty []
unfolding bytes_at
empty-IsRing = record { held = refl; size = omega arith; head = omega arith; tail = omega arith }

-- IN_CREATE of a file named `ab`
abbrev created : Event
created = record { wd = 1; mask = 256; cookie = 0; name = 97 ∷ 98 ∷ [] }

queue_event-Queues_example : Queues created empty [] (queue_event 1 256 0 (97 ∷ 98 ∷ []) empty)
queue_event-Queues_example = queue_event-Queues created empty [] empty-IsRing

abbrev one_event : Inotify
one_event = queue_event 1 256 0 (97 ∷ 98 ∷ []) empty

one_event-IsRing : IsRing one_event (encode_all (created ∷ []))
unfolding queue_event ring_free padded_len ring_write put_bytes bytes_of bytes_at encode header body
one_event-IsRing = record {
  held = refl;
  size = omega arith;
  head = omega arith;
  tail = omega arith;
}

inotify_read-Answers_example :
    Answers 64 (waiting one_event.overflow (created ∷ [])) (inotify_read 64 one_event)
inotify_read-Answers_example =
    inotify_read-Answers 64 one_event (created ∷ []) (omega arith) (omega arith, tt)
      one_event-IsRing

read_whole :
    (inotify_read 64 one_event).2
    ≡ 1 ∷ 0 ∷ 0 ∷ 0 ∷ 0 ∷ 1 ∷ 0 ∷ 0 ∷ 0 ∷ 0 ∷ 0 ∷ 0 ∷ 4 ∷ 0 ∷ 0 ∷ 0 ∷ 97 ∷ 98 ∷ 0 ∷ 0 ∷ []
unfolding queue_event ring_free padded_len ring_write put_bytes bytes_of bytes_at inotify_read
    read_loop ring_peek ring_read advance number_of
read_whole = refl

-- A buffer for a header alone is refused though an event waits.
read_too_small : (inotify_read 16 one_event).1 ≡ err Errno.eagain
unfolding queue_event ring_free padded_len ring_write put_bytes bytes_of bytes_at inotify_read
    read_loop ring_peek ring_read advance number_of
read_too_small = refl

event_seen : inotify_has_events one_event ≡ true
unfolding queue_event ring_free padded_len ring_write put_bytes bytes_of inotify_has_events
event_seen = refl
