-- ===== src/Inotify.antt =====
-- The event queue of an inotify instance, src/kernel/event/inotify.c: a ring of 2048 bytes that events
-- are written to and read from as bytes. A 32-bit field is its bits.
pub mod Ring
pub mod Event
pub mod Read
pub mod Answer
pub mod Watch
mod Tests
use cosmo_rt.Common.{
  ℕ, zero, suc, ◌+◌, ◌-◌, ◌*◌, ◌/◌, ◌%◌, ◌^◌, Bool, true, false, ◌&&◌, ◌||◌, not, Option, none,
  some, List, [], ◌∷◌, ◌++◌, length, drop, replicate, Errno, Reply, ok, err, ltb, leb, ◌==◌,
  if◌then◌else◌,
}

abbrev pub ring_size : ℕ
ring_size = 2048

abbrev pub in_q_overflow : ℕ
in_q_overflow = 16384

-- The event ring of `inotify_t`.
pub record Inotify : Type 0 where
  pub ring : ℕ → ℕ
  pub ring_head : ℕ
  pub ring_tail : ℕ
  pub ring_used : ℕ
  pub overflow : Bool

unfoldable pub ring_free : Inotify → ℕ
ring_free ino = ring_size - ino.ring_used

abbrev pub put_byte : ℕ → Inotify → Inotify
put_byte b ino = record ino {
  ring = λ p. if p == ino.ring_tail then b else ino.ring p;
  ring_tail = (ino.ring_tail + 1) % ring_size;
}

unfoldable pub put_bytes : List ℕ → Inotify → Inotify
put_bytes [] ino = ino
put_bytes (b ∷ bs) ino = put_bytes bs (put_byte b ino)

unfoldable pub ring_write : List ℕ → Inotify → Inotify
unfolding put_bytes
ring_write data_ ino =
    let r = put_bytes data_ ino in record r { ring_used = r.ring_used + length data_ }

-- The `len` bytes from the position on, and the position after them.
unfoldable pub bytes_at : (len position : ℕ) → (ℕ → ℕ) → List ℕ
bytes_at zero position ring = []
bytes_at (suc n) position ring = ring position ∷ bytes_at n ((position + 1) % ring_size) ring

unfoldable pub advance : (len position : ℕ) → ℕ
advance zero position = position
advance (suc n) position = advance n ((position + 1) % ring_size)

unfoldable pub ring_peek : (len : ℕ) → Inotify → List ℕ
unfolding bytes_at
ring_peek len ino = bytes_at len ino.ring_head ino.ring

unfoldable pub ring_read : (len : ℕ) → Inotify → Inotify × List ℕ
unfolding bytes_at advance
ring_read len ino = (
  record ino { ring_head = advance len ino.ring_head; ring_used = ino.ring_used - len },
  bytes_at len ino.ring_head ino.ring,
)

-- A 32-bit number in memory, and read from there.
unfoldable pub bytes_of : ℕ → List ℕ
bytes_of n = n % 256 ∷ n / 256 % 256 ∷ n / 65536 % 256 ∷ n / 16777216 % 256 ∷ []

unfoldable pub number_of : List ℕ → ℕ
number_of (a ∷ b ∷ c ∷ d ∷ xs) = a + b * 256 + c * 65536 + d * 16777216
number_of xs = 0

-- The length of the name with its null and the padding; no name has none.
unfoldable pub padded_len : (name : List ℕ) → ℕ
padded_len [] = 0
padded_len (c ∷ cs) = (length (c ∷ cs) + 4) / 4 * 4

-- `queue_event` of a name that is given by its characters.
unfoldable pub queue_event : (wd mask cookie : ℕ) → (name : List ℕ) → Inotify → Inotify
unfolding ring_free padded_len ring_write bytes_of
queue_event wd mask cookie name ino =
    let padded = padded_len name in
    if ltb (ring_free ino) (16 + padded)
    then record ino { overflow = true }
    else let fields = ring_write (bytes_of padded) (
        ring_write (bytes_of cookie) (ring_write (bytes_of mask) (ring_write (bytes_of wd) ino))) in
      if padded == 0
      then fields
      else ring_write (replicate (padded - length name) 0) (ring_write name fields)

-- What is read so far, with its length.
pub record Reading : Type 0 where
  pub state : Inotify
  pub total : ℕ
  pub out : List ℕ

abbrev pub read_event : (ev_size : ℕ) → Reading → Reading
read_event ev_size r =
    let read = ring_read ev_size r.state in
    record { state = read.0; total = r.total + ev_size; out = r.out ++ read.1 }

-- The loop over the events, in at most `fuel` rounds.
unfoldable pub read_loop : (fuel count : ℕ) → Reading → Reading
unfolding ring_peek ring_read number_of
read_loop zero count r = r
read_loop (suc fuel) count r =
    let ev_size = 16 + number_of (drop 12 (ring_peek 16 r.state)) in
    let further = read_loop fuel count (read_event ev_size r) in
    if not (leb 16 r.state.ring_used && leb (r.total + 16) count)
    then r
    else if ltb r.state.ring_used ev_size
    then r
    else if ltb count (r.total + ev_size)
    then r
    else if ltb 276 ev_size
    then r
    else further

abbrev pub with_overflow : Inotify → Inotify
with_overflow ino =
    if ino.overflow && (ino.ring_used == 0)
    then record (ring_write (bytes_of 0) (
        ring_write (bytes_of 0)
          (ring_write (bytes_of in_q_overflow) (ring_write (bytes_of (2 ^ 32 - 1)) ino)))) {
            overflow = false;
          }
    else ino

abbrev pub read_done : Reading → Inotify × Reply × List ℕ
read_done r = (r.state, if r.total == 0 then err Errno.eagain else ok r.total, r.out)

abbrev pub read_from : (count : ℕ) → Inotify → Inotify × Reply × List ℕ
read_from count ino =
    if ino.ring_used == 0
    then (ino, err Errno.eagain, [])
    else read_done (read_loop 128 count (record { state = ino; total = 0; out = [] }))

-- The bytes are what is copied to user memory; `count` is not negative. The ring has room for 128 events.
unfoldable pub inotify_read : (count : ℕ) → Inotify → Inotify × Reply × List ℕ
unfolding read_loop ring_write bytes_of
inotify_read count ino =
    if ltb count 16 then (ino, err Errno.einval, []) else read_from count (with_overflow ino)

unfoldable pub inotify_has_events : Inotify → Bool
inotify_has_events ino = ltb 0 ino.ring_used || ino.overflow
