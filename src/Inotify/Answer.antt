-- ===== src/Inotify/Answer.antt =====
-- `inotify_read` of src/kernel/event/inotify.c as a whole, with the overflow event.
use mathlib.Core.Path.{subst}
use cosmo_rt.Common.{
  ℕ, ◌+◌, ◌-◌, ◌^◌, ◌≤◌, ◌<◌, ◌≡◌, refl, sym, ap, ◌∙◌, Bool, true, false, ◌&&◌, List, [], ◌∷◌, ◌++◌,
  append-nil, length, length-append, Errno, Reply, ok, err, ltb, ◌==◌, if◌then◌else◌, arith,
}
use cosmo_rt.Inotify.{
  Inotify, padded_len, Reading, read_loop, in_q_overflow, with_overflow, read_done, read_from,
  inotify_read,
}
use cosmo_rt.Inotify.Ring.{IsRing}
use cosmo_rt.Inotify.Event.{Event, header, body, encode, length-encode, with_header, header-Appends}
use cosmo_rt.Inotify.Read.{
  encode_all, AllNamed, NoneFits, length-encode_all, ring_used_lem, Reads, read_loop-Reads,
}

-- IN_Q_OVERFLOW for no watch.
abbrev pub overflow_event : Event
overflow_event = record { wd = 2 ^ 32 - 1; mask = in_q_overflow; cookie = 0; name = [] }

-- The events that a read finds: after an overflow an empty ring gives the event that tells of it.
abbrev pub waiting : (overflow : Bool) → List Event → List Event
waiting true [] = overflow_event ∷ []
waiting true (e ∷ es) = e ∷ es
waiting false es = es

overflow_written :
    (ino : Inotify)
    → IsRing ino []
    → IsRing (with_header overflow_event ino) (encode overflow_event)
unfolding encode body
overflow_written ino h =
    let a = header-Appends overflow_event ino (omega (arith, ring_used_lem ino [] h)) in
    let none_ : body overflow_event ≡ [] = unfold padded_len in refl in
    subst (λ k. IsRing (with_header overflow_event ino) (header overflow_event ++ k)) (sym none_)
      (subst (λ k. IsRing (with_header overflow_event ino) k)
        (sym (append-nil (header overflow_event))) (a.queue [] h))

if-IsRing :
    (b : Bool) {x y : Inotify} {bytes : List ℕ}
    → (b ≡ true → IsRing x bytes)
    → (b ≡ false → IsRing y bytes)
    → IsRing (if b then x else y) bytes
if-IsRing true p q = p refl
if-IsRing false p q = q refl

flag-IsRing :
    (ino : Inotify) (bytes : List ℕ)
    → IsRing ino bytes
    → IsRing (record ino { overflow = false }) bytes
flag-IsRing ino bytes h = (record { held = h.held; size = h.size; head = h.head; tail = h.tail })

waiting_some : (o : Bool) (e : Event) (es : List Event) → waiting o (e ∷ es) ≡ e ∷ es
waiting_some true e es = refl
waiting_some false e es = refl

with_overflow-IsRing :
    (ino : Inotify) (es : List Event)
    → IsRing ino (encode_all es)
    → IsRing (with_overflow ino) (encode_all (waiting ino.overflow es))
unfolding padded_len
with_overflow-IsRing ino [] h =
    let used = ring_used_lem ino [] h in
    let written : IsRing (record (with_header overflow_event ino) { overflow = false })
        (encode overflow_event ++ []) =
      subst (λ k. IsRing (record (with_header overflow_event ino) { overflow = false }) k)
        (sym (append-nil (encode overflow_event)))
        (flag-IsRing (with_header overflow_event ino) (encode overflow_event)
          (overflow_written ino h)) in
    if-IsRing (ino.overflow && (ino.ring_used == 0))
      (λ t.
        let flagged : ino.overflow ≡ true = ground (arith, t) in
        subst
          (λ o.
            IsRing (record (with_header overflow_event ino) { overflow = false })
              (encode_all (waiting o [])))
          (sym flagged) written)
      (λ f.
        let clear : ino.overflow ≡ false = ground (arith, f, used) in
        subst (λ o. IsRing ino (encode_all (waiting o []))) (sym clear) h)
with_overflow-IsRing ino (e ∷ es) h =
    let used = ring_used_lem ino (encode e ++ encode_all es) h in
    let parts = length-append (encode e) (encode_all es) in
    subst (λ k. IsRing (with_overflow ino) (encode_all k)) (sym (waiting_some ino.overflow e es))
      (if-IsRing (ino.overflow && (ino.ring_used == 0))
        (λ t. absurd (ground (arith, t, used, parts, length-encode e))) (λ f. h))

-- What a read of at most `count` bytes does with the events that wait: nothing that fits, which is an
-- error and takes nothing; or as many events from the front as fit, whole and in order.
pub data Answers (count : ℕ) (ws : List Event) : Inotify × Reply × List ℕ → Type 0 where
  nothing :
      (r : Inotify)
      → IsRing r (encode_all ws)
      → NoneFits count ws
      → Answers count ws (r, err Errno.eagain, [])
  events :
      (r : Inotify)
      → (taken rest : List Event) → (n : ℕ) → ws ≡ taken ++ rest
      → n ≡ length (encode_all taken)
      → 0 < n
      → n ≤ count
      → NoneFits (count - n) rest
      → IsRing r (encode_all rest)
      → Answers count ws (r, ok n, encode_all taken)

done-Answers :
    (count : ℕ) (ino : Inotify) (ws : List Event) (r : Reading)
    → Reads count ws (record { state = ino; total = 0; out = [] }) r
    → Answers count ws (read_done r)
done-Answers count ino ws r h = by_taken h.taken refl
  where
    by_taken : (ts : List Event) → h.taken ≡ ts → Answers count ws (read_done r)
    by_taken [] e =
        let none_ : r.total ≡ 0 = h.sum ∙ ap (λ k. 0 + length (encode_all k)) e in
        let all : ws ≡ h.rest = h.parts ∙ ap (λ k. k ++ h.rest) e in
        let room : count - r.total ≡ count = omega (arith, none_) in
        let stops = subst (λ k. NoneFits k h.rest) room h.stops in
        rw none_ (
          rw (h.output ∙ ap encode_all e) (
            nothing r.state (subst (λ k. IsRing r.state (encode_all k)) (sym all) h.left)
              (subst (λ k. NoneFits count k) (sym all) stops)))
    by_taken (t ∷ ts) e =
        let size : r.total ≡ length (encode_all h.taken) = omega (arith, h.sum) in
        let some_ : 0 < r.total = omega (
          arith,
          size,
          ap (λ k. length (encode_all k)) e,
          length-append (encode t) (encode_all ts),
          length-encode t,
        ) in
        let test : (r.total == 0) ≡ false = ground (arith, some_) in
        rw test (
          rw h.output
            (events r.state h.taken h.rest r.total h.parts size some_ h.fits h.stops h.left))

read_from-Answers :
    (count : ℕ) (i : Inotify) (ws : List Event)
    → AllNamed ws
    → IsRing i (encode_all ws)
    → Answers count ws (read_from count i)
read_from-Answers count i [] n g =
    let none_ : (i.ring_used == 0) ≡ true = ground (arith, ring_used_lem i [] g) in
    rw none_ (nothing i g tt)
read_from-Answers count i (w ∷ ws) n g =
    let used = ring_used_lem i (encode w ++ encode_all ws) g in
    let parts = length-append (encode w) (encode_all ws) in
    let test : (i.ring_used == 0) ≡ false = ground (arith, used, parts, length-encode w) in
    let rounds : length (w ∷ ws) ≤ 128 = omega (arith, length-encode_all (w ∷ ws), used, g.size) in
    rw test (
      done-Answers count i (w ∷ ws)
        (read_loop 128 count (record { state = i; total = 0; out = [] }))
        (read_loop-Reads 128 count (w ∷ ws) (record { state = i; total = 0; out = [] }) rounds
          (omega arith) n g))

-- On a ring that holds events whose names are at most 255 long, `inotify_read` with room for a header
-- gives back the bytes of as many events from the front as fit, whole and in order, just as they were
-- queued, and leaves the others in the ring; where none is left or the first does not fit it returns
-- EAGAIN and takes none. After an overflow, a read that finds the ring empty gives the event that tells
-- of it; a read that finds events there gives those alone.
pub inotify_read-Answers :
    (count : ℕ) (ino : Inotify) (es : List Event)
    → 16 ≤ count
    → AllNamed es
    → IsRing ino (encode_all es)
    → Answers count (waiting ino.overflow es) (inotify_read count ino)
unfolding inotify_read
inotify_read-Answers count ino es p a h =
    let start = with_overflow-IsRing ino es h in
    let ws = waiting ino.overflow es in
    let long : ltb count 16 ≡ false = ground arith in
    rw long (read_from-Answers count (with_overflow ino) ws (named ino.overflow es a) start)
  where
    named : (o : Bool) (xs : List Event) → AllNamed xs → AllNamed (waiting o xs)
    named true [] n = (omega arith, tt)
    named true (x ∷ xs) n = n
    named false xs n = n
