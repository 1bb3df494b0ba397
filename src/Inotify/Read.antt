-- ===== src/Inotify/Read.antt =====
-- `inotify_read` (src/kernel/event/inotify.c).
use mathlib.Core.Path.{subst}
use cosmo_rt.Common.{
  ℕ, zero, suc, ◌+◌, ◌-◌, ◌*◌, ◌≤◌, ◌<◌, ◌≡◌, refl, sym, ap, ◌∙◌, true, false, ◌&&◌, List, [], ◌∷◌,
  ◌++◌, append_assoc, append-nil, length, length-append, drop, ltb, leb, arith, Bool-cases, inl,
  inr,
}
use cosmo_rt.Inotify.{
  Inotify, bytes_of, number_of, padded_len, ring_peek, ring_read, Reading, read_event, read_loop,
}
use cosmo_rt.Inotify.Ring.{IsRing, length-bytes_at, ring_read-IsRing}
use cosmo_rt.Inotify.Event.{Event, header, body, encode, length-encode, number_of-bytes_of}

abbrev pub encode_all : List Event → List ℕ
encode_all [] = []
encode_all (e ∷ es) = encode e ++ encode_all es

-- No name is longer than a file name may be.
abbrev pub AllNamed : List Event → Type 0
AllNamed [] = Unit
AllNamed (e ∷ es) = (length e.name ≤ 255) × AllNamed es

-- Nothing is left, or the next event does not fit into `room`.
abbrev pub NoneFits : (room : ℕ) → List Event → Type 0
NoneFits room [] = Unit
NoneFits room (e ∷ es) = room < length (encode e)

pub encode_all-append :
    (xs ys : List Event) → encode_all (xs ++ ys) ≡ encode_all xs ++ encode_all ys
encode_all-append [] ys = refl
encode_all-append (x ∷ xs) ys =
    ap (λ k. encode x ++ k) (encode_all-append xs ys)
    ∙ sym (append_assoc (encode x) (encode_all xs) (encode_all ys))

padded_len-bound : (name : List ℕ) → length name ≤ 255 → padded_len name ≤ 256
unfolding padded_len
padded_len-bound [] h = omega arith
padded_len-bound (c ∷ cs) h = omega arith

-- The events take their room.
pub length-encode_all : (es : List Event) → length es * 16 ≤ length (encode_all es)
length-encode_all [] = omega arith
length-encode_all (e ∷ es) =
    omega (arith, length-append (encode e) (encode_all es), length-encode e, length-encode_all es)

pub ring_used_lem :
    (ino : Inotify) (bytes : List ℕ) → IsRing ino bytes → ino.ring_used ≡ length bytes
ring_used_lem ino bytes h =
    sym (length-bytes_at ino.ring_used ino.ring_head ino.ring) ∙ ap length h.held

-- The header at the front of the ring gives the size of the event.
header_size :
    (ino : Inotify) (e : Event) (bytes : List ℕ)
    → length e.name ≤ 255
    → IsRing ino (encode e ++ bytes)
    → 16 + number_of (drop 12 (ring_peek 16 ino)) ≡ length (encode e)
header_size ino e bytes l h =
    let whole : encode e ++ bytes ≡ header e ++ (body e ++ bytes) =
      unfold encode in append_assoc (header e) (body e) bytes in
    let front =
      (ring_read-IsRing ino (header e) (body e ++ bytes) (subst (λ k. IsRing ino k) whole h)).1 in
    let peeked : ring_peek 16 ino ≡ header e = peek front in
    let field : number_of (drop 12 (header e)) ≡ padded_len e.name =
      last_field
      ∙ number_of-bytes_of (padded_len e.name) (omega (arith, padded_len-bound e.name l)) in
    omega (arith, ap (λ k. number_of (drop 12 k)) peeked, field, length-encode e)
  where
    peek : (ring_read (length (header e)) ino).1 ≡ header e → ring_peek 16 ino ≡ header e
    peek p = unfold ring_read ring_peek header bytes_of in p

    last_field : number_of (drop 12 (header e)) ≡ number_of (bytes_of (padded_len e.name))
    last_field = unfold header bytes_of in refl

-- What the loop leaves: the events that it took, whole and in order, and the others in the ring.
pub record Reads (count : ℕ) (es : List Event) (r0 r : Reading) : Type 0 where
  pub taken : List Event
  pub rest : List Event
  pub parts : es ≡ taken ++ rest
  pub output : r.out ≡ r0.out ++ encode_all taken
  pub sum : r.total ≡ r0.total + length (encode_all taken)
  pub fits : r.total ≤ count
  pub left : IsRing r.state (encode_all rest)
  pub stops : NoneFits (count - r.total) rest

stopped-Reads :
    (count : ℕ) (es : List Event) (r : Reading)
    → r.total ≤ count
    → IsRing r.state (encode_all es)
    → NoneFits (count - r.total) es
    → Reads count es r r
stopped-Reads count es r l h s = record {
  taken = [];
  rest = es;
  parts = refl;
  output = sym (append-nil r.out);
  sum = omega arith;
  fits = l;
  left = h;
  stops = s;
}

-- One event more in front.
further-Reads :
    (count size : ℕ) (e : Event) (es : List Event) (r0 r : Reading)
    → size ≡ length (encode e)
    → (ring_read size r0.state).1 ≡ encode e
    → Reads count es (read_event size r0) r
    → Reads count (e ∷ es) r0 r
further-Reads count size e es r0 r n b h = record {
  taken = e ∷ h.taken;
  rest = h.rest;
  parts = ap (λ k. e ∷ k) h.parts;
  output =
      h.output
      ∙ ap (λ k. (r0.out ++ k) ++ encode_all h.taken) b
      ∙ append_assoc r0.out (encode e) (encode_all h.taken);
  sum = omega (arith, h.sum, n, length-append (encode e) (encode_all h.taken));
  fits = h.fits;
  left = h.left;
  stops = h.stops;
}

pub read_loop-Reads :
    (fuel count : ℕ) (es : List Event) (r : Reading)
    → length es ≤ fuel
    → r.total ≤ count
    → AllNamed es
    → IsRing r.state (encode_all es)
    → Reads count es r (read_loop fuel count r)
unfolding read_loop
read_loop-Reads zero count [] r f l a h = stopped-Reads count [] r l h tt
read_loop-Reads zero count (e ∷ es) r f l a h = absurd (omega arith)
read_loop-Reads (suc fuel) count [] r f l a h =
    let none_left : (leb 16 r.state.ring_used && leb (r.total + 16) count) ≡ false =
      ground (arith, ring_used_lem r.state [] h) in
    rw none_left (stopped-Reads count [] r l h tt)
read_loop-Reads (suc fuel) count (e ∷ es) r f l a h =
    let size = header_size r.state e (encode_all es) a.0 h in
    let used = ring_used_lem r.state (encode e ++ encode_all es) h in
    let len = length-encode e in
    let parts = length-append (encode e) (encode_all es) in
    let bound = padded_len-bound e.name a.0 in
    let ev = 16 + number_of (drop 12 (ring_peek 16 r.state)) in
    elim (Bool-cases (leb (r.total + 16) count)) [
      | inr no_room ↦
          let stop : (leb 16 r.state.ring_used && leb (r.total + 16) count) ≡ false =
            ground (arith, no_room) in
          rw stop (stopped-Reads count (e ∷ es) r l h (ground (arith, no_room, len)))
      | inl room ↦
          let go : (leb 16 r.state.ring_used && leb (r.total + 16) count) ≡ true =
            ground (arith, room, used, parts, len) in
          let whole : ltb r.state.ring_used ev ≡ false = ground (arith, size, used, parts) in
          elim (Bool-cases (ltb count (r.total + ev))) [
            | inl full ↦ rw go (
                rw whole
                  (rw full (stopped-Reads count (e ∷ es) r l h (ground (arith, full, size)))))
            | inr more ↦
                let small : ltb 276 ev ≡ false = ground (arith, size, len, bound) in
                let read = ring_read-IsRing r.state (encode e) (encode_all es) h in
                let taken =
                  subst (λ n. IsRing (ring_read n r.state).0 (encode_all es)) (sym size) read.0 in
                let got = subst (λ n. (ring_read n r.state).1 ≡ encode e) (sym size) read.1 in
                rw go (
                  rw whole (
                    rw more (
                      rw small (
                        further-Reads count ev e es r (read_loop fuel count (read_event ev r)) size
                          got
                          (read_loop-Reads fuel count es (read_event ev r) (omega arith)
                            (ground (arith, more)) a.1 taken)))))
          ]
    ]
