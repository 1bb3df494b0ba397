-- ===== src/Inotify/Event.antt =====
-- Events as bytes, and `queue_event` (src/kernel/event/inotify.c).
use mathlib.Core.Path.{subst}
use cosmo_rt.Common.{
  ℕ, ◌+◌, ◌-◌, ◌^◌, ◌≤◌, ◌<◌, ◌≡◌, refl, sym, ap, ◌∙◌, true, List, [], ◌∷◌, ◌++◌, append_assoc,
  append-nil, length, length-append, length-replicate, replicate, ltb, ◌==◌, if◌then◌else◌, arith,
  Bool-cases, inl, inr,
}
use cosmo_rt.Inotify.{Inotify, ring_free, ring_write, bytes_of, number_of, padded_len, queue_event}
use cosmo_rt.Inotify.Ring.{IsRing, Appends, ring_write-Appends, length-bytes_at}

-- `struct inotify_event` with the name as its characters.
pub record Event : Type 0 where
  pub wd : ℕ
  pub mask : ℕ
  pub cookie : ℕ
  pub name : List ℕ

unfoldable pub header : Event → List ℕ
unfolding bytes_of
header e = bytes_of e.wd ++ (bytes_of e.mask ++ (bytes_of e.cookie ++ bytes_of (padded_len e.name)))

unfoldable pub body : Event → List ℕ
body e = e.name ++ replicate (padded_len e.name - length e.name) 0

unfoldable pub encode : Event → List ℕ
unfolding header body
encode e = header e ++ body e

pub length-header : (e : Event) → length (header e) ≡ 16
unfolding header bytes_of
length-header e = refl

padded_len-length : (name : List ℕ) → length name ≤ padded_len name
unfolding padded_len
padded_len-length [] = omega arith
padded_len-length (c ∷ cs) = omega arith

pub length-encode : (e : Event) → length (encode e) ≡ 16 + padded_len e.name
unfolding encode body
length-encode e = omega (
  arith,
  length-append (header e) (e.name ++ replicate (padded_len e.name - length e.name) 0),
  length-append e.name (replicate (padded_len e.name - length e.name) 0),
  length-header e,
  length-replicate {A = ℕ} (padded_len e.name - length e.name) 0,
  padded_len-length e.name,
)

pub number_of-bytes_of : (n : ℕ) → n < 2 ^ 32 → number_of (bytes_of n) ≡ n
unfolding number_of bytes_of
number_of-bytes_of n h = omega arith

Appends-trans :
    (xs ys : List ℕ) (a b c : Inotify) → Appends xs a b → Appends ys b c → Appends (xs ++ ys) a c
Appends-trans xs ys a b c p q = record {
  queue = λ bytes h.
      subst (λ k. IsRing c k) (append_assoc bytes xs ys) (q.queue (bytes ++ xs) (p.queue bytes h));
  used_grows = omega (arith, p.used_grows, q.used_grows, length-append xs ys);
  overflow_same = q.overflow_same ∙ p.overflow_same;
}

abbrev pub with_header : Event → Inotify → Inotify
with_header e ino =
    ring_write (bytes_of (padded_len e.name)) (
      ring_write (bytes_of e.cookie)
        (ring_write (bytes_of e.mask) (ring_write (bytes_of e.wd) ino)))

number_written :
    (n : ℕ) (ino : Inotify)
    → ino.ring_used + 4 ≤ 2048
    → Appends (bytes_of n) ino (ring_write (bytes_of n) ino)
unfolding bytes_of
number_written n ino l = ring_write-Appends (bytes_of n) ino (omega (arith, l))

length-bytes_of : (n : ℕ) → length (bytes_of n) ≡ 4
unfolding bytes_of
length-bytes_of n = refl

pub header-Appends :
    (e : Event) (ino : Inotify)
    → ino.ring_used + 16 ≤ 2048
    → Appends (header e) ino (with_header e ino)
unfolding header
header-Appends e ino l =
    let a = ring_write (bytes_of e.wd) ino in
    let b = ring_write (bytes_of e.mask) a in
    let c = ring_write (bytes_of e.cookie) b in
    let pa = number_written e.wd ino (omega arith) in
    let pb = number_written e.mask a (omega (arith, pa.used_grows, length-bytes_of e.wd)) in
    let pc =
      number_written e.cookie b (
        omega
          (arith, pa.used_grows, pb.used_grows, length-bytes_of e.wd, length-bytes_of e.mask)) in
    let pd = number_written (padded_len e.name) c (
      omega (
        arith,
        pa.used_grows,
        pb.used_grows,
        pc.used_grows,
        length-bytes_of e.wd,
        length-bytes_of e.mask,
        length-bytes_of e.cookie,
      )) in
    let d = with_header e ino in
    let last = Appends-trans (bytes_of e.cookie) (bytes_of (padded_len e.name)) b c d pc pd in
    let three =
      Appends-trans (bytes_of e.mask) (bytes_of e.cookie ++ bytes_of (padded_len e.name)) a b d pb
        last in
    Appends-trans (bytes_of e.wd)
      (bytes_of e.mask ++ (bytes_of e.cookie ++ bytes_of (padded_len e.name))) ino a d pa three

no_body :
    (name : List ℕ) → padded_len name ≡ 0 → name ++ replicate (padded_len name - length name) 0 ≡ []
unfolding padded_len
no_body [] e = refl
no_body (c ∷ cs) e = absurd (omega (arith, e))

Appends-nil : (ino : Inotify) → Appends [] ino ino
Appends-nil ino = record {
  queue = λ bytes h. subst (λ k. IsRing ino k) (sym (append-nil bytes)) h;
  used_grows = omega arith;
  overflow_same = refl;
}

body-Appends :
    (e : Event) (ino : Inotify)
    → ino.ring_used + padded_len e.name ≤ 2048
    → Appends (body e) ino (
        if padded_len e.name == 0
        then ino
        else ring_write (replicate (padded_len e.name - length e.name) 0) (ring_write e.name ino))
unfolding body
body-Appends e ino l = elim (Bool-cases (padded_len e.name == 0)) [
  | inl z ↦
      let nothing : body e ≡ [] = unfold body in no_body e.name (ground (arith, z)) in
      rw z (subst (λ k. Appends k ino ino) (sym nothing) (Appends-nil ino))
  | inr z ↦
      let zeros : List ℕ = replicate (padded_len e.name - length e.name) 0 in
      let p = ring_write-Appends e.name ino (omega (arith, padded_len-length e.name)) in
      let q = ring_write-Appends zeros (ring_write e.name ino) (
        omega (
          arith,
          p.used_grows,
          padded_len-length e.name,
          length-replicate {A = ℕ} (padded_len e.name - length e.name) 0,
        )) in
      rw z (
        Appends-trans e.name zeros ino (ring_write e.name ino)
          (ring_write zeros (ring_write e.name ino)) p q)
]

-- What `queue_event` does: the event's bytes go behind the others, or it does not fit and only the
-- overflow flag is set.
pub data Queues (e : Event) (ino : Inotify) (bytes : List ℕ) : Inotify → Type 0 where
  queued :
      (r : Inotify)
      → length bytes + length (encode e) ≤ 2048
      → IsRing r (bytes ++ encode e)
      → r.overflow ≡ ino.overflow
      → Queues e ino bytes r
  dropped :
      2048 < length bytes + length (encode e) → Queues e ino bytes (record ino { overflow = true })

-- On a ring that holds some bytes, `queue_event` puts the event's bytes behind them, where they fit;
-- else it sets the overflow flag and changes nothing else.
pub queue_event-Queues :
    (e : Event) (ino : Inotify) (bytes : List ℕ)
    → IsRing ino bytes
    → Queues e ino bytes (queue_event e.wd e.mask e.cookie e.name ino)
unfolding queue_event ring_free encode
queue_event-Queues e ino bytes h =
    elim (Bool-cases (ltb (2048 - ino.ring_used) (16 + padded_len e.name))) [
      | inl t ↦ rw t (dropped (ground (arith, t, used, length-encode e)))
      | inr f ↦
          let room : ino.ring_used + 16 + padded_len e.name ≤ 2048 = ground (arith, f, h.size) in
          let first = header-Appends e ino (omega (arith, room)) in
          let second =
            body-Appends e (with_header e ino)
              (omega (arith, room, first.used_grows, length-header e)) in
          let both = Appends-trans (header e) (body e) ino (with_header e ino) _ first second in
          rw f (
            queued _ (omega (arith, room, used, length-encode e)) (both.queue bytes h)
              both.overflow_same)
    ]
  where
    used : ino.ring_used ≡ length bytes
    used = sym (length-bytes_at ino.ring_used ino.ring_head ino.ring) ∙ ap length h.held
