-- ===== src/Inotify/Ring.antt =====
-- The ring of bytes as a queue (src/kernel/event/inotify.c).
use mathlib.Core.Path.{subst}
use mathlib.Core.List.{head-eq_of_cons-eq, tail-eq_of_cons-eq}
use cosmo_rt.Common.{
  ℕ, zero, suc, ◌+◌, ◌-◌, ◌%◌, ◌≤◌, ◌<◌, ◌≡◌, ◌≢◌, refl, sym, ap, ap₂, ◌∙◌, List, [], ◌∷◌, ◌++◌,
  append_assoc, append-nil, length, length-append, ◌==◌, if◌then◌else◌, arith,
}
use cosmo_rt.Inotify.{Inotify, put_byte, put_bytes, ring_write, bytes_at, advance, ring_read}

-- The ring holds the bytes, in the order in which they are read.
pub record IsRing (ino : Inotify) (bytes : List ℕ) : Type 0 where
  pub held : bytes_at ino.ring_used ino.ring_head ino.ring ≡ bytes
  pub size : ino.ring_used ≤ 2048
  pub head : ino.ring_head < 2048
  pub tail : ino.ring_tail ≡ (ino.ring_head + ino.ring_used) % 2048

pub length-bytes_at : (n p : ℕ) (ring : ℕ → ℕ) → length (bytes_at n p ring) ≡ n
unfolding bytes_at
length-bytes_at zero p ring = refl
length-bytes_at (suc n) p ring = ap suc (length-bytes_at n ((p + 1) % 2048) ring)

pub advance_lem : (n p : ℕ) → p < 2048 → advance n p ≡ (p + n) % 2048
unfolding advance
advance_lem zero p h = omega arith
advance_lem (suc n) p h = omega (arith, advance_lem n ((p + 1) % 2048) (omega arith))

pub bytes_at_parts :
    (m n p : ℕ) (ring : ℕ → ℕ)
    → bytes_at (m + n) p ring ≡ bytes_at m p ring ++ bytes_at n (advance m p) ring
unfolding bytes_at advance
bytes_at_parts zero n p ring = ap (λ k. bytes_at k p ring) (omega arith)
bytes_at_parts (suc m) n p ring =
    let sizes : suc m + n ≡ suc (m + n) = omega arith in
    rw sizes (ap (λ k. ring p ∷ k) (bytes_at_parts m n ((p + 1) % 2048) ring))

-- A write outside the bytes.
bytes_at_other :
    (n p q b : ℕ) (ring : ℕ → ℕ)
    → p < 2048
    → ((k : ℕ) → k < n → (p + k) % 2048 ≢ q)
    → bytes_at n p (λ x. if x == q then b else ring x) ≡ bytes_at n p ring
unfolding bytes_at
bytes_at_other zero p q b ring l h = refl
bytes_at_other (suc n) p q b ring l h =
    let apart : p ≢ q = λ e. h 0 (omega arith) (omega (arith, e)) in
    let first : (if p == q then b else ring p) ≡ ring p = ground arith in
    ap₂ (λ x xs. x ∷ xs) first
      (bytes_at_other n ((p + 1) % 2048) q b ring (omega arith)
        (λ k r e. h (k + 1) (omega arith) (omega (arith, e))))

-- One byte more, as `put_bytes` writes it before the count is raised.
put_byte-IsRing :
    (b : ℕ) (ino : Inotify) (bytes : List ℕ)
    → ino.ring_used < 2048
    → IsRing ino bytes
    → IsRing (record (put_byte b ino) { ring_used = ino.ring_used + 1 }) (bytes ++ (b ∷ []))
put_byte-IsRing b ino bytes l h =
    let used = ino.ring_used in
    let new = λ (x : ℕ). if x == ino.ring_tail then b else ino.ring x in
    let last : advance used ino.ring_head ≡ ino.ring_tail =
      advance_lem used ino.ring_head h.head ∙ sym h.tail in
    let written : new (advance used ino.ring_head) ≡ b = ground (arith, last) in
    record {
      held =
          bytes_at_parts used 1 ino.ring_head new
          ∙ ap₂ (λ x y. x ++ y)
              (bytes_at_other used ino.ring_head ino.ring_tail b ino.ring h.head
                  (λ k r e. omega (arith, e, h.tail, h.head))
                ∙ h.held)
              (unfold bytes_at in ap (λ x. x ∷ []) written);
      size = omega arith;
      head = h.head;
      tail = omega (arith, h.tail, h.head);
    }

put_bytes_used :
    (bs : List ℕ) (n : ℕ) (ino : Inotify)
    → put_bytes bs (record ino { ring_used = n }) ≡ record (put_bytes bs ino) { ring_used = n }
unfolding put_bytes
put_bytes_used [] n ino = refl
put_bytes_used (b ∷ bs) n ino = put_bytes_used bs n (put_byte b ino)

-- What a write leaves: the bytes before it and its own, and the overflow flag.
pub record Appends (bs : List ℕ) (ino r : Inotify) : Type 0 where
  pub queue : (bytes : List ℕ) → IsRing ino bytes → IsRing r (bytes ++ bs)
  pub used_grows : r.ring_used ≡ ino.ring_used + length bs
  pub overflow_same : r.overflow ≡ ino.overflow

abbrev counted : Inotify → ℕ → Inotify
counted r n = record r { ring_used = n }

put_bytes-Appends :
    (bs : List ℕ) (ino : Inotify)
    → ino.ring_used + length bs ≤ 2048
    → Appends bs ino (record (put_bytes bs ino) { ring_used = ino.ring_used + length bs })
unfolding put_bytes
put_bytes-Appends [] ino l = record {
  queue = λ bytes h. record {
    held =
        ap (λ k. bytes_at k ino.ring_head ino.ring) (omega arith) ∙ h.held ∙ sym (append-nil bytes);
    size = omega arith;
    head = h.head;
    tail = omega (arith, h.tail);
  };
  used_grows = refl;
  overflow_same = refl;
}
put_bytes-Appends (b ∷ bs) ino l =
    let one = record (put_byte b ino) { ring_used = ino.ring_used + 1 } in
    let rest = put_bytes-Appends bs one (omega arith) in
    let count : ino.ring_used + 1 + length bs ≡ ino.ring_used + suc (length bs) = omega arith in
    let same : record (put_bytes bs one) { ring_used = ino.ring_used + 1 + length bs }
        ≡ record (put_bytes bs (put_byte b ino)) { ring_used = ino.ring_used + suc (length bs) } =
      ap₂ (λ r n. counted r n) (put_bytes_used bs (ino.ring_used + 1) (put_byte b ino)) count in
    subst (λ r. Appends (b ∷ bs) ino r) same
      (record {
        queue = λ bytes h.
            subst
              (λ k.
                IsRing (record (put_bytes bs one) { ring_used = ino.ring_used + 1 + length bs }) k)
              (append_assoc bytes (b ∷ []) bs)
              (rest.queue (bytes ++ (b ∷ [])) (put_byte-IsRing b ino bytes (omega arith) h));
        used_grows = count;
        overflow_same = rest.overflow_same;
      })

pub ring_write-Appends :
    (bs : List ℕ) (ino : Inotify)
    → ino.ring_used + length bs ≤ 2048
    → Appends bs ino (ring_write bs ino)
unfolding ring_write
ring_write-Appends bs ino l =
    let used : (put_bytes bs ino).ring_used ≡ ino.ring_used =
      ap (λ r. r.ring_used) (put_bytes_used bs ino.ring_used ino) in
    subst (λ n. Appends bs ino (record (put_bytes bs ino) { ring_used = n + length bs })) (sym used)
      (put_bytes-Appends bs ino l)

split_same :
    (xs front ys back : List ℕ)
    → length xs ≡ length front
    → xs ++ ys ≡ front ++ back
    → (xs ≡ front) × (ys ≡ back)
split_same [] [] ys back n e = (refl, e)
split_same [] (f ∷ fs) ys back n e = absurd (omega (arith, n))
split_same (x ∷ xs) [] ys back n e = absurd (omega (arith, n))
split_same (x ∷ xs) (f ∷ fs) ys back n e =
    let r = split_same xs fs ys back (omega (arith, n)) (tail-eq_of_cons-eq e) in
    (ap₂ (λ k ks. k ∷ ks) (head-eq_of_cons-eq e) r.0, r.1)

-- A read takes the first bytes.
pub ring_read-IsRing :
    (ino : Inotify) (front back : List ℕ)
    → IsRing ino (front ++ back)
    → let r = ring_read (length front) ino in IsRing r.0 back × (r.1 ≡ front)
unfolding ring_read
ring_read-IsRing ino front back h =
    let n = length front in
    let left = ino.ring_used - n in
    let total : ino.ring_used ≡ n + length back =
      sym (length-bytes_at ino.ring_used ino.ring_head ino.ring)
      ∙ ap length h.held
      ∙ length-append front back in
    let sizes : n + left ≡ ino.ring_used = omega (arith, total) in
    let parts =
      sym (bytes_at_parts n left ino.ring_head ino.ring)
      ∙ ap (λ k. bytes_at k ino.ring_head ino.ring) sizes
      ∙ h.held in
    let both =
      split_same (bytes_at n ino.ring_head ino.ring) front
        (bytes_at left (advance n ino.ring_head) ino.ring) back
        (length-bytes_at n ino.ring_head ino.ring) parts in
    (
      record {
        held = both.1;
        size = omega (arith, h.size);
        head = omega (arith, advance_lem n ino.ring_head h.head);
        tail = omega (arith, h.tail, h.head, sizes, advance_lem n ino.ring_head h.head);
      },
      both.0,
    )
