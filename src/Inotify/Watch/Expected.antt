-- ===== src/Inotify/Watch/Expected.antt =====
-- The events that a change in the file system should give an instance, and what of them its ring takes
-- (src/kernel/event/inotify.c).
use mathlib.Core.Path.{subst}
use Prim.Native.Nat.{bit_and}
use cosmo_rt.Common.{
  ℕ, zero, suc, ◌+◌, ◌≡◌, refl, sym, ap, ap₂, ◌∙◌, Bool, true, false, ◌&&◌, ◌||◌, not, Option, none,
  some, List, [], ◌∷◌, ◌++◌, append-nil, append_assoc, length, length-append, ltb, leb, ◌==◌,
  if◌then◌else◌, arith, Bool-cases, inl, inr,
}
use cosmo_rt.Inotify.{Inotify}
use cosmo_rt.Inotify.Ring.{IsRing}
use cosmo_rt.Inotify.Event.{Event, encode, Queues, queued, dropped}
use cosmo_rt.Inotify.Read.{encode_all, encode_all-append}
use cosmo_rt.Inotify.Watch.Named.{name_in}
use cosmo_rt.Inotify.Watch.{Watch, in_oneshot}

-- A name reaches the watch only if their masks meet.
abbrev pub meeting : Watch → (mask : ℕ) → Option (List ℕ) → Option (List ℕ)
meeting w mask o = if bit_and w.mask mask == 0 then none else o

-- The name under which a watch hears of an event on the path: none if it does not, and the empty one on
-- the watched path itself.
abbrev pub heard : Watch → (mask : ℕ) → (path : List ℕ) → Option (List ℕ)
heard w mask path =
    if (w.wd == 0) || not w.active then none else meeting w mask (name_in w.path path)

abbrev pub told_of : Watch → (mask cookie : ℕ) → Option (List ℕ) → List Event
told_of w mask cookie none = []
told_of w mask cookie (some name) =
    record { wd = w.wd; mask = mask; cookie = cookie; name = name } ∷ []

-- A one-shot watch is gone once it has heard.
abbrev pub spent : Watch → Option (List ℕ) → Watch
spent w none = w
spent w (some name) =
    if bit_and w.mask in_oneshot == 0 then w else record w { wd = 0; active = false }

-- The events of the `n` watches from `i` on, in their order.
abbrev pub expected : (n i mask cookie : ℕ) → (path : List ℕ) → (watches : ℕ → Watch) → List Event
expected zero i mask cookie path watches = []
expected (suc n) i mask cookie path watches =
    told_of (watches i) mask cookie (heard (watches i) mask path)
    ++ expected n (i + 1) mask cookie path watches

-- The watches after it.
abbrev pub watches_after : (n i mask : ℕ) → (path : List ℕ) → (watches : ℕ → Watch) → ℕ → Watch
watches_after n i mask path watches k =
    if leb i k && ltb k (i + n) then spent (watches k) (heard (watches k) mask path) else watches k

-- The events that still fit behind `used` bytes, each after those before it that fit.
abbrev pub fitting : (used : ℕ) → List Event → List Event
fitting used [] = []
fitting used (e ∷ es) =
    let after = fitting (used + length (encode e)) es in
    let without = fitting used es in
    if leb (used + length (encode e)) 2048 then e ∷ after else without

-- Whether one of them does not fit.
abbrev pub loses : (used : ℕ) → List Event → Bool
loses used [] = false
loses used (e ∷ es) =
    let after = loses (used + length (encode e)) es in
    if leb (used + length (encode e)) 2048 then after else true

-- The ring gets what fits of the events behind those that it holds, and its overflow flag is set where
-- one is lost.
pub record Takes (es news : List Event) (a b : Inotify) : Type 0 where
  pub queue : IsRing b (encode_all (es ++ fitting (length (encode_all es)) news))
  pub overflow : b.overflow ≡ (a.overflow || loses (length (encode_all es)) news)

fitting-append :
    (used : ℕ) (xs ys : List Event)
    → fitting used (xs ++ ys)
      ≡ fitting used xs ++ fitting (used + length (encode_all (fitting used xs))) ys
fitting-append used [] ys = ap (λ u. fitting u ys) (omega arith)
fitting-append used (x ∷ xs) ys = elim (Bool-cases (leb (used + length (encode x)) 2048)) [
  | inl t ↦
      let u = used + length (encode x) in
      rw t (
        ap (λ zs. x ∷ zs)
          (fitting-append u xs ys
            ∙ ap (λ k. fitting u xs ++ fitting k ys)
                (omega (arith, length-append (encode x) (encode_all (fitting u xs))))))
  | inr f ↦ rw f (fitting-append used xs ys)
]

loses-append :
    (used : ℕ) (xs ys : List Event)
    → loses used (xs ++ ys)
      ≡ (loses used xs || loses (used + length (encode_all (fitting used xs))) ys)
loses-append used [] ys = ap (λ u. loses u ys) (omega arith)
loses-append used (x ∷ xs) ys = elim (Bool-cases (leb (used + length (encode x)) 2048)) [
  | inl t ↦
      let u = used + length (encode x) in
      rw t (
        loses-append u xs ys
        ∙ ap (λ k. loses u xs || loses k ys)
            (omega (arith, length-append (encode x) (encode_all (fitting u xs)))))
  | inr f ↦ rw f refl
]

or_assoc : (a b c : Bool) → ((a || b) || c) ≡ (a || (b || c))
or_assoc true b c = refl
or_assoc false b c = refl

or_false : (a : Bool) → a ≡ (a || false)
or_false true = refl
or_false false = refl

pub Takes-append :
    (es xs ys : List Event) (a b c : Inotify)
    → Takes es xs a b
    → Takes (es ++ fitting (length (encode_all es)) xs) ys b c
    → Takes es (xs ++ ys) a c
Takes-append es xs ys a b c p q = record {
  queue =
      subst (λ k. IsRing c (encode_all k))
        (ap (λ k. (es ++ fitting u xs) ++ fitting k ys) used
          ∙ (append_assoc es (fitting u xs) _ ∙ ap (λ k. es ++ k) (sym (fitting-append u xs ys))))
        q.queue;
  overflow =
      q.overflow
      ∙ (ap₂ (λ o k. o || loses k ys) p.overflow used
          ∙ (or_assoc a.overflow (loses u xs) _
              ∙ ap (λ k. a.overflow || k) (sym (loses-append u xs ys))));
}
  where
    u : ℕ
    u = length (encode_all es)

    used : length (encode_all (es ++ fitting u xs)) ≡ u + length (encode_all (fitting u xs))
    used =
        ap length (encode_all-append es (fitting u xs))
        ∙ length-append (encode_all es) (encode_all (fitting u xs))

pub Takes-nil : (es : List Event) (a : Inotify) → IsRing a (encode_all es) → Takes es [] a a
Takes-nil es a h = record {
  queue = subst (λ k. IsRing a (encode_all k)) (sym (append-nil es)) h;
  overflow = or_false a.overflow;
}

pub Takes-one :
    (e : Event) (es : List Event) (ino : Inotify) {r : Inotify}
    → IsRing ino (encode_all es)
    → Queues e ino (encode_all es) r
    → Takes es (e ∷ []) ino r
Takes-one e es ino h (queued r l q o) =
    let fits : leb (length (encode_all es) + length (encode e)) 2048 ≡ true = ground (arith, l) in
    record {
      queue = rw fits (
          subst (λ k. IsRing r k)
            (ap (λ k. encode_all es ++ k) (sym (append-nil (encode e)))
              ∙ sym (encode_all-append es (e ∷ [])))
            q);
      overflow = rw fits (o ∙ or_false ino.overflow);
    }
Takes-one e es ino h (dropped l) =
    let full : leb (length (encode_all es) + length (encode e)) 2048 ≡ false = ground (arith, l) in
    record {
      queue = rw full (
          subst (λ k. IsRing (record ino { overflow = true }) (encode_all k)) (sym (append-nil es))
            (record { held = h.held; size = h.size; head = h.head; tail = h.tail }));
      overflow = rw full (set ino.overflow);
    }
  where
    set : (b : Bool) → true ≡ (b || true)
    set true = refl
    set false = refl
