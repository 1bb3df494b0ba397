-- ===== src/Inotify/Watch/Dispatch.antt =====
-- What an event of the file system does to the watches of an instance (src/kernel/event/inotify.c).
use mathlib.Core.Path.{subst}
use Prim.Native.Nat.{bit_and}
use cosmo_rt.Common.{
  ℕ, zero, suc, ◌+◌, ◌≤◌, ◌≡◌, refl, sym, ap, ap₂, ◌∙◌, Bool, true, false, ◌&&◌, ◌||◌, not, Option,
  none, some, List, [], ◌∷◌, ◌++◌, length, ltb, leb, ◌==◌, if◌then◌else◌, arith, Bool-cases, inl,
  inr,
}
use cosmo_rt.Inotify.{queue_event}
use cosmo_rt.Inotify.Ring.{IsRing}
use cosmo_rt.Inotify.Event.{Event, queue_event-Queues}
use cosmo_rt.Inotify.Read.{encode_all}
use cosmo_rt.Inotify.Watch.{
  Watch, Instance, ino_streq, is_direct_child, is_live, gone, notify, notify_child, in_oneshot,
  put_watch, event_from,
}
use cosmo_rt.Inotify.Watch.Named.{name_in_lem}
use cosmo_rt.Inotify.Watch.Table.{IsWatched, put-IsWatched, gone-Agrees}
use cosmo_rt.Inotify.Watch.Expected.{
  meeting, heard, told_of, spent, expected, watches_after, fitting, Takes, Takes-append, Takes-nil,
  Takes-one,
}

-- What the event does through the one watch `i`, which hears of it under the name.
record Step (i mask cookie : ℕ) (o : Option (List ℕ)) (s r : Instance) : Type 0 where
  pub table : IsWatched s.watches s.next_wd → IsWatched r.watches r.next_wd
  pub watches : (k : ℕ) → r.watches k ≡ (if k == i then spent (s.watches i) o else s.watches k)
  pub queue :
      (es : List Event)
      → IsRing s.queue (encode_all es)
      → Takes es (told_of (s.watches i) mask cookie o) s.queue r.queue

same_watch : (i k : ℕ) (f : ℕ → Watch) → f k ≡ (if k == i then f i else f k)
same_watch i k f = elim (Bool-cases (k == i)) [
  | inl t ↦ ap f (ground (arith, t)) ∙ sym (ap (λ b. if b then f i else f k) t)
  | inr n ↦ sym (ap (λ b. if b then f i else f k) n)
]

Step-none : (i mask cookie : ℕ) (s : Instance) → Step i mask cookie none s s
Step-none i mask cookie s = record {
  table = λ h. h;
  watches = λ k. same_watch i k s.watches;
  queue = λ es h. Takes-nil es s.queue h;
}

if-Step :
    (b : Bool) (i mask cookie : ℕ) {o u : Option (List ℕ)} {s x y : Instance}
    → (b ≡ true → Step i mask cookie o s x)
    → (b ≡ false → Step i mask cookie u s y)
    → Step i mask cookie (if b then o else u) s (if b then x else y)
if-Step true i mask cookie p q = p refl
if-Step false i mask cookie p q = q refl

notify-Step :
    (i mask cookie : ℕ) (name : List ℕ) (s : Instance)
    → Step i mask cookie (meeting (s.watches i) mask (some name)) s (notify i mask cookie name s)
notify-Step i mask cookie name s =
    if-Step (bit_and w.mask mask == 0) i mask cookie (λ t. Step-none i mask cookie s)
      (λ f. kept (bit_and w.mask in_oneshot == 0) refl)
  where
    w : Watch
    w = s.watches i

    e : Event
    e = record { wd = w.wd; mask = mask; cookie = cookie; name = name }

    takes :
        (es : List Event)
        → IsRing s.queue (encode_all es)
        → Takes es (e ∷ []) s.queue (queue_event w.wd mask cookie name s.queue)
    takes es h = Takes-one e es s.queue h (queue_event-Queues e s.queue (encode_all es) h)

    told : Instance
    told = record s { queue = queue_event w.wd mask cookie name s.queue }

    kept :
        (b : Bool)
        → (bit_and w.mask in_oneshot == 0) ≡ b
        → Step i mask cookie (some name) s (if b then told else put_watch i (gone w) told)
    kept true t = record {
      table = λ h. h;
      watches = λ k.
          same_watch i k s.watches
          ∙ ap (λ v. if k == i then v else s.watches k) (sym (ap (λ b. if b then w else gone w) t));
      queue = takes;
    }
    kept false g = record {
      table = λ h.
          put-IsWatched i (gone w) s.watches s.next_wd s.next_wd (omega arith) h
            (gone-Agrees i w s.watches s.next_wd h.positive);
      watches = λ k.
          ap (λ v. if k == i then v else s.watches k) (sym (ap (λ b. if b then w else gone w) g));
      queue = takes;
    }

child-Step :
    (i mask cookie : ℕ) (o : Option (List ℕ)) (s : Instance)
    → Step i mask cookie (meeting (s.watches i) mask o) s (notify_child i mask cookie o s)
child-Step i mask cookie none s = unheard (bit_and (s.watches i).mask mask == 0)
  where
    unheard : (b : Bool) → Step i mask cookie (if b then none else none) s s
    unheard true = Step-none i mask cookie s
    unheard false = Step-none i mask cookie s
child-Step i mask cookie (some name) s = notify-Step i mask cookie name s

-- The round of the loop for the watch `i`.
abbrev round : (i mask cookie : ℕ) → (path : List ℕ) → Instance → Instance
round i mask cookie path s =
    let w = s.watches i in
    if not (is_live w)
    then s
    else if ino_streq w.path path
    then notify i mask cookie [] s
    else notify_child i mask cookie (is_direct_child w.path path) s

not_live : (a b : Bool) → not (not a && b) ≡ (a || not b)
not_live true b = refl
not_live false b = refl

round-Step :
    (i mask cookie : ℕ) (path : List ℕ) (s : Instance)
    → Step i mask cookie (heard (s.watches i) mask path) s (round i mask cookie path s)
round-Step i mask cookie path s =
    subst (λ o. Step i mask cookie o s (round i mask cookie path s))
      (ap₂ (λ b o. if b then none else meeting w mask o) (not_live (w.wd == 0) w.active)
        (name_in_lem w.path path))
      (if-Step (not (is_live w)) i mask cookie (λ t. Step-none i mask cookie s)
        (λ f. named (ino_streq w.path path)))
  where
    w : Watch
    w = s.watches i

    named :
        (c : Bool)
        → Step i mask cookie
            (meeting w mask (if c then some [] else is_direct_child w.path path))
            s
            (if c
              then notify i mask cookie [] s
              else notify_child i mask cookie (is_direct_child w.path path) s)
    named true = notify-Step i mask cookie [] s
    named false = child-Step i mask cookie (is_direct_child w.path path) s

expected_same :
    (n i mask cookie : ℕ) (path : List ℕ) (f g : ℕ → Watch)
    → ((k : ℕ) → i ≤ k → f k ≡ g k)
    → expected n i mask cookie path f ≡ expected n i mask cookie path g
expected_same zero i mask cookie path f g h = refl
expected_same (suc n) i mask cookie path f g h =
    ap₂ ◌++◌ (ap (λ w. told_of w mask cookie (heard w mask path)) (h i (omega arith)))
      (expected_same n (i + 1) mask cookie path f g (λ k l. h k (omega (arith, l))))

-- What the event does through the `n` watches from `i` on.
record Steps (n i mask cookie : ℕ) (path : List ℕ) (s r : Instance) : Type 0 where
  pub table : IsWatched s.watches s.next_wd → IsWatched r.watches r.next_wd
  pub watches : (k : ℕ) → r.watches k ≡ watches_after n i mask path s.watches k
  pub queue :
      (es : List Event)
      → IsRing s.queue (encode_all es)
      → Takes es (expected n i mask cookie path s.watches) s.queue r.queue

module _ (n i mask : ℕ) (path : List ℕ) (f g : ℕ → Watch) where
  -- The watches after the round for `i` and then those after it are the watches after all of them.
  watches_after_step :
      ((k : ℕ) → g k ≡ (if k == i then spent (f i) (heard (f i) mask path) else f k))
      → (k : ℕ) → watches_after n (i + 1) mask path g k ≡ watches_after (suc n) i mask path f k
  watches_after_step h k = elim (Bool-cases (k == i)) [
    | inl t ↦
        let here : k ≡ i = ground (arith, t) in
        let past : (leb (i + 1) k && ltb k (i + 1 + n)) ≡ false = ground (arith, here) in
        let at : (leb i k && ltb k (i + suc n)) ≡ true = ground (arith, here) in
        ap (λ b. if b then after (g k) else g k) past
        ∙ (h k
            ∙ (ap (λ b. if b then after (f i) else f k) t
                ∙ (ap (λ j. after (f j)) (sym here)
                    ∙ sym (ap (λ b. if b then after (f k) else f k) at))))
    | inr d ↦
        let same : g k ≡ f k = h k ∙ ap (λ b. if b then after (f i) else f k) d in
        let tests : (leb (i + 1) k && ltb k (i + 1 + n)) ≡ (leb i k && ltb k (i + suc n)) =
          ground (arith, d) in
        ap₂ (λ b v. if b then after v else v) tests same
  ]
    where
      after : Watch → Watch
      after w = spent w (heard w mask path)

event_from-Steps :
    (n i mask cookie : ℕ) (path : List ℕ) (s : Instance)
    → Steps n i mask cookie path s (event_from n i mask cookie path s)
unfolding event_from
event_from-Steps zero i mask cookie path s = record {
  table = λ h. h;
  watches = λ k.
      let none_ : (leb i k && ltb k (i + 0)) ≡ false = ground arith in
      sym (
        ap (λ b. if b then spent (s.watches k) (heard (s.watches k) mask path) else s.watches k)
          none_);
  queue = λ es h. Takes-nil es s.queue h;
}
event_from-Steps (suc n) i mask cookie path s =
    let one = round-Step i mask cookie path s in
    let told = round i mask cookie path s in
    let rest = event_from-Steps n (i + 1) mask cookie path told in
    let later = expected_same n (i + 1) mask cookie path told.watches s.watches (λ k l.
      let other : (k == i) ≡ false = ground (arith, l) in
      one.watches k
      ∙ ap (λ b. if b then spent (s.watches i) (heard (s.watches i) mask path) else s.watches k)
          other) in
    record {
      table = λ h. rest.table (one.table h);
      watches = λ k.
          rest.watches k ∙ watches_after_step n i mask path s.watches told.watches one.watches k;
      queue = λ es h.
          let first = one.queue es h in
          let here = told_of (s.watches i) mask cookie (heard (s.watches i) mask path) in
          let there = es ++ fitting (length (encode_all es)) here in
          let r = event_from n (i + 1) mask cookie path told in
          Takes-append es here (expected n (i + 1) mask cookie path s.watches) s.queue told.queue
            r.queue first
            (subst (λ k. Takes there k told.queue r.queue) later (rest.queue there first.queue));
    }

-- Where the table of the watches is in order and the ring holds events, an event of the file system
-- puts behind them exactly what fits, in order, of one event for each watch in use whose mask meets the
-- event's and whose path is the event's, or is, without the slashes at its end, what stands before the
-- last slash of the event's with a name behind it. That event has the watch's descriptor, the mask, the
-- cookie and that name, none on the watched path itself. The overflow flag is set where one of them
-- does not fit, and else stays; the one-shot watches among those that hear are gone and the other
-- watches stay; and the table stays in order.
pub event_from-IsWatched :
    (n i mask cookie : ℕ) (path : List ℕ) (s : Instance) (es : List Event)
    → IsWatched s.watches s.next_wd
    → IsRing s.queue (encode_all es)
    → let r = event_from n i mask cookie path s in
      IsWatched r.watches r.next_wd
      × Takes es (expected n i mask cookie path s.watches) s.queue r.queue
      × (r.watches ≡ watches_after n i mask path s.watches)
event_from-IsWatched n i mask cookie path s es h g =
    let t = event_from-Steps n i mask cookie path s in
    (t.table h, t.queue es g, λ j k. t.watches k j)
