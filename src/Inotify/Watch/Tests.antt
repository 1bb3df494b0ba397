-- ===== src/Inotify/Watch/Tests.antt =====
-- A watch on a directory (src/kernel/event/inotify.c).
use cosmo_rt.Common.{ℕ, ◌≡◌, ◌≢◌, refl, false, none, some, List, [], ◌∷◌, ◌++◌, ok, arith, ◌↔◌}
use cosmo_rt.Sysv.{first_from}
use cosmo_rt.Inotify.{queue_event, put_bytes, ring_write, bytes_of, bytes_at, padded_len, ring_free}
use cosmo_rt.Inotify.Watch.{
  Instance, ino_streq, without_slashes, normalized, after_prefix, has_slash, is_direct_child,
  do_inotify_add_watch, do_inotify_rm_watch, event_from,
}
use cosmo_rt.Inotify.Ring.{IsRing}
use cosmo_rt.Inotify.Watch.Named.{path_dec}
use cosmo_rt.Inotify.Watch.Expected.{Takes, expected, watches_after}
use cosmo_rt.Inotify.Watch.Dispatch.{event_from-IsWatched}
use cosmo_rt.Inotify.Watch.Path.{NoSlash, is_direct_child_iff}
use cosmo_rt.Inotify.Watch.Table.{
  IsWatched, Adds, do_inotify_add_watch-Adds, do_inotify_rm_watch-IsWatched,
}

abbrev fresh : Instance
fresh = record {
  queue = record { ring = λ p. 0; ring_head = 0; ring_tail = 0; ring_used = 0; overflow = false };
  watches = λ i. record { wd = 0; mask = 0; path = []; active = false };
  next_wd = 1;
}

fresh-IsWatched : IsWatched fresh.watches fresh.next_wd
fresh-IsWatched = record {
  positive = omega arith;
  live = λ i p n. absurd (n refl);
  below = λ i p. omega arith;
  distinct = λ i j p q n e. absurd (n refl);
  paths = λ i j p q n m e. absurd (n refl);
}

-- `/t/`
do_inotify_add_watch-Adds_example :
    Adds
      (normalized (47 ∷ 116 ∷ 47 ∷ []))
      fresh
      (do_inotify_add_watch (some (47 ∷ 116 ∷ 47 ∷ [])) 256 fresh)
do_inotify_add_watch-Adds_example =
    do_inotify_add_watch-Adds (47 ∷ 116 ∷ 47 ∷ []) 256 fresh fresh-IsWatched

slash_stripped : normalized (47 ∷ 116 ∷ 47 ∷ []) ≡ 47 ∷ 116 ∷ []
unfolding normalized without_slashes
slash_stripped = refl

abbrev on_t : Instance
on_t = (do_inotify_add_watch (some (47 ∷ 116 ∷ 47 ∷ [])) 256 fresh).0

first_descriptor : (do_inotify_add_watch (some (47 ∷ 116 ∷ 47 ∷ [])) 256 fresh).1 ≡ ok 1
unfolding do_inotify_add_watch normalized without_slashes ino_streq first_from
first_descriptor = refl

same_descriptor : (do_inotify_add_watch (some (47 ∷ 116 ∷ [])) 2 on_t).1 ≡ ok 1
unfolding do_inotify_add_watch normalized without_slashes ino_streq first_from
same_descriptor = refl

abbrev a_name : List ℕ
a_name = 97 ∷ []

-- `/t/a`
is_direct_child_iff_example :
    (is_direct_child (47 ∷ 116 ∷ []) (47 ∷ 116 ∷ 47 ∷ 97 ∷ []) ≡ some a_name) ↔ (
      (47 ∷ 116 ∷ 47 ∷ 97 ∷ [] ≡ normalized (47 ∷ 116 ∷ []) ++ (47 ∷ a_name))
      × (a_name ≢ [])
      × NoSlash a_name)
is_direct_child_iff_example = is_direct_child_iff (47 ∷ 116 ∷ []) (47 ∷ 116 ∷ 47 ∷ 97 ∷ []) a_name

event_reaches : (event_from 32 0 256 0 (47 ∷ 116 ∷ 47 ∷ 97 ∷ []) on_t).queue.ring_used ≡ 20
unfolding do_inotify_add_watch normalized without_slashes ino_streq first_from event_from
    is_direct_child after_prefix has_slash queue_event ring_free padded_len ring_write put_bytes
    bytes_of
event_reaches = refl

fresh-IsRing : IsRing fresh.queue []
unfolding bytes_at
fresh-IsRing = record { held = refl; size = omega arith; head = omega arith; tail = omega arith }

on_t-IsWatched : IsWatched on_t.watches on_t.next_wd
unfolding do_inotify_add_watch normalized without_slashes ino_streq first_from
on_t-IsWatched = record {
  positive = omega arith;
  live = λ i p n. ground arith;
  below = λ i p. ground arith;
  distinct = λ i j p q n e. ground arith;
  paths = λ i j p q n m e. ground arith;
}

on_t-IsRing : IsRing on_t.queue []
unfolding do_inotify_add_watch normalized without_slashes ino_streq first_from
on_t-IsRing = fresh-IsRing

event_from-IsWatched_example :
    let r = event_from 32 0 256 0 (47 ∷ 116 ∷ 47 ∷ 97 ∷ []) on_t in
    IsWatched r.watches r.next_wd
    × Takes [] (expected 32 0 256 0 (47 ∷ 116 ∷ 47 ∷ 97 ∷ []) on_t.watches) on_t.queue r.queue
    × (r.watches ≡ watches_after 32 0 256 (47 ∷ 116 ∷ 47 ∷ 97 ∷ []) on_t.watches)
event_from-IsWatched_example =
    event_from-IsWatched 32 0 256 0 (47 ∷ 116 ∷ 47 ∷ 97 ∷ []) on_t [] on_t-IsWatched on_t-IsRing

-- The watch on `/t` is told of `a`.
one_expected :
    expected 32 0 256 0 (47 ∷ 116 ∷ 47 ∷ 97 ∷ []) on_t.watches
    ≡ record { wd = 1; mask = 256; cookie = 0; name = a_name } ∷ []
unfolding do_inotify_add_watch normalized without_slashes ino_streq first_from path_dec
one_expected = refl

-- A watch on `/` does not see `/a`.
root_sees_nothing : is_direct_child (47 ∷ []) (47 ∷ 97 ∷ []) ≡ none
unfolding normalized without_slashes after_prefix has_slash is_direct_child
root_sees_nothing = refl

do_inotify_rm_watch-IsWatched_run :
    let r = (do_inotify_rm_watch 5 fresh).0 in IsWatched r.watches r.next_wd
do_inotify_rm_watch-IsWatched_run = do_inotify_rm_watch-IsWatched 5 fresh fresh-IsWatched
