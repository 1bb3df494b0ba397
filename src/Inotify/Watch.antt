-- ===== src/Inotify/Watch.antt =====
-- The watches of an inotify instance, src/kernel/event/inotify.c. A path is the list of its characters;
-- the file descriptor is already resolved to the instance.
pub mod Path
pub mod Table
pub mod Named
pub mod Expected
pub mod Dispatch
mod Tests
use Prim.Native.Nat.{bit_and, bit_or}
use cosmo_rt.Common.{
  ℕ, zero, suc, ◌+◌, ◌-◌, ◌^◌, Bool, true, false, ◌&&◌, ◌||◌, not, Option, none, some, List, [],
  ◌∷◌, Errno, Reply, ok, err, ltb, ◌==◌, if◌then◌else◌,
}
use cosmo_rt.Sysv.{first_from}
use cosmo_rt.Inotify.{Inotify, queue_event}

abbrev pub in_ignored : ℕ
in_ignored = 32768

abbrev pub in_mask_add : ℕ
in_mask_add = 536870912

abbrev pub in_oneshot : ℕ
in_oneshot = 2147483648

abbrev pub slash : ℕ
slash = 47

-- `inotify_watch_t`
pub record Watch : Type 0 where
  pub wd : ℕ
  pub mask : ℕ
  pub path : List ℕ
  pub active : Bool

-- `inotify_t` without its reference count.
pub record Instance : Type 0 where
  pub queue : Inotify
  pub watches : ℕ → Watch
  pub next_wd : ℕ

unfoldable pub ino_streq : List ℕ → List ℕ → Bool
ino_streq [] [] = true
ino_streq [] (b ∷ bs) = false
ino_streq (a ∷ xs) [] = false
ino_streq (a ∷ xs) (b ∷ bs) = let rest = ino_streq xs bs in if a == b then rest else false

abbrev pub with_char : ℕ → List ℕ → List ℕ
with_char c [] = if c == slash then [] else c ∷ []
with_char c (d ∷ ds) = c ∷ d ∷ ds

-- The list without the slashes at its end.
unfoldable pub without_slashes : List ℕ → List ℕ
without_slashes [] = []
without_slashes (c ∷ cs) = with_char c (without_slashes cs)

-- `while (plen > 1 && kpath[plen - 1] == '/') kpath[--plen] = 0`: the first character stays.
unfoldable pub normalized : List ℕ → List ℕ
unfolding without_slashes
normalized [] = []
normalized (c ∷ cs) = c ∷ without_slashes cs

-- What follows the prefix.
unfoldable pub after_prefix : (prefix path : List ℕ) → Option (List ℕ)
after_prefix [] path = some path
after_prefix (c ∷ cs) [] = none
after_prefix (c ∷ cs) (d ∷ ds) = let rest = after_prefix cs ds in if c == d then rest else none

unfoldable pub has_slash : List ℕ → Bool
has_slash [] = false
has_slash (c ∷ cs) = let rest = has_slash cs in if c == slash then true else rest

abbrev pub base_name : Option (List ℕ) → Option (List ℕ)
base_name none = none
base_name (some []) = none
base_name (some (c ∷ [])) = none
base_name (some (c ∷ d ∷ ds)) =
    if not (c == slash) then none else if has_slash (d ∷ ds) then none else some (d ∷ ds)

-- The name of the child within the directory.
unfoldable pub is_direct_child : (dir child : List ℕ) → Option (List ℕ)
unfolding normalized after_prefix has_slash
is_direct_child dir child = base_name (after_prefix (normalized dir) child)

abbrev pub put_watch : ℕ → Watch → Instance → Instance
put_watch i w s = record s { watches = λ k. if k == i then w else s.watches k }

abbrev pub is_live : Watch → Bool
is_live w = not (w.wd == 0) && w.active

abbrev pub new_mask : (old mask : ℕ) → ℕ
new_mask old mask = if bit_and mask in_mask_add == 0 then mask else bit_or old (mask - in_mask_add)

abbrev pub watch_at :
    (mask : ℕ) → (path : List ℕ) → (found unused : Option ℕ) → Instance → Instance × Reply
watch_at mask path (some i) unused s =
    let w = s.watches i in (put_watch i (record w { mask = new_mask w.mask mask }) s, ok w.wd)
watch_at mask path none none s = (s, err Errno.enospc)
watch_at mask path none (some i) s = (
  record (put_watch i (record { wd = s.next_wd; mask = mask; path = path; active = true }) s) {
    next_wd = s.next_wd + 1;
  },
  ok s.next_wd,
)

abbrev pub add_watch : (path : List ℕ) → (mask : ℕ) → Instance → Instance × Reply
add_watch path mask s =
    watch_at mask path
      (first_from 32 0 (λ i. is_live (s.watches i) && ino_streq (s.watches i).path path))
      (first_from 32 0 (λ i. (s.watches i).wd == 0)) s

-- `path` is what the copy from user memory brings, at most 255 characters, or none for a fault. The
-- descriptors count up from 1, and fewer than 2 ^ 31 are ever given out.
unfoldable pub do_inotify_add_watch :
    (path : Option (List ℕ)) → (mask : ℕ) → Instance → Instance × Reply
unfolding normalized ino_streq
do_inotify_add_watch none mask s = (s, err Errno.efault)
do_inotify_add_watch (some path) mask s = add_watch (normalized path) mask s

abbrev pub gone : Watch → Watch
gone w = record w { wd = 0; active = false }

abbrev pub remove_at : (wd : ℕ) → Option ℕ → Instance → Instance × Reply
remove_at wd none s = (s, err Errno.einval)
remove_at wd (some i) s = (
  record (put_watch i (gone (s.watches i)) s) { queue = queue_event wd in_ignored 0 [] s.queue },
  ok 0,
)

unfoldable pub do_inotify_rm_watch : (wd : ℕ) → Instance → Instance × Reply
do_inotify_rm_watch wd s =
    remove_at wd (first_from 32 0 (λ i. ((s.watches i).wd == wd) && (s.watches i).active)) s

-- The event goes to the watch, which a one-shot watch does not outlive.
abbrev pub notify : (i mask cookie : ℕ) → (name : List ℕ) → Instance → Instance
notify i mask cookie name s =
    let w = s.watches i in
    let told = record s { queue = queue_event w.wd mask cookie name s.queue } in
    if bit_and w.mask mask == 0
    then s
    else if bit_and w.mask in_oneshot == 0
    then told
    else put_watch i (gone w) told

abbrev pub notify_child : (i mask cookie : ℕ) → Option (List ℕ) → Instance → Instance
notify_child i mask cookie none s = s
notify_child i mask cookie (some name) s = notify i mask cookie name s

-- The loop of `inotify_event` over the `n` watches from `i` on, of one instance.
unfoldable pub event_from : (n i mask cookie : ℕ) → (path : List ℕ) → Instance → Instance
unfolding ino_streq is_direct_child
event_from zero i mask cookie path s = s
event_from (suc n) i mask cookie path s =
    let w = s.watches i in
    let told =
      if not (is_live w)
      then s
      else if ino_streq w.path path
      then notify i mask cookie [] s
      else notify_child i mask cookie (is_direct_child w.path path) s in
    event_from n (i + 1) mask cookie path told
