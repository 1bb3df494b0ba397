-- ===== src/Inotify/Watch/Table.antt =====
-- The table of watches (src/kernel/event/inotify.c).
use mathlib.Core.Path.{subst}
use cosmo_rt.Common.{
  ℕ, ◌+◌, ◌≤◌, ◌<◌, ◌≡◌, ◌≢◌, refl, sym, ap₂, ◌∙◌, true, false, ◌&&◌, Option, none, some, List, [],
  ◌∷◌, Errno, Reply, ok, err, ◌==◌, if◌then◌else◌, arith, Bool-cases, inl, inr,
}
use cosmo_rt.Sysv.{first_from}
use cosmo_rt.Sysv.Table.{First, nowhere, first, first_from-First}
use cosmo_rt.Inotify.Watch.{
  Watch, Instance, ino_streq, normalized, put_watch, is_live, new_mask, watch_at,
  do_inotify_add_watch, gone, remove_at, do_inotify_rm_watch,
}

-- The descriptors in use are active, below the next one, and each is one watch's; no two watches are on
-- one path.
pub record IsWatched (watches : ℕ → Watch) (next_wd : ℕ) : Type 0 where
  pub positive : 0 < next_wd
  pub live : (i : ℕ) → i < 32 → (watches i).wd ≢ 0 → (watches i).active ≡ true
  pub below : (i : ℕ) → i < 32 → (watches i).wd < next_wd
  pub distinct :
      (i j : ℕ) → i < 32 → j < 32 → (watches i).wd ≢ 0 → (watches i).wd ≡ (watches j).wd → i ≡ j
  pub paths :
      (i j : ℕ)
      → i < 32
      → j < 32
      → (watches i).wd ≢ 0
      → (watches j).wd ≢ 0
      → (watches i).path ≡ (watches j).path
      → i ≡ j

pub ino_streq_sound : (xs ys : List ℕ) → ino_streq xs ys ≡ true → xs ≡ ys
unfolding ino_streq
ino_streq_sound [] [] e = refl
ino_streq_sound [] (y ∷ ys) e = absurd (cc (e))
ino_streq_sound (x ∷ xs) [] e = absurd (cc (e))
ino_streq_sound (x ∷ xs) (y ∷ ys) e = elim (Bool-cases (x == y)) [
  | inl t ↦
      let same : x ≡ y = ground (arith, t) in
      ap₂ (λ k ks. k ∷ ks) same (ino_streq_sound xs ys (ground (arith, t)))
  | inr f ↦ absurd (ground (arith, f))
]

pub ino_streq_refl : (xs : List ℕ) → ino_streq xs xs ≡ true
unfolding ino_streq
ino_streq_refl [] = refl
ino_streq_refl (x ∷ xs) = let here : (x == x) ≡ true = ground arith in rw here (ino_streq_refl xs)

-- What a watch that is put at a place must keep to.
pub record Agrees (i : ℕ) (w : Watch) (watches : ℕ → Watch) (next_wd : ℕ) : Type 0 where
  pub alive : w.wd ≢ 0 → w.active ≡ true
  pub small : w.wd < next_wd
  pub alone : w.wd ≢ 0 → (j : ℕ) → j < 32 → j ≢ i → (watches j).wd ≡ w.wd → ⊥
  pub apart :
      w.wd ≢ 0 → (j : ℕ) → j < 32 → j ≢ i → (watches j).wd ≢ 0 → (watches j).path ≡ w.path → ⊥

abbrev pub put : ℕ → Watch → (ℕ → Watch) → ℕ → Watch
put i w f = λ k. if k == i then w else f k

-- To show a property of each watch, show it of the one that is put and of the others.
each_put :
    (i : ℕ) (w : Watch) (f : ℕ → Watch) (P : ℕ → Watch → Type 0) (k : ℕ)
    → (k ≡ i → P k w)
    → (k ≢ i → P k (f k))
    → P k (put i w f k)
each_put i w f P k p q = elim (Bool-cases (k == i)) [
  | inl t ↦ rw t (p (ground (arith, t)))
  | inr n ↦ rw n (q (ground (arith, n)))
]

pub put-IsWatched :
    (i : ℕ) (w : Watch) (f : ℕ → Watch) (old next : ℕ)
    → old ≤ next
    → IsWatched f old
    → Agrees i w f next
    → IsWatched (put i w f) next
put-IsWatched i w f old next l h a = record {
  positive = omega (arith, h.positive);
  live =
      λ k p. each_put i w f (λ x v. v.wd ≢ 0 → v.active ≡ true) k (λ e. a.alive) (λ e. h.live k p);
  below =
      λ k p. each_put i w f (λ x v. v.wd < next) k (λ e. a.small) (λ e. omega (arith, h.below k p));
  distinct = λ x y p q.
      each_put i w f (λ k v. v.wd ≢ 0 → v.wd ≡ (put i w f y).wd → k ≡ y) x
        (λ e n.
          each_put i w f (λ k v. w.wd ≡ v.wd → x ≡ k) y (λ g r. e ∙ sym g)
            (λ g r. absurd (a.alone n y q g (sym r))))
        (λ e n.
          each_put i w f (λ k v. (f x).wd ≡ v.wd → x ≡ k) y
            (λ g r. absurd (a.alone (λ z. n (r ∙ z)) x p e r)) (λ g r. h.distinct x y p q n r));
  paths = λ x y p q.
      each_put i w f (λ k v. v.wd ≢ 0 → (put i w f y).wd ≢ 0 → v.path ≡ (put i w f y).path → k ≡ y)
        x
        (λ e n.
          each_put i w f (λ k v. v.wd ≢ 0 → w.path ≡ v.path → x ≡ k) y (λ g m r. e ∙ sym g)
            (λ g m r. absurd (a.apart n y q g m (sym r))))
        (λ e n.
          each_put i w f (λ k v. v.wd ≢ 0 → (f x).path ≡ v.path → x ≡ k) y
            (λ g m r. absurd (a.apart m x p e n r)) (λ g m r. h.paths x y p q n m r));
}

-- What adding a watch may do: refuse, or give the descriptor of a watch on the path, which is the one
-- there was or a new one, and leave the events alone.
pub data Adds (path : List ℕ) (s : Instance) : Instance × Reply → Type 0 where
  refused : (e : Errno) → Adds path s (s, err e)
  watched :
      (i n : ℕ)
      → (r : Instance) → i < 32
      → n ≢ 0
      → (r.watches i).wd ≡ n
      → (r.watches i).path ≡ path
      → IsWatched r.watches r.next_wd
      → r.queue ≡ s.queue
      → Adds path s (r, ok n)

module _ (mask : ℕ) (path : List ℕ) (s : Instance) (h : IsWatched s.watches s.next_wd) where
  remasked :
      (i : ℕ)
      → i < 32
      → (s.watches i).wd ≢ 0
      → Agrees i
          (record (s.watches i) { mask = new_mask (s.watches i).mask mask })
          s.watches
          s.next_wd
  remasked i p n = record {
    alive = λ m. h.live i p n;
    small = h.below i p;
    alone = λ m j q d e. d (sym (h.distinct i j p q n (sym e)));
    apart = λ m j q d k e. d (h.paths j i q p k n e);
  }

  brand_new :
      (i : ℕ)
      → ((j : ℕ) → j < 32 → (is_live (s.watches j) && ino_streq (s.watches j).path path) ≡ false)
      → Agrees i
          (record { wd = s.next_wd; mask = mask; path = path; active = true })
          s.watches
          (s.next_wd + 1)
  brand_new i none_ = record {
    alive = λ m. refl;
    small = omega arith;
    alone = λ m j q d e. omega (arith, h.below j q, e);
    apart = λ m j q d k e. clash j q k e;
  }
    where
      clash : (j : ℕ) → j < 32 → (s.watches j).wd ≢ 0 → (s.watches j).path ≡ path → ⊥
      clash j q k e =
          let alive = h.live j q k in
          let same : ino_streq (s.watches j).path path ≡ true =
            subst (λ z. ino_streq (s.watches j).path z ≡ true) e
              (ino_streq_refl (s.watches j).path) in
          let test : ((s.watches j).wd == 0) ≡ false = ground (arith, k) in
          ground (arith, none_ j q, alive, same, test)

  watch_at-Adds :
      {o u : Option ℕ}
      → First 0 32 (λ i. is_live (s.watches i) && ino_streq (s.watches i).path path) o
      → First 0 32 (λ i. (s.watches i).wd == 0) u
      → Adds path s (watch_at mask path o u s)
  watch_at-Adds (first i l p t b) u =
      let used : (s.watches i).wd ≢ 0 = ground (arith, t) in
      let same : ino_streq (s.watches i).path path ≡ true = ground (arith, t) in
      let here : (i == i) ≡ true = ground arith in
      let w : Watch = record (s.watches i) { mask = new_mask (s.watches i).mask mask } in
      watched i (s.watches i).wd (put_watch i w s) p used (rw here refl)
        (rw here (ino_streq_sound (s.watches i).path path same))
        (put-IsWatched i w s.watches s.next_wd s.next_wd (omega arith) h (remasked i p used)) refl
  watch_at-Adds (nowhere f) (nowhere g) = refused Errno.enospc
  watch_at-Adds (nowhere f) (first i l p t b) =
      let here : (i == i) ≡ true = ground arith in
      let w : Watch = record { wd = s.next_wd; mask = mask; path = path; active = true } in
      watched i s.next_wd (record (put_watch i w s) { next_wd = s.next_wd + 1 }) p
        (λ z. omega (arith, z, h.positive)) (rw here refl) (rw here refl)
        (put-IsWatched i w s.watches s.next_wd (s.next_wd + 1) (omega arith) h
          (brand_new i (λ j q. f j (omega arith) q)))
        refl

-- Where the descriptors in use are active, each one watch's and below the next one, and no two watches
-- are on one path, `do_inotify_add_watch` refuses and changes nothing or gives the descriptor of a watch
-- on the path without its slashes at the end, and keeps that.
pub do_inotify_add_watch-Adds :
    (path : List ℕ) (mask : ℕ) (s : Instance)
    → IsWatched s.watches s.next_wd
    → Adds (normalized path) s (do_inotify_add_watch (some path) mask s)
unfolding do_inotify_add_watch
do_inotify_add_watch-Adds path mask s h =
    watch_at-Adds mask (normalized path) s h
      (first_from-First 32 0
        (λ i. is_live (s.watches i) && ino_streq (s.watches i).path (normalized path)))
      (first_from-First 32 0 (λ i. (s.watches i).wd == 0))

pub gone-Agrees :
    (i : ℕ) (w : Watch) (f : ℕ → Watch) (next : ℕ) → 0 < next → Agrees i (gone w) f next
gone-Agrees i w f next p = record {
  alive = λ n. absurd (n refl);
  small = p;
  alone = λ n j q d e. n refl;
  apart = λ n j q d k e. n refl;
}

removed-IsWatched :
    (wd : ℕ) (s : Instance) (o : Option ℕ)
    → IsWatched s.watches s.next_wd
    → let r = (remove_at wd o s).0 in IsWatched r.watches r.next_wd
removed-IsWatched wd s none h = h
removed-IsWatched wd s (some i) h =
    put-IsWatched i (gone (s.watches i)) s.watches s.next_wd s.next_wd (omega arith) h
      (gone-Agrees i (s.watches i) s.watches s.next_wd h.positive)

-- Removing a watch keeps the descriptors in use active, each one watch's and below the next one, and the
-- paths apart.
pub do_inotify_rm_watch-IsWatched :
    (wd : ℕ) (s : Instance)
    → IsWatched s.watches s.next_wd
    → let r = (do_inotify_rm_watch wd s).0 in IsWatched r.watches r.next_wd
unfolding do_inotify_rm_watch
do_inotify_rm_watch-IsWatched wd s h =
    removed-IsWatched wd s (first_from 32 0 (λ i. ((s.watches i).wd == wd) && (s.watches i).active))
      h
