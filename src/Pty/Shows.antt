-- ===== src/Pty/Shows.antt =====
-- When a pair of src/kernel/vt/pty.c shows a line and a queue of characters, and the writes to the two
-- rings and the line.
use mathlib.Core.List.{tail-eq_of_cons-eq}
use cosmo_rt.Common.{
  ℕ, zero, suc, ◌+◌, ◌≤◌, ◌≡◌, refl, sym, ap, ap₂, ◌∙◌, Bool, true, false, List, [], ◌∷◌, ◌++◌,
  length, ltb, ◌==◌, if◌then◌else◌, arith, Bool-cases, inl, inr,
}
use cosmo_rt.Common.Int.{ℤ, pos, down, is_same}
use cosmo_rt.Pty.Ring.{
  Buffer, ring_count, ring_space, ring_put, put_if_space, IsRing, put_if_space-IsRing, window,
  contents, contents-put,
}
use cosmo_rt.Pty.Edit.{Edit, Modes, accepted, all_accepted, oldest_first, with_line}
use cosmo_rt.Pty.{Pty, flush_from}

-- The last `n` characters of a line of that length, the last first.
unfoldable pub backwards : (n : ℕ) → (ℤ → ℕ) → List ℕ
backwards zero f = []
backwards (suc n) f = f (pos n) ∷ backwards n f

-- The rings are in bounds, the input ring holds the queue, and the line buffer holds the line, which is
-- at most 255 characters long.
pub record Shows (m : Modes) (p : Pty) (x : Edit) : Type 0 where
  pub input_ring : IsRing p.input
  pub output_ring : IsRing p.output
  pub holds : contents p.input ≡ x.queue
  pub place : p.line_pos ≡ pos (length x.line)
  pub buffer : backwards (length x.line) p.line_buf ≡ x.line
  pub short : length x.line ≤ 255
  pub iflag : p.c_iflag ≡ m.iflag
  pub lflag : p.c_lflag ≡ m.lflag
  pub cc : p.c_cc ≡ m.cc

-- The same test on both sides.
pub if-Shows :
    {m : Modes} {p q : Pty} {x y : Edit} (a b : Bool)
    → a ≡ b
    → Shows m p x
    → Shows m q y
    → Shows m (if a then p else q) (if b then x else y)
if-Shows true true e hp hq = hp
if-Shows true false e hp hq = absurd (cc (e))
if-Shows false true e hp hq = absurd (cc (e))
if-Shows false false e hp hq = hq

-- A test that does not matter.
pub either-Shows :
    {m : Modes} {p q : Pty} {x : Edit} (a : Bool)
    → Shows m p x
    → Shows m q x
    → Shows m (if a then p else q) x
either-Shows true hp hq = hp
either-Shows false hp hq = hq

-- A test whose outcome is known.
pub then-Shows :
    {m : Modes} {p : Pty} (q : Pty) {x : Edit} (a : Bool)
    → a ≡ true
    → Shows m p x
    → Shows m (if a then p else q) x
then-Shows q true e h = h
then-Shows q false e h = absurd (cc (e))

pub else-Shows :
    {m : Modes} (p : Pty) {q : Pty} {x : Edit} (a : Bool)
    → a ≡ false
    → Shows m q x
    → Shows m (if a then p else q) x
else-Shows p true e h = absurd (cc (e))
else-Shows p false e h = h

length-window : (n i : ℕ) (f : ℕ → ℕ) → length (window n i f) ≡ n
unfolding window
length-window zero i f = refl
length-window (suc n) i f = ap suc (length-window n (i + 1) f)

pub ring_count_lem : (b : Buffer) → ring_count b ≡ length (contents b)
unfolding contents
ring_count_lem b = sym (length-window (ring_count b) b.head b.buf)

pub contents-put_if_space :
    (c : ℕ) (b : Buffer) → IsRing b → contents (put_if_space c b) ≡ accepted c (contents b)
unfolding put_if_space
contents-put_if_space c b h = elim (Bool-cases (ltb 0 (ring_space b))) [
  | inl t ↦
      let room : ltb (length (contents b)) 4095 ≡ true =
        unfold ring_space in ground (arith, t, ring_count_lem b) in
      ap (λ k. contents (if k then ring_put c b else b)) t
      ∙ (contents-put c b h (ground (arith, t))
          ∙ sym (ap (λ k. if k then contents b ++ (c ∷ []) else contents b) room))
  | inr f ↦
      let full : ltb (length (contents b)) 4095 ≡ false =
        unfold ring_space in ground (arith, f, ring_count_lem b) in
      ap (λ k. contents (if k then ring_put c b else b)) f
      ∙ sym (ap (λ k. if k then contents b ++ (c ∷ []) else contents b) full)
]

abbrev pub forwards : (n i : ℕ) → (ℤ → ℕ) → List ℕ
forwards zero i f = []
forwards (suc n) i f = f (pos i) ∷ forwards n (i + 1) f

pub flush_from_lem :
    (n i : ℕ) (f : ℤ → ℕ) (b : Buffer)
    → IsRing b
    → IsRing (flush_from n i f b)
      × (contents (flush_from n i f b) ≡ all_accepted (forwards n i f) (contents b))
unfolding flush_from
flush_from_lem zero i f b h = (h, refl)
flush_from_lem (suc n) i f b h =
    let c = f (pos i) in
    let rest = flush_from_lem n (i + 1) f (put_if_space c b) (put_if_space-IsRing c b h) in
    (rest.0, rest.1 ∙ ap (all_accepted (forwards n (i + 1) f)) (contents-put_if_space c b h))

forwards_end :
    (n i : ℕ) (f : ℤ → ℕ) → forwards (suc n) i f ≡ forwards n i f ++ (f (pos (i + n)) ∷ [])
forwards_end zero i f = ap (λ k. f (pos k) ∷ []) (omega arith)
forwards_end (suc n) i f =
    ap (λ xs. f (pos i) ∷ xs)
      (forwards_end n (i + 1) f ∙ ap (λ k. forwards n (i + 1) f ++ (f (pos k) ∷ [])) (omega arith))

pub forwards-backwards : (n : ℕ) (f : ℤ → ℕ) → forwards n 0 f ≡ oldest_first (backwards n f)
unfolding backwards
forwards-backwards zero f = refl
forwards-backwards (suc n) f =
    forwards_end n 0 f ∙ ap₂ (λ xs k. xs ++ (f (pos k) ∷ [])) (forwards-backwards n f) (omega arith)

-- A character past the end of a line does not change it.
pub backwards-put :
    (n k c : ℕ) (f : ℤ → ℕ)
    → n ≤ k
    → backwards n (λ i. if is_same i (pos k) then c else f i) ≡ backwards n f
unfolding backwards
backwards-put zero k c f l = refl
backwards-put (suc n) k c f l =
    let other : (n == k) ≡ false = ground (arith, l) in
    ap₂ (λ x xs. x ∷ xs) (ap (λ b. if b then c else f (pos n)) other)
      (backwards-put n k c f (omega (arith, l)))

pub no_line-Shows :
    {m : Modes} {p : Pty} {x : Edit}
    → Shows m p x
    → Shows m (record p { line_pos = pos 0 }) (with_line [] x)
unfolding backwards
no_line-Shows h = record {
  input_ring = h.input_ring;
  output_ring = h.output_ring;
  holds = h.holds;
  place = refl;
  buffer = refl;
  short = omega arith;
  iflag = h.iflag;
  lflag = h.lflag;
  cc = h.cc;
}

-- The line without its last character.
pub shorter-Shows :
    {m : Modes} {p : Pty} {c : ℕ} {cs queue : List ℕ}
    → Shows m p (record { line = c ∷ cs; queue = queue })
    → Shows m (record p { line_pos = down p.line_pos }) (record { line = cs; queue = queue })
unfolding backwards
shorter-Shows h = record {
  input_ring = h.input_ring;
  output_ring = h.output_ring;
  holds = h.holds;
  place = ap down h.place;
  buffer = tail-eq_of_cons-eq h.buffer;
  short = omega (arith, h.short);
  iflag = h.iflag;
  lflag = h.lflag;
  cc = h.cc;
}
