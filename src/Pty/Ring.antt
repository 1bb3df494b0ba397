-- ===== src/Pty/Ring.antt =====
-- The ring buffers of src/kernel/vt/pty.c, and the queue of characters that a ring is.
use cosmo_rt.Common.{
  ℕ, zero, suc, ◌+◌, ◌-◌, ◌%◌, ◌≤◌, ◌<◌, ◌≡◌, refl, sym, ap, ap₂, ◌∙◌, List, [], ◌∷◌, ◌++◌, length,
  ltb, ◌==◌, if◌then◌else◌, arith, Bool-cases, inl, inr,
}

-- A ring of PTY_BUF_SIZE characters with the indices of its head and its tail.
pub record Buffer : Type 0 where
  pub buf : ℕ → ℕ
  pub head : ℕ
  pub tail : ℕ

abbrev pub pty_buf_size : ℕ
pty_buf_size = 4096

unfoldable pub ring_count : Buffer → ℕ
ring_count b = (b.tail + pty_buf_size - b.head) % pty_buf_size

unfoldable pub ring_space : Buffer → ℕ
unfolding ring_count
ring_space b = pty_buf_size - 1 - ring_count b

unfoldable pub ring_put : ℕ → Buffer → Buffer
ring_put c b = record b {
  buf = λ i. if i == b.tail then c else b.buf i;
  tail = (b.tail + 1) % pty_buf_size;
}

unfoldable pub ring_get : Buffer → Buffer × ℕ
ring_get b = (record b { head = (b.head + 1) % pty_buf_size }, b.buf b.head)

unfoldable pub put_if_space : ℕ → Buffer → Buffer
unfolding ring_space ring_put
put_if_space c b = if ltb 0 (ring_space b) then ring_put c b else b

-- `for (i = 0; i < n; i++) buf[i] = ring_get(...)`
unfoldable pub ring_take : ℕ → Buffer → Buffer × List ℕ
unfolding ring_get
ring_take zero b = (b, [])
ring_take (suc n) b =
    let one = ring_get b in let rest = ring_take n one.0 in (rest.0, one.1 ∷ rest.1)

pub record IsRing (b : Buffer) : Type 0 where
  pub head_bound : b.head < 4096
  pub tail_bound : b.tail < 4096

-- The `n` characters from the index `i` on, going round at the end.
unfoldable pub window : (n i : ℕ) → (ℕ → ℕ) → List ℕ
window zero i f = []
window (suc n) i f = f (i % 4096) ∷ window n (i + 1) f

-- The characters that the ring holds, the oldest first.
unfoldable pub contents : Buffer → List ℕ
unfolding window ring_count
contents b = window (ring_count b) b.head b.buf

pub ring_put-IsRing : (c : ℕ) (b : Buffer) → IsRing b → IsRing (ring_put c b)
unfolding ring_put
ring_put-IsRing c b h = record { head_bound = h.head_bound; tail_bound = omega arith }

pub put_if_space-IsRing : (c : ℕ) (b : Buffer) → IsRing b → IsRing (put_if_space c b)
unfolding put_if_space
put_if_space-IsRing c b h = elim (Bool-cases (ltb 0 (ring_space b))) [
  | inl e ↦ rw e (ring_put-IsRing c b h)
  | inr e ↦ rw e h
]

-- A window keeps its characters when a place `m` after its start is written, past its end.
window-put :
    (n m i t c : ℕ) (f : ℕ → ℕ)
    → n ≤ m
    → m < 4096
    → t ≡ (i + m) % 4096
    → window n i (λ j. if j == t then c else f j) ≡ window n i f
unfolding window
window-put zero m i t c f p q e = refl
window-put (suc n) m i t c f p q e =
    ap₂ ◌∷◌ kept (window-put n (m - 1) (i + 1) t c f (omega arith) (omega arith) (omega arith))
  where
    kept : (if (i % 4096) == t then c else f (i % 4096)) ≡ f (i % 4096)
    kept = ground arith

window_end : (n i : ℕ) (f : ℕ → ℕ) → window (suc n) i f ≡ window n i f ++ f ((i + n) % 4096) ∷ []
unfolding window
window_end zero i f = ap (λ k. f (k % 4096) ∷ []) (omega arith)
window_end (suc n) i f =
    ap (λ xs. f (i % 4096) ∷ xs)
      (window_end n (i + 1) f ∙ ap (λ k. window n (i + 1) f ++ f (k % 4096) ∷ []) (omega arith))

-- The window does not depend on the turn that the index has made.
window_round : (n i : ℕ) (f : ℕ → ℕ) → window n (i % 4096) f ≡ window n i f
unfolding window
window_round zero i f = refl
window_round (suc n) i f = ap₂ ◌∷◌ (ap f (omega arith)) (
    sym (window_round n (i % 4096 + 1) f)
    ∙ (ap (λ k. window n k f) turn ∙ window_round n (i + 1) f))
  where
    turn : (i % 4096 + 1) % 4096 ≡ (i + 1) % 4096
    turn = omega arith

pub ring_count-put :
    (c : ℕ) (b : Buffer)
    → IsRing b
    → 0 < ring_space b
    → ring_count (ring_put c b) ≡ suc (ring_count b)
unfolding ring_count ring_space ring_put
ring_count-put c b h p = omega (arith, h.head_bound, h.tail_bound)

-- A character that is put into a ring with space is the last of those that it holds.
pub contents-put :
    (c : ℕ) (b : Buffer)
    → IsRing b
    → 0 < ring_space b
    → contents (ring_put c b) ≡ contents b ++ c ∷ []
unfolding contents ring_put
contents-put c b h p =
    let n = ring_count b in
    let f = (ring_put c b).buf in
    ap (λ k. window k b.head f) (ring_count-put c b h p)
    ∙ (window_end n b.head f
        ∙ ap₂ (λ xs x. xs ++ x ∷ [])
            (window-put n n b.head b.tail c b.buf (omega arith) short (sym at_tail)) last)
  where
    at_tail : (b.head + ring_count b) % 4096 ≡ b.tail
    at_tail = unfold ring_count in omega (arith, h.head_bound, h.tail_bound)

    short : ring_count b < 4096
    short = unfold ring_count in omega arith

    last :
        (if ((b.head + ring_count b) % 4096) == b.tail
          then c
          else b.buf ((b.head + ring_count b) % 4096))
        ≡ c
    last = ground (arith, at_tail)

ring_count-get :
    (b : Buffer) → IsRing b → 0 < ring_count b → ring_count b ≡ suc (ring_count (ring_get b).0)
unfolding ring_count ring_get
ring_count-get b h p = omega (arith, h.head_bound, h.tail_bound)

-- A character that is taken from a ring that is not empty is the first of those that it holds.
pub contents-get :
    (b : Buffer)
    → IsRing b
    → 0 < ring_count b
    → contents b ≡ (ring_get b).1 ∷ contents (ring_get b).0
unfolding contents ring_get window
contents-get b h p =
    ap (λ k. window k b.head b.buf) (ring_count-get b h p)
    ∙ ap₂ ◌∷◌ (ap b.buf (omega (arith, h.head_bound)))
        (sym (window_round (ring_count (ring_get b).0) (b.head + 1) b.buf))

pub ring_get-IsRing : (b : Buffer) → IsRing b → IsRing (ring_get b).0
unfolding ring_get
ring_get-IsRing b h = record { head_bound = omega arith; tail_bound = h.tail_bound }

-- Taking at most what the ring holds gives that many of its characters from the front, and leaves
-- the others.
pub contents-take :
    (n : ℕ) (b : Buffer)
    → IsRing b
    → n ≤ ring_count b
    → IsRing (ring_take n b).0
      × (contents b ≡ (ring_take n b).1 ++ contents (ring_take n b).0)
      × (length (ring_take n b).1 ≡ n)
unfolding ring_take
contents-take zero b h p = (h, refl, refl)
contents-take (suc n) b h p =
    let less = ring_count-get b h (omega (arith, p)) in
    let rest = contents-take n (ring_get b).0 (ring_get-IsRing b h) (omega (arith, p, less)) in
    (
      rest.0,
      contents-get b h (omega (arith, p)) ∙ ap (λ xs. (ring_get b).1 ∷ xs) rest.1,
      ap suc rest.2,
    )
