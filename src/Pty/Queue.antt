-- ===== src/Pty/Queue.antt =====
-- The rings of src/kernel/vt/pty.c as queues: what is written to a pair and what is read from it.
use mathlib.Core.Path.{subst}
use cosmo_rt.Common.{
  ℕ, zero, suc, ◌+◌, ◌≤◌, ◌<◌, ◌≡◌, refl, sym, ap, ◌∙◌, Bool, ◌&&◌, List, [], ◌∷◌, ◌++◌, length,
  take, ltb, ◌==◌, if◌then◌else◌, arith, Bool-cases, ◌⊎◌, inl, inr, append_assoc, append-nil,
}
use cosmo_rt.Pty.Ring.{
  Buffer, IsRing, ring_count, ring_space, ring_put, ring_put-IsRing, contents, contents-put,
  contents-take, ring_count-put,
}
use cosmo_rt.Pty.{
  Pty, slave_read, master_read, direct_chars, input_direct, slave_chars, slave_write, maps_newline,
  newline, carriage_return,
}

-- `pty_slave_read` gives the oldest characters of the input, as many as are asked for if there are
-- so many, in order, and leaves the others in the ring.
pub slave_read_takes :
    (len : ℕ) (p : Pty)
    → IsRing p.input
    → let r = slave_read len p in
      (contents p.input ≡ r.1 ++ contents r.0.input)
      × (length r.1 ≡ (if ltb len (ring_count p.input) then len else ring_count p.input))
unfolding slave_read
slave_read_takes len p h =
    let n = if ltb len (ring_count p.input) then len else ring_count p.input in
    let t = contents-take n p.input h (ground arith) in (t.1, t.2)

-- `pty_master_read` gives the oldest characters of the output, as many as are asked for if there
-- are so many, in order, and leaves the others in the ring.
pub master_read_takes :
    (len : ℕ) (p : Pty)
    → IsRing p.output
    → let r = master_read len p in
      (contents p.output ≡ r.1 ++ contents r.0.output)
      × (length r.1 ≡ (if ltb len (ring_count p.output) then len else ring_count p.output))
unfolding master_read
master_read_takes len p h =
    let n = if ltb len (ring_count p.output) then len else ring_count p.output in
    let t = contents-take n p.output h (ground arith) in (t.1, t.2)

-- What a loop that stops at a full ring did: it put the first `k` characters into the ring.
pub record Appends (cs : List ℕ) (wrote : ℕ) (b : Buffer) (r : Buffer × ℕ) : Type 0 where
  pub k : ℕ
  pub written : r.1 ≡ wrote + k
  pub appended : contents r.0 ≡ contents b ++ take k cs
  pub bounded : k ≤ length cs
  pub stopped : (k ≡ length cs) ⊎ (ring_space r.0 ≡ 0)
  pub ring : IsRing r.0

direct_chars-Appends :
    (cs : List ℕ) (wrote : ℕ) (b : Buffer) → IsRing b → Appends cs wrote b (direct_chars cs wrote b)
unfolding direct_chars
direct_chars-Appends [] wrote b h = record {
  k = 0;
  written = omega arith;
  appended = sym (append-nil (contents b));
  bounded = omega arith;
  stopped = inl refl;
  ring = h;
}
direct_chars-Appends (c ∷ cs) wrote b h = elim (Bool-cases (ring_space b == 0)) [
  | inl e ↦ rw e (record {
    k = 0;
    written = omega arith;
    appended = sym (append-nil (contents b));
    bounded = omega arith;
    stopped = inr (ground (arith, e));
    ring = h;
  })
  | inr e ↦ rw e (
      further (ground (arith, e))
        (direct_chars-Appends cs (wrote + 1) (ring_put c b) (ring_put-IsRing c b h)))
]
  where
    further :
        0 < ring_space b
        → {r : Buffer × ℕ} → Appends cs (wrote + 1) (ring_put c b) r
        → Appends (c ∷ cs) wrote b r
    further s a = record {
      k = suc a.k;
      written = omega (arith, a.written);
      appended =
          a.appended
          ∙ (ap (λ xs. xs ++ take a.k cs) (contents-put c b h s)
              ∙ append_assoc (contents b) (c ∷ []) (take a.k cs));
      bounded = omega (arith, a.bounded);
      stopped = elim a.stopped [ inl e ↦ inl (ap suc e) | inr e ↦ inr e ];
      ring = a.ring;
    }

-- `pty_input_direct` puts characters at the end of the input and returns how many: all of them, or
-- the first ones until the ring is full.
pub input_direct-Appends :
    (cs : List ℕ) (p : Pty)
    → IsRing p.input
    → let r = input_direct cs p in Appends cs 0 p.input (r.0.input, r.1)
unfolding input_direct
input_direct-Appends cs p h = direct_chars-Appends cs 0 p.input h

-- The characters that reach the output: with the mapping of newlines, a newline is two.
unfoldable pub cooked : Bool → List ℕ → List ℕ
cooked maps [] = []
cooked maps (c ∷ cs) =
    let rest = cooked maps cs in
    if maps && (c == newline) then carriage_return ∷ newline ∷ rest else c ∷ rest

-- The room that a character takes in the output.
abbrev pub width : (maps : Bool) → ℕ → ℕ
width maps c = if maps && (c == newline) then 2 else 1

-- The first `k` of the characters are all of them, or the next one has no room.
abbrev pub StopsAfter : (maps : Bool) → (room k : ℕ) → List ℕ → Type 0
StopsAfter maps room zero [] = Unit
StopsAfter maps room zero (c ∷ cs) = room < width maps c
StopsAfter maps room (suc k) [] = ⊥
StopsAfter maps room (suc k) (c ∷ cs) = StopsAfter maps room k cs

-- What `pty_slave_write` did to the output.
pub record Cooks (cs : List ℕ) (wrote : ℕ) (p : Pty) (r : Pty × ℕ) : Type 0 where
  pub k : ℕ
  pub written : r.1 ≡ wrote + k
  pub appended : contents r.0.output ≡ contents p.output ++ cooked (maps_newline p) (take k cs)
  pub ring : IsRing r.0.output
  pub bounded : k ≤ length cs
  pub stopped : StopsAfter (maps_newline p) (ring_space r.0.output) k cs
  pub input_same : r.0.input ≡ p.input

-- Two characters that are put into a ring with space for both.
contents-put_two :
    (c d : ℕ) (b : Buffer)
    → IsRing b
    → 2 ≤ ring_space b
    → contents (ring_put d (ring_put c b)) ≡ contents b ++ c ∷ d ∷ []
contents-put_two c d b h s =
    let room : 0 < ring_space (ring_put c b) = left in
    contents-put d (ring_put c b) (ring_put-IsRing c b h) room
    ∙ (ap (λ xs. xs ++ d ∷ []) (contents-put c b h (omega (arith, s)))
        ∙ append_assoc (contents b) (c ∷ []) (d ∷ []))
  where
    left : 0 < ring_space (ring_put c b)
    left = unfold ring_space in omega (arith, ring_count-put c b h (omega (arith, s)), s)

slave_chars-Cooks :
    (cs : List ℕ) (wrote : ℕ) (p : Pty)
    → IsRing p.output
    → Cooks cs wrote p (slave_chars cs wrote p)
unfolding slave_chars cooked
slave_chars-Cooks [] wrote p h = record {
  k = 0;
  written = omega arith;
  appended = sym (append-nil (contents p.output));
  ring = h;
  bounded = omega arith;
  stopped = tt;
  input_same = refl;
}
slave_chars-Cooks (c ∷ cs) wrote p h = elim (Bool-cases (maps_newline p && (c == newline))) [
  | inl m ↦ elim (Bool-cases (ltb (ring_space p.output) 2)) [
    | inl e ↦ rw (m, e) (full 2 (ap (λ b. if b then 2 else 1) m) (ground (arith, e)))
    | inr e ↦
        rw (m, e)
          (further (carriage_return ∷ newline ∷ []) (λ xs. rw m refl)
            (contents-put_two carriage_return newline p.output h (ground (arith, e)))
            (slave_chars-Cooks cs (wrote + 1) (record p { output = two })
              (ring_put-IsRing newline _ (ring_put-IsRing carriage_return p.output h))))
  ]
  | inr m ↦ elim (Bool-cases (ring_space p.output == 0)) [
    | inl e ↦ rw (m, e) (full 1 (ap (λ b. if b then 2 else 1) m) (ground (arith, e)))
    | inr e ↦
        rw (m, e)
          (further (c ∷ []) (λ xs. rw m refl) (contents-put c p.output h (ground (arith, e)))
            (slave_chars-Cooks cs (wrote + 1) (record p { output = ring_put c p.output })
              (ring_put-IsRing c p.output h)))
  ]
]
  where
    two : Buffer
    two = ring_put newline (ring_put carriage_return p.output)

    full :
        (n : ℕ)
        → width (maps_newline p) c ≡ n
        → ring_space p.output < n
        → Cooks (c ∷ cs) wrote p (p, wrote)
    full n w s = record {
      k = 0;
      written = omega arith;
      appended = sym (append-nil (contents p.output));
      ring = h;
      bounded = omega arith;
      stopped = subst (λ x. ring_space p.output < x) (sym w) s;
      input_same = refl;
    }

    further :
        (new : List ℕ)
        → ((xs : List ℕ) → cooked (maps_newline p) (c ∷ xs) ≡ new ++ cooked (maps_newline p) xs)
        → {b : Buffer} → contents b ≡ contents p.output ++ new
        → {r : Pty × ℕ} → Cooks cs (wrote + 1) (record p { output = b }) r
        → Cooks (c ∷ cs) wrote p r
    further new step put a = record {
      k = suc a.k;
      written = omega (arith, a.written);
      appended =
          a.appended
          ∙ (ap (λ xs. xs ++ cooked (maps_newline p) (take a.k cs)) put
              ∙ (append_assoc (contents p.output) new (cooked (maps_newline p) (take a.k cs))
                  ∙ ap (λ xs. contents p.output ++ xs) (sym (step (take a.k cs)))));
      ring = a.ring;
      bounded = omega (arith, a.bounded);
      stopped = a.stopped;
      input_same = a.input_same;
    }

-- Where the output ring is in bounds, `pty_slave_write` puts the first characters at the end of the
-- output, each newline as a carriage return and a newline where the settings say so, and returns how
-- many: all of them, or those before the first that has no room. The ring stays in bounds and the input
-- stays as it is.
pub slave_write-Cooks : (cs : List ℕ) (p : Pty) → IsRing p.output → Cooks cs 0 p (slave_write cs p)
unfolding slave_write
slave_write-Cooks cs p h = slave_chars-Cooks cs 0 p h
