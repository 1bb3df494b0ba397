-- ===== src/Pty/Erase.antt =====
-- The erasing of characters, words and lines of src/kernel/vt/pty.c, on plain lists.
use mathlib.Core.List.{head-eq_of_cons-eq}
use cosmo_rt.Common.{
  ℕ, zero, suc, ◌≤◌, ◌≡◌, ap, ap₂, ◌∙◌, Bool, true, false, ◌&&◌, not, List, [], ◌∷◌, length, ◌==◌,
  if◌then◌else◌, arith,
}
use cosmo_rt.Common.Int.{down, is_positive, rounds}
use cosmo_rt.Pty.Edit.{Edit, Modes, with_line, shorter, trimmed}
use cosmo_rt.Pty.Shows.{Shows, backwards, then-Shows, else-Shows, shorter-Shows}
use cosmo_rt.Pty.{Pty, backspace, space, erase_one, kill_line, erase_while, erase_word}
use cosmo_rt.Pty.Typing.{echo_str-Shows}

-- The character that the cursor stands behind.
last_char :
    {m : Modes} {p : Pty} {c : ℕ} {cs queue : List ℕ}
    → Shows m p (record { line = c ∷ cs; queue = queue })
    → p.line_buf (down p.line_pos) ≡ c
unfolding backwards
last_char {p = p} h = ap (λ k. p.line_buf (down k)) h.place ∙ head-eq_of_cons-eq h.buffer

-- Erasing takes the last character, of a line that has one.
erase_one-Shows :
    {m : Modes} (p : Pty) {c : ℕ} {cs queue : List ℕ}
    → Shows m p (record { line = c ∷ cs; queue = queue })
    → Shows m (erase_one p) (record { line = cs; queue = queue })
unfolding erase_one
erase_one-Shows p h = echo_str-Shows (backspace ∷ space ∷ backspace ∷ []) _ (shorter-Shows h)

pub erase_guarded-Shows :
    {m : Modes} (p : Pty) (line queue : List ℕ)
    → Shows m p (record { line = line; queue = queue })
    → Shows m
        (if is_positive p.line_pos then erase_one p else p)
        (record { line = shorter line; queue = queue })
erase_guarded-Shows p [] queue h = else-Shows _ (is_positive p.line_pos) (ap is_positive h.place) h
erase_guarded-Shows p (c ∷ cs) queue h =
    then-Shows p (is_positive p.line_pos) (ap is_positive h.place) (erase_one-Shows p h)

pub kill_line-Shows :
    {m : Modes} (n : ℕ) (p : Pty) (line queue : List ℕ)
    → length line ≤ n
    → Shows m p (record { line = line; queue = queue })
    → Shows m (kill_line n p) (record { line = []; queue = queue })
unfolding kill_line
kill_line-Shows zero p [] queue l h = h
kill_line-Shows zero p (c ∷ cs) queue l h = absurd (omega (arith, l))
kill_line-Shows (suc n) p [] queue l h =
    else-Shows _ (is_positive p.line_pos) (ap is_positive h.place) h
kill_line-Shows (suc n) p (c ∷ cs) queue l h =
    then-Shows p (is_positive p.line_pos) (ap is_positive h.place)
      (kill_line-Shows n (erase_one p) cs queue (omega (arith, l)) (erase_one-Shows p h))

if-line :
    {m : Modes} {p q : Pty} {xs ys queue : List ℕ} (a b : Bool)
    → a ≡ b
    → Shows m p (record { line = xs; queue = queue })
    → Shows m q (record { line = ys; queue = queue })
    → Shows m (if a then p else q) (record { line = if b then xs else ys; queue = queue })
if-line true true e hp hq = hp
if-line true false e hp hq = absurd (cc (e))
if-line false true e hp hq = absurd (cc (e))
if-line false false e hp hq = hq

erase_while-Shows :
    {m : Modes} (n : ℕ) (spaces : Bool) (p : Pty) (line queue : List ℕ)
    → length line ≤ n
    → Shows m p (record { line = line; queue = queue })
    → Shows m (erase_while n spaces p) (record { line = trimmed spaces line; queue = queue })
unfolding erase_while
erase_while-Shows zero spaces p [] queue l h = h
erase_while-Shows zero spaces p (c ∷ cs) queue l h = absurd (omega (arith, l))
erase_while-Shows (suc n) spaces p [] queue l h =
    else-Shows _ _ (ap (λ k. is_positive k && at_end) h.place) h
  where
    at_end : Bool
    at_end =
        let at_space = p.line_buf (down p.line_pos) == space in
        if spaces then at_space else not at_space
erase_while-Shows (suc n) spaces p (c ∷ cs) queue l h =
    if-line _ (if spaces then c == space else not (c == space))
      (ap₂ (λ k d. is_positive k && (if spaces then d == space else not (d == space))) h.place
        (last_char h))
      (erase_while-Shows n spaces (erase_one p) cs queue (omega (arith, l)) (erase_one-Shows p h)) h

module _ {m : Modes} (p : Pty) (x : Edit) (h : Shows m p x) where
  pub rounds_lem : length x.line ≤ rounds p.line_pos
  rounds_lem = omega (arith, ap rounds h.place)

  pub erase_word-Shows : Shows m (erase_word p) (with_line (trimmed false (trimmed true x.line)) x)
  unfolding erase_word
  erase_word-Shows =
      let skipped = erase_while (rounds p.line_pos) true p in
      let once = erase_while-Shows (rounds p.line_pos) true p x.line x.queue rounds_lem h in
      erase_while-Shows (rounds skipped.line_pos) false skipped (trimmed true x.line) x.queue
        (omega (arith, ap rounds once.place)) once
