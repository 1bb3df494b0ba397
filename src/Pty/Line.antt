-- ===== src/Pty/Line.antt =====
-- The line discipline of src/kernel/vt/pty.c does what the editing of plain lists says.
use mathlib.Core.Path.{subst}
use cosmo_rt.Common.{
  ℕ, ◌≡◌, refl, ap, ap₂, ◌∙◌, ◌&&◌, ◌||◌, not, List, [], ◌∷◌, length, ltb, ◌==◌, if◌then◌else◌,
}
use cosmo_rt.Common.Int.{is_positive, rounds}
use cosmo_rt.Pty.Ring.{put_if_space, put_if_space-IsRing}
use cosmo_rt.Pty.Edit.{
  Edit, Modes, accepted, ended, edit_line, edit_plain, edit_signal, edit, edit_all,
}
use cosmo_rt.Pty.Shows.{
  Shows, if-Shows, either-Shows, then-Shows, else-Shows, ring_count_lem, contents-put_if_space,
}
use cosmo_rt.Pty.{
  Pty, has_flag, echo, icanon, isig, icrnl, newline, carriage_return, backspace, line_flush,
  canonical_char, raw_char, plain_char, signal_char, input_char, input_chars, master_write,
}
use cosmo_rt.Pty.Typing.{output_cooked-Shows, interrupt-Shows, line_flush-Shows, store_char-Shows}
use cosmo_rt.Pty.Erase.{erase_guarded-Shows, kill_line-Shows, rounds_lem, erase_word-Shows}

module _ {m : Modes} (p : Pty) (x : Edit) (h : Shows m p x) where
  canonical_char-Shows : (c : ℕ) → Shows m (canonical_char c p) (edit_line m c x)
  unfolding canonical_char
  canonical_char-Shows c =
      if-Shows _ _ (ap (λ f. (c == backspace) || (c == f 2)) h.cc)
        (erase_guarded-Shows p x.line x.queue h)
        (if-Shows _ _ (ap (λ f. c == f 3) h.cc)
          (kill_line-Shows (rounds p.line_pos) p x.line x.queue (rounds_lem p x h) h)
          (if-Shows _ _ (ap (λ f. (c == f 14) && not (f 14 == 0)) h.cc) (erase_word-Shows p x h) (
            if-Shows (c == newline) (c == 10) refl
              (line_flush-Shows _
                (either-Shows (has_flag p.c_lflag echo) (output_cooked-Shows newline p h) h))
              (store_char-Shows c p h))))

  raw_char-Shows : (c : ℕ) → Shows m (raw_char c p) (record x { queue = accepted c x.queue })
  unfolding raw_char
  raw_char-Shows c = either-Shows (has_flag p.c_lflag echo) (output_cooked-Shows c _ taken) taken
    where
      taken :
          Shows m
            (record p { input = put_if_space c p.input })
            (record x { queue = accepted c x.queue })
      taken = record {
        input_ring = put_if_space-IsRing c p.input h.input_ring;
        output_ring = h.output_ring;
        holds = contents-put_if_space c p.input h.input_ring ∙ ap (accepted c) h.holds;
        place = h.place;
        buffer = h.buffer;
        short = h.short;
        iflag = h.iflag;
        lflag = h.lflag;
        cc = h.cc;
      }

-- The end of the file hands over a line that is not empty.
ended-Shows :
    {m : Modes} (p : Pty) (line queue : List ℕ)
    → Shows m p (record { line = line; queue = queue })
    → Shows m (if is_positive p.line_pos then line_flush p else p) (ended line queue)
ended-Shows p [] queue h = else-Shows _ (is_positive p.line_pos) (ap is_positive h.place) h
ended-Shows p (c ∷ cs) queue h =
    then-Shows p (is_positive p.line_pos) (ap is_positive h.place) (line_flush-Shows p h)

module _ {m : Modes} (p : Pty) (x : Edit) (h : Shows m p x) where
  plain_char-Shows : (c : ℕ) → Shows m (plain_char c p) (edit_plain m c x)
  unfolding plain_char
  plain_char-Shows c =
      if-Shows _ _ (ap₂ (λ f g. has_flag f icanon && (c == g 4)) h.lflag h.cc)
        (ended-Shows p x.line x.queue h)
        (if-Shows _ _ (ap (λ f. has_flag f icanon) h.lflag) (canonical_char-Shows p x h c)
          (raw_char-Shows p x h c))

  signal_char-Shows : (c : ℕ) → Shows m (signal_char c p) (edit_signal m c x)
  unfolding signal_char
  signal_char-Shows c =
      if-Shows _ _ (ap (λ f. not (has_flag f isig)) h.lflag) (plain_char-Shows c) (
        if-Shows _ _ (ap (λ f. c == f 0) h.cc) (interrupt-Shows 2 67 p h) (
          if-Shows _ _ (ap (λ f. c == f 1) h.cc) (interrupt-Shows 3 92 p h) (
            if-Shows _ _ (ap (λ f. c == f 10) h.cc) (interrupt-Shows 20 90 p h)
              (plain_char-Shows c))))

  input_char-Shows : (c : ℕ) → Shows m (input_char c p) (edit m c x)
  unfolding input_char
  input_char-Shows c =
      subst (λ d. Shows m (input_char c p) (edit_signal m d x))
        (ap (λ f. if has_flag f icrnl && (c == carriage_return) then newline else c) h.iflag)
        (unfold input_char in signal_char-Shows _)

input_chars-Shows :
    {m : Modes} (cs : List ℕ) (p : Pty) (x : Edit)
    → Shows m p x
    → Shows m (input_chars cs p) (edit_all m cs x)
unfolding input_chars
input_chars-Shows [] p x h = h
input_chars-Shows {m} (c ∷ cs) p x h =
    input_chars-Shows cs (input_char c p) (edit m c x) (input_char-Shows p x h c)

-- Where a pair shows a line and a queue, `pty_master_write` edits them as plain lists are edited: after
-- the characters, in every mode of the terminal, the input ring holds the edited queue, the line buffer
-- holds the edited line up to `line_pos`, which stays within 0 and 255, and the settings stay. It wakes
-- the slave's readers just where the queue then is not empty.
pub master_write-Edits :
    (m : Modes) (cs : List ℕ) (p : Pty) (x : Edit)
    → Shows m p x
    → Shows m (master_write cs p).0 (edit_all m cs x)
      × ((master_write cs p).1 ≡ ltb 0 (length (edit_all m cs x).queue))
unfolding master_write
master_write-Edits m cs p x h =
    let after = input_chars-Shows cs p x h in
    (after, ap (ltb 0) (ring_count_lem (input_chars cs p).input ∙ ap length after.holds))
