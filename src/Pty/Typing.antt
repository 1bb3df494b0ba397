-- ===== src/Pty/Typing.antt =====
-- The echo, the signal characters, the hand-over of a line and the store of a character, of
-- src/kernel/vt/pty.c, on plain lists.
use cosmo_rt.Common.{
  ℕ, suc, ◌+◌, ◌≡◌, refl, ap, ap₂, ◌∙◌, Bool, true, false, ◌&&◌, List, [], ◌∷◌, length, ltb, ◌==◌,
  if◌then◌else◌, arith,
}
use cosmo_rt.Common.Int.{pos, up, is_below, is_same, rounds}
use cosmo_rt.Pty.Ring.{put_if_space-IsRing}
use cosmo_rt.Pty.Edit.{
  Edit, Modes, accepted, all_accepted, oldest_first, handed_over, with_line, typed,
}
use cosmo_rt.Pty.Shows.{
  Shows, backwards, either-Shows, then-Shows, else-Shows, contents-put_if_space, flush_from_lem,
  forwards, forwards-backwards, backwards-put, no_line-Shows,
}
use cosmo_rt.Pty.{
  Pty, has_flag, echo, newline, carriage_return, caret, maps_newline, output_char, output_str,
  output_cooked, echo_str, send_signal_to_fg, interrupt, line_flush, echo_char, store_char,
}

module _ {m : Modes} {x : Edit} where
  output_char-Shows : (c : ℕ) (p : Pty) → Shows m p x → Shows m (output_char c p) x
  unfolding output_char
  output_char-Shows c p h = record {
    input_ring = h.input_ring;
    output_ring = put_if_space-IsRing c p.output h.output_ring;
    holds = h.holds;
    place = h.place;
    buffer = h.buffer;
    short = h.short;
    iflag = h.iflag;
    lflag = h.lflag;
    cc = h.cc;
  }

  output_str-Shows : (cs : List ℕ) (p : Pty) → Shows m p x → Shows m (output_str cs p) x
  unfolding output_str
  output_str-Shows [] p h = h
  output_str-Shows (c ∷ cs) p h = output_str-Shows cs (output_char c p) (output_char-Shows c p h)

  pub output_cooked-Shows : (c : ℕ) (p : Pty) → Shows m p x → Shows m (output_cooked c p) x
  unfolding output_cooked
  output_cooked-Shows c p h =
      either-Shows (maps_newline p && (c == newline))
        (output_char-Shows newline _ (output_char-Shows carriage_return p h))
        (output_char-Shows c p h)

  pub echo_str-Shows : (cs : List ℕ) (p : Pty) → Shows m p x → Shows m (echo_str cs p) x
  unfolding echo_str
  echo_str-Shows cs p h = either-Shows (has_flag p.c_lflag echo) (output_str-Shows cs p h) h

  echo_char-Shows : (c : ℕ) (p : Pty) → Shows m p x → Shows m (echo_char c p) x
  unfolding echo_char
  echo_char-Shows c p h = either-Shows _ h (
      either-Shows _ (output_char-Shows (c + 64) _ (output_char-Shows caret p h))
        (output_cooked-Shows c p h))

  send_signal_to_fg-Shows : (sig : ℕ) (p : Pty) → Shows m p x → Shows m (send_signal_to_fg sig p) x
  unfolding send_signal_to_fg
  send_signal_to_fg-Shows sig p h = record {
    input_ring = h.input_ring;
    output_ring = h.output_ring;
    holds = h.holds;
    place = h.place;
    buffer = h.buffer;
    short = h.short;
    iflag = h.iflag;
    lflag = h.lflag;
    cc = h.cc;
  }

  pub interrupt-Shows :
      (sig name : ℕ) (p : Pty) → Shows m p x → Shows m (interrupt sig name p) (with_line [] x)
  unfolding interrupt
  interrupt-Shows sig name p h =
      no_line-Shows
        (echo_str-Shows (caret ∷ name ∷ newline ∷ []) _ (send_signal_to_fg-Shows sig p h))

  pub line_flush-Shows : (p : Pty) → Shows m p x → Shows m (line_flush p) (handed_over x)
  unfolding line_flush backwards
  line_flush-Shows p h =
      let n = rounds p.line_pos in
      let flushed = flush_from_lem n 0 p.line_buf p.input h.input_ring in
      let line : forwards n 0 p.line_buf ≡ oldest_first x.line =
        ap (λ k. forwards (rounds k) 0 p.line_buf) h.place
        ∙ (forwards-backwards (length x.line) p.line_buf ∙ ap oldest_first h.buffer) in
      record {
        input_ring = put_if_space-IsRing newline _ flushed.0;
        output_ring = h.output_ring;
        holds =
            contents-put_if_space newline _ flushed.0
            ∙ ap (accepted newline) (flushed.1 ∙ ap₂ all_accepted line h.holds);
        place = refl;
        buffer = refl;
        short = omega arith;
        iflag = h.iflag;
        lflag = h.lflag;
        cc = h.cc;
      }

stored-Shows :
    {m : Modes} {x : Edit} (c : ℕ) (p : Pty)
    → ltb (length x.line) 255 ≡ true
    → Shows m p x
    → Shows m
        (record p {
          line_buf = λ i. if is_same i p.line_pos then c else p.line_buf i;
          line_pos = up p.line_pos;
        })
        (with_line (c ∷ x.line) x)
unfolding backwards
stored-Shows {x = x} c p room h =
    let n = length x.line in
    let here : (n == n) ≡ true = ground arith in
    record {
      input_ring = h.input_ring;
      output_ring = h.output_ring;
      holds = h.holds;
      place = ap up h.place ∙ ap pos (omega arith);
      buffer =
          ap (λ k. backwards (suc n) (λ i. if is_same i k then c else p.line_buf i)) h.place
          ∙ ap₂ (λ y ys. y ∷ ys) (ap (λ b. if b then c else p.line_buf (pos n)) here)
              (backwards-put n n c p.line_buf (omega arith) ∙ h.buffer);
      short = ground (arith, room);
      iflag = h.iflag;
      lflag = h.lflag;
      cc = h.cc;
    }

-- The line takes a character only where it has another place for one.
pub store_char-Shows :
    {m : Modes} {x : Edit} (c : ℕ) (p : Pty) → Shows m p x → Shows m (store_char c p) (typed c x)
unfolding store_char
store_char-Shows {m} {x} c p h = go (ltb (length x.line) 255) refl
  where
    same : is_below p.line_pos 255 ≡ ltb (length x.line) 255
    same = ap (λ k. is_below k 255) h.place

    go :
        (b : Bool)
        → ltb (length x.line) 255 ≡ b
        → Shows m
            (if is_below p.line_pos 255
              then echo_char c (record p {
                line_buf = λ i. if is_same i p.line_pos then c else p.line_buf i;
                line_pos = up p.line_pos;
              })
              else p)
            (if b then with_line (c ∷ x.line) x else x)
    go true e =
        then-Shows p (is_below p.line_pos 255) (same ∙ e)
          (echo_char-Shows c _ (stored-Shows c p e h))
    go false e = else-Shows _ (is_below p.line_pos 255) (same ∙ e) h
