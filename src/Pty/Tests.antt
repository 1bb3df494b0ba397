-- ===== src/Pty/Tests.antt =====
-- A pair at concrete characters (src/kernel/vt/pty.c).
use cosmo_rt.Common.{ℕ, ◌≡◌, ◌++◌, refl, List, [], ◌∷◌, arith, length, ltb, if◌then◌else◌, ◌==◌}
use cosmo_rt.Common.Int.{pos}
use cosmo_rt.Pty.Ring.{
  IsRing, contents, ring_count, put_if_space, ring_put, ring_space, ring_take, ring_get, window,
}
use cosmo_rt.Pty.{
  Pty, master_write, slave_read, input_direct, line_flush, has_flag, flush_from, input_chars,
  input_char, signal_char, plain_char, canonical_char, store_char, echo_char, output_cooked,
  output_char, echo_str, output_str, erase_one, interrupt, send_signal_to_fg, slave_write,
}
use cosmo_rt.Pty.Edit.{Edit, Modes, edit_all}
use cosmo_rt.Pty.Shows.{Shows, backwards}
use cosmo_rt.Pty.Line.{master_write-Edits}
use cosmo_rt.Pty.Queue.{slave_read_takes, Appends, Cooks, input_direct-Appends, slave_write-Cooks}

abbrev cc : ℕ → ℕ
cc i =
    if i == 0
    then 3
    else if i == 1
    then 28
    else if i == 2
    then 127
    else if i == 3
    then 21
    else if i == 4
    then 4
    else if i == 10
    then 26
    else if i == 14
    then 23
    else 0

-- A pair with the settings of `termios_init`, its rings near their end.
abbrev pair : Pty
pair = record {
  input = record { buf = λ i. 0; head = 4094; tail = 4094 };
  output = record { buf = λ i. 0; head = 0; tail = 0 };
  line_buf = λ i. 0;
  line_pos = pos 0;
  c_iflag = 0x500;
  c_oflag = 5;
  c_lflag = 0x8A3B;
  c_cc = cc;
  fg_pgid = pos 9;
  slave_pid = pos 4;
  sent = [];
}

-- `ab`, DEL, `c` and a carriage return give the line `ac`.
edited_line :
    (slave_read 9 (master_write (97 ∷ 98 ∷ 127 ∷ 99 ∷ 13 ∷ []) pair).0).1 ≡ 97 ∷ 99 ∷ 10 ∷ []
unfolding slave_read master_write input_chars input_char signal_char plain_char canonical_char
    store_char echo_char output_cooked output_char echo_str output_str line_flush flush_from
    erase_one interrupt send_signal_to_fg has_flag put_if_space ring_put ring_space ring_count
    ring_take ring_get
edited_line = refl

-- ^C goes to the foreground group as SIGINT and drops the line.
interrupted : (master_write (97 ∷ 3 ∷ 13 ∷ []) pair).0.sent ≡ (9, 2) ∷ []
unfolding master_write input_chars input_char signal_char plain_char canonical_char store_char
    echo_char output_cooked output_char echo_str output_str line_flush flush_from erase_one
    interrupt send_signal_to_fg has_flag put_if_space ring_put ring_space ring_count ring_take
    ring_get
interrupted = refl

-- ^D after `a` hands over the line with a newline.
end_of_file : (slave_read 9 (master_write (97 ∷ 4 ∷ []) pair).0).1 ≡ 97 ∷ 10 ∷ []
unfolding slave_read master_write input_chars input_char signal_char plain_char canonical_char
    store_char echo_char output_cooked output_char echo_str output_str line_flush flush_from
    erase_one interrupt send_signal_to_fg has_flag put_if_space ring_put ring_space ring_count
    ring_take ring_get
end_of_file = refl

rings : IsRing pair.input
rings = record { head_bound = omega arith; tail_bound = omega arith }

abbrev modes : Modes
modes = record { iflag = 0x500; lflag = 0x8A3B; cc = cc }

abbrev nothing : Edit
nothing = record { line = []; queue = [] }

nothing_yet : Shows modes pair nothing
unfolding contents ring_count window backwards
nothing_yet = record {
  input_ring = rings;
  output_ring = record { head_bound = omega arith; tail_bound = omega arith };
  holds = refl;
  place = refl;
  buffer = refl;
  short = omega arith;
  iflag = refl;
  lflag = refl;
  cc = refl;
}

-- `a`, `b`, DEL and a carriage return
abbrev keys : List ℕ
keys = 97 ∷ 98 ∷ 127 ∷ 13 ∷ []

master_write-Edits_example :
    Shows modes (master_write keys pair).0 (edit_all modes keys nothing)
    × ((master_write keys pair).1 ≡ ltb 0 (length (edit_all modes keys nothing).queue))
master_write-Edits_example = master_write-Edits modes keys pair nothing nothing_yet

-- A DEL on an empty line changes nothing.
edited_keys : (edit_all modes (127 ∷ keys) nothing).queue ≡ 97 ∷ 10 ∷ []
unfolding has_flag
edited_keys = refl

slave_read_takes_run :
    (contents pair.input ≡ (slave_read 3 pair).1 ++ contents (slave_read 3 pair).0.input)
    × (length (slave_read 3 pair).1
        ≡ (if ltb 3 (ring_count pair.input) then 3 else ring_count pair.input))
slave_read_takes_run = slave_read_takes 3 pair rings

input_direct-Appends_run :
    Appends
      (97 ∷ 98 ∷ 99 ∷ [])
      0
      pair.input
      ((input_direct (97 ∷ 98 ∷ 99 ∷ []) pair).0.input, (input_direct (97 ∷ 98 ∷ 99 ∷ []) pair).1)
input_direct-Appends_run = input_direct-Appends (97 ∷ 98 ∷ 99 ∷ []) pair rings

slave_write-Cooks_example : Cooks (97 ∷ 10 ∷ []) 0 pair (slave_write (97 ∷ 10 ∷ []) pair)
slave_write-Cooks_example =
    slave_write-Cooks (97 ∷ 10 ∷ []) pair
      (record { head_bound = omega arith; tail_bound = omega arith })
