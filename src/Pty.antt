-- ===== src/Pty.antt =====
-- The pseudo terminals of src/kernel/vt/pty.c: the two rings of a pair and the line discipline
-- between them. A character is its byte. The operations are on the pair that `pty_get` found; a
-- signal for the foreground process group goes on the list `sent`.
pub mod Ring
pub mod Edit
pub mod Shows
pub mod Typing
pub mod Erase
pub mod Line
pub mod Queue
pub mod Table
mod Tests
use Prim.Native.Nat.{bit_and}
use cosmo_rt.Common.{
  ℕ, zero, suc, ◌+◌, ◌-◌, Bool, true, false, ◌&&◌, ◌||◌, not, Option, none, some, List, [], ◌∷◌,
  ltb, ◌==◌, if◌then◌else◌,
}
use cosmo_rt.Common.Int.{ℤ, pos, negsuc, up, down, is_positive, is_below, is_same, rounds}
use cosmo_rt.Pty.Ring.{Buffer, ring_count, ring_space, ring_put, put_if_space, ring_take}

-- `pty_t` with its `termios`, without the lock, the wait queues and the window size. `line_pos` is an
-- `int`, and `line_buf` is read and written at one, in bounds or not.
pub record Pty : Type 0 where
  pub input : Buffer
  pub output : Buffer
  pub line_buf : ℤ → ℕ
  pub line_pos : ℤ
  pub c_iflag : ℕ
  pub c_oflag : ℕ
  pub c_lflag : ℕ
  pub c_cc : ℕ → ℕ
  pub fg_pgid : ℤ
  pub slave_pid : ℤ
  pub sent : List (ℕ × ℕ)

abbrev pub pty_line_max : ℕ
pty_line_max = 256

unfoldable pub has_flag : (flags flag : ℕ) → Bool
has_flag flags flag = not (bit_and flags flag == 0)

-- ICRNL, OPOST, ONLCR, ISIG, ICANON, ECHO and ECHOCTL.
abbrev pub icrnl : ℕ
icrnl = 0x100

abbrev pub opost : ℕ
opost = 1

abbrev pub onlcr : ℕ
onlcr = 4

abbrev pub isig : ℕ
isig = 1

abbrev pub icanon : ℕ
icanon = 2

abbrev pub echo : ℕ
echo = 8

abbrev pub echoctl : ℕ
echoctl = 0x200

-- `c_cc` by the indices VINTR, VQUIT, VERASE, VKILL, VEOF, VSUSP and VWERASE.
abbrev pub vintr : Pty → ℕ
vintr p = p.c_cc 0

abbrev pub vquit : Pty → ℕ
vquit p = p.c_cc 1

abbrev pub verase : Pty → ℕ
verase p = p.c_cc 2

abbrev pub vkill : Pty → ℕ
vkill p = p.c_cc 3

abbrev pub veof : Pty → ℕ
veof p = p.c_cc 4

abbrev pub vsusp : Pty → ℕ
vsusp p = p.c_cc 10

abbrev pub vwerase : Pty → ℕ
vwerase p = p.c_cc 14

-- '\n', '\r', '\b', '\t', ' ' and '^'.
abbrev pub newline : ℕ
newline = 10

abbrev pub carriage_return : ℕ
carriage_return = 13

abbrev pub backspace : ℕ
backspace = 8

abbrev pub tab : ℕ
tab = 9

abbrev pub space : ℕ
space = 32

abbrev pub caret : ℕ
caret = 94

unfoldable pub output_char : ℕ → Pty → Pty
output_char c p = record p { output = put_if_space c p.output }

unfoldable pub output_str : List ℕ → Pty → Pty
output_str [] p = p
output_str (c ∷ cs) p = output_str cs (output_char c p)

abbrev pub maps_newline : Pty → Bool
maps_newline p = has_flag p.c_oflag opost && has_flag p.c_oflag onlcr

unfoldable pub output_cooked : ℕ → Pty → Pty
output_cooked c p =
    if maps_newline p && (c == newline)
    then output_char newline (output_char carriage_return p)
    else output_char c p

-- `if (pty_echo(p)) pty_output_str(p, s)`
unfoldable pub echo_str : List ℕ → Pty → Pty
echo_str s p = if has_flag p.c_lflag echo then output_str s p else p

abbrev group_of : ℤ → Option ℕ
group_of (pos zero) = none
group_of (pos (suc n)) = some (suc n)
group_of (negsuc n) = none

-- The process group that gets a signal, if one does.
abbrev pub foreground : Pty → Option ℕ
foreground p = elim (group_of p.fg_pgid) [ some g ↦ some g | none ↦ group_of p.slave_pid ]

unfoldable pub send_signal_to_fg : ℕ → Pty → Pty
send_signal_to_fg sig p = record p {
  sent = elim (foreground p) [ some g ↦ (g, sig) ∷ p.sent | none ↦ p.sent ];
}

-- SIGINT, SIGQUIT or SIGTSTP, with the echo of its character.
unfoldable pub interrupt : (sig name : ℕ) → Pty → Pty
interrupt sig name p = record (echo_str (caret ∷ name ∷ newline ∷ []) (send_signal_to_fg sig p)) {
  line_pos = pos 0;
}

-- The characters of the line from the index `i` on, `n` of them.
unfoldable pub flush_from : (n i : ℕ) → (ℤ → ℕ) → Buffer → Buffer
flush_from zero i line b = b
flush_from (suc n) i line b = flush_from n (i + 1) line (put_if_space (line (pos i)) b)

unfoldable pub line_flush : Pty → Pty
unfolding flush_from
line_flush p = record p {
  input = put_if_space newline (flush_from (rounds p.line_pos) 0 p.line_buf p.input);
  line_pos = pos 0;
}

-- `p->line_pos--` and the echo of its erasure.
unfoldable pub erase_one : Pty → Pty
erase_one p =
    echo_str (backspace ∷ space ∷ backspace ∷ []) (record p { line_pos = down p.line_pos })

-- `while (p->line_pos > 0) ...`, at most `n` times.
unfoldable pub kill_line : (n : ℕ) → Pty → Pty
kill_line zero p = p
kill_line (suc n) p =
    let rest = kill_line n (erase_one p) in if is_positive p.line_pos then rest else p

-- `while (p->line_pos > 0 && p->line_buf[p->line_pos - 1] == ' ')`, or `!= ' '`, at most `n` times.
unfoldable pub erase_while : (n : ℕ) → (spaces : Bool) → Pty → Pty
erase_while zero spaces p = p
erase_while (suc n) spaces p =
    let rest = erase_while n spaces (erase_one p) in
    let at_space = p.line_buf (down p.line_pos) == space in
    if is_positive p.line_pos && (if spaces then at_space else not at_space) then rest else p

unfoldable pub erase_word : Pty → Pty
unfolding erase_while
erase_word p =
    let skipped = erase_while (rounds p.line_pos) true p in
    erase_while (rounds skipped.line_pos) false skipped

-- The echo of a character that the line takes.
unfoldable pub echo_char : ℕ → Pty → Pty
echo_char c p =
    if not (has_flag p.c_lflag echo)
    then p
    else if has_flag p.c_lflag echoctl && ltb c 32 && not (c == tab) && not (c == newline)
    then output_char (c + 64) (output_char caret p)
    else output_cooked c p

unfoldable pub store_char : ℕ → Pty → Pty
store_char c p =
    if is_below p.line_pos (pty_line_max - 1)
    then echo_char c (record p {
      line_buf = λ i. if is_same i p.line_pos then c else p.line_buf i;
      line_pos = up p.line_pos;
    })
    else p

-- A character in canonical mode, other than VEOF.
unfoldable pub canonical_char : ℕ → Pty → Pty
canonical_char c p =
    if (c == backspace) || (c == verase p)
    then (if is_positive p.line_pos then erase_one p else p)
    else if c == vkill p
    then kill_line (rounds p.line_pos) p
    else if (c == vwerase p) && not (vwerase p == 0)
    then erase_word p
    else if c == newline
    then line_flush (if has_flag p.c_lflag echo then output_cooked newline p else p)
    else store_char c p

unfoldable pub raw_char : ℕ → Pty → Pty
raw_char c p =
    let taken = record p { input = put_if_space c p.input } in
    if has_flag p.c_lflag echo then output_cooked c taken else taken

-- What follows the signal characters.
unfoldable pub plain_char : ℕ → Pty → Pty
plain_char c p =
    if has_flag p.c_lflag icanon && (c == veof p)
    then (if is_positive p.line_pos then line_flush p else p)
    else if has_flag p.c_lflag icanon
    then canonical_char c p
    else raw_char c p

unfoldable pub signal_char : ℕ → Pty → Pty
signal_char c p =
    if not (has_flag p.c_lflag isig)
    then plain_char c p
    else if c == vintr p
    then interrupt 2 67 p
    else if c == vquit p
    then interrupt 3 92 p
    else if c == vsusp p
    then interrupt 20 90 p
    else plain_char c p

-- One round of the loop of `pty_master_write`.
unfoldable pub input_char : ℕ → Pty → Pty
input_char c p =
    signal_char (if has_flag p.c_iflag icrnl && (c == carriage_return) then newline else c) p

unfoldable pub input_chars : List ℕ → Pty → Pty
input_chars [] p = p
input_chars (c ∷ cs) p = input_chars cs (input_char c p)

-- The pair after the call, and whether it wakes the slave's readers and the master's.
unfoldable pub master_write : List ℕ → Pty → Pty × Bool × Bool
unfolding input_chars
master_write cs p =
    let q = input_chars cs p in (q, ltb 0 (ring_count q.input), ltb 0 (ring_count q.output))

unfoldable pub master_read : (len : ℕ) → Pty → Pty × List ℕ
master_read len p =
    let n = if ltb len (ring_count p.output) then len else ring_count p.output in
    let r = ring_take n p.output in (record p { output = r.0 }, r.1)

-- The loop of `pty_slave_write` with the number of characters written so far.
unfoldable pub slave_chars : List ℕ → (wrote : ℕ) → Pty → Pty × ℕ
slave_chars [] wrote p = (p, wrote)
slave_chars (c ∷ cs) wrote p =
    let two = ring_put newline (ring_put carriage_return p.output) in
    let after_newline = slave_chars cs (wrote + 1) (record p { output = two }) in
    let after = slave_chars cs (wrote + 1) (record p { output = ring_put c p.output }) in
    if maps_newline p && (c == newline)
    then (if ltb (ring_space p.output) 2 then (p, wrote) else after_newline)
    else if ring_space p.output == 0
    then (p, wrote)
    else after

unfoldable pub slave_write : List ℕ → Pty → Pty × ℕ
unfolding slave_chars
slave_write cs p = slave_chars cs 0 p

-- `pty_input_direct`.
unfoldable pub direct_chars : List ℕ → (written : ℕ) → Buffer → Buffer × ℕ
direct_chars [] written b = (b, written)
direct_chars (c ∷ cs) written b =
    let rest = direct_chars cs (written + 1) (ring_put c b) in
    if ring_space b == 0 then (b, written) else rest

unfoldable pub input_direct : List ℕ → Pty → Pty × ℕ
unfolding direct_chars
input_direct cs p = let r = direct_chars cs 0 p.input in (record p { input = r.0 }, r.1)

unfoldable pub slave_read : (len : ℕ) → Pty → Pty × List ℕ
slave_read len p =
    let n = if ltb len (ring_count p.input) then len else ring_count p.input in
    let r = ring_take n p.input in (record p { input = r.0 }, r.1)
