-- ===== src/Pty/Edit.antt =====
-- The line editing of a terminal on plain lists: the line that is being typed and the characters that
-- the slave can read. It says what the loop of `pty_master_write` in src/kernel/vt/pty.c is to do.
use cosmo_rt.Common.{
  ℕ, Bool, true, false, ◌&&◌, ◌||◌, not, List, [], ◌∷◌, ◌++◌, length, ltb, ◌==◌, if◌then◌else◌,
}
use cosmo_rt.Pty.{has_flag, icrnl, isig, icanon}

-- The line, its last character first, and the characters for the slave, the oldest first.
pub record Edit : Type 0 where
  pub line : List ℕ
  pub queue : List ℕ

-- The settings that the editing depends on.
pub record Modes : Type 0 where
  pub iflag : ℕ
  pub lflag : ℕ
  pub cc : ℕ → ℕ

-- A queue of 4095 characters takes no other.
abbrev pub accepted : ℕ → List ℕ → List ℕ
accepted c queue = if ltb (length queue) 4095 then queue ++ (c ∷ []) else queue

abbrev pub all_accepted : List ℕ → List ℕ → List ℕ
all_accepted [] queue = queue
all_accepted (c ∷ cs) queue = all_accepted cs (accepted c queue)

abbrev pub oldest_first : List ℕ → List ℕ
oldest_first [] = []
oldest_first (c ∷ cs) = oldest_first cs ++ (c ∷ [])

-- The line goes to the slave with a newline.
abbrev pub handed_over : Edit → Edit
handed_over x = record {
  line = [];
  queue = accepted 10 (all_accepted (oldest_first x.line) x.queue);
}

abbrev pub with_line : List ℕ → Edit → Edit
with_line line x = record x { line = line }

abbrev pub shorter : List ℕ → List ℕ
shorter [] = []
shorter (c ∷ cs) = cs

-- The line without the spaces at its end, or without the other characters there.
abbrev pub trimmed : (spaces : Bool) → List ℕ → List ℕ
trimmed spaces [] = []
trimmed spaces (c ∷ cs) =
    let rest = trimmed spaces cs in
    if (if spaces then c == 32 else not (c == 32)) then rest else c ∷ cs

-- VEOF on an empty line does nothing.
abbrev pub ended : (line queue : List ℕ) → Edit
ended [] queue = record { line = []; queue = queue }
ended (c ∷ cs) queue = handed_over (record { line = c ∷ cs; queue = queue })

abbrev pub typed : ℕ → Edit → Edit
typed c x = if ltb (length x.line) 255 then with_line (c ∷ x.line) x else x

-- VERASE and backspace take the last character away, VKILL the line, VWERASE the last word with the
-- spaces after it.
abbrev pub edit_line : Modes → ℕ → Edit → Edit
edit_line m c x =
    if (c == 8) || (c == m.cc 2)
    then with_line (shorter x.line) x
    else if c == m.cc 3
    then with_line [] x
    else if (c == m.cc 14) && not (m.cc 14 == 0)
    then with_line (trimmed false (trimmed true x.line)) x
    else if c == 10
    then handed_over x
    else typed c x

abbrev pub edit_plain : Modes → ℕ → Edit → Edit
edit_plain m c x =
    if has_flag m.lflag icanon && (c == m.cc 4)
    then ended x.line x.queue
    else if has_flag m.lflag icanon
    then edit_line m c x
    else record x { queue = accepted c x.queue }

-- VINTR, VQUIT and VSUSP drop the line.
abbrev pub edit_signal : Modes → ℕ → Edit → Edit
edit_signal m c x =
    if not (has_flag m.lflag isig)
    then edit_plain m c x
    else if c == m.cc 0
    then with_line [] x
    else if c == m.cc 1
    then with_line [] x
    else if c == m.cc 10
    then with_line [] x
    else edit_plain m c x

-- ICRNL makes a newline of a carriage return.
abbrev pub edit : Modes → ℕ → Edit → Edit
edit m c x = edit_signal m (if has_flag m.iflag icrnl && (c == 13) then 10 else c) x

abbrev pub edit_all : Modes → List ℕ → Edit → Edit
edit_all m [] x = x
edit_all m (c ∷ cs) x = edit_all m cs (edit m c x)
