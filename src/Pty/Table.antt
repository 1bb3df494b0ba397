-- ===== src/Pty/Table.antt =====
-- The pairs of src/kernel/vt/pty.c and their settings.
use cosmo_rt.Common.{
  ℕ, ◌+◌, ◌<◌, ◌≡◌, ◌≢◌, Bool, true, false, Option, none, some, List, [], ◌∷◌, ltb, ◌==◌,
  if◌then◌else◌, arith,
}
use cosmo_rt.Common.Int.{ℤ, pos, negsuc}
use cosmo_rt.Pty.{Pty}

-- `c_cc` as `termios_init` sets it: the control characters of the indices VINTR to VEOL2.
unfoldable pub default_cc : ℕ → ℕ
default_cc i =
    if i == 0
    then 3
    else if i == 1
    then 28
    else if i == 2
    then 127
    else if i == 3
    then 21
    else if i == 4
    then 4
    else if i == 6
    then 1
    else if i == 8
    then 17
    else if i == 9
    then 19
    else if i == 10
    then 26
    else if i == 12
    then 18
    else if i == 13
    then 15
    else if i == 14
    then 23
    else if i == 15
    then 22
    else 0

-- A new pair: zeroed, with the flags ICRNL and IXON; OPOST and ONLCR; ISIG, ICANON, ECHO, ECHOE,
-- ECHOK, ECHOCTL, ECHOKE and IEXTEN.
unfoldable pub new_pair : Pty
unfolding default_cc
new_pair = record {
  input = record { buf = λ i. 0; head = 0; tail = 0 };
  output = record { buf = λ i. 0; head = 0; tail = 0 };
  line_buf = λ i. 0;
  line_pos = pos 0;
  c_iflag = 0x100 + 0x400;
  c_oflag = 1 + 4;
  c_lflag = 1 + 2 + 8 + 0x10 + 0x20 + 0x200 + 0x800 + 0x8000;
  c_cc = default_cc;
  fg_pgid = pos 0;
  slave_pid = pos 0;
  sent = [];
}

-- `pty_list_head` with the identifiers of the pairs, and `pty_next_id`.
pub record Ptys : Type 0 where
  pub pairs : List (ℕ × Pty)
  pub next_id : ℕ

-- `allocated` is whether `slab_alloc` has an object; `none` for -1.
unfoldable pub pty_alloc : (allocated : Bool) → Ptys → Ptys × Option ℕ
unfolding new_pair
pty_alloc false t = (t, none)
pty_alloc true t =
    (record { pairs = (t.next_id, new_pair) ∷ t.pairs; next_id = t.next_id + 1 }, some t.next_id)

unfoldable pub find_pair : ℕ → List (ℕ × Pty) → Option Pty
find_pair id [] = none
find_pair id (p ∷ ps) = let later = find_pair id ps in if p.0 == id then some p.1 else later

-- PTY_DEV_ID_MAX is 256.
unfoldable pub pty_get : ℤ → Ptys → Option Pty
unfolding find_pair
pty_get (negsuc n) t = none
pty_get (pos n) t = let found = find_pair n t.pairs in if ltb n 256 then found else none

-- `pty_get` of the identifier that `pty_alloc` returned gives the new pair, if it is below 256, and
-- every other identifier gives what it gave before.
pub pty_get-pty_alloc :
    (t : Ptys) (id : ℕ)
    → (t.next_id < 256 → pty_get (pos t.next_id) (pty_alloc true t).0 ≡ some new_pair)
      × (id ≢ t.next_id → pty_get (pos id) (pty_alloc true t).0 ≡ pty_get (pos id) t)
unfolding pty_get pty_alloc
pty_get-pty_alloc t id = (λ p. ground arith, λ p. ground arith)
