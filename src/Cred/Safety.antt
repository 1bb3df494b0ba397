-- ===== src/Cred/Safety.antt =====
-- A process cannot regain root by the identity calls of src/kernel/sys/sys_id.c.
use cosmo_rt.Common.{ℕ, ◌≡◌, ◌≢◌, Option, none, some, List, [], ◌∷◌, arith}
use cosmo_rt.Common.Int.{ℤ}
use cosmo_rt.Cred.{
  Cred, uid_root, cap_emulate_setxuid, cap_emulate_setxuid_ids, keep_or, refuses2_passed,
  refuses3_passed, do_setuid, do_setgid, do_setreuid, do_setregid, do_setresuid, do_setresgid,
  do_setfsuid, do_setfsgid,
}
use cosmo_rt.Cred.Calls.{Call, invoke, run}

-- None of the uids of the process is root's.
pub record IsUnprivileged (c : Cred) : Type 0 where
  pub ruid_ne : c.ruid ≢ uid_root
  pub euid_ne : c.euid ≢ uid_root
  pub suid_ne : c.suid ≢ uid_root
  pub fsuid_ne : c.fsuid ≢ uid_root

abbrev pub SelfIsUnprivileged : Option Cred → Type 0
SelfIsUnprivileged none = Unit
SelfIsUnprivileged (some c) = IsUnprivileged c

-- The ids after the emulation at the record that the calls hand it.
after_ids :
    (p : Cred) (r e s : ℕ)
    → let q = cap_emulate_setxuid p (record p { ruid = r; euid = e; suid = s; fsuid = e }) in
      (q.ruid ≡ r) × (q.euid ≡ e) × (q.suid ≡ s) × (q.fsuid ≡ e)
after_ids p r e s = cap_emulate_setxuid_ids p (record p { ruid = r; euid = e; suid = s; fsuid = e })

setuid_stays : (u : ℤ) (p : Cred) → IsUnprivileged p → SelfIsUnprivileged (do_setuid u (some p)).1
unfolding do_setuid
setuid_stays u p h = grind (arith, cap_emulate_setxuid_ids)

setreuid_stays :
    (r e : ℤ) (p : Cred) → IsUnprivileged p → SelfIsUnprivileged (do_setreuid r e (some p)).1
unfolding do_setreuid
setreuid_stays r e p h = ground (
  arith,
  refuses2_passed r p.ruid p.ruid p.euid,
  refuses3_passed e p.euid p.ruid p.euid p.suid,
  after_ids p (keep_or r p.ruid) (keep_or e p.euid) (keep_or e p.euid),
  after_ids p (keep_or r p.ruid) (keep_or e p.euid) p.suid,
)

setresuid_stays :
    (r e s : ℤ) (p : Cred) → IsUnprivileged p → SelfIsUnprivileged (do_setresuid r e s (some p)).1
unfolding do_setresuid
setresuid_stays r e s p h = ground (
  arith,
  refuses3_passed r p.ruid p.ruid p.euid p.suid,
  refuses3_passed e p.euid p.ruid p.euid p.suid,
  refuses3_passed s p.suid p.ruid p.euid p.suid,
  after_ids p (keep_or r p.ruid) (keep_or e p.euid) (keep_or s p.suid),
)

setgid_stays : (g : ℤ) (p : Cred) → IsUnprivileged p → SelfIsUnprivileged (do_setgid g (some p)).1
unfolding do_setgid
setgid_stays g p h = ground arith

setregid_stays :
    (r e : ℤ) (p : Cred) → IsUnprivileged p → SelfIsUnprivileged (do_setregid r e (some p)).1
unfolding do_setregid
setregid_stays r e p h = ground arith

setresgid_stays :
    (r e s : ℤ) (p : Cred) → IsUnprivileged p → SelfIsUnprivileged (do_setresgid r e s (some p)).1
unfolding do_setresgid
setresgid_stays r e s p h = ground arith

setfsuid_stays :
    (u : ℤ) (p : Cred) → IsUnprivileged p → SelfIsUnprivileged (do_setfsuid u (some p)).1
unfolding do_setfsuid
setfsuid_stays u p h = ground arith

setfsgid_stays :
    (g : ℤ) (p : Cred) → IsUnprivileged p → SelfIsUnprivileged (do_setfsgid g (some p)).1
unfolding do_setfsgid
setfsgid_stays g p h = ground arith

-- Without a process every call leaves none.
invoke-none : (c : Call) → (invoke c none).1 ≡ none
unfolding invoke do_setuid do_setgid do_setreuid do_setregid do_setresuid do_setresgid do_setfsuid
    do_setfsgid
invoke-none (Call.setuid u) = ground arith
invoke-none _ = ground arith

invoke-IsUnprivileged :
    (c : Call) (p : Cred) → IsUnprivileged p → SelfIsUnprivileged (invoke c (some p)).1
unfolding invoke
invoke-IsUnprivileged (Call.setuid u) p h = setuid_stays u p h
invoke-IsUnprivileged (Call.setgid g) p h = setgid_stays g p h
invoke-IsUnprivileged (Call.setfsuid u) p h = setfsuid_stays u p h
invoke-IsUnprivileged (Call.setfsgid g) p h = setfsgid_stays g p h
invoke-IsUnprivileged (Call.setreuid r e) p h = setreuid_stays r e p h
invoke-IsUnprivileged (Call.setregid r e) p h = setregid_stays r e p h
invoke-IsUnprivileged (Call.setresuid r e s) p h = setresuid_stays r e s p h
invoke-IsUnprivileged (Call.setresgid r e s) p h = setresgid_stays r e s p h

invoke-SelfIsUnprivileged :
    (c : Call) (p : Option Cred) → SelfIsUnprivileged p → SelfIsUnprivileged (invoke c p).1
invoke-SelfIsUnprivileged c none h = rw (invoke-none c) tt
invoke-SelfIsUnprivileged c (some p) h = invoke-IsUnprivileged c p h

-- A process none of whose four uids is root's keeps that property through every sequence of
-- identity calls with any arguments: no such sequence gives it a root uid.
pub run-SelfIsUnprivileged :
    (cs : List Call) (p : Option Cred) → SelfIsUnprivileged p → SelfIsUnprivileged (run cs p)
unfolding run
run-SelfIsUnprivileged [] p h = h
run-SelfIsUnprivileged (c ∷ cs) p h =
    run-SelfIsUnprivileged cs (invoke c p).1 (invoke-SelfIsUnprivileged c p h)
