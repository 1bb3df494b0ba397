-- ===== src/Cred/Ids.antt =====
-- Which ids an unprivileged process can take, and what a refused call changes
-- (src/kernel/sys/sys_id.c).
use cosmo_rt.Common.{ℕ, ◌≡◌, ◌⊎◌, false, Option, none, some, arith, err, Errno}
use cosmo_rt.Common.Int.{ℤ}
use cosmo_rt.Cred.{
  Cred, root, keep_or, refuses2_passed, refuses3_passed, cap_emulate_setxuid, do_setuid, do_setgid,
  do_setreuid, do_setregid, do_setresuid, do_setresgid, do_setfsuid, do_setfsgid,
}
use cosmo_rt.Cred.Calls.{Call, invoke}

abbrev pub Among : ℕ → ℕ → ℕ → ℕ → Type 0
Among u a b c = (u ≡ a) ⊎ (u ≡ b) ⊎ (u ≡ c)

-- The ids of `q` are ids that `p` held: real, effective and saved among those of `p`, and the
-- filesystem ids among those and the filesystem id.
pub record IsConfined (p q : Cred) : Type 0 where
  pub ruid_in : Among q.ruid p.ruid p.euid p.suid
  pub euid_in : Among q.euid p.ruid p.euid p.suid
  pub suid_in : Among q.suid p.ruid p.euid p.suid
  pub fsuid_in : (q.fsuid ≡ p.fsuid) ⊎ Among q.fsuid p.ruid p.euid p.suid
  pub rgid_in : Among q.rgid p.rgid p.egid p.sgid
  pub egid_in : Among q.egid p.rgid p.egid p.sgid
  pub sgid_in : Among q.sgid p.rgid p.egid p.sgid
  pub fsgid_in : (q.fsgid ≡ p.fsgid) ⊎ Among q.fsgid p.rgid p.egid p.sgid

abbrev pub SelfIsConfined : Cred → Option Cred → Type 0
SelfIsConfined p none = ⊥
SelfIsConfined p (some q) = IsConfined p q

after_ids :
    (p : Cred) (r e s : ℕ)
    → let q = cap_emulate_setxuid p (record p { ruid = r; euid = e; suid = s; fsuid = e }) in
      (q.ruid ≡ r)
      × (q.euid ≡ e)
      × (q.suid ≡ s)
      × (q.fsuid ≡ e)
      × (q.rgid ≡ p.rgid)
      × (q.egid ≡ p.egid)
      × (q.sgid ≡ p.sgid)
      × (q.fsgid ≡ p.fsgid)
unfolding cap_emulate_setxuid
after_ids p r e s = ground arith

module _ (p : Cred) (user : root p.euid ≡ false) where
  setuid-IsConfined : (u : ℤ) → SelfIsConfined p (do_setuid u (some p)).1
  unfolding do_setuid cap_emulate_setxuid
  setuid-IsConfined u = ground arith

  setreuid-IsConfined : (r e : ℤ) → SelfIsConfined p (do_setreuid r e (some p)).1
  unfolding do_setreuid
  setreuid-IsConfined r e = ground (
    arith,
    refuses2_passed r p.ruid p.ruid p.euid,
    refuses3_passed e p.euid p.ruid p.euid p.suid,
    after_ids p (keep_or r p.ruid) (keep_or e p.euid) (keep_or e p.euid),
    after_ids p (keep_or r p.ruid) (keep_or e p.euid) p.suid,
  )

  setresuid-IsConfined : (r e s : ℤ) → SelfIsConfined p (do_setresuid r e s (some p)).1
  unfolding do_setresuid
  setresuid-IsConfined r e s = ground (
    arith,
    refuses3_passed r p.ruid p.ruid p.euid p.suid,
    refuses3_passed e p.euid p.ruid p.euid p.suid,
    refuses3_passed s p.suid p.ruid p.euid p.suid,
    after_ids p (keep_or r p.ruid) (keep_or e p.euid) (keep_or s p.suid),
  )

  setgid-IsConfined : (g : ℤ) → SelfIsConfined p (do_setgid g (some p)).1
  unfolding do_setgid
  setgid-IsConfined g = ground arith

  setregid-IsConfined : (r e : ℤ) → SelfIsConfined p (do_setregid r e (some p)).1
  unfolding do_setregid
  setregid-IsConfined r e =
      ground (
        arith,
        refuses2_passed r p.rgid p.rgid p.egid,
        refuses3_passed e p.egid p.rgid p.egid p.sgid,
      )

  setresgid-IsConfined : (r e s : ℤ) → SelfIsConfined p (do_setresgid r e s (some p)).1
  unfolding do_setresgid
  setresgid-IsConfined r e s = ground (
    arith,
    refuses3_passed r p.rgid p.rgid p.egid p.sgid,
    refuses3_passed e p.egid p.rgid p.egid p.sgid,
    refuses3_passed s p.sgid p.rgid p.egid p.sgid,
  )

  setfsuid-IsConfined : (u : ℤ) → SelfIsConfined p (do_setfsuid u (some p)).1
  unfolding do_setfsuid
  setfsuid-IsConfined u = ground arith

  setfsgid-IsConfined : (g : ℤ) → SelfIsConfined p (do_setfsgid g (some p)).1
  unfolding do_setfsgid
  setfsgid-IsConfined g = ground arith

  -- Where the effective uid of the process is not root's, every identity call with any arguments
  -- leaves real, effective and saved uids and gids that the process held among those before, and
  -- filesystem ids that it held among those or as its filesystem id.
  pub invoke-IsConfined : (c : Call) → SelfIsConfined p (invoke c (some p)).1
  unfolding invoke
  invoke-IsConfined (Call.setuid u) = setuid-IsConfined u
  invoke-IsConfined (Call.setgid g) = setgid-IsConfined g
  invoke-IsConfined (Call.setfsuid u) = setfsuid-IsConfined u
  invoke-IsConfined (Call.setfsgid g) = setfsgid-IsConfined g
  invoke-IsConfined (Call.setreuid r e) = setreuid-IsConfined r e
  invoke-IsConfined (Call.setregid r e) = setregid-IsConfined r e
  invoke-IsConfined (Call.setresuid r e s) = setresuid-IsConfined r e s
  invoke-IsConfined (Call.setresgid r e s) = setresgid-IsConfined r e s

-- A call that replies with an error leaves the credentials as they were, with or without a
-- current process.
pub invoke_err_unchanged :
    (c : Call) (p : Option Cred) {e : Errno} → (invoke c p).0 ≡ err e → (invoke c p).1 ≡ p
unfolding invoke do_setuid do_setgid do_setreuid do_setregid do_setresuid do_setresgid do_setfsuid
    do_setfsgid
invoke_err_unchanged (Call.setuid u) none h = ground arith
invoke_err_unchanged (Call.setuid u) (some p) h = ground arith
invoke_err_unchanged _ none h = ground arith
invoke_err_unchanged _ (some p) h = ground arith
