-- ===== src/Cred/Caps.antt =====
-- The capability sets across the identity calls (`cap_emulate_setxuid` and its callers in
-- src/kernel/sys/sys_id.c).
use cosmo_rt.Common.{
  ℕ, ◌≡◌, refl, ◌⊎◌, inl, inr, true, false, not, ◌&&◌, Option, none, some, arith, Bool-cases,
}
use cosmo_rt.Common.Int.{ℤ, to_u32}
use cosmo_rt.Cred.{
  Cred, root, any_root, keep_or, refuses2, refuses3, cap_emulate_setxuid, do_setuid, do_setgid,
  do_setreuid, do_setregid, do_setresuid, do_setresgid, do_setfsuid, do_setfsgid,
}
use cosmo_rt.Cred.Calls.{Call, invoke}

-- How the capability sets of `p` and of `q` after a call go together.
pub record CapsFollow (p q : Cred) : Type 0 where
  pub permitted_le : (q.cap_permitted ≡ p.cap_permitted) ⊎ (q.cap_permitted ≡ 0)
  pub effective_le : (q.cap_effective ≡ p.cap_effective) ⊎ (q.cap_effective ≡ 0)
  pub dropped :
      (any_root p ≡ false) ⊎ (any_root q ≡ true) ⊎ ((q.cap_permitted ≡ 0) × (q.cap_effective ≡ 0))
  pub crossed : (root p.euid ≡ root q.euid) ⊎ (q.cap_effective ≡ 0)

abbrev pub SelfCapsFollow : Cred → Option Cred → Type 0
SelfCapsFollow p none = ⊥
SelfCapsFollow p (some q) = CapsFollow p q

emulate-CapsFollow :
    (p q : Cred)
    → q.cap_permitted ≡ p.cap_permitted
    → q.cap_effective ≡ p.cap_effective
    → CapsFollow p (cap_emulate_setxuid p q)
unfolding cap_emulate_setxuid
emulate-CapsFollow p q hp he = ground arith

-- The call is given the process `p`, and `u` and `q` are its credentials before the emulation.
emulated :
    (p : Cred) (r e s : ℕ)
    → CapsFollow p (cap_emulate_setxuid p (record p { ruid = r; euid = e; suid = s; fsuid = e }))
emulated p r e s =
    emulate-CapsFollow p (record p { ruid = r; euid = e; suid = s; fsuid = e }) refl refl

same : (p : Cred) → CapsFollow p p
same p = ground arith

setuid-CapsFollow : (u : ℤ) (p : Cred) → SelfCapsFollow p (do_setuid u (some p)).1
unfolding do_setuid
setuid-CapsFollow u p = ground (
  arith,
  same p,
  emulated p (to_u32 u) (to_u32 u) (to_u32 u),
  emulated p p.ruid (to_u32 u) p.suid,
)

setreuid-CapsFollow : (r e : ℤ) (p : Cred) → SelfCapsFollow p (do_setreuid r e (some p)).1
unfolding do_setreuid
setreuid-CapsFollow r e p =
    elim (Bool-cases (not (root p.euid) && refuses2 r (keep_or r p.ruid) p.ruid p.euid)) [
      | inl x ↦ rw x (same p)
      | inr x ↦
          elim (Bool-cases
            (not (root p.euid) && refuses3 e (keep_or e p.euid) p.ruid p.euid p.suid)) [
              | inl y ↦ rw (x, y) (same p)
              | inr y ↦ rw (x, y) (emulated p _ _ _)
            ]
    ]

setresuid-CapsFollow : (r e s : ℤ) (p : Cred) → SelfCapsFollow p (do_setresuid r e s (some p)).1
unfolding do_setresuid
setresuid-CapsFollow r e s p =
    ground (arith, same p, emulated p (keep_or r p.ruid) (keep_or e p.euid) (keep_or s p.suid))

setgid-CapsFollow : (g : ℤ) (p : Cred) → SelfCapsFollow p (do_setgid g (some p)).1
unfolding do_setgid
setgid-CapsFollow g p = ground arith

setregid-CapsFollow : (r e : ℤ) (p : Cred) → SelfCapsFollow p (do_setregid r e (some p)).1
unfolding do_setregid
setregid-CapsFollow r e p = ground arith

setresgid-CapsFollow : (r e s : ℤ) (p : Cred) → SelfCapsFollow p (do_setresgid r e s (some p)).1
unfolding do_setresgid
setresgid-CapsFollow r e s p = ground arith

setfsuid-CapsFollow : (u : ℤ) (p : Cred) → SelfCapsFollow p (do_setfsuid u (some p)).1
unfolding do_setfsuid
setfsuid-CapsFollow u p = ground arith

setfsgid-CapsFollow : (g : ℤ) (p : Cred) → SelfCapsFollow p (do_setfsgid g (some p)).1
unfolding do_setfsgid
setfsgid-CapsFollow g p = ground arith

-- Every identity call, with any arguments, keeps each capability set or empties it. It empties
-- both when it takes a process that held root among its real, effective and saved uids to one that
-- does not, and it empties the effective set when the effective uid becomes root or stops being
-- it.
pub invoke-CapsFollow : (c : Call) (p : Cred) → SelfCapsFollow p (invoke c (some p)).1
unfolding invoke
invoke-CapsFollow (Call.setuid u) p = setuid-CapsFollow u p
invoke-CapsFollow (Call.setgid g) p = setgid-CapsFollow g p
invoke-CapsFollow (Call.setfsuid u) p = setfsuid-CapsFollow u p
invoke-CapsFollow (Call.setfsgid g) p = setfsgid-CapsFollow g p
invoke-CapsFollow (Call.setreuid r e) p = setreuid-CapsFollow r e p
invoke-CapsFollow (Call.setregid r e) p = setregid-CapsFollow r e p
invoke-CapsFollow (Call.setresuid r e s) p = setresuid-CapsFollow r e s p
invoke-CapsFollow (Call.setresgid r e s) p = setresgid-CapsFollow r e s p
