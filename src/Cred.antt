-- ===== src/Cred.antt =====
-- The identity system calls of src/kernel/sys/sys_id.c: the credentials of a process, and the
-- calls that read and change them. A call takes the process that `cred_self` finds (`none` where
-- `proc_current` returns NULL) and returns the reply beside the process after it.
pub mod Calls
pub mod Safety
pub mod Ids
pub mod Caps
mod Tests
use cosmo_rt.Common.{
  ℕ, Bool, true, false, ◌&&◌, ◌||◌, not, Option, none, some, ◌==◌, if◌then◌else◌, Reply, ok, err,
  eperm, efault, einval, ◌≡◌, ◌⊎◌, arith,
}
use cosmo_rt.Common.Int.{ℤ, is_neg, is_minus_one, to_u32}

-- The credentials in `process_t`.
pub record Cred : Type 0 where
  pub ruid : ℕ
  pub euid : ℕ
  pub suid : ℕ
  pub fsuid : ℕ
  pub rgid : ℕ
  pub egid : ℕ
  pub sgid : ℕ
  pub fsgid : ℕ
  pub cap_effective : ℕ
  pub cap_permitted : ℕ

abbrev pub uid_root : ℕ
uid_root = 0

abbrev pub root : ℕ → Bool
root u = u == uid_root

abbrev pub any_root : Cred → Bool
any_root c = root c.ruid || root c.euid || root c.suid

-- The three tests of `cap_emulate_setxuid`, in its order; `old` is the process before the change.
pub cap_emulate_setxuid : Cred → Cred → Cred
cap_emulate_setxuid old p =
    let p1 =
      if any_root old && not (any_root p)
      then record p { cap_permitted = 0; cap_effective = 0 }
      else p in
    let p2 = if not (root old.euid) && root p1.euid then record p1 { cap_effective = 0 } else p1 in
    if root old.euid && not (root p2.euid) then record p2 { cap_effective = 0 } else p2

abbrev pub System : Type 0
System = Reply × Option Cred

-- The emulation changes the capability sets alone.
pub cap_emulate_setxuid_ids :
    (old p : Cred)
    → (((cap_emulate_setxuid old p).ruid ≡ p.ruid)
        × ((cap_emulate_setxuid old p).euid ≡ p.euid)
        × ((cap_emulate_setxuid old p).suid ≡ p.suid)
        × ((cap_emulate_setxuid old p).fsuid ≡ p.fsuid))
unfolding cap_emulate_setxuid
cap_emulate_setxuid_ids old p = ground arith

pub do_getuid : Option Cred → ℕ
do_getuid none = 0
do_getuid (some p) = p.ruid

pub do_getgid : Option Cred → ℕ
do_getgid none = 0
do_getgid (some p) = p.rgid

pub do_geteuid : Option Cred → ℕ
do_geteuid none = 0
do_geteuid (some p) = p.euid

pub do_getegid : Option Cred → ℕ
do_getegid none = 0
do_getegid (some p) = p.egid

setuid_self : ℕ → Cred → System
setuid_self u p =
    if root p.euid
    then (ok 0, some (cap_emulate_setxuid p (record p { ruid = u; euid = u; suid = u; fsuid = u })))
    else if u == p.ruid || u == p.suid
    then (ok 0, some (cap_emulate_setxuid p (record p { euid = u; fsuid = u })))
    else (err eperm, some p)

pub do_setuid : ℤ → Option Cred → System
unfolding setuid_self
do_setuid uid none = if is_neg uid then (err einval, none) else (err efault, none)
do_setuid uid (some p) = if is_neg uid then (err einval, some p) else setuid_self (to_u32 uid) p

setgid_self : ℕ → Cred → System
setgid_self g p =
    if root p.euid
    then (ok 0, some (record p { rgid = g; egid = g; sgid = g; fsgid = g }))
    else if g == p.rgid || g == p.sgid
    then (ok 0, some (record p { egid = g; fsgid = g }))
    else (err eperm, some p)

pub do_setgid : ℤ → Option Cred → System
unfolding setgid_self
do_setgid gid none = if is_neg gid then (err einval, none) else (err efault, none)
do_setgid gid (some p) = if is_neg gid then (err einval, some p) else setgid_self (to_u32 gid) p

-- `(x == -1) ? current : (uint32_t)x`
pub keep_or : ℤ → ℕ → ℕ
keep_or x current = if is_minus_one x then current else to_u32 x

-- `x != -1 && new` is none of the listed ids.
pub refuses2 : ℤ → ℕ → ℕ → ℕ → Bool
refuses2 x new a b = not (is_minus_one x) && not (new == a) && not (new == b)

pub refuses3 : ℤ → ℕ → ℕ → ℕ → ℕ → Bool
refuses3 x new a b c = not (is_minus_one x) && not (new == a) && not (new == b) && not (new == c)

-- What a refusal test that passes leaves: the new id is the old one or a listed one.
pub refuses2_passed :
    (x : ℤ) (d a b : ℕ)
    → refuses2 x (keep_or x d) a b ≡ false
    → (keep_or x d ≡ d) ⊎ (keep_or x d ≡ a) ⊎ (keep_or x d ≡ b)
unfolding refuses2 keep_or
refuses2_passed x d a b h = ground arith

pub refuses3_passed :
    (x : ℤ) (d a b c : ℕ)
    → refuses3 x (keep_or x d) a b c ≡ false
    → (keep_or x d ≡ d) ⊎ (keep_or x d ≡ a) ⊎ (keep_or x d ≡ b) ⊎ (keep_or x d ≡ c)
unfolding refuses3 keep_or
refuses3_passed x d a b c h = ground arith

pub do_setreuid : ℤ → ℤ → Option Cred → System
do_setreuid ruid euid none = (err efault, none)
do_setreuid ruid euid (some p) =
    let new_ruid = keep_or ruid p.ruid in
    let new_euid = keep_or euid p.euid in
    let set_saved =
      not (is_minus_one ruid) || (not (is_minus_one euid) && not (new_euid == p.ruid)) in
    if not (root p.euid) && refuses2 ruid new_ruid p.ruid p.euid
    then (err eperm, some p)
    else if not (root p.euid) && refuses3 euid new_euid p.ruid p.euid p.suid
    then (err eperm, some p)
    else (
      ok 0,
      some (
          cap_emulate_setxuid p (record p {
            ruid = new_ruid;
            euid = new_euid;
            suid = if set_saved then new_euid else p.suid;
            fsuid = new_euid;
          })),
    )

pub do_setregid : ℤ → ℤ → Option Cred → System
do_setregid rgid egid none = (err efault, none)
do_setregid rgid egid (some p) =
    let new_rgid = keep_or rgid p.rgid in
    let new_egid = keep_or egid p.egid in
    let set_saved =
      not (is_minus_one rgid) || (not (is_minus_one egid) && not (new_egid == p.rgid)) in
    if not (root p.euid) && refuses2 rgid new_rgid p.rgid p.egid
    then (err eperm, some p)
    else if not (root p.euid) && refuses3 egid new_egid p.rgid p.egid p.sgid
    then (err eperm, some p)
    else (
      ok 0,
      some (record p {
        rgid = new_rgid;
        egid = new_egid;
        sgid = if set_saved then new_egid else p.sgid;
        fsgid = new_egid;
      }),
    )

pub do_setresuid : ℤ → ℤ → ℤ → Option Cred → System
do_setresuid ruid euid suid none = (err efault, none)
do_setresuid ruid euid suid (some p) =
    let new_ruid = keep_or ruid p.ruid in
    let new_euid = keep_or euid p.euid in
    let new_suid = keep_or suid p.suid in
    if not (root p.euid) && refuses3 ruid new_ruid p.ruid p.euid p.suid
    then (err eperm, some p)
    else if not (root p.euid) && refuses3 euid new_euid p.ruid p.euid p.suid
    then (err eperm, some p)
    else if not (root p.euid) && refuses3 suid new_suid p.ruid p.euid p.suid
    then (err eperm, some p)
    else (
      ok 0,
      some (
          cap_emulate_setxuid p
            (record p { ruid = new_ruid; euid = new_euid; suid = new_suid; fsuid = new_euid })),
    )

pub do_setresgid : ℤ → ℤ → ℤ → Option Cred → System
do_setresgid rgid egid sgid none = (err efault, none)
do_setresgid rgid egid sgid (some p) =
    let new_rgid = keep_or rgid p.rgid in
    let new_egid = keep_or egid p.egid in
    let new_sgid = keep_or sgid p.sgid in
    if not (root p.euid) && refuses3 rgid new_rgid p.rgid p.egid p.sgid
    then (err eperm, some p)
    else if not (root p.euid) && refuses3 egid new_egid p.rgid p.egid p.sgid
    then (err eperm, some p)
    else if not (root p.euid) && refuses3 sgid new_sgid p.rgid p.egid p.sgid
    then (err eperm, some p)
    else (
      ok 0,
      some (record p { rgid = new_rgid; egid = new_egid; sgid = new_sgid; fsgid = new_egid }),
    )

-- `setfsuid` returns the previous value, whether or not it set the new one.
pub do_setfsuid : ℤ → Option Cred → System
do_setfsuid uid none = (ok 0, none)
do_setfsuid uid (some p) =
    let u = to_u32 uid in
    if is_neg uid
    then (ok p.fsuid, some p)
    else if root p.euid || u == p.ruid || u == p.euid || u == p.suid || u == p.fsuid
    then (ok p.fsuid, some (record p { fsuid = u }))
    else (ok p.fsuid, some p)

pub do_setfsgid : ℤ → Option Cred → System
do_setfsgid gid none = (ok 0, none)
do_setfsgid gid (some p) =
    let g = to_u32 gid in
    if is_neg gid
    then (ok p.fsgid, some p)
    else if root p.euid || g == p.rgid || g == p.egid || g == p.sgid || g == p.fsgid
    then (ok p.fsgid, some (record p { fsgid = g }))
    else (ok p.fsgid, some p)
