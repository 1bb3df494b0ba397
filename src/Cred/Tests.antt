-- ===== src/Cred/Tests.antt =====
-- The identity calls at concrete processes (src/kernel/sys/sys_id.c).
use cosmo_rt.Common.{ℕ, ◌≡◌, refl, none, some, List, [], ◌∷◌, arith, ok, err, eperm, einval}
use cosmo_rt.Common.Int.{pos, negsuc}
use cosmo_rt.Cred.{Cred, do_setuid, do_setreuid, cap_emulate_setxuid, keep_or, refuses2, refuses3}
use cosmo_rt.Cred.Calls.{Call, invoke, run}
use cosmo_rt.Cred.Safety.{SelfIsUnprivileged, run-SelfIsUnprivileged}
use cosmo_rt.Cred.Caps.{SelfCapsFollow, invoke-CapsFollow}
use cosmo_rt.Cred.Ids.{SelfIsConfined, invoke-IsConfined, invoke_err_unchanged}

abbrev all_ids : ℕ → ℕ → Cred
all_ids u caps = record {
  ruid = u;
  euid = u;
  suid = u;
  fsuid = u;
  rgid = u;
  egid = u;
  sgid = u;
  fsgid = u;
  cap_effective = caps;
  cap_permitted = caps;
}

abbrev user : Cred
user = all_ids 1000 0

abbrev admin : Cred
admin = all_ids 0 255

-- A set-uid program: the real uid is a user's, the effective and saved uids are root's.
abbrev setuid_program : Cred
setuid_program = record admin { ruid = 1000 }

abbrev attempts : List Call
attempts = Call.setuid (pos 0) ∷ Call.setreuid (negsuc 0) (pos 0) ∷ Call.setfsuid (pos 0) ∷ []

admin_drops :
    do_setuid (pos 1000) (some admin)
    ≡ (ok 0, some (record (all_ids 1000 0) { rgid = 0; egid = 0; sgid = 0; fsgid = 0 }))
unfolding do_setuid cap_emulate_setxuid
admin_drops = refl

user_refused : do_setuid (pos 0) (some user) ≡ (err eperm, some user)
unfolding do_setuid
user_refused = refl

negative_refused : do_setuid (negsuc 4) none ≡ (err einval, none)
unfolding do_setuid
negative_refused = refl

-- The zero-extended 32-bit -1 is no -1 to `setreuid`: root takes it as a uid.
zero_extended_minus_one :
    do_setreuid (pos 0xffff_ffff) (negsuc 0) (some admin)
    ≡ (ok 0, some (record admin { ruid = 0xffff_ffff }))
unfolding do_setreuid keep_or refuses2 refuses3 cap_emulate_setxuid
zero_extended_minus_one = refl

run-SelfIsUnprivileged_example : SelfIsUnprivileged (run attempts (some user))
run-SelfIsUnprivileged_example = run-SelfIsUnprivileged attempts (some user) (omega arith)

invoke-CapsFollow_example : SelfCapsFollow admin (invoke (Call.setuid (pos 1000)) (some admin)).1
invoke-CapsFollow_example = invoke-CapsFollow (Call.setuid (pos 1000)) admin

invoke-IsConfined_example : SelfIsConfined user (invoke (Call.setuid (pos 1000)) (some user)).1
invoke-IsConfined_example = invoke-IsConfined user refl (Call.setuid (pos 1000))

invoke_err_unchanged_example : (invoke (Call.setuid (pos 0)) (some user)).1 ≡ some user
invoke_err_unchanged_example =
    invoke_err_unchanged (Call.setuid (pos 0)) (some user) {e = eperm}
      (unfold invoke do_setuid in refl)
