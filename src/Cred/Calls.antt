-- ===== src/Cred/Calls.antt =====
-- The identity calls as one data type, and runs of them (src/kernel/sys/sys_id.c).
use cosmo_rt.Common.{Option, List, [], ◌∷◌}
use cosmo_rt.Common.Int.{ℤ}
use cosmo_rt.Cred.{
  Cred, System, do_setuid, do_setgid, do_setreuid, do_setregid, do_setresuid, do_setresgid,
  do_setfsuid, do_setfsgid,
}

-- One constructor for each call that can change the credentials.
pub data Call : Type 0 where
  setuid setgid setfsuid setfsgid : ℤ → Call
  setreuid setregid : ℤ → ℤ → Call
  setresuid setresgid : ℤ → ℤ → ℤ → Call

unfoldable pub invoke : Call → Option Cred → System
invoke (Call.setuid u) p = do_setuid u p
invoke (Call.setgid g) p = do_setgid g p
invoke (Call.setfsuid u) p = do_setfsuid u p
invoke (Call.setfsgid g) p = do_setfsgid g p
invoke (Call.setreuid r e) p = do_setreuid r e p
invoke (Call.setregid r e) p = do_setregid r e p
invoke (Call.setresuid r e s) p = do_setresuid r e s p
invoke (Call.setresgid r e s) p = do_setresgid r e s p

-- The process after a sequence of calls, whatever each of them replied.
unfoldable pub run : List Call → Option Cred → Option Cred
run [] p = p
run (c ∷ cs) p = run cs (invoke c p).1
