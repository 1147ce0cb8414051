-- ===== src/Authd/Access.antt =====
-- secureEye/src/authd/access.py: who may ask the daemon to act for which user. The kernel gives
-- the uid of the peer; the user database is the parameter `getpwnam`.
use secure_eye.Prelude.{ℕ, String, Bool, true, false, Option, none, some, ◌==◌, if◌then◌else◌}

-- `pwd.getpwnam(username).pw_uid`, `none` for its `KeyError`.
abbrev pub UserDb : Type 0
UserDb = String → Option ℕ

unfoldable pub may_act_for : UserDb → ℕ → String → Bool
may_act_for getpwnam uid username =
    if uid == 0 then true else elim (getpwnam username) [ none ↦ false | some owner ↦ owner == uid ]
