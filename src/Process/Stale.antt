-- ===== src/Process/Stale.antt =====
-- What the removal of a stale state file changes for later questions.
use ios_sdk_develop.Prelude.{◌≡◌, Bool, true, false, some, arith, ◌==◌, ◌⊎◌}
use ios_sdk_develop.Process.{ProcessSession, ProcessManager, is_session_valid}

-- The state file that a thorough check removes is that of the session it found invalid: asked
-- again, the answer is once more that the session is not valid.
pub is_session_valid_stays_invalid :
    (m : ProcessManager) (s : ProcessSession)
    → (is_session_valid m (some s) true).0 ≡ false
    → (is_session_valid (is_session_valid m (some s) true).1 (some s) true).0 ≡ false
unfolding is_session_valid
is_session_valid_stays_invalid m s h = ground arith

-- A thorough check of one session leaves the answer about every session with another bundle
-- identifier or another UUID as it was.
pub is_session_valid_other :
    (m : ProcessManager) (s other : ProcessSession) (thorough : Bool)
    → ((s.bundle_identifier == other.bundle_identifier) ≡ false) ⊎ ((s.uuid == other.uuid) ≡ false)
    → (is_session_valid (is_session_valid m (some s) true).1 (some other) thorough).0
      ≡ (is_session_valid m (some other) thorough).0
unfolding is_session_valid
is_session_valid_other m s other thorough h = ground arith
