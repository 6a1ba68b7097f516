-- ===== src/Process.antt =====
-- ownCloudSDK/Toolkit/OCProcessManager.m: which process sessions are still alive.
-- UUIDs, bundle identifiers and timestamps are numbers. The state files are a function from a bundle
-- identifier (the file's name) to what the file holds; `none` inside says that it cannot be read.
-- The ping of an extension and the thread that asks are given with the manager.
pub mod Stale
use ios_sdk_develop.Prelude.{
  ℕ, Bool, true, false, not, ◌&&◌, ◌||◌, Option, none, some, List, [], ◌∷◌, ◌==◌, if◌then◌else◌,
}

pub data ProcessType : Type 0 where
  app extension : ProcessType

pub record ProcessSession : Type 0 where
  pub uuid : ℕ
  pub bundle_identifier : ℕ
  pub last_active : ℕ
  pub boot_timestamp : ℕ
  pub process_type : ProcessType

pub record ProcessManager : Type 0 where
  pub process_session : ProcessSession
  pub boot_timestamp : ℕ
  pub state_files : ℕ → Option (Option ProcessSession)
  pub sessions : List ProcessSession
  pub main_thread : Bool
  pub responds : ProcessSession → Bool

abbrev is_extension : ProcessType → Bool
is_extension extension = true
is_extension app = false

unfoldable pub remove_state_file : ProcessManager → ProcessSession → ProcessManager
remove_state_file m s = record m {
  state_files = λ b. if b == s.bundle_identifier then none else m.state_files b;
}

-- The stored session has the UUID that is asked about: valid, unless a ping is due and unanswered.
check_ping : ProcessManager → ProcessSession → Bool → Bool × ProcessManager
unfolding remove_state_file
check_ping m s thorough =
    if thorough && is_extension s.process_type && not m.main_thread
    then (if m.responds s then (true, m) else (false, remove_state_file m s))
    else (true, m)

check_stored :
    ProcessManager → ProcessSession → Bool → Option (Option ProcessSession) → Bool × ProcessManager
unfolding check_ping
check_stored m s thorough none = (false, m)
check_stored m s thorough (some none) = (false, m)
check_stored m s thorough (some (some stored)) =
    if stored.uuid == s.uuid then check_ping m s thorough else (false, m)

-- The answer, and the manager with the state file of an unresponsive extension removed.
unfoldable pub is_session_valid :
    ProcessManager → Option ProcessSession → Bool → Bool × ProcessManager
unfolding check_stored
is_session_valid m none thorough = (false, m)
is_session_valid m (some s) thorough =
    if s.bundle_identifier == m.process_session.bundle_identifier
    then (s.uuid == m.process_session.uuid, m)
    else (if s.boot_timestamp == m.boot_timestamp
        then check_stored m s thorough (m.state_files s.bundle_identifier)
        else (false, m))

unfoldable pub is_session_with_current_process_bundle_identifier :
    ProcessManager → ProcessSession → Bool
is_session_with_current_process_bundle_identifier m s =
    s.bundle_identifier == m.process_session.bundle_identifier

unfoldable pub find_session : ℕ → List ProcessSession → Option ProcessSession
find_session b [] = none
find_session b (s ∷ ss) = if b == s.bundle_identifier then some s else find_session b ss

or_else : Option ProcessSession → ProcessSession → ProcessSession
or_else none s = s
or_else (some latest) s = latest

unfoldable pub find_latest_session_for_process_of : ProcessManager → ProcessSession → ProcessSession
unfolding find_session or_else
find_latest_session_for_process_of m s = or_else (find_session s.bundle_identifier m.sessions) s

unfoldable pub is_any_instance_of_session_process_running :
    ProcessManager → ProcessSession → Bool × ProcessManager
unfolding is_session_valid find_latest_session_for_process_of
is_any_instance_of_session_process_running m s =
    is_session_valid m (some (find_latest_session_for_process_of m s)) true
