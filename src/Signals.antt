-- ===== src/Signals.antt =====
-- libs/Signals: signal_handler_single_thread.c and signal_handler_multi_thread.c. What sigaction and
-- sigwait return is a parameter. A message that is written is named by its macro.
pub mod Laws
mod Tests
use cmake_template.Prelude.{
  none, some, zero, suc, pos, negsuc, true, false, [], Option, Bool, ℤ, ℕ, ◌++◌, List, ◌∷◌,
  if◌then◌else◌, ◌==◌,
}

-- A signal; the signals that nothing names have their number.
pub data Signal : Type 0 where
  sigint sigterm sighup : Signal
  other : ℕ → Signal

pub data Message : Type 0 where
  sigint_msg sigterm_msg sighup_msg : Message

-- `signal_flag`, true for SHUTDOWN, and the messages written to the standard output.
pub record Process : Type 0 where
  pub signal_flag : Bool
  pub written : List Message

-- SIGNAL_LIST
abbrev pub signal_list : List Signal
signal_list = sigint ∷ sigterm ∷ sighup ∷ []

-- `write(STDOUT_FILENO, message)`
abbrev pub say : Message → Process → Process
say message p = record p { written = p.written ++ message ∷ [] }

-- `signal_flag = SHUTDOWN`
abbrev pub shut_down : Process → Process
shut_down p = record p { signal_flag = true }

-- signal_handler
pub signal_handler : Signal → Process → Process
signal_handler sigint p = say sigint_msg (shut_down p)
signal_handler sigterm p = say sigterm_msg (shut_down p)
signal_handler sighup p = say sighup_msg p
signal_handler (other n) p = p

-- One round of the loop of signal_action_setup, by what sigaction returns; `rest` is what the rounds
-- behind it do.
pub go_on : Signal → (answer : ℤ) → (rest : ℤ × List Signal) → ℤ × List Signal
go_on s (pos zero) (code, installed) = (code, s ∷ installed)
go_on s (pos (suc n)) rest = (pos (suc n), [])
go_on s (negsuc n) rest = (negsuc n, [])

-- The loop of signal_action_setup, with the signals that get the handler.
pub setup_loop : (sigaction : Signal → ℤ) → List Signal → ℤ × List Signal
setup_loop sigaction [] = (pos 0, [])
setup_loop sigaction (s ∷ signals) = go_on s (sigaction s) (setup_loop sigaction signals)

-- signal_action_setup
pub signal_action_setup : (sigaction : Signal → ℤ) → ℤ × List Signal
signal_action_setup sigaction = setup_loop sigaction signal_list

-- signal_wait_thread, where sigwait returns a signal, or none if it fails. It shuts down at every
-- signal that it waits for.
pub signal_wait_thread : Option Signal → Process → Process
signal_wait_thread none p = p
signal_wait_thread (some sigint) p = say sigint_msg (shut_down p)
signal_wait_thread (some sigterm) p = say sigterm_msg (shut_down p)
signal_wait_thread (some sighup) p = say sighup_msg (shut_down p)
signal_wait_thread (some (other n)) p = shut_down p
