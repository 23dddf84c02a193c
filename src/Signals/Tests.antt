-- ===== src/Signals/Tests.antt =====
-- libs/Signals: runs of the two handlers and of the setup.
use cmake_template.Prelude.{true, false, [], some, ◌∷◌, ◌≡◌, refl, ℤ, negsuc, pos}
use cmake_template.Signals.{
  Signal, sigint, sigterm, sighup, Process, sighup_msg, signal_handler, setup_loop, go_on,
  signal_action_setup, signal_wait_thread,
}

abbrev active : Process
active = record { signal_flag = false; written = [] }

-- SIGHUP is ignored by the one handler and shuts down in the other.
signal_handler_hup :
    signal_handler sighup active ≡ record { signal_flag = false; written = sighup_msg ∷ [] }
unfolding signal_handler
signal_handler_hup = refl

signal_wait_thread_hup :
    signal_wait_thread (some sighup) active
    ≡ record { signal_flag = true; written = sighup_msg ∷ [] }
unfolding signal_wait_thread
signal_wait_thread_hup = refl

abbrev refuses_term : Signal → ℤ
refuses_term sigterm = negsuc 0
refuses_term _ = pos 0

signal_action_setup_refused : signal_action_setup refuses_term ≡ (negsuc 0, sigint ∷ [])
unfolding signal_action_setup setup_loop go_on
signal_action_setup_refused = refl
