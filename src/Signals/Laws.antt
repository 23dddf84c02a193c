-- ===== src/Signals/Laws.antt =====
-- libs/Signals: the flag over a sequence of signals.
use cmake_template.Prelude.{
  pos, negsuc, true, false, [], zero, suc, ◌∷◌, ◌≡◌, ◌||◌, refl, arith, Bool, ℤ, List, ◌∙◌, ap,
}
use cmake_template.Signals.{
  go_on, Signal, sigint, sigterm, sighup, other, Process, signal_handler, setup_loop,
  signal_action_setup, signal_list,
}

abbrev pub ends : Signal → Bool
ends sigint = true
ends sigterm = true
ends _ = false

abbrev pub any_ends : List Signal → Bool
any_ends [] = false
any_ends (s ∷ signals) = ends s || any_ends signals

-- The handler at each of some signals in turn.
abbrev pub handle_all : List Signal → Process → Process
handle_all [] p = p
handle_all (s ∷ signals) p = handle_all signals (signal_handler s p)

signal_handler-flag :
    (s : Signal) (p : Process) → (signal_handler s p).signal_flag ≡ (p.signal_flag || ends s)
unfolding signal_handler
signal_handler-flag sigint p = ground arith
signal_handler-flag sigterm p = ground arith
signal_handler-flag sighup p = ground arith
signal_handler-flag (other n) p = ground arith

-- After any sequence of signals the flag stands at SHUTDOWN if it stood there before or one of the
-- signals was SIGINT or SIGTERM, and in no other case.
pub signal_handler-any_ends :
    (signals : List Signal) (p : Process)
    → (handle_all signals p).signal_flag ≡ (p.signal_flag || any_ends signals)
signal_handler-any_ends [] p = ground arith
signal_handler-any_ends (s ∷ signals) p =
    ground (arith, signal_handler-any_ends signals (signal_handler s p), signal_handler-flag s p)

go_on_all :
    (s : Signal) (answer : ℤ) (rest : ℤ × List Signal)
    → (go_on s answer rest).0 ≡ pos 0
    → (rest.0 ≡ pos 0) × ((go_on s answer rest).1 ≡ s ∷ rest.1)
unfolding go_on
go_on_all s (pos zero) rest e = (e, refl)
go_on_all s (pos (suc n)) rest e = cc
go_on_all s (negsuc n) rest e = cc

setup_loop_all :
    (sigaction : Signal → ℤ) (signals : List Signal)
    → (setup_loop sigaction signals).0 ≡ pos 0
    → (setup_loop sigaction signals).1 ≡ signals
unfolding setup_loop
setup_loop_all sigaction [] e = refl
setup_loop_all sigaction (s ∷ signals) e =
    let (ok_behind, added) = go_on_all s (sigaction s) (setup_loop sigaction signals) e in
    added ∙ ap (λ t. s ∷ t) (setup_loop_all sigaction signals ok_behind)

-- Where signal_action_setup returns E_SUCCESS, the three signals of the list have the handler.
pub signal_action_setup_all :
    (sigaction : Signal → ℤ)
    → (signal_action_setup sigaction).0 ≡ pos 0
    → (signal_action_setup sigaction).1 ≡ signal_list
unfolding signal_action_setup
signal_action_setup_all sigaction e = setup_loop_all sigaction signal_list e
