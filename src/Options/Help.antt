-- ===== src/Options/Help.antt =====
-- apps/salt_vault/server: process_options on -h.
use cmake_template.Prelude.{some, [], ◌∷◌, List, Option, ◌≢◌, ◌≡◌, arith, ◌++◌, refl}
use cmake_template.Core.{ExitCode, failure, success}
use cmake_template.Text.{Text}
use cmake_template.Options.{
  Options, process_options, process_n_option, process_p_option, Parsed, options_loop, help_menu,
  report_extra_arguments,
}
use cmake_template.Options.{port, threads, help, bad, other}
use cmake_template.Options.Steps.{
  NoHelp, port_next, threads_next, stops_bad, stops_other, with_menu_success, with_menu_plain,
}

port_continue :
    (arg : Option Text) (calls : List Parsed) (extra : List Text) (code : ExitCode) (o : Options)
    → (process_p_option arg o).0 ≡ success
    → options_loop (port arg ∷ calls) extra code o
      ≡ options_loop calls extra success (process_p_option arg o).1
unfolding options_loop
port_continue arg calls extra code o e = ground arith

threads_continue :
    (arg : Option Text) (calls : List Parsed) (extra : List Text) (code : ExitCode) (o : Options)
    → (process_n_option arg o).0 ≡ success
    → options_loop (threads arg ∷ calls) extra code o
      ≡ options_loop calls extra success (process_n_option arg o).1
unfolding options_loop
threads_continue arg calls extra code o e = ground arith

-- Options in front of -h.
options_loop_help :
    (calls behind : List Parsed) (extra : List Text) (o : Options)
    → NoHelp calls
    → (options_loop calls [] success o).exit_code ≡ success
    → ((options_loop (calls ++ (help ∷ behind)) extra success o).exit_code ≡ success)
      × ((options_loop (calls ++ (help ∷ behind)) extra success o).reports ≡ [])
      × ((options_loop (calls ++ (help ∷ behind)) extra success o).options
          ≡ (options_loop calls [] success o).options)
options_loop_help [] behind extra o h e =
    unfold options_loop report_extra_arguments in (refl, refl, refl)
options_loop_help (port arg ∷ calls) behind extra o h e =
    let (accepted, next) = port_next calls [] success o arg e in
    rw (port_continue arg (calls ++ (help ∷ behind)) extra success o accepted, next)
      (options_loop_help calls behind extra (process_p_option arg o).1 h (rw next at e))
options_loop_help (threads arg ∷ calls) behind extra o h e =
    let (accepted, next) = threads_next calls [] success o arg e in
    rw (threads_continue arg (calls ++ (help ∷ behind)) extra success o accepted, next)
      (options_loop_help calls behind extra (process_n_option arg o).1 h (rw next at e))
options_loop_help (help ∷ calls) behind extra o h e = elim h [ ]
options_loop_help (bad c ∷ calls) behind extra o h e = absurd (stops_bad c calls [] success o e)
options_loop_help (other ∷ calls) behind extra o h e = absurd (stops_other calls [] success o e)

help_second :
    (calls behind : List Parsed) (extra : List Text) (o : Options)
    → NoHelp calls
    → calls ≢ []
    → (options_loop calls [] failure o).exit_code ≡ success
    → ((options_loop (calls ++ (help ∷ behind)) extra failure o).exit_code ≡ success)
      × ((options_loop (calls ++ (help ∷ behind)) extra failure o).reports ≡ [])
      × ((options_loop (calls ++ (help ∷ behind)) extra failure o).options
          ≡ (options_loop calls [] failure o).options)
help_second [] behind extra o h ne e = absurd (ne refl)
help_second (port arg ∷ calls) behind extra o h ne e =
    let (accepted, next) = port_next calls [] failure o arg e in
    rw (port_continue arg (calls ++ (help ∷ behind)) extra failure o accepted, next)
      (options_loop_help calls behind extra (process_p_option arg o).1 h (rw next at e))
help_second (threads arg ∷ calls) behind extra o h ne e =
    let (accepted, next) = threads_next calls [] failure o arg e in
    rw (threads_continue arg (calls ++ (help ∷ behind)) extra failure o accepted, next)
      (options_loop_help calls behind extra (process_n_option arg o).1 h (rw next at e))
help_second (help ∷ calls) behind extra o h ne e = elim h [ ]
help_second (bad c ∷ calls) behind extra o h ne e = absurd (stops_bad c calls [] failure o e)
help_second (other ∷ calls) behind extra o h ne e = absurd (stops_other calls [] failure o e)

-- Where -h is the first option, process_options fails and prints the menu. Where it follows at least
-- one option and all in front of it are good, process_options succeeds and prints nothing, whatever
-- options and arguments stand behind -h, and the options are those that the calls in front of -h alone
-- leave: none behind it is applied.
pub process_options_help :
    (calls behind : List Parsed) (extra : List Text) (o : Options)
    → NoHelp calls
    → calls ≢ []
    → (process_options (some (calls, [])) (some o)).exit_code ≡ success
    → (process_options (some (help ∷ behind, extra)) (some o)
        ≡ record { exit_code = failure; options = some o; reports = help_menu ∷ [] })
      × ((process_options (some (calls ++ (help ∷ behind), extra)) (some o)).exit_code ≡ success)
      × ((process_options (some (calls ++ (help ∷ behind), extra)) (some o)).reports ≡ [])
      × ((process_options (some (calls ++ (help ∷ behind), extra)) (some o)).options
          ≡ (process_options (some (calls, [])) (some o)).options)
unfolding process_options
process_options_help calls behind extra o h ne e =
    let plain = with_menu_success (options_loop calls [] failure o) e in
    let (ends, silent, kept) = help_second calls behind extra o h ne (rw plain at e) in
    let same = with_menu_plain (options_loop (calls ++ (help ∷ behind)) extra failure o) ends in
    (unfold options_loop in refl, rw same ends, rw same silent, rw (same, plain) kept)
