-- ===== src/Options.antt =====
-- apps/salt_vault/server: option_handler.c. The calls of getopt are a list of what they return, with
-- optarg and optopt, and the arguments that getopt leaves behind.
pub mod Steps
pub mod Valid
pub mod Once
pub mod Help
mod Tests
use cmake_template.Prelude.{
  none, some, true, false, [], ◌∷◌, zero, suc, Option, if◌then◌else◌, Bool, List, ℤ, ℕ, pos, ◌++◌,
  ◌==◌, ◌||◌, not, ltb_ℤ,
}
use cmake_template.Core.{
  ExitCode, eof, null_pointer, connection_closed, failure, success, succeeded,
}
use cmake_template.Text.{Text}
use cmake_template.Numbers.{str_to_int32}

-- MIN_NUM_THREADS, MAX_PORT_VALUE and MIN_PORT_VALUE
abbrev pub min_num_threads : ℤ
min_num_threads = pos 2

abbrev pub max_port_value : ℤ
max_port_value = pos 65535

abbrev pub min_port_value : ℤ
min_port_value = pos 1025

-- `options_t`; `p_value` is `none` for NULL.
pub record Options : Type 0 where
  pub n_flag : Bool
  pub n_value : ℤ
  pub p_flag : Bool
  pub p_value : Option Text

-- What a call of getopt returns: an option with its argument, `?` with optopt, or another number.
pub data Parsed : Type 0 where
  port threads : Option Text → Parsed
  help : Parsed
  bad : ℕ → Parsed
  other : Parsed

-- What is written for the user.
pub data Report : Type 0 where
  needs_argument unknown_option : ℕ → Report
  unknown : Report
  extra_arguments : List Text → Report
  help_menu : Report

-- What str_to_int32 stored.
abbrev pub stored : Option ℤ → ℤ
stored none = pos 0
stored (some v) = v

pub process_n_option : Option Text → Options → ExitCode × Options
process_n_option none options = (failure, options)
process_n_option (some optarg) options =
    if options.n_flag
    then (failure, options)
    else let flagged = record options { n_flag = true } in
      let (code, output) = str_to_int32 (some optarg) (some (pos 0)) in
      if not (succeeded code)
      then (code, flagged)
      else if ltb_ℤ (stored output) min_num_threads
      then (failure, flagged)
      else (success, record flagged { n_value = stored output })

pub process_p_option : Option Text → Options → ExitCode × Options
process_p_option none options = (failure, options)
process_p_option (some optarg) options =
    if options.p_flag
    then (failure, options)
    else let flagged = record options { p_flag = true } in
      let (code, output) = str_to_int32 (some optarg) (some (pos 0)) in
      if not (succeeded code)
      then (code, flagged)
      else if ltb_ℤ max_port_value (stored output) || ltb_ℤ (stored output) min_port_value
      then (failure, flagged)
      else (success, record flagged { p_value = some optarg })

-- report_invalid_options
pub report_invalid_options : ℕ → Report
report_invalid_options optopt =
    if (b'n' == optopt) || (b'p' == optopt) then needs_argument optopt else unknown_option optopt

-- report_extra_arguments, of the arguments from `optind` on.
pub report_extra_arguments : List Text → ExitCode × List Report
report_extra_arguments [] = (success, [])
report_extra_arguments (argument ∷ rest) = (failure, extra_arguments (argument ∷ rest) ∷ [])

pub record Outcome : Type 0 where
  pub exit_code : ExitCode
  pub options : Option Options
  pub reports : List Report

-- The loop on getopt, and the test for extra arguments behind it.
pub options_loop : List Parsed → List Text → ExitCode → Options → Outcome
options_loop [] extra code options =
    let (end_code, reports) = report_extra_arguments extra in
    record { exit_code = end_code; options = some options; reports = reports }
options_loop (port optarg ∷ calls) extra code options =
    let (next_code, next) = process_p_option optarg options in
    elim (succeeded next_code) [
      | true ↦ options_loop calls extra next_code next
      | false ↦ record { exit_code = next_code; options = some next; reports = [] }
    ]
options_loop (threads optarg ∷ calls) extra code options =
    let (next_code, next) = process_n_option optarg options in
    elim (succeeded next_code) [
      | true ↦ options_loop calls extra next_code next
      | false ↦ record { exit_code = next_code; options = some next; reports = [] }
    ]
options_loop (help ∷ calls) extra code options = record {
  exit_code = code;
  options = some options;
  reports = [];
}
options_loop (bad optopt ∷ calls) extra code options = record {
  exit_code = failure;
  options = some options;
  reports = report_invalid_options optopt ∷ [];
}
options_loop (other ∷ calls) extra code options = record {
  exit_code = failure;
  options = some options;
  reports = unknown ∷ [];
}

-- `E_FAILURE == exit_code`
abbrev pub failed : ExitCode → Bool
failed failure = true
failed success = false
failed eof = false
failed null_pointer = false
failed connection_closed = false

abbrev pub with_menu : Outcome → Outcome
with_menu o = if failed o.exit_code then record o { reports = o.reports ++ (help_menu ∷ []) } else o

-- process_options; `argv` is `none` for NULL, and else the calls and the arguments behind them.
-- `options_p` is `none` for NULL.
pub process_options : Option (List Parsed × List Text) → Option Options → Outcome
process_options none options =
    with_menu (record { exit_code = failure; options = options; reports = [] })
process_options (some argv) none =
    with_menu (record { exit_code = failure; options = none; reports = [] })
process_options (some (calls, extra)) (some options) =
    with_menu (options_loop calls extra failure options)
