-- ===== src/Options/Tests.antt =====
-- apps/salt_vault/server: runs of process_options.
use Prim.{tt}
use cmake_template.Prelude.{none, some, true, false, [], ◌∷◌, pos, List, ◌≡◌, refl, arith, ◌++◌}
use cmake_template.Core.{failure, success}
use cmake_template.Text.{Text}
use cmake_template.Numbers.{str_to_int32}
use cmake_template.Numbers.Laws.{str_to_int32-number}
use cmake_template.Options.{
  Options, process_options, threads, help, bad, report_invalid_options, needs_argument,
  options_loop, process_n_option, report_extra_arguments, help_menu, Parsed,
}
use cmake_template.Options.Steps.{IsValid}
use cmake_template.Options.Valid.{process_options-IsValid}
use cmake_template.Options.Once.{process_options_once, bit}
use cmake_template.Options.Help.{process_options_help}

abbrev unset : Options
unset = record { n_flag = false; n_value = pos 4; p_flag = false; p_value = none }

unset-IsValid : IsValid unset
unset-IsValid = record { threads = λ e. absurd cc; port = λ e. absurd cc }

-- `-n 8`
abbrev eight : List Parsed
eight = threads (some (b'8' ∷ [])) ∷ []

eight_read : str_to_int32 (some (b'8' ∷ [])) (some (pos 0)) ≡ (success, some (pos 8))
eight_read = (str_to_int32-number [] (b'8' ∷ []) [] (pos 0) tt (omega arith) (λ e. cc) tt).0

eight_taken :
    process_n_option (some (b'8' ∷ [])) unset
    ≡ (success, record unset { n_flag = true; n_value = pos 8 })
unfolding process_n_option
eight_taken = rw eight_read refl

eight_accepted : (process_options (some (eight, [])) (some unset)).exit_code ≡ success
unfolding process_options options_loop report_extra_arguments
eight_accepted = ground (arith, eight_taken)

argument_missing : process_options (some (bad b'n' ∷ [], [])) (some unset) ≡ record {
  exit_code = failure;
  options = some unset;
  reports = needs_argument b'n' ∷ help_menu ∷ [];
}
unfolding process_options options_loop report_invalid_options
argument_missing = refl

process_options-IsValid_example :
    (o' : Options) × ((process_options (some (eight, [])) (some unset)).options ≡ some o')
    × IsValid o'
process_options-IsValid_example =
    process_options-IsValid eight [] unset unset-IsValid eight_accepted

process_options_once_example :
    (o' : Options) × ((process_options (some (eight, [])) (some unset)).options ≡ some o')
    × (0 ≡ bit o'.p_flag)
    × (1 ≡ bit o'.n_flag)
    × (◌≡◌ {A = List Text} [] [])
process_options_once_example = process_options_once eight [] unset tt refl refl eight_accepted

process_options_help_example :
    (process_options (some (help ∷ [], [])) (some unset)
      ≡ record { exit_code = failure; options = some unset; reports = help_menu ∷ [] })
    × ((process_options (some (eight ++ (help ∷ []), [])) (some unset)).exit_code ≡ success)
    × ((process_options (some (eight ++ (help ∷ []), [])) (some unset)).reports ≡ [])
    × ((process_options (some (eight ++ (help ∷ []), [])) (some unset)).options
        ≡ (process_options (some (eight, [])) (some unset)).options)
process_options_help_example = process_options_help eight [] [] unset tt (λ e. cc) eight_accepted
