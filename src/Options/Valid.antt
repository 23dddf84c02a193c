-- ===== src/Options/Valid.antt =====
-- apps/salt_vault/server: the values that process_options stores.
use cmake_template.Prelude.{some, true, [], ◌∷◌, List, ◌≡◌, refl}
use cmake_template.Core.{ExitCode, failure, success}
use cmake_template.Text.{Text}
use cmake_template.Options.{Options, process_options, Parsed, options_loop}
use cmake_template.Options.{port, threads, help, bad, other}
use cmake_template.Options.Steps.{
  IsValid, port_step, threads_step, extra_none, stops_bad, stops_other, with_menu_success,
}

options_loop-IsValid :
    (calls : List Parsed) (extra : List Text) (code : ExitCode) (o : Options)
    → IsValid o
    → (options_loop calls extra code o).exit_code ≡ success
    → (o' : Options) × (((options_loop calls extra code o).options ≡ some o') × IsValid o')
options_loop-IsValid [] extra code o h e = (o, ((extra_none extra code o e).1, h))
options_loop-IsValid (port arg ∷ calls) extra code o h e =
    let (t, (good, (_, next))) = port_step calls extra code o arg e in
    rw next (
      options_loop-IsValid calls extra success (record o { p_flag = true; p_value = some t })
        (record { threads = h.threads; port = λ _. good }) (rw next at e))
options_loop-IsValid (threads arg ∷ calls) extra code o h e =
    let (v, (good, (_, next))) = threads_step calls extra code o arg e in
    rw next (
      options_loop-IsValid calls extra success (record o { n_flag = true; n_value = v })
        (record { threads = λ _. good; port = h.port }) (rw next at e))
options_loop-IsValid (help ∷ calls) extra code o h e = (o, (unfold options_loop in refl, h))
options_loop-IsValid (bad c ∷ calls) extra code o h e = absurd (stops_bad c calls extra code o e)
options_loop-IsValid (other ∷ calls) extra code o h e = absurd (stops_other calls extra code o e)

-- process_options that succeeds, on options whose set flags have values in their ranges, leaves
-- options of that kind: with its flag set, the number of threads is at least 2 and the port's text
-- converts to a number from 1025 to 65535.
pub process_options-IsValid :
    (calls : List Parsed) (extra : List Text) (o : Options)
    → IsValid o
    → (process_options (some (calls, extra)) (some o)).exit_code ≡ success
    → (o' : Options) × ((process_options (some (calls, extra)) (some o)).options ≡ some o')
      × IsValid o'
unfolding process_options
process_options-IsValid calls extra o h e =
    let plain = with_menu_success (options_loop calls extra failure o) e in
    let (o', (at, valid)) = options_loop-IsValid calls extra failure o h (rw plain at e) in
    (o', rw plain at, valid)
