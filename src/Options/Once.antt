-- ===== src/Options/Once.antt =====
-- apps/salt_vault/server: how often process_options takes an option.
use cmake_template.Prelude.{some, true, false, [], ◌∷◌, suc, Bool, List, ℕ, ◌≡◌, ◌+◌, arith, ap}
use cmake_template.Core.{ExitCode, failure, success}
use cmake_template.Text.{Text}
use cmake_template.Options.{Options, process_options, Parsed, options_loop}
use cmake_template.Options.{port, threads, help, bad, other}
use cmake_template.Options.Steps.{
  NoHelp, port_step, threads_step, extra_none, stops_bad, stops_other, with_menu_success,
}

-- How many options of each kind there are, and whether one of them is -h.
abbrev pub count_ports : List Parsed → ℕ
count_ports [] = 0
count_ports (port arg ∷ calls) = suc (count_ports calls)
count_ports (threads arg ∷ calls) = count_ports calls
count_ports (help ∷ calls) = count_ports calls
count_ports (bad c ∷ calls) = count_ports calls
count_ports (other ∷ calls) = count_ports calls

abbrev pub count_threads : List Parsed → ℕ
count_threads [] = 0
count_threads (port arg ∷ calls) = count_threads calls
count_threads (threads arg ∷ calls) = suc (count_threads calls)
count_threads (help ∷ calls) = count_threads calls
count_threads (bad c ∷ calls) = count_threads calls
count_threads (other ∷ calls) = count_threads calls

abbrev pub bit : Bool → ℕ
bit true = 1
bit false = 0

options_loop_counts :
    (calls : List Parsed) (extra : List Text) (code : ExitCode) (o : Options)
    → NoHelp calls
    → (options_loop calls extra code o).exit_code ≡ success
    → (o' : Options) × ((options_loop calls extra code o).options ≡ some o')
      × (bit o.p_flag + count_ports calls ≡ bit o'.p_flag)
      × (bit o.n_flag + count_threads calls ≡ bit o'.n_flag)
      × (extra ≡ [])
options_loop_counts [] extra code o h e =
    let (none_left, at) = extra_none extra code o e in (o, at, omega arith, omega arith, none_left)
options_loop_counts (port arg ∷ calls) extra code o h e =
    let (t, (_, (fresh, next))) = port_step calls extra code o arg e in
    let (o', at, ports, counts, none_left) =
      options_loop_counts calls extra success (record o { p_flag = true; p_value = some t }) h
        (rw next at e) in
    (o', rw next at, omega (arith, ap bit fresh), counts, none_left)
options_loop_counts (threads arg ∷ calls) extra code o h e =
    let (v, (_, (fresh, next))) = threads_step calls extra code o arg e in
    let (o', at, ports, counts, none_left) =
      options_loop_counts calls extra success (record o { n_flag = true; n_value = v }) h
        (rw next at e) in
    (o', rw next at, ports, omega (arith, ap bit fresh), none_left)
options_loop_counts (help ∷ calls) extra code o h e = elim h [ ]
options_loop_counts (bad c ∷ calls) extra code o h e = absurd (stops_bad c calls extra code o e)
options_loop_counts (other ∷ calls) extra code o h e = absurd (stops_other calls extra code o e)

-- process_options that succeeds with no -h among the options, on options with no flag set, has met
-- each of -p and -n at most once, has set its flag exactly if it met it, and had no other arguments.
pub process_options_once :
    (calls : List Parsed) (extra : List Text) (o : Options)
    → NoHelp calls
    → o.p_flag ≡ false
    → o.n_flag ≡ false
    → (process_options (some (calls, extra)) (some o)).exit_code ≡ success
    → (o' : Options) × ((process_options (some (calls, extra)) (some o)).options ≡ some o')
      × (count_ports calls ≡ bit o'.p_flag)
      × (count_threads calls ≡ bit o'.n_flag)
      × (extra ≡ [])
unfolding process_options
process_options_once calls extra o h p n e =
    let plain = with_menu_success (options_loop calls extra failure o) e in
    let (o', at, ports, counts, none_left) =
      options_loop_counts calls extra failure o h (rw plain at e) in
    (o', rw plain at, omega (arith, ap bit p), omega (arith, ap bit n), none_left)
