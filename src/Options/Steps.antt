-- ===== src/Options/Steps.antt =====
-- apps/salt_vault/server: one round of the loop of process_options.
use cmake_template.Prelude.{
  none, some, true, false, [], ◌∷◌, ℤ, List, ℕ, Option, ◌≡◌, ltb_ℤ, pos, arith, ◌≢◌, refl,
}
use cmake_template.Core.{ExitCode, success}
use cmake_template.Text.{Text}
use cmake_template.Numbers.{str_to_int32}
use cmake_template.Numbers.Laws.{str_to_int32_stored}
use cmake_template.Options.{
  Options, process_n_option, process_p_option, Parsed, options_loop, report_extra_arguments,
  Outcome, with_menu,
}
use cmake_template.Options.{port, threads, help, bad, other}

-- The text is one that str_to_int32 converts to `v`.
abbrev pub Converts : Text → ℤ → Type 0
Converts t v = str_to_int32 (some t) (some (pos 0)) ≡ (success, some v)

abbrev pub IsThreads : ℤ → Type 0
IsThreads v = ltb_ℤ v (pos 2) ≡ false

abbrev pub IsPort : Option Text → Type 0
IsPort none = ⊥
IsPort (some t) =
    (v : ℤ) × (Converts t v × ((ltb_ℤ (pos 65535) v ≡ false) × (ltb_ℤ v (pos 1025) ≡ false)))

-- A flag that is set has a value in its range.
pub record IsValid (o : Options) : Type 0 where
  pub threads : o.n_flag ≡ true → IsThreads o.n_value
  pub port : o.p_flag ≡ true → IsPort o.p_value

-- What a successful step has found and done.
pub process_n_option_success :
    (t : Text) (o : Options)
    → (process_n_option (some t) o).0 ≡ success
    → (v : ℤ) × (Converts t v
        × (IsThreads v
            × ((o.n_flag ≡ false)
                × ((process_n_option (some t) o).1 ≡ record o { n_flag = true; n_value = v }))))
unfolding process_n_option
process_n_option_success t o e = let (v, at) = str_to_int32_stored t (pos 0) in (v, ground arith)

process_p_option_success :
    (t : Text) (o : Options)
    → (process_p_option (some t) o).0 ≡ success
    → IsPort (some t)
      × ((o.p_flag ≡ false)
          × ((process_p_option (some t) o).1 ≡ record o { p_flag = true; p_value = some t }))
unfolding process_p_option
process_p_option_success t o e =
    let (v, at) = str_to_int32_stored t (pos 0) in
    let (fresh, (range, next)) : (o.p_flag ≡ false)
        × (((ltb_ℤ (pos 65535) v ≡ false) × (ltb_ℤ v (pos 1025) ≡ false))
            × ((process_p_option (some t) o).1 ≡ record o { p_flag = true; p_value = some t })) =
      ground arith in
    ((v, (ground arith, range)), (fresh, next))

module _ (calls : List Parsed) (extra : List Text) (code : ExitCode) (o : Options) where
  pub port_next :
      (arg : Option Text)
      → (options_loop (port arg ∷ calls) extra code o).exit_code ≡ success
      → ((process_p_option arg o).0 ≡ success)
        × (options_loop (port arg ∷ calls) extra code o
            ≡ options_loop calls extra success (process_p_option arg o).1)
  unfolding options_loop
  port_next arg e = ground arith

  pub threads_next :
      (arg : Option Text)
      → (options_loop (threads arg ∷ calls) extra code o).exit_code ≡ success
      → ((process_n_option arg o).0 ≡ success)
        × (options_loop (threads arg ∷ calls) extra code o
            ≡ options_loop calls extra success (process_n_option arg o).1)
  unfolding options_loop
  threads_next arg e = ground arith

  -- A loop that succeeds has taken a fresh option with a good value.
  pub port_step :
      (arg : Option Text)
      → (options_loop (port arg ∷ calls) extra code o).exit_code ≡ success
      → (t : Text) × (IsPort (some t)
          × ((o.p_flag ≡ false)
              × (options_loop (port arg ∷ calls) extra code o
                  ≡ options_loop calls extra success
                      (record o { p_flag = true; p_value = some t }))))
  unfolding options_loop process_p_option
  port_step none e = absurd cc
  port_step (some t) e =
      let (accepted, next) = port_next (some t) e in
      let (good, (fresh, set)) = process_p_option_success t o accepted in
      (t, (good, (fresh, rw set at next)))

  pub threads_step :
      (arg : Option Text)
      → (options_loop (threads arg ∷ calls) extra code o).exit_code ≡ success
      → (v : ℤ) × (IsThreads v
          × ((o.n_flag ≡ false)
              × (options_loop (threads arg ∷ calls) extra code o
                  ≡ options_loop calls extra success (record o { n_flag = true; n_value = v }))))
  unfolding options_loop process_n_option
  threads_step none e = absurd cc
  threads_step (some t) e =
      let (accepted, next) = threads_next (some t) e in
      let (v, (_, (good, (fresh, set)))) = process_n_option_success t o accepted in
      (v, (good, (fresh, rw set at next)))

pub extra_none :
    (extra : List Text) (code : ExitCode) (o : Options)
    → (options_loop [] extra code o).exit_code ≡ success
    → (extra ≡ []) × ((options_loop [] extra code o).options ≡ some o)
unfolding options_loop report_extra_arguments
extra_none [] code o e = (refl, refl)
extra_none (x ∷ extra) code o e = absurd cc

pub stops_bad :
    (c : ℕ) (calls : List Parsed) (extra : List Text) (code : ExitCode) (o : Options)
    → (options_loop (bad c ∷ calls) extra code o).exit_code ≢ success
unfolding options_loop
stops_bad c calls extra code o e = cc

pub stops_other :
    (calls : List Parsed) (extra : List Text) (code : ExitCode) (o : Options)
    → (options_loop (other ∷ calls) extra code o).exit_code ≢ success
unfolding options_loop
stops_other calls extra code o e = cc

pub with_menu_success : (r : Outcome) → (with_menu r).exit_code ≡ success → with_menu r ≡ r
with_menu_success r e = ground arith

pub with_menu_plain : (r : Outcome) → r.exit_code ≡ success → with_menu r ≡ r
with_menu_plain r e = ground arith

abbrev pub NoHelp : List Parsed → Type 0
NoHelp [] = Unit
NoHelp (port arg ∷ calls) = NoHelp calls
NoHelp (threads arg ∷ calls) = NoHelp calls
NoHelp (help ∷ calls) = ⊥
NoHelp (bad c ∷ calls) = NoHelp calls
NoHelp (other ∷ calls) = NoHelp calls
