-- ===== src/Types.antt =====
-- The enumerations of include/nds3/definitions.h, `timespec`, and the exceptions of
-- include/nds3/exceptions.h with the standard library's exceptions that the code throws or meets.
use nds.Prelude.{
  ℕ, ◌+◌, ◌-◌, Bool, true, false, ◌&&◌, ◌||◌, ltb, ◌==◌, if◌then◌else◌, ℤ, pos, negsuc, int_eq,
}

-- `state_t` has the underlying type `int`, and the cast of an `int` that names no enumerator is a
-- value of it too: `above n` is 10 + n, and `below n` is -(n + 1).
pub data State : Type 0 where
  unknown off switching_off initializing on stopping starting running fault max_state_num : State
  above below : ℕ → State

-- `(int)state`
abbrev pub to_int : State → ℤ
to_int unknown = pos 0
to_int off = pos 1
to_int switching_off = pos 2
to_int initializing = pos 3
to_int on = pos 4
to_int stopping = pos 5
to_int starting = pos 6
to_int running = pos 7
to_int fault = pos 8
to_int max_state_num = pos 9
to_int (above n) = pos (10 + n)
to_int (below n) = negsuc n

-- `(state_t)value`
abbrev pub of_nat : ℕ → State
of_nat n =
    if n == 0
    then unknown
    else (if n == 1
        then off
        else (if n == 2
            then switching_off
            else (if n == 3
                then initializing
                else (if n == 4
                    then on
                    else (if n == 5
                        then stopping
                        else (if n == 6
                            then starting
                            else (if n == 7
                                then running
                                else (if n == 8
                                    then fault
                                    else (if n == 9 then max_state_num else above (n - 10))))))))))

abbrev pub of_int : ℤ → State
of_int (pos n) = of_nat n
of_int (negsuc n) = below n

-- `==` on the enumeration
abbrev pub state_eq : State → State → Bool
state_eq a b = int_eq (to_int a) (to_int b)

-- A point in time; the seconds and nanoseconds since the epoch, which are not negative.
pub record Timespec : Type 0 where
  pub tv_sec : ℕ
  pub tv_nsec : ℕ

-- The comparison that the code writes out: a.sec < b.sec || (a.sec == b.sec && a.nsec < b.nsec).
abbrev pub earlier : Timespec → Timespec → Bool
earlier a b = ltb a.tv_sec b.tv_sec || (a.tv_sec == b.tv_sec && ltb a.tv_nsec b.tv_nsec)

-- The exceptions by class. `other_error` is any object that a delegate function throws and that is
-- of no class named here; the text of a message is left out.
pub data Exception : Type 0 where
  state_machine_roll_back state_machine_transition_denied state_machine_no_such_transition :
      Exception
  driver_not_found device_not_allocated device_already_created : Exception
  pv_already_declared missing_input_pv missing_output_pv missing_destination_pv : Exception
  ini_parser_missing_section ini_parser_syntax_error : Exception
  control_system_not_found driver_does_not_export_registration_functions : Exception
  runtime_error logic_error other_error : Exception

-- What `catch(std::runtime_error&)` takes: that class and all that derive from it.
abbrev pub is_runtime_error : Exception → Bool
is_runtime_error logic_error = false
is_runtime_error other_error = false
is_runtime_error _ = true

-- What `catch(StateMachineRollBack&)` takes.
abbrev pub is_roll_back : Exception → Bool
is_roll_back state_machine_roll_back = true
is_roll_back _ = false

-- `logLevel_t`, whose underlying values grow with the severity.
pub data LogLevel : Type 0 where
  debug info warning error none : LogLevel

abbrev pub level_value : LogLevel → ℕ
level_value debug = 0
level_value info = 1
level_value warning = 2
level_value error = 3
level_value none = 4

pub data NodeType : Type 0 where
  generic input_channel output_channel data_source_channel data_sink_channel state_machine :
      NodeType

-- A value that a function returns, or the exception that it throws.
pub data Result (A : Type 0) : Type 0 where
  ok : A → Result A
  err : Exception → Result A

-- `inputPvType_t` and `outputPvType_t`
pub data InputPvType : Type 0 where
  generic get_local_state get_global_state : InputPvType

pub data OutputPvType : Type 0 where
  generic set_local_state : OutputPvType

-- The class of a PV, with its type.
pub data PvClass : Type 0 where
  input : InputPvType → PvClass
  output : OutputPvType → PvClass

infixl 5 ◌>>=◌
abbrev pub ◌>>=◌ : {A B : Type 0} → Result A → (A → Result B) → Result B
ok a >>= f = f a
err e >>= f = err e
