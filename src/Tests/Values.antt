-- ===== src/Tests/Values.antt =====
-- A text read as bytes, and a number set in an input PV with two subscribers.
use nds.Prelude.{ℕ, zero, suc, pos, ◌≡◌, refl, ◌⊎◌, none, some, List, [], ◌∷◌, All}
use nds.Types.{Timespec}
use nds.Values.{
  int32, int8_array, string, Data, served, terminated, bytes_of_string, read, write, Variable,
  variable_read, variable_write, OutputPv, variable_pv, delegate_pv, Written, write_output,
  write_all, set_value, new_variable,
}
use nds.Values.Served.{Serves, carried, read_variable, read_variable-Serves}
use nds.Values.DataTypes.{
  CppType, other, Value, cpp_shape, characters, get_data_type_for_cpp_type,
  get_data_type_for_cpp_type-Value, type_sum, is_same,
}
use nds.Values.Delivered.{manner_of, Informed, Returns, Accepts, HasValue, set_value-HasValue}

abbrev time : Timespec
time = record { tv_sec = 5; tv_nsec = 0 }

-- "ab" in a PV of strings
abbrev words : Variable ℕ string
words = record { value = 97 ∷ 98 ∷ []; timestamp = time }

abbrev slot : Timespec × List ℕ
slot = (record { tv_sec = 0; tv_nsec = 0 }, [])

words_as_signed :
    read_variable ℕ string int8_array slot words ≡ (words, served (time, 97 ∷ 98 ∷ []))
unfolding read bytes_of_string variable_read
words_as_signed = refl

read_variable-Serves_example :
    ((s : Serves string int8_array) × (read_variable ℕ string int8_array slot words
        ≡ (words, served (words.timestamp, carried ℕ s words.value))))
    ⊎ ((Serves string int8_array → ⊥)
        × (read_variable ℕ string int8_array slot words ≡ (words, terminated)))
read_variable-Serves_example = read_variable-Serves ℕ string int8_array slot words

-- The output PVs: one of strings at the address 0, one that adds to the device's count at 1, and
-- numbers elsewhere.
abbrev outputs_of : ℕ → OutputPv ℕ ℕ
outputs_of zero = variable_pv string (new_variable ℕ 0 string)
outputs_of (suc zero) = delegate_pv int32 (λ ts v w. (suc w, served tt))
outputs_of (suc (suc n)) = variable_pv int32 (new_variable ℕ 0 int32)

-- A subscriber of strings does not take a number: the process ends.
number_to_string :
    (set_value ℕ ℕ int32 time (pos 3) (1 ∷ 0 ∷ []) (new_variable ℕ 0 int32) outputs_of 7).1.2
    ≡ terminated
unfolding set_value write_all write_output write variable_write
number_to_string = refl

abbrev set_three : Variable ℕ int32 × Written ℕ ℕ
set_three = set_value ℕ ℕ int32 time (pos 3) (1 ∷ 2 ∷ []) (new_variable ℕ 0 int32) outputs_of 7

count_told : set_three.1.1 ≡ 8
unfolding set_value write_all write_output write variable_write
count_told = refl

set_value-HasValue_example :
    (set_three.0 ≡ (record { value = pos 3; timestamp = time }))
    × (set_three.1.2 ≡ served tt
        → All (λ o. Accepts ℕ ℕ int32 time (pos 3) (manner_of (outputs_of o))) (1 ∷ 2 ∷ [])
          × Informed ℕ ℕ int32 time (pos 3) outputs_of (1 ∷ 2 ∷ []) 7 set_three.1.1
          × All (λ o. HasValue ℕ ℕ int32 time (pos 3) (set_three.1.0 o)) (1 ∷ 2 ∷ []))
    × (All
          (λ o.
            Accepts ℕ ℕ int32 time (pos 3) (manner_of (outputs_of o))
            × Returns ℕ ℕ int32 time (pos 3) (manner_of (outputs_of o)))
          (1 ∷ 2 ∷ [])
        → set_three.1.2 ≡ served tt)
set_value-HasValue_example =
    set_value-HasValue ℕ ℕ int32 time (pos 3) (1 ∷ 2 ∷ []) (new_variable ℕ 0 int32) outputs_of 7

get_data_type_for_cpp_type-Value_example :
    (u : CppType) × (get_data_type_for_cpp_type u ≡ some string)
    × (cpp_shape u ≡ some characters)
    × (Value ℕ (λ n. ℕ) u ≡ Data ℕ string)
    × ((v : CppType) → get_data_type_for_cpp_type v ≡ some string → v ≡ u)
get_data_type_for_cpp_type-Value_example = get_data_type_for_cpp_type-Value ℕ (λ n. ℕ) string

-- No PV of another type is compiled.
no_data_type : get_data_type_for_cpp_type (other 4) ≡ none
unfolding get_data_type_for_cpp_type type_sum is_same
no_data_type = refl
