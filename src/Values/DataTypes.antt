-- ===== src/Values/DataTypes.antt =====
-- getDataTypeForCPPType of include/nds3/impl/pvBaseImpl.h, which getDataType of the PVs gives.
use nds.Prelude.{
  ℕ, ◌+◌, ◌*◌, ℤ, ◌≡◌, refl, ap, Option, none, some, List, arith, ◌==◌, if◌then◌else◌, Text,
}
use nds.Values.{
  DataType, int32, float64, int8_array, uint8_array, int32_array, float64_array, string, Data,
}

-- The types that the PV templates may be given; `other` is any type that is none of those.
pub data CppType : Type 0 where
  int32_t double vector_int8 vector_uint8 vector_int32 vector_double std_string : CppType
  other : ℕ → CppType

-- The values of a type, where `F` are those of `double`, and `O` those of the other types.
abbrev pub Value : (F : Type 0) → (O : ℕ → Type 0) → CppType → Type 0
Value F O int32_t = ℤ
Value F O double = F
Value F O vector_int8 = List ℕ
Value F O vector_uint8 = List ℕ
Value F O vector_int32 = List ℤ
Value F O vector_double = List F
Value F O std_string = Text
Value F O (other n) = O n

-- int(std::is_same<T, U>::value)
unfoldable pub is_same : CppType → CppType → ℕ
is_same int32_t int32_t = 1
is_same double double = 1
is_same vector_int8 vector_int8 = 1
is_same vector_uint8 vector_uint8 = 1
is_same vector_int32 vector_int32 = 1
is_same vector_double vector_double = 1
is_same std_string std_string = 1
is_same (other m) (other n) = if m == n then 1 else 0
is_same _ _ = 0

-- (int)dataType
abbrev pub data_type_value : DataType → ℕ
data_type_value int32 = 1
data_type_value float64 = 2
data_type_value int8_array = 3
data_type_value uint8_array = 4
data_type_value int32_array = 5
data_type_value float64_array = 6
data_type_value string = 7

-- (dataType_t)type, of a number that is none of an enumerator's where it is `none`.
abbrev pub data_type_of : ℕ → Option DataType
data_type_of n =
    if n == 1
    then some int32
    else (if n == 2
        then some float64
        else (if n == 3
            then some int8_array
            else (if n == 4
                then some uint8_array
                else (if n == 5
                    then some int32_array
                    else (if n == 6
                        then some float64_array
                        else (if n == 7 then some string else none))))))

-- The constant `type`.
unfoldable pub type_sum : CppType → ℕ
type_sum t =
    is_same t int32_t * data_type_value int32
    + is_same t double * data_type_value float64
    + is_same t vector_int8 * data_type_value int8_array
    + is_same t vector_uint8 * data_type_value uint8_array
    + is_same t vector_int32 * data_type_value int32_array
    + is_same t vector_double * data_type_value float64_array
    + is_same t std_string * data_type_value string

-- `none` is the static_assert that stops the compilation.
unfoldable pub get_data_type_for_cpp_type : CppType → Option DataType
get_data_type_for_cpp_type t = if type_sum t == 0 then none else data_type_of (type_sum t)

-- The type of a PV whose data type is the one given.
made_for : DataType → CppType
made_for int32 = int32_t
made_for float64 = double
made_for int8_array = vector_int8
made_for uint8_array = vector_uint8
made_for int32_array = vector_int32
made_for float64_array = vector_double
made_for string = std_string

made_for-type : (t : DataType) → get_data_type_for_cpp_type (made_for t) ≡ some t
unfolding made_for get_data_type_for_cpp_type type_sum is_same
made_for-type int32 = refl
made_for-type float64 = refl
made_for-type int8_array = refl
made_for-type uint8_array = refl
made_for-type int32_array = refl
made_for-type float64_array = refl
made_for-type string = refl

made_for-Value : (F : Type 0) (O : ℕ → Type 0) (t : DataType) → Value F O (made_for t) ≡ Data F t
unfolding made_for
made_for-Value F O int32 = refl
made_for-Value F O float64 = refl
made_for-Value F O int8_array = refl
made_for-Value F O uint8_array = refl
made_for-Value F O int32_array = refl
made_for-Value F O float64_array = refl
made_for-Value F O string = refl

-- The numbers and texts that a type is made of.
pub data Number : Type 0 where
  signed : (bits : ℕ) → Number
  unsigned : (bits : ℕ) → Number
  floating : (bits : ℕ) → Number

pub data Shape : Type 0 where
  one : Number → Shape
  array : Number → Shape
  characters : Shape

-- What a C++ type is, by the language; nothing is known of another type.
abbrev pub cpp_shape : CppType → Option Shape
cpp_shape int32_t = some (one (signed 32))
cpp_shape double = some (one (floating 64))
cpp_shape vector_int8 = some (array (signed 8))
cpp_shape vector_uint8 = some (array (unsigned 8))
cpp_shape vector_int32 = some (array (signed 32))
cpp_shape vector_double = some (array (floating 64))
cpp_shape std_string = some characters
cpp_shape (other n) = none

-- What the comments on dataType_t say of each data type.
abbrev pub documented_shape : DataType → Shape
documented_shape int32 = one (signed 32)
documented_shape float64 = one (floating 64)
documented_shape int8_array = array (signed 8)
documented_shape uint8_array = array (unsigned 8)
documented_shape int32_array = array (signed 32)
documented_shape float64_array = array (floating 64)
documented_shape string = characters

made_for-shape : (t : DataType) → cpp_shape (made_for t) ≡ some (documented_shape t)
unfolding made_for
made_for-shape int32 = refl
made_for-shape float64 = refl
made_for-shape int8_array = refl
made_for-shape uint8_array = refl
made_for-shape int32_array = refl
made_for-shape float64_array = refl
made_for-shape string = refl

some-same : {s t : DataType} → ◌≡◌ {A = Option DataType} (some s) (some t) → s ≡ t
some-same h = cc

only_made_for :
    (u : CppType) (t : DataType) → get_data_type_for_cpp_type u ≡ some t → u ≡ made_for t
unfolding made_for get_data_type_for_cpp_type type_sum is_same
only_made_for int32_t t h = ap made_for (some-same {s = int32} h)
only_made_for double t h = ap made_for (some-same {s = float64} h)
only_made_for vector_int8 t h = ap made_for (some-same {s = int8_array} h)
only_made_for vector_uint8 t h = ap made_for (some-same {s = uint8_array} h)
only_made_for vector_int32 t h = ap made_for (some-same {s = int32_array} h)
only_made_for vector_double t h = ap made_for (some-same {s = float64_array} h)
only_made_for std_string t h = ap made_for (some-same {s = string} h)
only_made_for (other n) t h = absurd (ground arith)

-- Each data type is declared by the PVs of exactly one C++ type. That type is of the shape that the
-- comment on the data type says, signedness and bits included, and has the values that the data type
-- stands for.
pub get_data_type_for_cpp_type-Value :
    (F : Type 0) (O : ℕ → Type 0) (t : DataType)
    → (u : CppType) × (get_data_type_for_cpp_type u ≡ some t)
      × (cpp_shape u ≡ some (documented_shape t))
      × (Value F O u ≡ Data F t)
      × ((v : CppType) → get_data_type_for_cpp_type v ≡ some t → v ≡ u)
get_data_type_for_cpp_type-Value F O t =
    (made_for t, made_for-type t, made_for-shape t, made_for-Value F O t, λ v. only_made_for v t)
