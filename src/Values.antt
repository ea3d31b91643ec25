-- ===== src/Values.antt =====
-- The values of the PVs and how they are read and written: src/pvBaseInImpl.cpp,
-- src/pvBaseOutImpl.cpp, src/pvBaseImpl.cpp, src/pvVariableInImpl.cpp, src/pvVariableOutImpl.cpp,
-- src/pvDelegateInImpl.cpp, src/pvDelegateOutImpl.cpp and src/pvActionImpl.cpp.
pub mod Served
pub mod Delivered
pub mod DataTypes
use nds.Prelude.{ℕ, ℤ, pos, List, [], ◌∷◌, Text, update}
use nds.Types.{Timespec, Exception}

-- `dataType_t`
pub data DataType : Type 0 where
  int32 float64 int8_array uint8_array int32_array float64_array string : DataType

-- The values of a type; `F` are those of `double`. An int8_t or uint8_t is given by its byte, so that
-- the casts between vectors of them, and the copies between those and a string, keep the list.
abbrev pub Data : Type 0 → DataType → Type 0
Data F int32 = ℤ
Data F float64 = F
Data F int8_array = List ℕ
Data F uint8_array = List ℕ
Data F int32_array = List ℤ
Data F float64_array = List F
Data F string = Text

-- How a call comes back: well, by an exception of the device's function, or not at all, since `throw;`
-- with no exception to throw again ends the process.
pub data Access (A : Type 0) : Type 0 where
  served : A → Access A
  thrown : Exception → Access A
  terminated : Access A

module _ (F W : Type 0) where
  -- The function takes what the caller's two variables hold, and gives what they hold afterwards.
  abbrev pub Reader : DataType → Type 0
  Reader t = Timespec × Data F t → W → W × Access (Timespec × Data F t)

  abbrev pub Writer : DataType → Type 0
  Writer t = Timespec → Data F t → W → W × Access Unit

  -- `throw;` in PVBaseInImpl::read, PVBaseOutImpl::read and PVBaseOutImpl::write.
  abbrev pub no_reader : (t : DataType) → Reader t
  no_reader t slot w = (w, terminated)

  abbrev pub no_writer : (t : DataType) → Writer t
  no_writer t ts v w = (w, terminated)

  -- The override of the PV's own type, and for any other type the base class's function that throws.
  abbrev pub exact_reader : (t r : DataType) → Reader t → Reader r
  exact_reader int32 int32 own = own
  exact_reader float64 float64 own = own
  exact_reader int8_array int8_array own = own
  exact_reader uint8_array uint8_array own = own
  exact_reader int32_array int32_array own = own
  exact_reader float64_array float64_array own = own
  exact_reader string string own = own
  exact_reader _ r own = no_reader r

  abbrev pub exact_writer : (t r : DataType) → Writer t → Writer r
  exact_writer int32 int32 own = own
  exact_writer float64 float64 own = own
  exact_writer int8_array int8_array own = own
  exact_writer uint8_array uint8_array own = own
  exact_writer int32_array int32_array own = own
  exact_writer float64_array float64_array own = own
  exact_writer string string own = own
  exact_writer _ r own = no_writer r

  -- The base class's read of bytes: a string that begins empty, then copied. An exception leaves the
  -- caller's vector, and the timestamp that the string's reader had not written.
  unfoldable pub bytes_of_string : Reader string → Reader uint8_array
  bytes_of_string read_string (ts, v) w = read_string (ts, []) w

  abbrev pub read_uint8 : (t : DataType) → Reader t → Reader uint8_array
  read_uint8 uint8_array own = own
  read_uint8 t own = bytes_of_string (exact_reader t string own)

  abbrev pub read_int8 : (t : DataType) → Reader t → Reader int8_array
  read_int8 int8_array own = own
  read_int8 t own = read_uint8 t own

  -- What `read` with a pointer to the type `r` does, of a PV of the type `t`.
  unfoldable pub read : (t r : DataType) → Reader t → Reader r
  read t int8_array own = read_int8 t own
  read t uint8_array own = read_uint8 t own
  read t r own = exact_reader t r own

  abbrev pub write_uint8 : (t : DataType) → Writer t → Writer uint8_array
  write_uint8 uint8_array own = own
  write_uint8 t own = exact_writer t string own

  abbrev pub write_int8 : (t : DataType) → Writer t → Writer int8_array
  write_int8 int8_array own = own
  write_int8 t own = write_uint8 t own

  -- What `write` of a value of the type `r` does to an output PV of the type `t`.
  unfoldable pub write : (t r : DataType) → Writer t → Writer r
  write t int8_array own = write_int8 t own
  write t uint8_array own = write_uint8 t own
  write t r own = exact_writer t r own

  -- PVBaseImpl::write, which is all that an input PV has.
  unfoldable pub write_input : (r : DataType) → Writer r
  write_input r = no_writer r

  -- dontInitialize: the caller's variables stay as they are.
  unfoldable pub dont_initialize : (t : DataType) → Reader t
  dont_initialize t slot w = (w, served slot)

-- `m_value` and `m_timestamp` of a variable PV.
pub record Variable (F : Type 0) (t : DataType) : Type 0 where
  pub value : Data F t
  pub timestamp : Timespec

-- `m_value()`, where `zero` is the double 0.
abbrev pub initial_value : (F : Type 0) → F → (t : DataType) → Data F t
initial_value F zero_f int32 = pos 0
initial_value F zero_f float64 = zero_f
initial_value F zero_f int8_array = []
initial_value F zero_f uint8_array = []
initial_value F zero_f int32_array = []
initial_value F zero_f float64_array = []
initial_value F zero_f string = []

unfoldable pub new_variable : (F : Type 0) → F → (t : DataType) → Variable F t
new_variable F zero_f t = record {
  value = initial_value F zero_f t;
  timestamp = record { tv_sec = 0; tv_nsec = 0 };
}

unfoldable pub variable_read : (F : Type 0) → (t : DataType) → Reader F (Variable F t) t
variable_read F t slot x = (x, served (x.timestamp, x.value))

unfoldable pub variable_write : (F : Type 0) → (t : DataType) → Writer F (Variable F t) t
variable_write F t ts v x = (record { value = v; timestamp = ts }, served tt)

-- An output PV: a variable one, or one that gives what is written to a function of the device, as the
-- delegate output PVs and the actions do. `W` is what these functions read and change.
pub data OutputPv (F W : Type 0) : Type 0 where
  variable_pv : (t : DataType) → Variable F t → OutputPv F W
  delegate_pv : (t : DataType) → Writer F W t → OutputPv F W

unfoldable pub write_output :
    (F W : Type 0)
    → (r : DataType) → Timespec
    → Data F r
    → OutputPv F W
    → W
    → OutputPv F W × W × Access Unit
write_output F W r ts v (variable_pv t x) w =
    let (y, answer) = write F (Variable F t) t r (variable_write F t) ts v x in
    (variable_pv t y, w, answer)
write_output F W r ts v (delegate_pv t own) w =
    let (w', answer) = write F W t r own ts v w in (delegate_pv t own, w', answer)

-- The output PVs by their addresses, the device, and how the writes end.
abbrev pub Written : (F W : Type 0) → Type 0
Written F W = (ℕ → OutputPv F W) × W × Access Unit

-- The loop over the subscribers goes on where the write before came back well.
abbrev pub after_write :
    {F W : Type 0} → (ℕ → OutputPv F W) → W → Access Unit → Written F W → Written F W
after_write h w (served u) rest = rest
after_write h w (thrown e) rest = (h, w, thrown e)
after_write h w terminated rest = (h, w, terminated)

unfoldable pub write_all :
    (F W : Type 0)
    → (r : DataType) → Timespec
    → Data F r
    → List ℕ
    → (ℕ → OutputPv F W)
    → W
    → Written F W
write_all F W r ts v [] h w = (h, w, served tt)
write_all F W r ts v (o ∷ os) h w =
    let (c, w', answer) = write_output F W r ts v (h o) w in
    let rest = write_all F W r ts v os (update h o c) w' in
    after_write (update h o c) w' answer rest

-- PVVariableInImpl::setValue, with the addresses of the subscribed output PVs.
unfoldable pub set_value :
    (F W : Type 0)
    → (t : DataType) → Timespec
    → Data F t
    → List ℕ
    → Variable F t
    → (ℕ → OutputPv F W)
    → W
    → Variable F t × Written F W
set_value F W t ts v subscribers x h w =
    (record { value = v; timestamp = ts }, write_all F W t ts v subscribers h w)
