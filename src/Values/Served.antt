-- ===== src/Values/Served.antt =====
-- Which types a PV of a type serves, and what a write leaves to be read.
use nds.Prelude.{◌≡◌, refl, sym, ap, subst, ◌∙◌, ◌⊎◌, inl, inr, arith}
use nds.Types.{Timespec}
use nds.Values.{
  DataType, int32, float64, int8_array, uint8_array, int32_array, float64_array, string, Data,
  Access, served, terminated, Reader, Writer, bytes_of_string, read, write, Variable, variable_read,
  variable_write,
}

-- A PV of the type `t` serves calls with the type `r`.
pub data Serves : DataType → DataType → Type 0 where
  same : {t : DataType} → Serves t t
  text_as_bytes : Serves string uint8_array
  bytes_as_signed : Serves uint8_array int8_array
  text_as_signed : Serves string int8_array

-- The value of the PV as the call gives it.
abbrev pub carried : (F : Type 0) → {t r : DataType} → Serves t r → Data F t → Data F r
carried F same v = v
carried F text_as_bytes v = v
carried F bytes_as_signed v = v
carried F text_as_signed v = v

-- Either the type is served, or no call with it comes back.
pub served_or_not :
    (F W : Type 0) (t r : DataType)
    → Serves t r
      ⊎ (((own : Reader F W t)
            → (slot : Timespec × Data F r) → (w : W) → read F W t r own slot w ≡ (w, terminated))
          × ((own : Writer F W t)
              → (ts : Timespec) → (v : Data F r) → (w : W)
              → write F W t r own ts v w ≡ (w, terminated)))
unfolding read write bytes_of_string
served_or_not F W int32 int32 = inl same
served_or_not F W float64 float64 = inl same
served_or_not F W int8_array int8_array = inl same
served_or_not F W uint8_array uint8_array = inl same
served_or_not F W int32_array int32_array = inl same
served_or_not F W float64_array float64_array = inl same
served_or_not F W string string = inl same
served_or_not F W string uint8_array = inl text_as_bytes
served_or_not F W uint8_array int8_array = inl bytes_as_signed
served_or_not F W string int8_array = inl text_as_signed
served_or_not F W _ _ = inr (λ own slot w. refl, λ own ts v w. refl)

read-same : (F W : Type 0) (t : DataType) (own : Reader F W t) → read F W t t own ≡ own
unfolding read
read-same F W int32 own = refl
read-same F W float64 own = refl
read-same F W int8_array own = refl
read-same F W uint8_array own = refl
read-same F W int32_array own = refl
read-same F W float64_array own = refl
read-same F W string own = refl

pub write-same : (F W : Type 0) (t : DataType) (own : Writer F W t) → write F W t t own ≡ own
unfolding write
write-same F W int32 own = refl
write-same F W float64 own = refl
write-same F W int8_array own = refl
write-same F W uint8_array own = refl
write-same F W int32_array own = refl
write-same F W float64_array own = refl
write-same F W string own = refl

-- Reading a variable PV with the type `r`.
abbrev pub read_variable :
    (F : Type 0)
    → (t r : DataType) → Timespec × Data F r
    → Variable F t
    → Variable F t × Access (Timespec × Data F r)
read_variable F t r = read F (Variable F t) t r (variable_read F t)

abbrev pub write_variable :
    (F : Type 0)
    → (t r : DataType) → Timespec
    → Data F r
    → Variable F t
    → Variable F t × Access Unit
write_variable F t r = write F (Variable F t) t r (variable_write F t)

read-served :
    (F : Type 0) {t r : DataType} (s : Serves t r) (slot : Timespec × Data F r) (x : Variable F t)
    → read_variable F t r slot x ≡ (x, served (x.timestamp, carried F s x.value))
unfolding read bytes_of_string variable_read
read-served F (same {t}) slot x =
    ap (λ own. own slot x) (read-same F (Variable F t) t (variable_read F t))
read-served F text_as_bytes slot x = refl
read-served F bytes_as_signed slot x = refl
read-served F text_as_signed slot x = refl

-- A read of a variable PV leaves it as it is. It gives the stored timestamp and value where the type
-- asked for is the PV's own, or is one of bytes and the PV has a string, or is one of signed bytes and
-- the PV has unsigned ones; any other type ends the process.
pub read_variable-Serves :
    (F : Type 0) (t r : DataType) (slot : Timespec × Data F r) (x : Variable F t)
    → ((s : Serves t r) × (read_variable F t r slot x
          ≡ (x, served (x.timestamp, carried F s x.value))))
      ⊎ ((Serves t r → ⊥) × (read_variable F t r slot x ≡ (x, terminated)))
read_variable-Serves F t r slot x = elim (served_or_not F (Variable F t) t r) [
  | inl s ↦ inl (s, read-served F s slot x)
  | inr refuses ↦
      let ended = refuses.0 (variable_read F t) slot x in
      inr (
        (λ s.
            let both : served (x.timestamp, carried F s x.value) ≡ terminated =
              ap (λ a. a.1) (sym (read-served F s slot x) ∙ ended) in
            absurd (ground arith)),
        ended,
      )
]

pub write-served :
    (F : Type 0) {t r : DataType} (s : Serves t r) (ts : Timespec) (v : Data F r) (x : Variable F t)
    → (y : Variable F t) × (write_variable F t r ts v x ≡ (y, served tt))
      × ((slot : Timespec × Data F r) → read_variable F t r slot y ≡ (y, served (ts, v)))
unfolding read write bytes_of_string variable_read variable_write
write-served F (same {t}) ts v x = (
  record { value = v; timestamp = ts },
  ap (λ own. own ts v x) (write-same F (Variable F t) t (variable_write F t)),
  λ slot.
      ap (λ own. own slot (record { value = v; timestamp = ts }))
        (read-same F (Variable F t) t (variable_read F t)),
)
write-served F text_as_bytes ts v x = (record { value = v; timestamp = ts }, refl, λ slot. refl)
write-served F bytes_as_signed ts v x = (record { value = v; timestamp = ts }, refl, λ slot. refl)
write-served F text_as_signed ts v x = (record { value = v; timestamp = ts }, refl, λ slot. refl)

-- What a variable output PV of a type that is served has after a write: a read with the type of the
-- write gives the timestamp and the value that were written.
pub write_variable-read_variable :
    (F : Type 0) (t r : DataType) (ts : Timespec) (v : Data F r) (slot : Timespec × Data F r)
    (x : Variable F t)
    → Serves t r
    → ((write_variable F t r ts v x).1 ≡ served tt)
      × (read_variable F t r slot (write_variable F t r ts v x).0
          ≡ ((write_variable F t r ts v x).0, served (ts, v)))
write_variable-read_variable F t r ts v slot x s =
    let (y, wrote, reads) = write-served F s ts v x in
    (
      ap (λ a. a.1) wrote,
      subst (λ z. read_variable F t r slot z ≡ (z, served (ts, v))) (sym (ap (λ a. a.0) wrote))
          (reads slot),
    )
