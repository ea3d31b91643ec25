-- ===== src/Tests/Acquisition.antt =====
-- An acquisition that starts with a decimation of 3, and one with a negative decimation.
use nds.Prelude.{ℕ, suc, ◌-◌, ◌/◌, ◌^◌, ℤ, pos, negsuc, ◌≡◌, refl, [], ◌∷◌, arith, Text}
use nds.Types.{Timespec, Result, ok}
use nds.Push.Decimation.{delivered, period}
use nds.Registry.{InputPv}
use nds.Acquisition.{Acquisition, new_acquisition, to_uint32, on_start, get_decimation}
use nds.Acquisition.Started.{on_start-delivered}

abbrev never : Timespec
never = record { tv_sec = 0; tv_nsec = 0 }

-- "Acq"
abbrev acquisition_name : Text
acquisition_name = 65 ∷ 99 ∷ 113 ∷ []

abbrev data_pv : InputPv
data_pv = record {
  full_name = [];
  decimation_factor = 1;
  decimation_count = 1;
  subscribers = [];
  destinations = [];
}

abbrev acquisition : ℤ → Acquisition ℕ
acquisition d = record (new_acquisition 0 1 never never data_pv 10) {
  decimation = record { value = d; timestamp = never };
}

-- The world counts the calls.
abbrev clock : ℕ → ℕ × Timespec
clock w = (suc w, record { tv_sec = w; tv_nsec = 0 })

abbrev begin : ℕ → ℕ × Result Unit
begin w = (suc w, ok tt)

negative_decimation : get_decimation (acquisition (negsuc 0)) ≡ 2 ^ 64 - 1
negative_decimation = refl

on_start-delivered_example :
    (delivered 10 (on_start clock begin (acquisition (pos 3)) 7).0.data_pv
      ≡ 10 / period (to_uint32 (acquisition (pos 3)).decimation.value))
    × ((on_start clock begin (acquisition (pos 3)) 7).0.start_time ≡ (clock 7).1)
    × ((on_start clock begin (acquisition (pos 3)) 7).1 ≡ (begin (clock 7).0).0)
    × ((on_start clock begin (acquisition (pos 3)) 7).2 ≡ (begin (clock 7).0).1)
on_start-delivered_example = on_start-delivered clock begin (acquisition (pos 3)) 7 10 (omega arith)
