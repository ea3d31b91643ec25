-- ===== src/Tests/Pv.antt =====
-- Two input PVs and an output PV: registrations, links and pushes.
use nds.Prelude.{
  ℕ, ◌/◌, ◌≡◌, refl, List, [], ◌∷◌, arith, Text, lookup, insert, text_eq, if◌then◌else◌, ◌==◌,
}
use nds.Types.{logic_error, ok, err, Timespec, pv_already_declared}
use nds.Registry.{InputPv, Registry, register_input_pv, subscribe_pv, replicate_pv}
use nds.Registry.Links.{SubscribeCase, subscribe_pv-SubscribeCase}
use nds.Registry.Consistent.{Consistent}
use nds.Registry.History.{Reach, Step, empty, Reach-Consistent}
use nds.Values.{served, thrown}
use nds.Push.{
  Write, thrown_out, to_control_system, decimate, to_subscribers, write_outputs, pass_on,
  set_decimation, deadlock, push,
}
use nds.Push.Decimation.{delivered, period, delivered-set_decimation}
use nds.Push.Replication.{outputs, spread}
use nds.Push.Circle.{self_replication_deadlocks}

abbrev input : ℕ → List ℕ → List ℕ → InputPv
input n subs dests = record {
  full_name = n ∷ [];
  decimation_factor = 1;
  decimation_count = 1;
  subscribers = subs;
  destinations = dests;
}

-- PV 0 pushes to the output PV 9 and to the input PV 1, which pushes to the output PV 8.
abbrev memory : ℕ → InputPv
memory i =
    if i == 0
    then input 0 (9 ∷ []) (1 ∷ [])
    else (if i == 1 then input 1 (8 ∷ []) [] else input i [] [])

abbrev bare : ℕ → InputPv
bare i = input i [] []

abbrev output_names : ℕ → Text
output_names o = 100 ∷ o ∷ []

abbrev one_input : Registry
one_input = record (empty bare output_names) { registered_inputs = (0 ∷ [], 0) ∷ [] }

one_input-Reach : Reach (empty bare output_names) one_input
unfolding register_input_pv lookup insert
one_input-Reach = Reach.next Reach.here (Step.register_in 0 refl refl refl)

twice_declared : register_input_pv 0 one_input ≡ err pv_already_declared
unfolding register_input_pv lookup text_eq
twice_declared = refl

Reach-Consistent_example : Consistent one_input
Reach-Consistent_example = Reach-Consistent bare output_names one_input-Reach

subscribe_pv-SubscribeCase_example :
    SubscribeCase (0 ∷ []) 9 one_input (subscribe_pv (0 ∷ []) 9 one_input)
subscribe_pv-SubscribeCase_example = subscribe_pv-SubscribeCase (0 ∷ []) 9 one_input

delivered-set_decimation_example : delivered 10 (set_decimation 3 (input 0 [] [])) ≡ 10 / period 3
delivered-set_decimation_example = delivered-set_decimation 10 3 (input 0 [] []) (omega arith)

abbrev now : Timespec
now = record { tv_sec = 1; tv_nsec = 0 }

abbrev answer : ℕ
answer = 42

-- Every write comes back.
abbrev all_served : Write ℕ
all_served effects o ts v = served tt

-- The write to the output PV 9 throws, and the destinations get nothing.
abbrev nine_throws : Write ℕ
nine_throws effects o ts v = if o == 9 then thrown logic_error else served tt

abbrev rank : ℕ → ℕ
rank i = if i == 0 then 1 else 0

throwing_write :
    let r = push nine_throws 5 [] now answer 0 (record { inputs = memory; effects = [] }) in
    (r.1 ≡ thrown_out logic_error) × (outputs r.0.effects ≡ 9 ∷ [])
unfolding push to_control_system decimate to_subscribers write_outputs pass_on
throwing_write = (refl, refl)

spread_runs : spread 5 memory 0 ≡ 9 ∷ 8 ∷ []
unfolding spread
spread_runs = refl

self_replication_deadlocks_example :
    (t : Registry) × (replicate_pv (0 ∷ []) 0 one_input ≡ ok t)
    × ((push all_served 2 [] now answer 0 (record { inputs = t.inputs; effects = [] })).1
        ≡ deadlock)
unfolding lookup text_eq
self_replication_deadlocks_example =
    self_replication_deadlocks all_served now answer one_input 0 0 (λ effects o. refl) refl refl
