-- ===== src/Oscilloscope/Acquiring.antt =====
-- The state machine of a wave with its acquisition thread: requests, transition threads and the
-- system's resources as interleaved steps, in which a transition runs the function of the wave.
use nds.Prelude.{
  ℕ, ◌≡◌, refl, inl, inr, Bool, true, false, Option, none, some, List, [], ◌∷◌, ◌++◌, arith,
  if◌then◌else◌, Bool-cases, Option-cases,
}
use nds.Types.{Timespec, State, running, stopping, fault, state_eq, is_roll_back, is_runtime_error}
use nds.StateMachine.{
  StateMachine, StateChange, Transition, Outcome, returned, threw, begun, enter, find_transition,
  begin_transition, settle, initialize,
}
use nds.StateMachine.Diagram.{
  Edge, switching_on, turning_off, starting_up, stopping_down, recovering,
}
use nds.Oscilloscope.{Wave, Channel, read_clock, channel_machine}

-- There is an acquisition thread.
abbrev pub acquires : State → Bool
acquires running = true
acquires stopping = true
acquires _ = false

-- The acquisition thread is there just in the states that acquire.
abbrev pub Threaded : State → Wave → Type 0
Threaded l x = (x.joinable ≡ acquires l) × (x.terminated ≡ false)

pub acquires-depart : {a v b : State} → Edge a v b → acquires v ≡ acquires a
acquires-depart switching_on = refl
acquires-depart turning_off = refl
acquires-depart starting_up = refl
acquires-depart stopping_down = refl
acquires-depart recovering = refl

-- The state that a transition ends in, from `via`, by how its function ends.
abbrev pub ended_state : State → State → State → Outcome → State
ended_state via initial final returned = final
ended_state via initial final (threw e) =
    if is_roll_back e then initial else (if is_runtime_error e then fault else via)

-- A transition under way, and how its function has ended, where it has.
pub record Flight (F : Type 0) : Type 0 where
  pub transition : Transition (Channel F)
  pub ended : Option Outcome

pub record Acquiring (F : Type 0) : Type 0 where
  pub machine : StateMachine (Channel F)
  pub world : Channel F
  pub flights : List (Flight F)

module _ {F : Type 0} where
  abbrev pub due_state : State → Transition (Channel F) → Option Outcome → State
  due_state l t none = l
  due_state l t (some o) = ended_state l t.initial_state t.final_state o

  -- The local state, or the one that the machine is about to take, where the function of the transition
  -- under way has ended.
  abbrev pub due : State → List (Flight F) → State
  due l [] = l
  due l (x ∷ rest) = due_state l x.transition x.ended

module _ {F : Type 0} (clock : ℕ → Timespec) (uninit : Timespec) where
  -- The function of a transition has run, outside the state mutex.
  abbrev pub ran :
      Acquiring F → Transition (Channel F) → List (Flight F) → List (Flight F) → Acquiring F
  ran s t before after =
      let (w, o) = t.function s.world in
      record {
        machine = s.machine;
        world = w;
        flights = before ++ record { transition = t; ended = some o } ∷ after;
      }

  -- The machine has taken the end of a transition, under the state mutex.
  abbrev pub settled :
      Acquiring F → Transition (Channel F) → Outcome → List (Flight F) → Acquiring F
  settled s t o flights =
      let (m, w) = settle s.machine t.initial_state t.final_state o s.world in
      record { machine = m; world = w; flights = flights }

  -- A step; the function of the wave, which nothing else disturbs, runs where it ends. A request whose
  -- thread cannot be launched leaves the machine in the intermediate state.
  pub data Happens (s : Acquiring F) : Acquiring F → Type 0 where
    request :
        (children : Timespec × State) (new : State) (m : StateMachine (Channel F)) (w : Channel F)
        (f : StateChange (Channel F))
        → begin_transition s.machine children new s.world ≡ begun m w f
        → s.machine.can_launch w ≡ true
        → Happens s (record {
          machine = m;
          world = w;
          flights =
              record {
                transition = record {
                  initial_state = s.machine.local_state;
                  final_state = new;
                  function = f;
                };
                ended = none;
              }
              ∷ s.flights;
        })
    stranded :
        (children : Timespec × State) (new : State) (m : StateMachine (Channel F)) (w : Channel F)
        (f : StateChange (Channel F))
        → begin_transition s.machine children new s.world ≡ begun m w f
        → s.machine.can_launch w ≡ false
        → Happens s (record { machine = m; world = w; flights = s.flights })
    run :
        (before after : List (Flight F)) (t : Transition (Channel F))
        → s.flights ≡ before ++ record { transition = t; ended = none } ∷ after
        → Happens s (ran s t before after)
    settles :
        (before after : List (Flight F)) (t : Transition (Channel F)) (o : Outcome)
        → s.flights ≡ before ++ record { transition = t; ended = some o } ∷ after
        → Happens s (settled s t o (before ++ after))
    resources :
        (b : Bool)
        → Happens s (record s {
          world = record (s.world) { wave = record (s.world.wave) { can_launch = b } };
        })

  pub data Leads (s : Acquiring F) : Acquiring F → Type 0 where
    here : Leads s s
    next : {t u : Acquiring F} → Leads s t → Happens t u → Leads s u

  abbrev pub own : StateMachine (Channel F)
  own = channel_machine clock uninit

  -- The wave after `initialize`.
  abbrev pub boot : Channel F → Acquiring F
  boot c = record { machine = (initialize own c).0; world = (initialize own c).1; flights = [] }

  pub data Flying (l : State) : List (Flight F) → Type 0 where
    idle : Flying l []
    one :
        (x : Flight F)
        → find_transition own x.transition.initial_state x.transition.final_state
          ≡ some (l, x.transition.function)
        → Flying l (x ∷ [])

  pub record Sound (s : Acquiring F) : Type 0 where
    pub functions : (a b : State) → find_transition s.machine a b ≡ find_transition own a b
    pub time : s.machine.get_timestamp ≡ read_clock clock
    pub flying : Flying s.machine.local_state s.flights
    pub threaded : Threaded (due s.machine.local_state s.flights) s.world.wave

  -- Where a call begins a transition.
  pub begun-found :
      (m : StateMachine (Channel F)) (children : Timespec × State) (new : State) (w : Channel F)
      {m' : StateMachine (Channel F)} {w' : Channel F} {f : StateChange (Channel F)}
      → begin_transition m children new w ≡ begun m' w' f
      → (via : State) × (find_transition m m.local_state new ≡ some (via, f))
        × (m' ≡ (enter m via w).0)
        × (w' ≡ (enter m via w).1)
  unfolding begin_transition
  begun-found m children new w h = elim (Bool-cases (state_eq m.local_state new)) [
    | inl same ↦ absurd (ground arith)
    | inr differs ↦ elim (Option-cases (find_transition m m.local_state new)) [
      | inl missing ↦ absurd (ground arith)
      | inr ((via, g), found) ↦ (via, ground arith, ground arith, ground arith)
    ]
  ]

  pub enter-functions :
      (m : StateMachine (Channel F)) (s : State) (w : Channel F) (a b : State)
      → find_transition (enter m s w).0 a b ≡ find_transition m a b
  unfolding enter find_transition
  enter-functions m s w a b = refl

  pub enter-wave :
      (m : StateMachine (Channel F)) (s : State) (w : Channel F)
      → m.get_timestamp ≡ read_clock clock
      → ((enter m s w).1.wave ≡ w.wave) × ((enter m s w).0.get_timestamp ≡ read_clock clock)
  unfolding enter read_clock
  enter-wave m s w h = (rw h refl, h)

  -- What the end of a transition leaves.
  pub record Settled (m : StateMachine (Channel F)) (w : Channel F)
      (r : StateMachine (Channel F) × Channel F) : Type 0 where
    pub same : (a b : State) → find_transition r.0 a b ≡ find_transition m a b
    pub clocked : r.0.get_timestamp ≡ read_clock clock
    pub wave : r.1.wave ≡ w.wave

  pub enter-Settled :
      (m : StateMachine (Channel F)) (s : State) (w : Channel F)
      → m.get_timestamp ≡ read_clock clock
      → Settled m w (enter m s w)
  enter-Settled m s w h = record {
    same = enter-functions m s w;
    clocked = (enter-wave m s w h).1;
    wave = (enter-wave m s w h).0;
  }

  pub settle-Settled :
      (m : StateMachine (Channel F)) (initial final : State) (o : Outcome) (w : Channel F)
      → m.get_timestamp ≡ read_clock clock
      → Settled m w (settle m initial final o w)
  unfolding settle
  settle-Settled m initial final returned w h = enter-Settled m final w h
  settle-Settled m initial final (threw e) w h = elim (Bool-cases (is_roll_back e)) [
    | inl r ↦ rw r (enter-Settled m initial w h)
    | inr r ↦ elim (Bool-cases (is_runtime_error e)) [
      | inl t ↦ rw (r, t) (enter-Settled m fault w h)
      | inr t ↦ rw (r, t) (record { same = λ a b. refl; clocked = h; wave = refl })
    ]
  ]

  pub settle-ended_state :
      (m : StateMachine (Channel F)) (initial final : State) (o : Outcome) (w : Channel F)
      → (settle m initial final o w).0.local_state ≡ ended_state m.local_state initial final o
  unfolding settle enter
  settle-ended_state m initial final returned w = refl
  settle-ended_state m initial final (threw e) w = ground arith
