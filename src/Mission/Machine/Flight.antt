-- ===== src/Mission/Machine/Flight.antt =====
-- state_machine.py as its caller drives it: the caller keeps the state, calls `tick` with what it
-- returned last, and may call `reset_timing` between two ticks. The log is newest first.
use patrol_drone.Prelude.{◌≡◌, List, [], ◌∷◌, Result, ok, ◌>>=◌, Ensures, Ensures-bind, Ensures-map}
use patrol_drone.Float.{Float}
use patrol_drone.Mission.States.{MissionState, idle, Telemetry, Command}
use patrol_drone.Mission.Machine.{MachineError, Machine, Step, tick, reset_timing}
use patrol_drone.Mission.Machine.Range.{InRange, tick-InRange, reset_timing-InRange}

module _ ⦃fl : Float⦄ where
  pub record Entry : Type 0 where
    pub before : MissionState
    pub telem : Telemetry
    pub after : MissionState
    pub command : Command
    pub machine : Machine

  pub record Flight : Type 0 where
    pub state : MissionState
    pub machine : Machine
    pub log : List Entry

  pub data Input : Type 0 where
    ticks : Telemetry → Input
    resumes : Input

  abbrev pub entry : MissionState → Telemetry → Step → Entry
  entry s t (s', c, m) = record { before = s; telem = t; after = s'; command = c; machine = m }

  abbrev pub logged : Flight → Telemetry → Step → Flight
  logged f t r = record { state = r.0; machine = r.2; log = entry f.state t r ∷ f.log }

  unfoldable pub fly : Flight → Input → Result MachineError Flight
  fly f (ticks t) = do r ← tick f.machine f.state t; ok (logged f t r)
  fly f resumes = ok (record f { machine = reset_timing f.machine })

  unfoldable pub run : Flight → List Input → Result MachineError Flight
  run f [] = ok f
  run f (i ∷ is) = do f' ← fly f i; run f' is

  abbrev pub parked : Machine → Flight
  parked m = record { state = idle; machine = m; log = [] }

  -- An invariant of single inputs holds at the end of a run, and the run returns.
  pub run_induction :
      (P : Flight → Type 0)
      → ((f : Flight) (i : Input) → P f → Ensures P (fly f i))
      → (f : Flight) (is : List Input) → P f
      → Ensures P (run f is)
  unfolding run
  run_induction P keep f [] h = h
  run_induction P keep f (i ∷ is) h =
      Ensures-bind P P (fly f i) (λ f'. run f' is) (keep f i h)
        (λ f' h'. run_induction P keep f' is h')

  -- An invariant that a tick keeps, in range, and that `reset_timing` keeps.
  pub fly-keeps :
      (P : Flight → Type 0)
      → ((f : Flight) (t : Telemetry) (r : Step)
          → InRange f.state f.machine
          → tick f.machine f.state t ≡ ok r
          → P f
          → P (logged f t r))
      → ((f : Flight) → P f → P (record f { machine = reset_timing f.machine }))
      → (f : Flight) (i : Input) → InRange f.state f.machine × P f
      → Ensures (λ g. InRange g.state g.machine × P g) (fly f i)
  unfolding fly
  fly-keeps P on_tick on_reset f (ticks t) h =
      Ensures-bind (λ r. InRange r.0 r.2 × P (logged f t r)) (λ g. InRange g.state g.machine × P g)
        (tick f.machine f.state t) (λ r. ok (logged f t r))
        (Ensures-map (λ r. InRange r.0 r.2) (λ r. InRange r.0 r.2 × P (logged f t r))
          (tick f.machine f.state t) (λ r e v. (v, on_tick f t r h.0 e h.1))
          (tick-InRange f.state f.machine t h.0))
        (λ r k. k)
  fly-keeps P on_tick on_reset f resumes h =
      (reset_timing-InRange f.state f.machine h.0, on_reset f h.1)

  pub run-keeps :
      (P : Flight → Type 0)
      → ((f : Flight) (t : Telemetry) (r : Step)
          → InRange f.state f.machine
          → tick f.machine f.state t ≡ ok r
          → P f
          → P (logged f t r))
      → ((f : Flight) → P f → P (record f { machine = reset_timing f.machine }))
      → (f : Flight) (is : List Input) → InRange f.state f.machine
      → P f
      → Ensures (λ g. InRange g.state g.machine × P g) (run f is)
  run-keeps P on_tick on_reset f is v h =
      run_induction (λ g. InRange g.state g.machine × P g) (fly-keeps P on_tick on_reset) f is
        (v, h)
