-- ===== src/Mission/Commands.antt =====
-- ros2_ws/src/patrol_mission/patrol_mission/commands.py: which vehicle commands a tick sends.
use patrol_drone.Prelude.{Bool, ◌&&◌, List, [], ◌∷◌, ◌++◌, if◌then◌else◌}
use patrol_drone.Float.{Float}
use patrol_drone.Mission.States.{Command}

pub data Px4CommandKind : Type 0 where
  do_set_offboard do_arm do_land : Px4CommandKind

module _ ⦃fl : Float⦄ where
  open fl use {F, milli}

  pub record Px4Command : Type 0 where
    pub kind : Px4CommandKind
    pub param1 : F
    pub param2 : F

  abbrev pub set_offboard_command : Px4Command
  set_offboard_command = record { kind = do_set_offboard; param1 = milli 1000; param2 = milli 6000 }

  abbrev pub arm_command : Px4Command
  arm_command = record { kind = do_arm; param1 = milli 1000; param2 = milli 0 }

  abbrev pub land_command : Px4Command
  land_command = record { kind = do_land; param1 = milli 0; param2 = milli 0 }

  -- `if test: out.append(command)`
  abbrev append_if : Bool → Px4Command → List Px4Command → List Px4Command
  append_if test c out = if test then out ++ c ∷ [] else out

  unfoldable pub build_vehicle_commands : Command → Bool → Bool → List Px4Command
  build_vehicle_commands cmd warmup_elapsed offboard_requested =
      let warm =
        if warmup_elapsed
        then append_if (cmd.arm && offboard_requested) arm_command
            (append_if cmd.set_offboard set_offboard_command [])
        else [] in
      append_if cmd.land land_command warm
