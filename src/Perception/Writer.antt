-- ===== src/Perception/Writer.antt =====
-- capture_writer.py, with `build_sidecar` of capture_builder.py: the image and the sidecar of a capture,
-- in the directory of the run. A name in that directory is kept with what the file holds. How each
-- step of the file system ends is an argument.
pub mod Names
pub mod Kept
use Prim.Native.Char.{code}
use Prim.Native.Nat.{◌/◌, ◌%◌}
use text.Mathlib.Text.{◌==◌ as str_eq, starts_with}
use patrol_drone.Prelude.{
  ℕ, zero, suc, ◌==◌, true, false, err, ◌+◌, ltb, ◌||◌, not, ◌∷◌, ◌++◌, ◌>>◌, ◌>>=◌, String, Option,
  Bool, List, Result, [], none, some, ok, raise_if, if◌then◌else◌,
}
use patrol_drone.Float.{Float}
use patrol_drone.Mission.Frames.{Point, Quaternion}
use patrol_drone.Bags.Text.{◌<>◌, is_empty, strip, is_slash, any_char, path_parts}
use patrol_drone.Bags.Recorder.{is_backslash}
use patrol_drone.Perception.Samplers.{Time}
use patrol_drone.Perception.Resolver.{Metadata}
use patrol_drone.Perception.Coordinator.{CaptureRecord}

pub data WriterError : Type 0 where
  unsafe_run_id : WriterError

-- `_run_id_is_unsafe`
unfoldable pub run_id_is_unsafe : String → Bool
run_id_is_unsafe run_id =
    is_empty run_id
    || not (str_eq run_id (strip run_id))
    || any_char is_slash run_id
    || any_char is_backslash run_id
    || (str_eq run_id "." || str_eq run_id "..")

-- a decimal digit
abbrev pub digit : ℕ → String
digit d =
    if d == 0
    then "0"
    else if d == 1
    then "1"
    else if d == 2
    then "2"
    else if d == 3
    then "3"
    else if d == 4
    then "4"
    else if d == 5
    then "5"
    else if d == 6
    then "6"
    else if d == 7
    then "7"
    else if d == 8
    then "8"
    else "9"

-- The decimal digits of a number, with as many rounds as the first argument says.
unfoldable pub decimal : ℕ → ℕ → String
decimal zero n = ""
decimal (suc fuel) n =
    let rest = decimal fuel (n / 10) in if ltb n 10 then digit n else rest <> digit (n % 10)

-- f"{n:03d}"
unfoldable pub pad3 : ℕ → String
pad3 n =
    let s = decimal (suc n) n in if ltb n 10 then "00" <> s else if ltb n 100 then "0" <> s else s

-- `os.path.basename`: what is after the last slash
abbrev pub basename : String → String
basename String.[] = ""
basename (String.◌∷◌ c s) =
    let rest = basename s in
    if any_char is_slash s then rest else if is_slash (code c) then s else String.◌∷◌ c s

-- the root that `Path` keeps of a path: two slashes at its front stay two
abbrev pub root_of : String → String
root_of s =
    if starts_with s "///"
    then "/"
    else if starts_with s "//"
    then "//"
    else if starts_with s "/"
    then "/"
    else ""

abbrev pub join : List String → String
join [] = ""
join (p ∷ []) = p
join (p ∷ q ∷ ps) = p <> ("/" <> join (q ∷ ps))

-- `str(Path(root) / name)`, of a name that is one component
unfoldable pub child_path : String → String → String
child_path root name = root_of root <> join (path_parts root ++ name ∷ [])

-- The name of a file of a capture: NNN_<checkpoint_id>, with the extension.
abbrev pub file_name : ℕ → String → String → String
file_name index checkpoint_id extension = pad3 index <> ("_" <> (checkpoint_id <> extension))

-- How one step of the file system ends: well, with an OSError that leaves the file as it was, or with
-- one that leaves a part of it.
pub data Ending : Type 0 where
  done refused torn : Ending

pub record Trouble : Type 0 where
  pub mkdir_fails : Bool
  pub image : Ending
  pub sidecar : Ending

pub record CaptureWriter : Type 0 where
  pub run_dir : String
  pub index : ℕ

-- `CaptureWriter.__init__`
unfoldable pub new_writer : String → String → Result WriterError CaptureWriter
new_writer output_root run_id = do
  raise_if (run_id_is_unsafe run_id) unsafe_run_id
  ok (record { run_dir = child_path output_root run_id; index = 0 })

module _ ⦃fl : Float⦄ where
  pub record Sidecar : Type 0 where
    pub checkpoint_id : String
    pub stamp : Time
    pub frame_id : String
    pub position : Point
    pub orientation : Quaternion
    pub image : String
    pub metadata : Metadata

  unfoldable pub build_sidecar : CaptureRecord → Sidecar
  build_sidecar rec = record {
    checkpoint_id = rec.checkpoint_id;
    stamp = rec.stamp;
    frame_id = rec.frame_id;
    position = rec.position;
    orientation = rec.orientation;
    image = basename rec.image_path;
    metadata = rec.metadata;
  }

  module _ (Bytes : Type 0) where
    -- what a file of the directory holds
    pub data Saved : Type 0 where
      image_file : Bytes → Saved
      sidecar_file : Sidecar → Saved
      partial : Saved

    abbrev pub Files : Type 0
    Files = List (String × Saved)

    abbrev pub stored : String → Files → Option Saved
    stored name [] = none
    stored name ((k, v) ∷ fs) = if str_eq name k then some v else stored name fs

    -- Whether the step is done, and the files after it.
    abbrev pub save : Ending → String → Saved → Files → Bool × Files
    save done name v fs = (true, (name, v) ∷ fs)
    save refused name v fs = (false, fs)
    save torn name v fs = (false, (name, partial) ∷ fs)

    abbrev pub Disk : Type 0
    Disk = CaptureWriter × Files

    -- the second write, and the step of the index
    abbrev pub finish : CaptureWriter → String → Bool × Files → Disk × Option String
    finish w path (false, fs) = ((w, fs), none)
    finish w path (true, fs) = ((record w { index = suc w.index }, fs), some path)

    abbrev pub add_sidecar :
        Trouble → CaptureWriter → CaptureRecord → String → Bool × Files → Disk × Option String
    add_sidecar t w rec path (false, fs) = ((w, fs), none)
    add_sidecar t w rec path (true, fs) = finish w path (
        save t.sidecar (file_name w.index rec.checkpoint_id ".json")
          (sidecar_file (build_sidecar (record rec { image_path = path }))) fs)

    -- The path of the image; nothing where an OSError is raised.
    unfoldable pub write : Trouble → Disk → CaptureRecord → Bytes → Disk × Option String
    write t (w, fs) rec image_bytes =
        let name = file_name w.index rec.checkpoint_id ".png" in
        let path = w.run_dir <> ("/" <> name) in
        if t.mkdir_fails
        then ((w, fs), none)
        else add_sidecar t w rec path (save t.image name (image_file image_bytes) fs)

    -- one call of `write`, and a sequence of calls with the captures that come out
    pub record Call : Type 0 where
      pub trouble : Trouble
      pub rec : CaptureRecord
      pub image_bytes : Bytes

    abbrev pub Capture : Type 0
    Capture = String × CaptureRecord × Bytes

    abbrev pub noted : Call → Option String → List Capture → List Capture
    noted c none captures = captures
    noted c (some path) captures = (path, c.rec, c.image_bytes) ∷ captures

    unfoldable pub run : Disk → List Call → Disk × List Capture
    run d [] = (d, [])
    run d (c ∷ cs) =
        let (next, path) = write c.trouble d c.rec c.image_bytes in
        let (last, captures) = run next cs in (last, noted c path captures)
