-- ===== src/Lib.antt =====
-- The patrol drone's software: a mission is loaded from a file, flown by a node that ticks a state
-- machine and commands the autopilot, and captures are triggered where the drone dwells.
--
-- Parts of the program, and the files that model them:
--   Mission/Frames     ros2_ws/src/patrol_mission/patrol_mission/frames.py
--   Mission/Config     .../config.py: the frozen records of a parsed mission; under it Yaml (values and
--                      errors), Sections, Checkpoints, Waypoints and Loader (`load_mission_config`)
--   Mission/States     .../state_machine.py: the states, telemetry, commands, tests on one reading
--   Mission/Machine    .../state_machine.py: `MissionStateMachine`; `Machine` is the object, `init` its
--                      constructor, `tick`, `reset_timing` and the handlers `on_*` its methods
--   Mission/Commands   .../commands.py: the vehicle commands of a tick
--   Mission/Messages   .../node.py: constants and messages
--   Mission/Node       .../node.py: `MissionNode`; `init_node`, the callbacks, `on_tick`
--   Mission/Startup    the loader and the node together
--   Mission/Examples, Mission/LoaderExamples
--                      tests, and the theorems at concrete inputs
--   Perception/Samplers, Resolver, Coordinator
--                      ros2_ws/src/patrol_perception/patrol_perception/samplers.py,
--                      checkpoint_resolver.py, coordinator.py, with the record of capture_builder.py and
--                      the callbacks of perception_node.py (`perceive`)
--   Perception/Latch, Returns, Visits
--                      proofs about one trigger, and about runs of the callbacks
--   Perception/CheckpointConfig
--                      .../checkpoint_config.py: `CheckpointConfigLoader`; proofs in Maps
--   Perception/Writer  .../capture_writer.py: `CaptureWriter`, with `build_sidecar` of
--                      capture_builder.py; proofs in Names and Kept
--   Perception/Filed, Published
--                      the coordinator with this writer
--   Shared/BoundedSeen, Bounded
--                      analysis/_shared/bounded_seen.py: the set of bags seen, and its limit
--   Perception/Examples, Perception/CaptureExamples, Shared/Examples
--                      tests, and the theorems at concrete inputs
--   Bags/Text, Disk, Dates, Publish
--                      what the bag pipeline uses of Python: texts and paths, a directory with symbolic
--                      links and what its files hold, dates, and the two ways of putting a file in place
--                      (`_publish_bytes_exclusive`, `_atomic_write_text`), with their crash safety
--   Bags/Layout        analysis/_shared/bag_layout.py; under it Contained, on declared paths
--   Bags/Recorder      ros2_ws/src/patrol_logging/patrol_logging/recorder.py: names and arguments; under it
--                      Sidecar, with the staging file; Names, Staging and Finalize are proofs
--   Bags/Upload        analysis/upload_daemon/upload_daemon.py; under it Transport (transport.py) and
--                      Watch (__main__.py, with analysis/_shared/positive_interval.py); Retry, Receipt,
--                      Answers, Ship, Once and Live are proofs
--   Bags/Ingest        docker/ingest/manifest_store.py and ingest_service.py; under it Sidecar (the guards),
--                      Facts (bag_reader.py) and Watch (__main__.py, and the query of manifest_query.py);
--                      Manifest, Index, Query, Steady, Kept and those under Facts are proofs
--   Bags/Pipeline      the recorder, the uploader and the ingest service together
--   Bags/Examples, Bags/IngestExamples
--                      tests, and the theorems at concrete inputs
-- The node calls the machine once a timer period, behind its telemetry gates, and turns the command
-- that it returns into messages; the commands module decides which vehicle commands are among them. The
-- dwell events of the node are the triggers of the perception package. A recording leaves a bag with a
-- staging file; the recorder turns that into a sidecar, which marks the bag for the uploader; the ingest
-- service indexes what has landed. These three share only the directory and the names of its files.
--
-- How the code is modelled:
--   - An object is a record; a method takes it and returns it changed. Code that may raise returns a
--     `Result` (Prelude/Errors). A `tick` that raises ends the process, so what it leaves is not kept.
--   - Python's `float` and `math` are the interface `Float`, an instance argument of everything; the
--     facts of IEEE 754 that a theorem needs are its hypothesis `FloatLaws`. Float/Fixed is a concrete
--     instance, in thousandths, on which the tests and examples run; its laws are proved.
--   - `Mission.Machine.Flight.run` drives a machine as its caller does: ticks and restarts of the timing
--     in any order, with a log of every tick. `Mission.Node.Drive.drive` drives a node: any sequence of
--     callbacks, each at any reading of the clock, with what each has published. Both are structural
--     recursions on the list of inputs, so no fuel is used.
--
--   - The loader takes the reading of a YAML file as a parameter: a function from paths to values or file
--     errors. The keys of a mapping are strings, and of an error its kind is kept, not its message.
--
--   - A trigger of the coordinator takes the readings of its clock as arguments; the encoder of a frame
--     and the writer are parameters, the writer with a state of its own; it may fail with an OSError, which
--     the coordinator catches, or with another error. `math.remainder` raises on an infinite heading.
--     `Visits.watch` runs callbacks.
--   - The writer itself is `Perception.Writer.write`, over the files of the directory of the run. Each call
--     takes how `mkdir` and the two writes end: well, with an error that leaves the file as it was, or
--     with one that leaves a part of it. `run` is a sequence of calls. The digits of the counter are
--     printed with as many rounds as the counter plus one, which is more than it has digits.
--     `Perception.Filed.write_next` is this writer as the coordinator has it.
--
--   - A path of the bag pipeline is a name in the watched directory. `Disk` holds the entries, and every
--     earlier state of them, newest first: what a crash, or a process that looks in between, may find. A
--     file's contents are kept as the JSON value that they parse to, or as the reason why they do not, one
--     of which is nesting beyond the limit of recursion. A write may find the disk full (`full`), and a
--     removal may fail (`stuck`).
--     `fsync` is left out, since no reader of the directory sees it.
--   - The upload transport is any function of all that was sent before it; the random part of a temporary
--     name is any function of the directory. The loops run over a list of polls; between polls other
--     processes change the directory in any way. During one pass only the daemon itself changes it.
--   - `send_with_retry` recurs on the attempts that are left, `max_retries` + 1 at first, so no fuel is used.
--   - The SQLite table is the list of its rows. Whether the database is locked is any function of the number
--     of accesses; PyYAML, `ros2 bag info` and Python's `int` of a string are parameters. Dates are the
--     interface `Dates`, with `DatesLaws` for what is documented of `isoformat` and `strftime`.
--
-- Not modelled: message timestamps, log lines, parameters and the creation of publishers; the
-- length of a pause, process groups and their killing, the parsing of command lines, the text of `ros2
-- bag info` and the printing of rows; directories of bags that may not be searched, where `Path.is_file` raises PermissionError, and the
-- exhaustion of memory; launch files and repository tools.
pub mod Prelude
pub mod Float
pub mod Mission
pub mod Perception
pub mod Shared
pub mod Bags
