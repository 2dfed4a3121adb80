-- ===== src/Lib.antt =====
-- FireAI: the control process of a pellet smoker, its controllers and notifications, the commands
-- that reach it from the cloud and from the older interface, the bridge to the cloud with the
-- archive of cooks, local authentication, the settings documents, and the pellet database.
--
-- The control process (control.py) waits in its main loop for a mode that is announced, and runs one
-- work cycle for each mode of the grill, or the steps of a recipe. In every round of the cycle's
-- loop it merges the writes that other processes queued in Redis, serves their requests,
-- switches the auger, reads the probes, checks the notifications, tests the temperatures for
-- safety, controls the fan, and looks for the end of the mode. The cloud bridge (bridge/sync.py)
-- checks each command document of the cloud and runs it through the command registry, which
-- queues a write for the control process; it also keeps the samples of every cook. The local server
-- (server/) lets clients in by a password or an API key, and shows and patches the settings.
--
-- The parts, and the files that model them:
--
-- Types, Settings: the structures that the processes share, `default_control`, `default_notify`
--   and the sections of `default_settings` that the control process reads (common/common.py).
-- ControlWrites: `write_control`, `execute_control_writes` and `deep_update` (common/common.py).
--   A queued dictionary is the list of the assignments that the merge makes for it.
-- GrillPlatform: the outputs, as grillplat/prototype.py keeps them. The ramp of the fan is a
--   thread there; here only whether one runs is kept.
-- Notify: `check_notify` and `_check_condition` (notify/notifications.py). Notify.Turns and
--   Notify.Passes prove what one entry's turn and a whole call change.
-- Control: `_work_cycle` (control.py). Control has the variables of the loop and what a round reads
--   from outside; Control.Setup and Control.WorkCycle what stands before the loop, the loop and the
--   clean-up; Control.Requests, Auger, Safety, Fan and Exits the parts of a round in their order.
--   Each part is a function from state to state that goes on, breaks, or raises. Control.Keeps and
--   Readings carry invariants through the parts; Control.Guards, Retries, Interlocks, Lid and Ratio
--   hold the theorems.
-- Main: what stands around `_work_cycle` in control.py. Main.Defaults: `default_control`
--   (common/common.py). Main.RecipeMode: `_recipe_mode`, and `convert_recipe_units`
--   (file_mgmt/recipes.py). Main.Modes: `_next_mode` and the branches for the modes. Main.Loop: an
--   iteration of the main loop, its runs, and its start. Main.DarkCycles, Dark, Critical, Transitions
--   and Recipes prove.
-- Bridge: `_remember_nonce`, `handle_command` and `drain_pending_commands` (bridge/sync.py), over an
--   interface for the command registry. Bridge.Nonces and Bridge.Checks hold the theorems.
-- Bridge.Cooks: the cook tracker (bridge/sync.py) and the documents it writes. Bridge.Cooks.Archive
--   and Stretch prove.
-- Bridge.Feed: the stream of notifications (core/events.py) and `forward_notifications`
--   (bridge/sync.py), as a step relation of what is published, forwarded and trimmed.
--   Bridge.Feed.Order proves.
-- Bridge.Publish: `publish_state`, `publish_presence`, `mirror_settings`, `tick` and `run`
--   (bridge/sync.py), which use Bridge.Cooks, Bridge.Feed and Documents. Bridge.Publish.Private proves.
-- Controllers: the PID controllers of controller/. Controllers.Pid is pid.py, and the controller of a
--   work cycle that it makes; Controllers.Clamping pid_clamping.py, pid_clamping_percent_pb.py and
--   pid_parallel.py; Controllers.Adaptive pid_ac.py and pid_sp.py. Controllers.Bounds and Smith prove.
-- Cloud: the table of the command registry as the implementation of the bridge's interface.
-- Auth: server/auth.py, over a parameter for its cryptography. Auth.Keys and Auth.Sessions prove.
-- Documents: settings documents of any shape, core/settings_schema.py, and `deep_update` on them.
--   Documents.Redaction and Documents.Patches prove.
-- Commands: the command registry of core/commands.py: the argument limits, the handlers and
--   `execute` (Commands.Handlers). Commands.Merged, Timers and Entries hold the theorems. What is
--   read outside Redis and the settings (the clock, the units, the recipe files) is a parameter.
-- Legacy: `process_command` (common/common.py), the older interface of the web API and the displays,
--   which writes the whole control structure: Legacy.Reads the commands 'get', Legacy.Writes,
--   Entries and Outputs the commands 'set', Legacy.Process all actions, Legacy.Degrees `convert_settings_units`.
--   Legacy.Held, WritesHeld, Refusals, Stale and Agrees prove. Its queue holds whole structures, and
--   ControlWrites' the patches of core/commands.py; in the program both are the one list in Redis.
-- Monitor: the process monitor, common/process_mon.py: its thread and the calls of the process as
--   events in any order. Monitor.Resets proves.
-- Pellets: the pellet database, its commands (core/library.py), its default (common/common.py), and
--   what the control process writes to it. Pellets.Stock and Fresh prove.
-- Prelude: shared names. Prelude.Num is the interface to the interpreter's numbers: temperatures,
--   times and ratios are values of a parameter `N` with Python's operations, so that rounding is
--   the program's own. Where a theorem needs the order of the numbers it asks for `NumOrder`, which
--   holds of all floats but nan. The whole numbers are an instance.
-- Scenarios: a concrete grill, and the theorems at concrete inputs.
--
-- Loops: the loop of a work cycle runs over the list of the rounds that the outside world gives it,
-- of any length, and is `running` when the list is used up. In the same way the main loop runs over
-- a list of iterations, a recipe over a list of the runs of its steps, and the bridge over a list
-- of ticks. The other loops run over lists, but for the one that looks for a new profile id: its
-- fuel is one try more than there are profiles, which is proved to be enough. In Control the
-- controller is an interface: any state, any output. Readings exist for every probe with a
-- notification; cycle times are not 0; a list of profiles that is too short, and a recipe that does
-- not name a probe, end the process as in Python.
--
-- Not modelled: the registry's commands 'units', 'settings.patch' and 'system.*', the bridge's
-- listener thread, the controllers fuzzy.py and ml.py, which call libraries, displays, history,
-- metrics other than the auger's time, probe and distance drivers, the commands for the operating
-- system, the channels that notifications are sent by, the files of cooks and recipes, the routes
-- of the local server, the web application and the cloud functions. They read the state modelled
-- here, or are input to it.
pub mod Prelude
pub mod Types
pub mod Settings
pub mod GrillPlatform
pub mod ControlWrites
pub mod Notify
pub mod Control
pub mod Main
pub mod Commands
pub mod Bridge
pub mod Cloud
pub mod Auth
pub mod Documents
pub mod Monitor
pub mod Controllers
pub mod Legacy
pub mod Pellets
mod Scenarios
