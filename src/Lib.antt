-- ===== src/Lib.antt =====
-- HAHAPent: the Home Assistant integration of the Aquarius plant LED lamp, and the manager that installs
-- integrations.
--
-- The lamp speaks a small binary protocol over TCP. The integration reads its mode and its six channel
-- levels, changes them by explicit commands that are read back before they count, and remembers the
-- Manual mix over an Off. The parts, all under
-- modules/aquarius_plant_led/custom_components/aquarius_plant_led/:
-- - protocol.py, in Protocol: Frame builds the frames and permutes the channels, Reply parses replies
--   and knows the validated profiles, Decoder is StreamDecoder. `feed` runs `drain`, the loop of the
--   source, on fuel: the length of the buffer, and every round removes at least one byte.
-- - compact.py, in Compact: Roles validates dynamic values, Recipe mixes a colour into channel levels
--   by role, scales a spectrum, and computes the colour that is shown.
-- - client.py, in Client: State is DeviceState; Io is the client's state with its exceptions; Transport
--   sends frames and reads replies; Guards compares states before and after a command; Execute is the
--   transaction around an operation; Operations are the public ones, and Commands the same as data. An
--   action is a function from a client to an outcome and a client. What an `await` gives is the next
--   event of a list that any theorem takes as arbitrary: data, a timeout, an OSError, or a revocation
--   by cancellation, by the deadline of the whole operation or by `close`, which may lose the race with
--   completion. An await with no event left times out, so every loop is structural recursion on the
--   events. A revocation that comes in while the operation is being settled is an event of the
--   operation, and only what `close` does counts if it loses the race with the last disconnect.
-- - state_store.py, in PowerMemory: Record is the stored document, with its validation and encoding;
--   Memory are the operations of AquariusPowerMemory. Home Assistant's Store is not in the repository:
--   how a save ends and what a load answers are arguments of the operations.
-- - coordinator.py, in Coordinator: the state of AquariusCoordinator and its guards; Requests are the
--   beginnings of the commands, up to their first `await`; Calls are the commands at the moment that they
--   hold the lock, up to the call of the client; Ends are what the end of the call does, the reads and
--   unloading. Each is what one task does between two awaits, and Steps lets them follow each other in any
--   order. Steps/Moves to Steps/Every show that every order of steps respects a preorder that the few
--   elementary changes respect; Later is the one that the theorems on stale requests use. Home
--   Assistant's DataUpdateCoordinator is a parameter (`Library`), the saves of the power memory are one
--   step with what follows them, and the deadline is a Boolean.
-- The manager, under manager/hahapent/, in Manager:
-- - storage.py, in Storage (what hash_tree accepts and returns for a tree) and World. World is the file
--   system with the memory of the process: a target, stage, hold and backup for each name, the journal,
--   the stored registry and the settings. Each operation on the disk, the reading of a tree included,
--   takes the next fault of a list that a theorem takes as arbitrary, unless it says otherwise: it is
--   complete, or it raises an OSError or ends the process, with its effect or with any part of it. The
--   tests `exists` and `is_symlink` and the reading of the registry, the settings and the journal take
--   no fault.
-- - catalog.py, in Versions and Catalog: semantic versions, required features, compatibility.
-- - engine.py: Registry are the documents and their checks, Change is the journal, `_finish` and
--   `_recover`, Apply is `_change` and the checks before it, Actions are install, rollback and remove,
--   Sources are the repositories that the user adds. JSON schemas, `repository_url` and Home Assistant's
--   answers are a parameter (`Site`); what a download and its extraction give is an argument. World/Frame
--   and World/Ends hold the rules by which the theorems follow these chains of actions.
-- Base holds what they share: JSON values, lists over native numbers, and two kinds of exceptions.
--
-- Python's ints are natural numbers here after a validated range, and bytes are numbers; `IsByte` is the
-- range that Python guarantees. Values that come from outside are `Value`, which keeps bool and int
-- apart, as `type(value) is int` does. Attributes of frozen dataclasses are records, and `==` on them is
-- a Boolean test on their fields.
--
-- Not modelled: the times themselves (a timeout is an event), host, port and timeout checks of the
-- client's constructor, the deletion of the stored file, the entities and the configuration flow; of the
-- manager the refresh of the catalogs, validate_catalog, the lock between processes, status(), the HTTP
-- server and the downloads; and the scripts under tooling/.
pub mod Base
pub mod Protocol
pub mod Compact
pub mod Client
pub mod PowerMemory
pub mod Coordinator
pub mod Manager
pub mod Tests
