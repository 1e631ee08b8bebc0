-- ===== src/Coordinator/Steps.antt =====
-- The coordinator as a transition system: a step is what one task does between two awaits, and the
-- tasks interleave at will.
pub mod Moves
pub mod Beginnings
pub mod Turns
pub mod Endings
pub mod Every
use hahapent.Base.{ℕ, Bool, Option, some, none, List}
use hahapent.Base.Value.{Value}
use hahapent.Base.Text.{Text}
use hahapent.Client.State.{DeviceState}
use hahapent.PowerMemory.Memory.{Attempt, Envelope, Loaded}
use hahapent.Coordinator.{Library, Published, Coordinator, Refusal}
use hahapent.Coordinator.Requests.{
  Ticket, submit_channel, submit_mode, submit_off, submit_on, submit_compact,
}
use hahapent.Coordinator.Calls.{Call, admit}
use hahapent.Coordinator.Ends.{
  command_done, command_failed, compact_refused, off_read, off_prepared, off_done, begin_read,
  read_done, read_refused, read_cancelled, prepare_unload, load_power_memory, begin_resume,
  end_resume, shutdown,
}

pub data Step (ha : Library) : Coordinator → Coordinator → Type 0 where
  asks_channel :
      (index value : Value) (c : Coordinator) → Step ha c (submit_channel index value c).1
  asks_mode : (option : Text) (c : Coordinator) → Step ha c (submit_mode option c).1
  asks_off : (c : Coordinator) → Step ha c (submit_off c).1
  asks_on : (resume_schedule : Bool) (c : Coordinator) → Step ha c (submit_on resume_schedule c).1
  asks_compact :
      (rgb_color intensity : Option Value) (c : Coordinator)
      → Step ha c (submit_compact rgb_color intensity c).1
  takes_turn :
      (task : ℕ) (late : Bool) (ticket : Ticket) (c : Coordinator)
      → Step ha c (admit ha task late ticket c).1
  succeeds :
      (task : ℕ) (attempt : Attempt) (s : DeviceState) (c : Coordinator)
      → Step ha c (command_done ha task attempt s c).1
  fails : (task : ℕ) (e : Refusal) (c : Coordinator) → Step ha c (command_failed ha task e c).1
  finds_zero :
      (task : ℕ) (attempt : Attempt) (s : DeviceState) (c : Coordinator)
      → Step ha c (compact_refused ha task attempt s c).1
  reads_before_off :
      (task epoch : ℕ) (observed before : DeviceState) (c : Coordinator)
      → Step ha c (off_read ha task epoch observed before c).1
  saves_before_off :
      (task : ℕ) (late : Bool) (epoch : ℕ) (attempt : Attempt) (before : DeviceState)
      (c : Coordinator)
      → Step ha c (off_prepared ha task late epoch attempt before c).1
  is_off :
      (task : ℕ) (attempt : Attempt) (s : DeviceState) (c : Coordinator)
      → Step ha c (off_done ha task attempt s c).1
  begins_read : (task : ℕ) (c : Coordinator) → Step ha c (begin_read ha task c).1
  has_read :
      (attempt : Attempt) (s : DeviceState) (c : Coordinator)
      → Step ha c (read_done ha attempt s c).1
  fails_to_read : (c : Coordinator) → Step ha c (read_refused ha c).1
  stops_reading : (c : Coordinator) → Step ha c (read_cancelled ha c).1
  loads_memory :
      (envelope : Envelope) (loaded : Loaded) (c : Coordinator)
      → Step ha c (load_power_memory envelope loaded c)
  -- Home Assistant's own bookkeeping of a refresh, and a change of the options
  bookkeeps : (p : Published) (c : Coordinator) → Step ha c (record c { published = p })
  sets_options : (options : Value) (c : Coordinator) → Step ha c (record c { options = options })
  unloads : (task : ℕ) (c : Coordinator) → Step ha c (prepare_unload task c).1
  begins_resume : (c : Coordinator) → Step ha c (begin_resume c)
  ends_resume : (c : Coordinator) → Step ha c (end_resume c)
  shuts_down : (task : ℕ) (c : Coordinator) → Step ha c (shutdown task c).1

pub data Steps (ha : Library) : Coordinator → Coordinator → Type 0 where
  stay : (c : Coordinator) → Steps ha c c
  then_ : {c d f : Coordinator} → Step ha c d → Steps ha d f → Steps ha c f
