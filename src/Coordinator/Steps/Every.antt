-- ===== src/Coordinator/Steps/Every.antt =====
-- Every sequence of steps respects every preorder that the elementary changes do.
use hahapent.Base.{true, false}
use hahapent.Coordinator.{Library, Coordinator}
use hahapent.Coordinator.Ends.{load_power_memory, begin_resume, end_resume}
use hahapent.Coordinator.Steps.{
  Step, asks_channel, asks_mode, asks_off, asks_on, asks_compact, takes_turn, succeeds, fails,
  finds_zero, reads_before_off, saves_before_off, is_off, begins_read, has_read, fails_to_read,
  stops_reading, loads_memory, bookkeeps, sets_options, unloads, begins_resume, ends_resume,
  shuts_down, Steps, stay, then_,
}
use hahapent.Coordinator.Steps.Moves.{Elementary}
use hahapent.Coordinator.Steps.Beginnings.{
  Moves-submit_channel, Moves-submit_mode, Moves-submit_off, Moves-submit_on, Moves-submit_compact,
}
use hahapent.Coordinator.Steps.Turns.{Moves-admit}
use hahapent.Coordinator.Steps.Endings.{
  Moves-command_done, Moves-command_failed, Moves-compact_refused, Moves-off_read,
  Moves-off_prepared, Moves-off_done, Moves-begin_read, Moves-read_done, Moves-read_refused,
  Moves-read_cancelled, Moves-prepare_unload, Moves-shutdown,
}

module _ (R : Coordinator → Coordinator → Type 0) (el : Elementary R) (ha : Library) where
  pub step-respects : {c d : Coordinator} → Step ha c d → R c d
  unfolding load_power_memory begin_resume end_resume
  step-respects (asks_channel index value c) = Moves-submit_channel R el index value c
  step-respects (asks_mode option c) = Moves-submit_mode R el option c
  step-respects (asks_off c) = Moves-submit_off R el c
  step-respects (asks_on resume_schedule c) = Moves-submit_on R el resume_schedule c
  step-respects (asks_compact rgb_color intensity c) =
      Moves-submit_compact R el rgb_color intensity c
  step-respects (takes_turn task late ticket c) = Moves-admit R el ha task late ticket c
  step-respects (succeeds task attempt s c) = Moves-command_done R el ha task attempt s c
  step-respects (fails task e c) = Moves-command_failed R el ha task e c
  step-respects (finds_zero task attempt s c) = Moves-compact_refused R el ha task attempt s c
  step-respects (reads_before_off task epoch observed before c) =
      Moves-off_read R el ha task epoch observed before c
  step-respects (saves_before_off task late epoch attempt before c) =
      Moves-off_prepared R el ha task late epoch attempt before c
  step-respects (is_off task attempt s c) = Moves-off_done R el ha task attempt s c
  step-respects (begins_read task c) = Moves-begin_read R el ha task c
  step-respects (has_read attempt s c) = Moves-read_done R el ha attempt s c
  step-respects (fails_to_read c) = Moves-read_refused R el ha c
  step-respects (stops_reading c) = Moves-read_cancelled R el ha c
  step-respects (loads_memory envelope loaded c) =
      el.remembers (load_power_memory envelope loaded c).power_memory c
  step-respects (bookkeeps p c) = el.publishes p c
  step-respects (sets_options options c) = el.sets_options options c
  step-respects (unloads task c) = Moves-prepare_unload R el ha task c
  step-respects (begins_resume c) = el.quiesces c.quiescing true c
  step-respects (ends_resume c) = el.quiesces false false c
  step-respects (shuts_down task c) = Moves-shutdown R el ha task c

  pub steps-respect : {c d : Coordinator} → Steps ha c d → R c d
  steps-respect (stay c) = el.same c
  steps-respect (then_ {c} {d} {f} one rest) =
      el.next c d f (step-respects one) (steps-respect rest)
