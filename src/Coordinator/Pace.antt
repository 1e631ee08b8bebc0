-- ===== src/Coordinator/Pace.antt =====
-- coordinator.py: how often the controller is polled.
use hahapent.Base.{ℕ, zero, suc, ◌^◌, ◌≤◌, ◌≡◌, ◌∙◌, refl, ap, min, Outcome, ok, err, arith}
use hahapent.Client.State.{DeviceState}
use hahapent.PowerMemory.Memory.{Attempt, PowerError, memory_error, cancelled, observe}
use hahapent.Coordinator.Calls.{in_doubt}
use hahapent.Coordinator.Ends.{after_save, read_refused, read_done}
use hahapent.Coordinator.{
  Library, Coordinator, Refusal, pure, ◌>>=◌, ◌>>◌, backoff, invalidate_compact, read_failed,
  read_succeeded, supersede_channels,
}
use hahapent.Coordinator.Requests.{supersede_channel}
use hahapent.Coordinator.Steps.{Steps}
use hahapent.Coordinator.Steps.Moves.{Elementary}
use hahapent.Coordinator.Steps.Every.{steps-respect}

-- The interval is the one of the failures in a row.
unfoldable pub IsPaced : Coordinator → Type 0
IsPaced c = c.update_interval ≡ backoff c.failures

KeepsPace : Coordinator → Coordinator → Type 0
KeepsPace c d = IsPaced c → IsPaced d

KeepsPace-elementary : Elementary KeepsPace
unfolding KeepsPace IsPaced invalidate_compact read_failed read_succeeded supersede_channels
    supersede_channel backoff
KeepsPace-elementary = record {
  same = λ c h. h;
  next = λ c d f h k p. k (h p);
  invalidates = λ c h. h;
  fails = λ c h. refl;
  succeeds = λ c h. refl;
  advances = λ c h. h;
  publishes = λ p c h. h;
  remembers = λ m c h. h;
  intends = λ intent c h. h;
  gestures = λ c h. h;
  supersedes_all = λ c h. h;
  supersedes = λ i c h. h;
  activates = λ t c h. h;
  reads = λ t c h. h;
  sets_options = λ o c h. h;
  quiesces = λ q r c h. h;
  stops = λ c h. h;
}

-- The pause after so many failures in a row.
abbrev pub pause : ℕ → ℕ
pause zero = 30
pause (suc zero) = 60
pause (suc (suc zero)) = 120
pause (suc (suc (suc zero))) = 240
pause (suc (suc (suc (suc n)))) = 300

capped : (n : ℕ) → min (suc (suc (suc (suc n)))) 4 ≡ 4
capped n = omega arith

backoff-pause : (n : ℕ) → backoff n ≡ pause n
unfolding backoff
backoff-pause zero = refl
backoff-pause (suc zero) = refl
backoff-pause (suc (suc zero)) = refl
backoff-pause (suc (suc (suc zero))) = refl
backoff-pause (suc (suc (suc (suc n)))) =
    let four = ap (λ k. 2 ^ k) (capped n) in omega (arith, four)

pause-bounds : (n : ℕ) → (30 ≤ pause n) × (pause n ≤ 300)
pause-bounds zero = (omega arith, omega arith)
pause-bounds (suc zero) = (omega arith, omega arith)
pause-bounds (suc (suc zero)) = (omega arith, omega arith)
pause-bounds (suc (suc (suc zero))) = (omega arith, omega arith)
pause-bounds (suc (suc (suc (suc n)))) = (omega arith, omega arith)

-- So many failures in a row, and the interval that belongs to them.
abbrev pub HasFailed : ℕ → Coordinator → Type 0
HasFailed n c = (c.failures ≡ n) × (c.update_interval ≡ pause n)

failed :
    (c d : Coordinator)
    → d.failures ≡ suc c.failures
    → d.update_interval ≡ backoff (suc c.failures)
    → HasFailed (suc c.failures) d
failed c d h e = (h, e ∙ backoff-pause (suc c.failures))

read_refused-HasFailed :
    (ha : Library) (c : Coordinator) → HasFailed (suc c.failures) (read_refused ha c).1
unfolding read_refused read_failed invalidate_compact
read_refused-HasFailed ha c =
    failed c (read_refused ha c).1 (omega arith) (ap backoff (omega arith))

in_doubt-HasFailed :
    (ha : Library) (e : Refusal) (c : Coordinator)
    → HasFailed (suc c.failures) (in_doubt ha {A = Unit {0}} e c).1
unfolding in_doubt read_failed invalidate_compact
in_doubt-HasFailed ha e c =
    failed c (in_doubt ha {A = Unit {0}} e c).1 (omega arith) (ap backoff (omega arith))

saved_read :
    (ha : Library) (r : Outcome PowerError (Unit {0})) (s s' : DeviceState) (c : Coordinator)
    → ((after_save ha r >> pure s) c).0 ≡ ok s'
    → ((after_save ha r >> pure s) c).1 ≡ c
unfolding ◌>>=◌ in_doubt
saved_read ha (ok done) s s' c h = refl
saved_read ha (err memory_error) s s' c h = refl
saved_read ha (err cancelled) s s' c h = cc

read_done-HasFailed :
    (ha : Library) (attempt : Attempt) (s s' : DeviceState) (c : Coordinator)
    → (read_done ha attempt s c).0 ≡ ok s'
    → HasFailed 0 (read_done ha attempt s c).1
unfolding read_done read_succeeded
read_done-HasFailed ha attempt s s' c h =
    let saved = observe s attempt c.power_memory in
    let same =
      saved_read ha saved.0 s s' (record (read_succeeded c) { power_memory = saved.1 }) h in
    (ap (λ (d : Coordinator). d.failures) same, ap (λ (d : Coordinator). d.update_interval) same)

-- Over every interleaving of the tasks that begins with the interval of its failures in a row, the
-- polling interval is the one of the failures in a row: 30, 60, 120, 240 and then 300 seconds. A failed
-- read and a command in doubt count one failure more, and a read that returns a state counts none.
pub interval-bounds :
    (ha : Library) (c d : Coordinator) (e : Refusal) (attempt : Attempt) (s s' : DeviceState)
    → IsPaced c
    → Steps ha c d
    → (read_done ha attempt s d).0 ≡ ok s'
    → HasFailed d.failures d
      × HasFailed (suc d.failures) (read_refused ha d).1
      × HasFailed (suc d.failures) (in_doubt ha {A = Unit {0}} e d).1
      × HasFailed 0 (read_done ha attempt s d).1
      × ((30 ≤ d.update_interval) × (d.update_interval ≤ 300))
unfolding IsPaced KeepsPace
interval-bounds ha c d e attempt s s' paced steps read =
    let h =
      steps-respect KeepsPace KeepsPace-elementary ha steps paced ∙ backoff-pause d.failures in
    let bounds = pause-bounds d.failures in
    (
      (refl, h),
      read_refused-HasFailed ha d,
      in_doubt-HasFailed ha e d,
      read_done-HasFailed ha attempt s s' d read,
      (omega (arith, h, bounds.0), omega (arith, h, bounds.1)),
    )
