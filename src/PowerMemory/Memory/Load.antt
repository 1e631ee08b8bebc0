-- ===== src/PowerMemory/Memory/Load.antt =====
-- Starting up: what `async_load` takes over, and what it refuses for good.
use Prim.Native.String.{count}
use mathlib.Core.Bool.{false≢true}
use hahapent.Base.{
  Bool-cases, if◌then◌else◌, ◌&&◌, ◌≢◌, ◌≡◌, refl, ap, ◌∙◌, sym, Bool, true, false, ◌⊎◌, inl, inr,
  Option, none, some, Outcome, ok, err, arith,
}
use hahapent.Base.Value.{Value, Fields, ℤ, int, dict, lookup_field}
use hahapent.Client.State.{DeviceState}
use hahapent.PowerMemory.Record.{PowerRecord, decode_record, encode_record}
use hahapent.PowerMemory.Record.Codec.{IsRecord, decode-encode_record}
use hahapent.PowerMemory.Record.Sound.{decode_record_sound}
use hahapent.PowerMemory.Memory.{
  is_present, is_int, is_int_or_absent, refuse, absent, unreadable, parsed, Memory, PowerError,
  memory_error, Attempt, Envelope, existing_record, Loaded, load_failed, body, load, load_body,
  accept, save, observe, prepare_off, confirm, confirm_off, fresh_memory, manual_restore,
}
use hahapent.PowerMemory.Memory.Keeps.{IsKept, Reach, Reach-IsKept}

-- The memory after a start that found a document it does not understand.
abbrev pub refused : Memory → Memory
refused m = record m { error = true; write_blocked = true }

-- The file of the store: its data, a version, and a minor version if there is one.
abbrev pub IsFile : Fields → Type 0
IsFile fields =
    ((v : Value) × (lookup_field "data" fields ≡ some v))
    × ((n : ℤ) × (lookup_field "version" fields ≡ some (int n)))
    × ((lookup_field "minor_version" fields ≡ none)
        ⊎ ((n : ℤ) × (lookup_field "minor_version" fields ≡ some (int n))))

-- What the preflight accepts: no file, or such a file.
abbrev pub IsReadable : Envelope → Type 0
IsReadable absent = Unit
IsReadable unreadable = ⊥
IsReadable (parsed v) = (fields : Fields) × (v ≡ dict fields) × IsFile fields

-- Why a start is refused: the file, the load, a missing body, or a body that is no record.
abbrev pub IsRefused : Envelope → Loaded → Type 0
IsRefused envelope answer =
    (IsReadable envelope → ⊥)
    ⊎ (answer ≡ load_failed)
    ⊎ ((envelope ≢ absent) × (answer ≡ body none))
    ⊎ ((v : Value) × (answer ≡ body (some v)) × (decode_record v ≡ none))

-- The three ways to start.
abbrev pub IsStart : Envelope → Loaded → Memory → Memory → Type 0
IsStart envelope answer m started =
    ((envelope ≡ absent) × (answer ≡ body none) × (started ≡ m))
    ⊎ ((v : Value) × (r : PowerRecord) × IsReadable envelope
        × (answer ≡ body (some v))
        × (decode_record v ≡ some r)
        × IsRecord r
        × (started ≡ record m { kept = r }))
    ⊎ (IsRefused envelope answer × (started ≡ refused m))

present_cases :
    (o : Option Value)
    → ((v : Value) × (o ≡ some v) × (is_present o ≡ true)) ⊎ ((o ≡ none) × (is_present o ≡ false))
unfolding is_present
present_cases none = inr (refl, refl)
present_cases (some v) = inl (v, refl, refl)

is_int_sound : (o : Option Value) → is_int o ≡ true → (n : ℤ) × (o ≡ some (int n))
unfolding is_int
is_int_sound (some (int n)) h = (n, refl)
is_int_sound _ h = cc

is_int_or_absent_sound :
    (o : Option Value) → is_int_or_absent o ≡ true → (o ≡ none) ⊎ ((n : ℤ) × (o ≡ some (int n)))
unfolding is_int_or_absent
is_int_or_absent_sound none h = inl refl
is_int_or_absent_sound (some (int n)) h = inr (n, refl)
is_int_or_absent_sound _ h = cc

is_file : Fields → Bool
is_file fields =
    is_present (lookup_field "data" fields)
    && (is_int (lookup_field "version" fields)
        && is_int_or_absent (lookup_field "minor_version" fields))

is_present_sound : (o : Option Value) → is_present o ≡ true → (v : Value) × (o ≡ some v)
unfolding is_present
is_present_sound none h = cc
is_present_sound (some v) h = (v, refl)

is_file_sound : (fields : Fields) → is_file fields ≡ true → IsFile fields
unfolding is_file
is_file_sound fields h = (
  is_present_sound (lookup_field "data" fields) (ground arith),
  is_int_sound (lookup_field "version" fields) (ground arith),
  is_int_or_absent_sound (lookup_field "minor_version" fields) (ground arith),
)

is_file_complete : (fields : Fields) → IsFile fields → is_file fields ≡ true
unfolding is_file is_present is_int is_int_or_absent
is_file_complete fields ((v, hv), (n, hn), inl hm) = rw (hv, hn, hm) refl
is_file_complete fields ((v, hv), (n, hn), inr (k, hm)) = rw (hv, hn, hm) refl

-- What the preflight finds.
abbrev Preflight : Envelope → Type 0
Preflight envelope =
    ((envelope ≡ absent) × (existing_record envelope ≡ ok false))
    ⊎ (IsReadable envelope × (envelope ≢ absent) × (existing_record envelope ≡ ok true))
    ⊎ ((IsReadable envelope → ⊥) × (existing_record envelope ≡ err memory_error))

file_answer : Bool → Outcome PowerError Bool
file_answer b = if b then ok true else err memory_error

dict_answer :
    (fields : Fields) (b : Bool)
    → is_file fields ≡ b
    → existing_record (parsed (dict fields)) ≡ file_answer b
unfolding existing_record is_file file_answer
dict_answer fields b h = ap file_answer h

not_file : (fields : Fields) → is_file fields ≡ false → IsReadable (parsed (dict fields)) → ⊥
not_file fields bad (fs, e, h) =
    let same : fields ≡ fs = cc in false≢true (sym bad ∙ (ap is_file same ∙ is_file_complete fs h))

preflight : (envelope : Envelope) → Preflight envelope
unfolding existing_record file_answer
preflight absent = inl (refl, refl)
preflight unreadable = inr (inr (λ h. h, refl))
preflight (parsed (dict fields)) = elim (Bool-cases (is_file fields)) [
  | inl good ↦ inr (
      inl ((fields, refl, is_file_sound fields good), λ h. absurd cc, dict_answer fields true good))
  | inr bad ↦ inr (inr (not_file fields bad, dict_answer fields false bad))
]
preflight (parsed _) = inr (inr (λ (fs, e, h). absurd cc, refl))

accept_cases :
    (envelope : Envelope) (v : Value) (r : Option PowerRecord) (m : Memory)
    → IsReadable envelope
    → decode_record v ≡ r
    → IsStart envelope (body (some v)) m (accept r m)
unfolding accept refuse
accept_cases envelope v none m readable e = inr (inr (inr (inr (inr (v, refl, e))), refl))
accept_cases envelope v (some r) m readable e =
    inr (inl (v, r, readable, refl, e, decode_record_sound v r e, refl))

with_file :
    (envelope : Envelope) (answer : Loaded) (m : Memory)
    → IsReadable envelope
    → envelope ≢ absent
    → IsStart envelope answer m (load_body true answer m)
unfolding load_body refuse
with_file envelope load_failed m readable there = inr (inr (inr (inl refl), refl))
with_file envelope (body none) m readable there = inr (inr (inr (inr (inl (there, refl))), refl))
with_file envelope (body (some v)) m readable there =
    accept_cases envelope v (decode_record v) m readable refl

without_file : (answer : Loaded) (m : Memory) → IsStart absent answer m (load_body false answer m)
unfolding load_body refuse
without_file load_failed m = inr (inr (inr (inl refl), refl))
without_file (body none) m = inl (refl, refl, refl)
without_file (body (some v)) m = accept_cases absent v (decode_record v) m tt refl

found : Outcome PowerError Bool → Loaded → Memory → Memory
found (ok existed) answer m = load_body existed answer m
found (err e) answer m = refuse m

load-found :
    (envelope : Envelope) (answer : Loaded) (m : Memory) (existed : Outcome PowerError Bool)
    → existing_record envelope ≡ existed
    → load envelope answer m ≡ found existed answer m
unfolding load found
load-found envelope answer m (ok existed) e = rw (e, load) refl
load-found envelope answer m (err x) e = rw (e, load) refl

-- A start keeps the memory as it is where there is neither a file nor a body. It takes over a body that
-- decodes to a well-formed record, if there is no file or the file has data, an integer version, and an
-- integer minor version or none. It keeps the old record, reports an error and blocks all writes only
-- where the file is none of these, the load fails, the body is missing although there is a file, or the
-- body does not decode.
pub load_cases :
    (envelope : Envelope) (answer : Loaded) (m : Memory)
    → IsStart envelope answer m (load envelope answer m)
unfolding found refuse
load_cases envelope answer m = start (preflight envelope)
  where
    start : Preflight envelope → IsStart envelope answer m (load envelope answer m)
    start (inl (none_there, e)) =
        rw (load-found envelope answer m (ok false) e) (rw none_there (without_file answer m))
    start (inr (inl (readable, there, e))) =
        rw (load-found envelope answer m (ok true) e) (with_file envelope answer m readable there)
    start (inr (inr (bad, e))) =
        rw (load-found envelope answer m (err memory_error) e) (inr (inr (inl bad, refl)))

-- While writes are blocked no operation changes the memory at all, and none but an observation that
-- has nothing to store succeeds.
pub blocked_inert :
    (s : DeviceState) (a : Attempt) (m : Memory)
    → m.write_blocked ≡ true
    → ((observe s a m).1 ≡ m)
      × (prepare_off s a m ≡ (err memory_error, m))
      × (confirm_off s a m ≡ (err memory_error, m))
unfolding observe prepare_off confirm_off save confirm
blocked_inert s a m h = (ground arith, ground arith, ground arith)

-- A well-formed record in memory is changed by any operations, and after them there is no error and
-- the record has a revision of 32 characters. Then a restart that finds a readable file and loads this
-- record's document lets On do the same as before.
pub restart :
    (envelope : Envelope) (m n : Memory) (s : DeviceState)
    → existing_record envelope ≡ ok true
    → IsKept m.kept
    → Reach m n
    → count n.kept.revision ≡ 32
    → n.error ≡ false
    → manual_restore s (load envelope (body (some (encode_record n.kept))) fresh_memory)
      ≡ manual_restore s n
unfolding load load_body accept manual_restore
restart envelope m n s e h r c fine =
    let k = Reach-IsKept r h in
    rw (
      e,
      load,
      decode-encode_record n.kept (record { revision = c; manual = k.manual; origin = k.origin }),
      accept,
      fine,
    )
