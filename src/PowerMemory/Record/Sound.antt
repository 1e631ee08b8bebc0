-- ===== src/PowerMemory/Record/Sound.antt =====
-- Whatever the validation accepts is well formed.
use Prim.Native.String.{count}
use hahapent.Base.{
  ℕ, ◌≤◌, ◌≡◌, refl, Bool, true, false, ◌||◌, not, Option, none, some, List, [], ◌∷◌, length, ◌==◌,
  String, All, arith,
}
use hahapent.Base.Value.{
  Value, null, list, dict, Fields, to_list, int_upto, int_upto-le, lookup_field, each, has_only,
}
use hahapent.Base.Partial.{check, >>=-eq-some}
use hahapent.Compact.Recipe.{any_nonzero}
use hahapent.Compact.Valid.{each-int_upto}
use hahapent.Protocol.Reply.{Pair}
use hahapent.PowerMemory.Record.{
  Profile, LastManual, OffOrigin, PowerRecord, int_list, pair_of, byte_pair, flag_of, text_of,
  decode_profile, decode_channels, decode_manual, decode_optional, decode_off, decode_origin,
  decode_record, profile_keys, manual_keys, origin_keys, record_keys,
}
use hahapent.PowerMemory.Record.Codec.{
  IsBytePair, IsProfile, IsChannels, IsLit, IsManual, Holds, IsOff, IsOrigin, IsRecord,
}

held {ℓ} :
    {A : Type ℓ} (P : A → Type 0) (a : A) {o : Option A} → some (some a) ≡ some o → P a → Holds P o
held P a {o = none} e h = cc
held P a {o = some b} e h = let same : b ≡ a = cc in rw same h

accepted : (r : PowerRecord) {r' : PowerRecord} → some r ≡ some r' → IsRecord r → IsRecord r'
accepted r {r'} e h = let same : r' ≡ r = cc in rw same h

check-true : (b : Bool) {u : Unit {0}} → check b ≡ some u → b ≡ true
check-true true h = refl
check-true false h = cc

int_list_sound :
    (size most : ℕ) (v : Value) (ns : List ℕ)
    → int_list size most v ≡ some ns
    → (length ns ≡ size) × All (λ n. n ≤ most) ns
int_list_sound size most (list vs) ns h =
    let (ms, e, h') = >>=-eq-some (each (int_upto most) (to_list vs)) _ h in
    let (u, c, same) = >>=-eq-some (check (length ms == size)) _ h' in
    let sized = check-true (length ms == size) c in
    let eq : ns ≡ ms = cc in rw eq (ground arith, each-int_upto most (to_list vs) ms e)
int_list_sound size most _ ns h = cc

decode_channels_sound :
    (nonzero : Bool) (v : Value) (ns : List ℕ)
    → decode_channels nonzero v ≡ some ns
    → IsChannels ns × ((not nonzero || any_nonzero ns) ≡ true)
unfolding decode_channels
decode_channels_sound nonzero v ns h =
    let (ms, e, h') = >>=-eq-some (int_list 6 100 v) _ h in
    let (u, c, same) = >>=-eq-some (check (not nonzero || any_nonzero ms)) _ h' in
    let known = int_list_sound 6 100 v ms e in
    let eq : ns ≡ ms = cc in
    rw eq
      (record { sized = known.0; within = known.1 }, check-true (not nonzero || any_nonzero ms) c)

lit_of : (v : Value) (ns : List ℕ) → decode_channels true v ≡ some ns → IsLit ns
lit_of v ns h =
    let (c, lit) = decode_channels_sound true v ns h in record { channels = c; nonzero = lit }

pair_of_sound :
    (ns : List ℕ) (p : Pair) → pair_of ns ≡ some p → All (λ n. n ≤ 255) ns → IsBytePair p
unfolding pair_of
pair_of_sound (a ∷ b ∷ []) p h known = ground (arith, known)
pair_of_sound _ p h known = cc

byte_pair_sound :
    (key : String) (fields : Fields) (p : Pair) → byte_pair key fields ≡ some p → IsBytePair p
unfolding byte_pair
byte_pair_sound key fields p h =
    let (v, e, h1) = >>=-eq-some (lookup_field key fields) _ h in
    let (ns, e', h2) = >>=-eq-some (int_list 2 255 v) _ h1 in
    pair_of_sound ns p h2 (int_list_sound 2 255 v ns e').1

decode_profile_sound : (v : Value) (p : Profile) → decode_profile v ≡ some p → IsProfile p
unfolding decode_profile
decode_profile_sound (dict fields) p h =
    let (u, e1, h1) = >>=-eq-some (check (has_only profile_keys fields)) _ h in
    let (v, e2, h2) = >>=-eq-some (lookup_field "count" fields) _ h1 in
    let (n, e3, h3) = >>=-eq-some (int_upto 6 v) _ h2 in
    let (u', e4, h4) = >>=-eq-some (check (n == 6)) _ h3 in
    let (c, e5, h5) = >>=-eq-some (byte_pair "controller" fields) _ h4 in
    let (w, e6, h6) = >>=-eq-some (byte_pair "version" fields) _ h5 in
    let six = check-true (n == 6) e4 in
    let eq : p ≡ record { controller = c; version = w; count = n } = cc in
    rw eq (record {
      controller = byte_pair_sound "controller" fields c e5;
      version = byte_pair_sound "version" fields w e6;
      six = ground arith;
    })
decode_profile_sound _ p h = cc

decode_manual_sound :
    (v : Value) (m : Option LastManual) → decode_manual v ≡ some m → Holds IsManual m
unfolding decode_manual
decode_manual_sound null m h = let e : m ≡ none = cc in rw e tt
decode_manual_sound (dict fields) m h =
    let (u, e1, h1) = >>=-eq-some (check (has_only manual_keys fields)) _ h in
    let (v, e2, h2) = >>=-eq-some (lookup_field "profile" fields) _ h1 in
    let (p, e3, h3) = >>=-eq-some (decode_profile v) _ h2 in
    let (w, e4, h4) = >>=-eq-some (lookup_field "channels" fields) _ h3 in
    let (ns, e5, h5) = >>=-eq-some (decode_channels true w) _ h4 in
    let eq : m ≡ some (record { profile = p; channels = ns }) = cc in
    rw eq (record { profile = decode_profile_sound v p e3; lit = lit_of w ns e5 })
decode_manual_sound _ m h = cc

decode_optional_sound :
    (v : Value) (o : Option (List ℕ)) → decode_optional true v ≡ some o → Holds IsLit o
unfolding decode_optional
decode_optional_sound null o h = let e : o ≡ none = cc in rw e tt
decode_optional_sound v o h =
    let (ns, e, h') = >>=-eq-some (decode_channels true v) _ h in
    let eq : o ≡ some ns = cc in rw eq (lit_of v ns e)

decode_off_sound :
    (confirmed : Bool) (v : Value) (o : Option (List ℕ))
    → decode_off confirmed v ≡ some o
    → IsOff confirmed o
unfolding decode_off
decode_off_sound true v o h =
    let (ns, e, h') = >>=-eq-some (decode_channels false v) _ h in
    let eq : o ≡ some ns = cc in rw eq (decode_channels_sound false v ns e).0
decode_off_sound false null o h = let e : o ≡ none = cc in rw e tt
decode_off_sound false _ o h = cc

decode_origin_sound :
    (v : Value) (o : Option OffOrigin) → decode_origin v ≡ some o → Holds IsOrigin o
unfolding decode_origin
decode_origin_sound null o h = let e : o ≡ none = cc in rw e tt
decode_origin_sound (dict fields) o h =
    let (u, e1, h1) = >>=-eq-some (check (has_only origin_keys fields)) _ h in
    let (v, e2, h2) = >>=-eq-some (lookup_field "profile" fields) _ h1 in
    let (p, e3, h3) = >>=-eq-some (decode_profile v) _ h2 in
    let (w, e4, h4) = >>=-eq-some (lookup_field "mode" fields) _ h3 in
    let (mode, e5, h5) = >>=-eq-some (int_upto 1 w) _ h4 in
    let (x, e6, h6) = >>=-eq-some (lookup_field "confirmed" fields) _ h5 in
    let (confirmed, e7, h7) = >>=-eq-some (flag_of x) _ h6 in
    let (y, e8, h8) = >>=-eq-some (lookup_field "manual_channels" fields) _ h7 in
    let (manual, e9, h9) = >>=-eq-some (decode_optional true y) _ h8 in
    let (z, e10, h10) = >>=-eq-some (lookup_field "off_channels" fields) _ h9 in
    let (off, e11, h11) = >>=-eq-some (decode_off confirmed z) _ h10 in
    let origin : OffOrigin = record {
      profile = p;
      mode = mode;
      manual_channels = manual;
      confirmed = confirmed;
      off_channels = off;
    } in
    held IsOrigin origin h11 (record {
      profile = decode_profile_sound v p e3;
      mode = int_upto-le 1 w e5;
      manual = decode_optional_sound y manual e9;
      off = decode_off_sound confirmed z off e11;
    })
decode_origin_sound _ o h = cc

-- A stored document that passes validation is a well-formed record: it has known profiles, at most
-- nonzero percentages to restore, and observed Off channels exactly if the Off was confirmed.
pub decode_record_sound : (v : Value) (r : PowerRecord) → decode_record v ≡ some r → IsRecord r
unfolding decode_record
decode_record_sound (dict fields) r h =
    let (u, e1, h1) = >>=-eq-some (check (has_only record_keys fields)) _ h in
    let (v, e2, h2) = >>=-eq-some (lookup_field "schema_version" fields) _ h1 in
    let (n, e3, h3) = >>=-eq-some (int_upto 1 v) _ h2 in
    let (u', e4, h4) = >>=-eq-some (check (n == 1)) _ h3 in
    let (w, e5, h5) = >>=-eq-some (lookup_field "revision" fields) _ h4 in
    let (revision, e6, h6) = >>=-eq-some (text_of w) _ h5 in
    let (u'', e7, h7) = >>=-eq-some (check (count revision == 32)) _ h6 in
    let (x, e8, h8) = >>=-eq-some (lookup_field "last_manual" fields) _ h7 in
    let (manual, e9, h9) = >>=-eq-some (decode_manual x) _ h8 in
    let (y, e10, h10) = >>=-eq-some (lookup_field "off_origin" fields) _ h9 in
    let (origin, e11, h11) = >>=-eq-some (decode_origin y) _ h10 in
    let sized = check-true (count revision == 32) e7 in
    accepted (record { revision = revision; last_manual = manual; off_origin = origin }) h11
      (record {
        revision = ground arith;
        manual = decode_manual_sound x manual e9;
        origin = decode_origin_sound y origin e11;
      })
decode_record_sound _ r h = cc
