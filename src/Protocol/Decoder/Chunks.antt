-- ===== src/Protocol/Decoder/Chunks.antt =====
-- `StreamDecoder.feed` does not depend on how the network cuts the stream into reads.
use hahapent.Base.{
  ℕ, zero, suc, ◌+◌, ◌≤◌, ◌≡◌, refl, sym, ◌∙◌, List, [], ◌∷◌, ◌++◌, length, length-append,
  length-drop, take, drop, take-append_le, drop-append_le, arith,
}
use hahapent.Protocol.Frame.{Bytes}
use hahapent.Protocol.Decoder.{
  Message, Round, wait, emit, skip, fault, round, Drained, drained, broken, prepend, drain,
}
use hahapent.Protocol.Decoder.Rounds.{emit_size, round-append}
use hahapent.Protocol.Decoder.Drain.{
  drain_nil, drain-wait, drain-emit, drain-skip, drain-fault, prepend_inv, prepend_broken,
}

-- The messages of an earlier read in front of what a later one gives.
abbrev pub prepend_all : List Message → Drained → Drained
prepend_all [] r = r
prepend_all (m ∷ ms) r = prepend m (prepend_all ms r)

-- From enough fuel on, more fuel makes no difference.
pub drain_fuel :
    (f g : ℕ) (buffer : Bytes) (n : ℕ)
    → length buffer ≤ f
    → length buffer ≤ g
    → drain f buffer n ≡ drain g buffer n
unfolding drain
drain_fuel zero zero [] n h k = refl
drain_fuel zero (suc g) [] n h k = refl
drain_fuel (suc f) zero [] n h k = refl
drain_fuel (suc f) (suc g) [] n h k = refl
drain_fuel zero g (b ∷ bs) n h k = absurd (omega arith)
drain_fuel (suc f) zero (b ∷ bs) n h k = absurd (omega arith)
drain_fuel (suc f) (suc g) (b ∷ bs) n h k = go (round b (b ∷ bs)) refl (drain_fuel f g)
  where
    go :
        (r : Round)
        → round b (b ∷ bs) ≡ r
        → ((buffer : Bytes) (n : ℕ)
            → length buffer ≤ f
            → length buffer ≤ g
            → drain f buffer n ≡ drain g buffer n)
        → drain (suc f) (b ∷ bs) n ≡ drain (suc g) (b ∷ bs) n
    go wait e ih = ground arith
    go (emit kind size) e ih = ground (
      arith,
      emit_size b (b ∷ bs) kind size,
      length-drop size (b ∷ bs),
      ih (drop size (b ∷ bs)) n,
    )
    go skip e ih = ground (arith, ih bs (n + 1))
    go fault e ih = ground arith

-- Where the first loop stopped, the second goes on.
resume :
    (g h : ℕ) (buffer more : Bytes) (n : ℕ) (ms : List Message) (rest : Bytes) (count : ℕ)
    → drained [] buffer n ≡ drained ms rest count
    → length (buffer ++ more) ≤ g
    → length (rest ++ more) ≤ h
    → drain g (buffer ++ more) n ≡ prepend_all ms (drain h (rest ++ more) count)
resume g h buffer more n ms rest count e lg lh = ground (arith, drain_fuel g h (buffer ++ more) n)

-- The loop over two reads together is the loop over the first, then over what it left with the
-- second.
pub drain-append :
    (f g h : ℕ) (buffer more : Bytes) (n : ℕ) (ms : List Message) (rest : Bytes) (count : ℕ)
    → length buffer ≤ f
    → length (buffer ++ more) ≤ g
    → length (rest ++ more) ≤ h
    → drain f buffer n ≡ drained ms rest count
    → drain g (buffer ++ more) n ≡ prepend_all ms (drain h (rest ++ more) count)
drain-append f g h [] more n ms rest count lf lg lh e =
    resume g h [] more n ms rest count (sym (drain_nil f n) ∙ e) lg lh
drain-append zero g h (b ∷ bs) more n ms rest count lf lg lh e = absurd (omega arith)
drain-append (suc f) zero h (b ∷ bs) more n ms rest count lf lg lh e = absurd (omega arith)
drain-append (suc f) (suc g) h (b ∷ bs) more n ms rest count lf lg lh e =
    go (round b (b ∷ bs)) refl (drain-append f g h) e
  where
    go :
        (r : Round)
        → round b (b ∷ bs) ≡ r
        → ((buffer more : Bytes) (n : ℕ) (ms : List Message) (rest : Bytes) (count : ℕ)
            → length buffer ≤ f
            → length (buffer ++ more) ≤ g
            → length (rest ++ more) ≤ h
            → drain f buffer n ≡ drained ms rest count
            → drain g (buffer ++ more) n ≡ prepend_all ms (drain h (rest ++ more) count))
        → drain (suc f) (b ∷ bs) n ≡ drained ms rest count
        → drain (suc g) (b ∷ bs ++ more) n ≡ prepend_all ms (drain h (rest ++ more) count)
    go wait e' ih e =
        resume (suc g) h (b ∷ bs) more n ms rest count (sym (drain-wait f b bs n e') ∙ e) lg lh
    go (emit kind size) e' ih e =
        let message : Message = record { kind = kind; raw = take size (b ∷ bs) } in
        let (later, e'', split) = prepend_inv message _ (sym (drain-emit f b bs n e') ∙ e) in
        ground (
          arith,
          emit_size b (b ∷ bs) kind size,
          round-append b (b ∷ bs) more,
          drain-emit g b (bs ++ more) n {kind = kind} {size = size},
          take-append_le size (b ∷ bs) more,
          drop-append_le size (b ∷ bs) more,
          length-drop size (b ∷ bs),
          length-append (drop size (b ∷ bs)) more,
          length-append bs more,
          ih (drop size (b ∷ bs)) more n later rest count,
        )
    go skip e' ih e = ground (
      arith,
      round-append b (b ∷ bs) more,
      drain-skip f b bs n,
      drain-skip g b (bs ++ more) n,
      ih bs more (n + 1) ms rest count,
    )
    go fault e' ih e = cc (drain-fault f b bs n e')

-- A fault in the first read is a fault in the two together, at the same count.
pub drain-append_broken :
    (f g : ℕ) (buffer more : Bytes) (n count : ℕ)
    → length buffer ≤ f
    → length (buffer ++ more) ≤ g
    → drain f buffer n ≡ broken count
    → drain g (buffer ++ more) n ≡ broken count
drain-append_broken f g [] more n count lf lg e = cc (drain_nil f n)
drain-append_broken zero g (b ∷ bs) more n count lf lg e = absurd (omega arith)
drain-append_broken (suc f) zero (b ∷ bs) more n count lf lg e = absurd (omega arith)
drain-append_broken (suc f) (suc g) (b ∷ bs) more n count lf lg e =
    go (round b (b ∷ bs)) refl (drain-append_broken f g)
  where
    go :
        (r : Round)
        → round b (b ∷ bs) ≡ r
        → ((buffer more : Bytes) (n count : ℕ)
            → length buffer ≤ f
            → length (buffer ++ more) ≤ g
            → drain f buffer n ≡ broken count
            → drain g (buffer ++ more) n ≡ broken count)
        → drain (suc g) (b ∷ bs ++ more) n ≡ broken count
    go wait w ih = cc (drain-wait f b bs n w)
    go (emit kind size) w ih =
        let message : Message = record { kind = kind; raw = take size (b ∷ bs) } in
        let e' = prepend_broken message _ (sym (drain-emit f b bs n w) ∙ e) in
        ground (
          arith,
          emit_size b (b ∷ bs) kind size,
          round-append b (b ∷ bs) more,
          drain-emit g b (bs ++ more) n {kind = kind} {size = size},
          drop-append_le size (b ∷ bs) more,
          length-drop size (b ∷ bs),
          length-append (drop size (b ∷ bs)) more,
          length-append bs more,
          ih (drop size (b ∷ bs)) more n count,
        )
    go skip w ih = ground (
      arith,
      round-append b (b ∷ bs) more,
      drain-skip f b bs n,
      drain-skip g b (bs ++ more) n,
      ih bs more (n + 1) count,
    )
    go fault w ih =
        drain-fault g b (bs ++ more) n (round-append b (b ∷ bs) more (λ x. cc) ∙ w)
        ∙ cc (drain-fault f b bs n w)
