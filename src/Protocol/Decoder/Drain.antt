-- ===== src/Protocol/Decoder/Drain.antt =====
-- The decoder's loop, one equation for each kind of round.
use hahapent.Base.{ℕ, zero, suc, ◌+◌, ◌≡◌, refl, List, [], ◌∷◌, take, drop}
use hahapent.Protocol.Frame.{Bytes}
use hahapent.Protocol.Decoder.{
  Kind, Message, wait, emit, skip, fault, round, Drained, drained, broken, prepend, drain,
}

-- The rounds of the loop, one equation each.
pub drain-wait :
    (f b : ℕ) (bs : Bytes) (n : ℕ)
    → round b (b ∷ bs) ≡ wait
    → drain (suc f) (b ∷ bs) n ≡ drained [] (b ∷ bs) n
unfolding drain
drain-wait f b bs n e = rw (e, drain)

pub drain-emit :
    (f b : ℕ) (bs : Bytes) (n : ℕ) {kind : Kind} {size : ℕ}
    → round b (b ∷ bs) ≡ emit kind size
    → drain (suc f) (b ∷ bs) n
      ≡ prepend (record { kind = kind; raw = take size (b ∷ bs) }) (drain f (drop size (b ∷ bs)) n)
unfolding drain
drain-emit f b bs n e = rw (e, drain)

pub drain-skip :
    (f b : ℕ) (bs : Bytes) (n : ℕ)
    → round b (b ∷ bs) ≡ skip
    → drain (suc f) (b ∷ bs) n ≡ drain f bs (n + 1)
unfolding drain
drain-skip f b bs n e = rw (e, drain)

pub drain-fault :
    (f b : ℕ) (bs : Bytes) (n : ℕ) → round b (b ∷ bs) ≡ fault → drain (suc f) (b ∷ bs) n ≡ broken n
unfolding drain
drain-fault f b bs n e = rw (e, drain)

pub prepend_inv :
    (m : Message) (r : Drained) {ms : List Message} {rest : Bytes} {count : ℕ}
    → prepend m r ≡ drained ms rest count
    → (later : List Message) × (r ≡ drained later rest count) × (ms ≡ m ∷ later)
prepend_inv m (drained later rest count) h = (later, cc, cc)
prepend_inv m (broken count) h = cc

pub drain_nil : (f n : ℕ) → drain f [] n ≡ drained [] [] n
unfolding drain
drain_nil zero n = refl
drain_nil (suc f) n = refl

pub prepend_broken :
    (m : Message) (r : Drained) {count : ℕ} → prepend m r ≡ broken count → r ≡ broken count
prepend_broken m (drained later rest n) h = cc
prepend_broken m (broken n) h = h
