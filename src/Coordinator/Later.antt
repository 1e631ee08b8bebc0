-- ===== src/Coordinator/Later.antt =====
-- What no step of the coordinator takes back: epochs and generations only grow, and a stop is final.
use hahapent.Base.{
  ℕ, zero, suc, ◌+◌, ◌≤◌, ◌≡◌, refl, sym, ap, ◌∙◌, length, length-map, true, List, [], ◌∷◌, map,
  set, get_or, arith,
}
use hahapent.Coordinator.{
  Coordinator, read_failed, read_succeeded, invalidate_compact, supersede_channels,
}
use hahapent.Coordinator.Requests.{supersede_channel}
use hahapent.Coordinator.Steps.Moves.{Elementary}

-- A coordinator that comes later.
pub record Later (c d : Coordinator) : Type 0 where
  pub epoch_later : c.command_epoch ≤ d.command_epoch
  pub compact_later : c.compact_generation ≤ d.compact_generation
  pub channel_later : (i : ℕ) → get_or c.channel_generations i 0 ≤ get_or d.channel_generations i 0
  pub same_length : length c.channel_generations ≡ length d.channel_generations
  pub stays_stopped : c.stopped ≡ true → d.stopped ≡ true

get_or-set_le :
    (gens : List ℕ) (i j : ℕ) → get_or gens j 0 ≤ get_or (set gens i (get_or gens i 0 + 1)) j 0
get_or-set_le [] i j = omega arith
get_or-set_le (g ∷ gens) zero zero = omega arith
get_or-set_le (g ∷ gens) zero (suc j) = omega arith
get_or-set_le (g ∷ gens) (suc i) zero = omega arith
get_or-set_le (g ∷ gens) (suc i) (suc j) = get_or-set_le gens i j

length-set : (gens : List ℕ) (i v : ℕ) → length (set gens i v) ≡ length gens
length-set [] i v = refl
length-set (g ∷ gens) zero v = refl
length-set (g ∷ gens) (suc i) v = ap suc (length-set gens i v)

get_or-map_le : (gens : List ℕ) (j : ℕ) → get_or gens j 0 ≤ get_or (map (λ n. n + 1) gens) j 0
get_or-map_le [] j = omega arith
get_or-map_le (g ∷ gens) zero = omega arith
get_or-map_le (g ∷ gens) (suc j) = get_or-map_le gens j

quiet :
    (c d : Coordinator)
    → c.command_epoch ≡ d.command_epoch
    → c.compact_generation ≡ d.compact_generation
    → c.channel_generations ≡ d.channel_generations
    → (c.stopped ≡ true → d.stopped ≡ true)
    → Later c d
quiet c d he hc hg hs = record {
  epoch_later = omega (arith, he);
  compact_later = omega (arith, hc);
  channel_later = λ i. omega (arith, ap (λ gens. get_or gens i 0) hg);
  same_length = ap length hg;
  stays_stopped = hs;
}

pub Later-elementary : Elementary Later
unfolding invalidate_compact read_failed read_succeeded supersede_channels supersede_channel
Later-elementary = record {
  same = λ c. quiet c c refl refl refl (λ h. h);
  next = λ c d f h k. record {
    epoch_later = omega (arith, h.epoch_later, k.epoch_later);
    compact_later = omega (arith, h.compact_later, k.compact_later);
    channel_later = λ i. omega (arith, h.channel_later i, k.channel_later i);
    same_length = h.same_length ∙ k.same_length;
    stays_stopped = λ s. k.stays_stopped (h.stays_stopped s);
  };
  invalidates = λ c. record {
    epoch_later = omega arith;
    compact_later = omega arith;
    channel_later = λ i. omega arith;
    same_length = refl;
    stays_stopped = λ s. s;
  };
  fails = λ c. record {
    epoch_later = omega arith;
    compact_later = omega arith;
    channel_later = λ i. omega arith;
    same_length = refl;
    stays_stopped = λ s. s;
  };
  succeeds = λ c. quiet c _ refl refl refl (λ s. s);
  advances = λ c. record {
    epoch_later = omega arith;
    compact_later = omega arith;
    channel_later = λ i. omega arith;
    same_length = refl;
    stays_stopped = λ s. s;
  };
  publishes = λ p c. quiet c _ refl refl refl (λ s. s);
  remembers = λ m c. quiet c _ refl refl refl (λ s. s);
  intends = λ intent c. quiet c _ refl refl refl (λ s. s);
  gestures = λ c. record {
    epoch_later = omega arith;
    compact_later = omega arith;
    channel_later = λ i. omega arith;
    same_length = refl;
    stays_stopped = λ s. s;
  };
  supersedes_all = λ c. record {
    epoch_later = omega arith;
    compact_later = omega arith;
    channel_later = get_or-map_le c.channel_generations;
    same_length = sym (length-map (λ n. n + 1) c.channel_generations);
    stays_stopped = λ s. s;
  };
  supersedes = λ i c. record {
    epoch_later = omega arith;
    compact_later = omega arith;
    channel_later = get_or-set_le c.channel_generations i;
    same_length = sym (length-set c.channel_generations i (get_or c.channel_generations i 0 + 1));
    stays_stopped = λ s. s;
  };
  activates = λ t c. quiet c _ refl refl refl (λ s. s);
  reads = λ t c. quiet c _ refl refl refl (λ s. s);
  sets_options = λ o c. quiet c _ refl refl refl (λ s. s);
  quiesces = λ q r c. quiet c _ refl refl refl (λ s. s);
  stops = λ c. quiet c _ refl refl refl (λ s. refl);
}
