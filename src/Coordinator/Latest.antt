-- ===== src/Coordinator/Latest.antt =====
-- coordinator.py: of several settings of one channel that wait, only the latest is carried out.
use mathlib.Core.Path.{subst}
use hahapent.Base.{
  ℕ, zero, suc, ◌<◌, ◌≡◌, ◌≢◌, refl, sym, ◌∙◌, length, Bool, some, List, [], ◌∷◌, set, get_or, ok,
  arith,
}
use hahapent.Base.Value.{Value, int_upto-le}
use hahapent.Coordinator.{
  Library, Coordinator, ◌>>=◌, invalidate_compact, require_current_state, require_write_supported,
  require_current_request,
}
use hahapent.Coordinator.Requests.{Ticket, channel_request, supersede_channel, submit_channel}
use hahapent.Coordinator.Calls.{Call, in_doubt, check_deadline, admit_channel, admit}
use hahapent.Coordinator.Steps.{Steps, asks_channel}
use hahapent.Coordinator.Steps.Every.{step-respects, steps-respect}
use hahapent.Coordinator.Later.{Later, Later-elementary}

get_or-set_eq : (gens : List ℕ) (i v : ℕ) → i < length gens → get_or (set gens i v) i 0 ≡ v
get_or-set_eq [] i v h = absurd (omega arith)
get_or-set_eq (g ∷ gens) zero v h = refl
get_or-set_eq (g ∷ gens) (suc i) v h = get_or-set_eq gens i v (omega arith)

write_supported-same : (c : Coordinator) → (require_write_supported c).1 ≡ c
unfolding require_write_supported require_current_state ◌>>=◌
write_supported-same c = ground arith

-- The generation of a new ticket is the channel's.
issued-generation :
    (a b : Value) (c : Coordinator) (t : Ticket) (i v g : ℕ)
    → (submit_channel a b c).0 ≡ ok t
    → t.request ≡ channel_request i v g
    → get_or (submit_channel a b c).1.channel_generations i 0 ≡ g
unfolding submit_channel ◌>>=◌ supersede_channel
issued-generation a b c t i v g hs ht = ground arith

issued-later :
    (a b : Value) (c : Coordinator) (t : Ticket) (i v g : ℕ)
    → (submit_channel a b c).0 ≡ ok t
    → t.request ≡ channel_request i v g
    → length c.channel_generations ≡ 6
    → get_or c.channel_generations i 0 < get_or (submit_channel a b c).1.channel_generations i 0
unfolding submit_channel ◌>>=◌ supersede_channel require_write_supported require_current_state
    invalidate_compact
issued-later a b c t i v g hs ht hl = grind (arith, get_or-set_eq, int_upto-le)

admitted-generation :
    (ha : Library) (task : ℕ) (late : Bool) (epoch i v g : ℕ) (c : Coordinator) (call : Call)
    → (admit_channel ha task late epoch i v g c).0 ≡ ok (some call)
    → get_or c.channel_generations i 0 ≡ g
unfolding admit_channel check_deadline in_doubt ◌>>=◌ require_current_request
    require_write_supported require_current_state
admitted-generation ha task late epoch i v g c call h = ground arith

-- Of two accepted settings of one channel the earlier is never carried out once the later is accepted,
-- however the tasks interleave: at its turn the client is not called.
pub admit-superseded :
    (ha : Library) (task : ℕ) (late : Bool) (a₁ b₁ a₂ b₂ : Value) (i v₁ v₂ g₁ g₂ : ℕ)
    (c d f : Coordinator) (t₁ t₂ : Ticket) (call : Call)
    → length c.channel_generations ≡ 6
    → (submit_channel a₁ b₁ c).0 ≡ ok t₁
    → t₁.request ≡ channel_request i v₁ g₁
    → Steps ha (submit_channel a₁ b₁ c).1 d
    → (submit_channel a₂ b₂ d).0 ≡ ok t₂
    → t₂.request ≡ channel_request i v₂ g₂
    → Steps ha (submit_channel a₂ b₂ d).1 f
    → (admit ha task late t₁ f).0 ≢ ok (some call)
unfolding admit
admit-superseded ha task late a₁ b₁ a₂ b₂ i v₁ v₂ g₁ g₂ c d f t₁ t₂ call hl h₁ r₁ between h₂ r₂
      after_ hc =
    let first = step-respects Later Later-elementary ha (asks_channel a₁ b₁ c) in
    let mid = steps-respect Later Later-elementary ha between in
    let last = steps-respect Later Later-elementary ha after_ in
    let found = admitted-generation ha task late t₁.epoch i v₁ g₁ f call (
      subst
        (λ r. (admit ha task late (record { epoch = t₁.epoch; request = r }) f).0 ≡ ok (some call))
        r₁ hc) in
    let issued = issued-generation a₁ b₁ c t₁ i v₁ g₁ h₁ r₁ in
    let later =
      issued-later a₂ b₂ d t₂ i v₂ g₂ h₂ r₂ (sym mid.same_length ∙ (sym first.same_length ∙ hl)) in
    absurd (omega (arith, issued, found, later, mid.channel_later i, last.channel_later i))
