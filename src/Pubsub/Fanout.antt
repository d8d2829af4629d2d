-- ===== src/Pubsub/Fanout.antt =====
-- What one `publish` counts and to whom it goes.
use one_open_broker.Prelude.{
  ℕ, ◌+◌, ◌≡◌, refl, ◌∙◌, Bool, List, [], ◌∷◌, ◌++◌, Str, str_eq_refl, if◌then◌else◌, length,
  length-append, arith, Bool-cases, inl, inr,
}
use mathlib.Core.List.{append_assoc, append-nil}
use one_open_broker.Dict.{get, get-put}
use one_open_broker.Pubsub.State.{PubSub, Fanout, subscribers, stats_of, fan_out, publish}

-- The connections that refused the message, in their order.
pub refusing : (Str → Bool) → List Str → List Str
refusing send [] = []
refusing send (c ∷ cs) = let rest = refusing send cs in if send c then rest else c ∷ rest

slow-fan_out :
    (send : Str → Bool) (cs : List Str) (f : Fanout)
    → (fan_out send cs f).slow ≡ f.slow ++ refusing send cs
unfolding fan_out refusing
slow-fan_out send [] f = rw append-nil refl
slow-fan_out send (c ∷ cs) f = elim (Bool-cases (send c)) [
  | inl took ↦ rw (took, fan_out) (slow-fan_out send cs _)
  | inr slow ↦
      rw (slow, fan_out) (slow-fan_out send cs _ ∙ append_assoc f.slow (c ∷ []) (refusing send cs))
]

-- The counters move together.
record Moved (n : ℕ) (f g : Fanout) : Type 0 where
  all : g.delivered + length g.slow ≡ f.delivered + length f.slow + n
  total : g.total_fanout + f.delivered ≡ f.total_fanout + g.delivered
  fanned : g.stats.fanout + f.delivered ≡ f.stats.fanout + g.delivered
  dropped : g.stats.slow_drops + length f.slow ≡ f.stats.slow_drops + length g.slow
  same : g.stats.published ≡ f.stats.published

fan_out-Moved :
    (send : Str → Bool) (cs : List Str) (f : Fanout) → Moved (length cs) f (fan_out send cs f)
unfolding fan_out
fan_out-Moved send [] f = omega arith
fan_out-Moved send (c ∷ cs) f = elim (Bool-cases (send c)) [
  | inl took ↦ rw took (
      omega (
        arith,
        fan_out-Moved send cs (record f {
          delivered = f.delivered + 1;
          total_fanout = f.total_fanout + 1;
          stats = record f.stats { fanout = f.stats.fanout + 1 };
        }),
      ))
  | inr slow ↦ rw slow (
      omega (
        arith,
        length-append f.slow (c ∷ []),
        fan_out-Moved send cs (record f {
          slow = f.slow ++ c ∷ [];
          stats = record f.stats { slow_drops = f.stats.slow_drops + 1 };
        }),
      ))
]

-- Every subscriber of the channel is either delivered to or reported slow, the slow ones are those
-- whose connection refused the message, and the counters of the channel and of the engine grow by
-- exactly that.
pub publish_accounts :
    (channel : Str) (send : Str → Bool) (p : PubSub)
    → let (p', f) = publish channel send p in
      let old = stats_of (get channel p.stats) in
      let new = stats_of (get channel p'.stats) in
      (f.slow ≡ refusing send (subscribers channel p))
      × (f.delivered + length f.slow ≡ length (subscribers channel p))
      × (p'.total_published ≡ p.total_published + 1)
      × (p'.total_fanout ≡ p.total_fanout + f.delivered)
      × (new.published ≡ old.published + 1)
      × (new.fanout ≡ old.fanout + f.delivered)
      × (new.slow_drops ≡ old.slow_drops + length f.slow)
unfolding publish
publish_accounts channel send p =
    let old = stats_of (get channel p.stats) in
    let start : Fanout = record {
      delivered = 0;
      slow = [];
      total_fanout = p.total_fanout;
      stats = record old { published = old.published + 1 };
    } in
    let moved = fan_out-Moved send (subscribers channel p) start in
    let found =
      get-put channel channel (fan_out send (subscribers channel p) start).stats p.stats in
    rw (found, str_eq_refl channel)
      (
        slow-fan_out send (subscribers channel p) start,
        omega arith,
        refl,
        omega arith,
        omega arith,
        omega arith,
        omega arith,
      )
