-- ===== src/Queue/Consistent/Inflight.antt =====
-- What `_retry_or_dead` leaves in flight in the queue that it is called for.
use one_open_broker.Prelude.{
  ℕ, ◌+◌, ◌≡◌, ◌≢◌, ◌∙◌, refl, sym, ap, Bool, true, false, Option, none, some, [], Str, str_eq,
  str_eq_iff, str_eq_refl, str_eq_ne, leb, if◌then◌else◌, arith, Bool-cases, Option-cases, inl, inr,
}
use one_open_broker.Dict.{Dict, get, put, get-put}
use one_open_broker.Core.Names.{dlq_name, dlq_name-ne}
use one_open_broker.Core.Message.{Message, InflightRecord}
use one_open_broker.Queue.State.{DurableQueue, Engine, new_queue, store, log}
use one_open_broker.Queue.Declare.{declare_queue, declare_with, spec_of}
use one_open_broker.Queue.Retry.{bury, dead_letter_to, move_to_dlq, delay_retry, retry_or_dead}
use one_open_broker.Queue.Consistent.{SpecFits, log-queues}
use one_open_broker.Queue.Consistent.Declare.{dest_options}

abbrev pub inflight_in : Option DurableQueue → Dict InflightRecord
inflight_in none = []
inflight_in (some q) = q.inflight

-- The deliveries in flight of the queue of that name.
abbrev pub inflight_of : Str → Engine → Dict InflightRecord
inflight_of name e = inflight_in (get name e.queues)

inflight_in-put :
    (name n : Str) (q : DurableQueue) (d : Dict DurableQueue)
    → inflight_in (get n (put name q d))
      ≡ (if str_eq name n then q.inflight else inflight_in (get n d))
inflight_in-put name n q d = ground (arith, get-put name n q d)

inflight_of-declare :
    (dest name : Str) (e : Engine)
    → inflight_of name (declare_queue dest dest_options false e).0 ≡ inflight_of name e
unfolding declare_queue declare_with store log spec_of
inflight_of-declare dest name e = elim (Option-cases (get dest e.queues)) [
  | inr (q, h) ↦ rw (h, declare_queue, declare_with) refl
  | inl h ↦
      rw (h, declare_queue, declare_with)
        (ground (
          arith,
          inflight_in-put dest name (new_queue (spec_of e.settings dest dest_options)) e.queues,
          str_eq_iff dest name,
          h,
        ))
]

inflight_of-dead_letter_to :
    (dest name : Str) (m : Message) (e : Engine)
    → dest ≢ name
    → inflight_of name (dead_letter_to dest m e) ≡ inflight_of name e
unfolding dead_letter_to store
inflight_of-dead_letter_to dest name m e n =
    rw (inflight_in-put, str_eq_ne dest name n) (inflight_of-declare dest name e)

inflight_of-if :
    (name : Str) (d : Dict InflightRecord) (b : Bool) (x y : Engine)
    → (b ≡ true → inflight_of name x ≡ d)
    → (b ≡ false → inflight_of name y ≡ d)
    → inflight_of name (if b then x else y) ≡ d
inflight_of-if name d true x y hx hy = hx refl
inflight_of-if name d false x y hx hy = hy refl

module _ (name : Str) (q : DurableQueue) (m : Message) (persist : Bool) (e : Engine) where
  inflight_of-bury : inflight_of name (bury name q m persist e) ≡ q.inflight
  unfolding bury store
  inflight_of-bury = rw (log-queues, inflight_in-put, str_eq_refl) refl

  pub inflight_of-move_to_dlq :
      SpecFits name q.spec → inflight_of name (move_to_dlq name q m persist e) ≡ q.inflight
  unfolding move_to_dlq
  inflight_of-move_to_dlq f =
      inflight_of-if name q.inflight q.spec.dead_letter _ _
        (λ d.
          inflight_of-dead_letter_to (dlq_name q.spec.name) name m (bury name q m persist e)
            (λ p. dlq_name-ne name (f.1 d) (ap dlq_name (sym f.0) ∙ p))
          ∙ inflight_of-bury)
        (λ _. inflight_of-bury)

  inflight_of-delay_retry :
      (when : ℕ) → inflight_of name (delay_retry when name q m persist e) ≡ q.inflight
  unfolding delay_retry store
  inflight_of-delay_retry when = rw (log-queues, inflight_in-put, str_eq_refl) refl

-- The other deliveries of the queue stay in flight, whether the message is retried or dead.
pub inflight_of-retry_or_dead :
    (now : ℕ) (name : Str) (q : DurableQueue) (m : Message) (persist : Bool) (e : Engine)
    → SpecFits name q.spec
    → inflight_of name (retry_or_dead now name q m persist e) ≡ q.inflight
unfolding retry_or_dead
inflight_of-retry_or_dead now name q m persist e f =
    elim (Bool-cases (leb m.max_attempts (m.attempts + 1))) [
      | inl dead ↦ rw dead (inflight_of-move_to_dlq name q _ persist e f)
      | inr alive ↦ rw alive (inflight_of-delay_retry name q _ persist e _)
    ]
