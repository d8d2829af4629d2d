-- ===== src/Pubsub/Spec.antt =====
-- What the channels promise: the set of subscriptions that a history leaves, whatever the indexes are.
use one_open_broker.Prelude.{
  ◌≡◌, ◌∙◌, refl, ap, sym, Bool, false, not, ◌&&◌, ◌||◌, List, [], ◌∷◌, Str, str_eq, str_eq_iff,
  arith, Bool-cases, inl, inr,
}
use one_open_broker.Dict.{get, contains, contains-add, contains-discard, add}
use one_open_broker.Pubsub.State.{
  PubSub, new_pubsub, subscribers, channels, subscribe, unsubscribe, unsubscribe_all, disconnect,
  publish, list_channels,
}
use one_open_broker.Pubsub.Symmetry.{
  IsSymmetric, ids_of-drop_sub, ids_of-put, subscribe-IsSymmetric, unsubscribe-IsSymmetric,
  disconnect_lem,
}

-- What happens to the engine: the arguments are a connection and a channel.
pub data Event : Type 0 where
  joins : Str → Str → Event
  parts : Str → Str → Event
  goes : Str → Event
  publishes : Str → (Str → Bool) → Event
  lists : Event

unfoldable pub apply : Event → PubSub → PubSub
apply (joins c k) p = subscribe c k p
apply (parts c k) p = (unsubscribe c k p).0
apply (goes c) p = disconnect c p
apply (publishes k send_event) p = (publish k send_event p).0
apply lists p = (list_channels p).0

unfoldable pub run : List Event → PubSub → PubSub
run [] p = p
run (x ∷ xs) p = run xs (apply x p)

-- The abstract engine is a relation between connections and channels.
abbrev pub Subscriptions : Type 0
Subscriptions = Str → Str → Bool

abbrev pub apply_spec : Event → Subscriptions → Subscriptions
apply_spec (joins c k) s = λ d j. (str_eq c d && str_eq k j) || s d j
apply_spec (parts c k) s = λ d j. not (str_eq c d && str_eq k j) && s d j
apply_spec (goes c) s = λ d j. not (str_eq c d) && s d j
apply_spec (publishes k send_event) s = s
apply_spec lists s = s

abbrev pub run_spec : List Event → Subscriptions → Subscriptions
run_spec [] s = s
run_spec (x ∷ xs) s = run_spec xs (apply_spec x s)

-- Both indexes hold exactly the subscriptions of the abstract engine.
pub record Refines (p : PubSub) (s : Subscriptions) : Type 0 where
  pub by_channel : (c k : Str) → contains c (subscribers k p) ≡ s c k
  pub by_connection : (c k : Str) → contains k (channels c p) ≡ s c k

subscribe-other :
    (c k d j : Str) (p : PubSub)
    → contains d (subscribers j (subscribe c k p))
      ≡ ((str_eq c d && str_eq k j) || contains d (subscribers j p))
unfolding subscribe
subscribe-other c k d j p = ground (
  arith,
  ids_of-put k j (add c (subscribers k p)) p.subs,
  contains-add c d (subscribers k p),
  str_eq_iff k j,
)

unsubscribe-other :
    (c k d j : Str) (p : PubSub)
    → contains d (subscribers j (unsubscribe c k p).0)
      ≡ (not (str_eq c d && str_eq k j) && contains d (subscribers j p))
unfolding unsubscribe
unsubscribe-other c k d j p = ground (
  arith,
  ids_of-drop_sub c k j p.subs,
  contains-discard c d (subscribers k p),
  str_eq_iff k j,
  str_eq_iff c d,
)

unsubscribe_all-other :
    (c d j : Str) (ks : List Str) (p : PubSub)
    → str_eq c d ≡ false
    → contains d (subscribers j (unsubscribe_all c ks p)) ≡ contains d (subscribers j p)
unfolding unsubscribe_all
unsubscribe_all-other c d j [] p n = refl
unsubscribe_all-other c d j (k ∷ ks) p n =
    unsubscribe_all-other c d j ks (unsubscribe c k p).0 n
    ∙ unsubscribe-other c k d j p
    ∙ ground (arith, n)

disconnect-other :
    (c d j : Str) (p : PubSub)
    → IsSymmetric p
    → contains d (subscribers j (disconnect c p))
      ≡ (not (str_eq c d) && contains d (subscribers j p))
disconnect-other c d j p s = elim (Bool-cases (str_eq c d)) [
  | inl same ↦ rw same (
      ap (λ (x : Str). contains x (subscribers j (disconnect c p))) (sym ((str_eq_iff c d).0 same))
      ∙ (disconnect_lem c p s).1 j)
  | inr n ↦ rw n (unfold disconnect in unsubscribe_all-other c d j (channels c p) _ n)
]

apply-IsSymmetric : (x : Event) (p : PubSub) → IsSymmetric p → IsSymmetric (apply x p)
unfolding apply publish list_channels
apply-IsSymmetric (joins c k) p s = subscribe-IsSymmetric c k p s
apply-IsSymmetric (parts c k) p s = unsubscribe-IsSymmetric c k p s
apply-IsSymmetric (goes c) p s = (disconnect_lem c p s).0
apply-IsSymmetric (publishes k send_event) p s = record { same = s.same }
apply-IsSymmetric lists p s = record { same = s.same }

abbrev Agree : PubSub → Subscriptions → Type 0
Agree p s = (c k : Str) → contains c (subscribers k p) ≡ s c k

apply-Agree :
    (x : Event) (p : PubSub) (s : Subscriptions)
    → IsSymmetric p
    → Agree p s
    → Agree (apply x p) (apply_spec x s)
unfolding apply publish list_channels
apply-Agree (joins c k) p s y a d j = subscribe-other c k d j p ∙ ground (arith, a d j)
apply-Agree (parts c k) p s y a d j = unsubscribe-other c k d j p ∙ ground (arith, a d j)
apply-Agree (goes c) p s y a d j = disconnect-other c d j p y ∙ ground (arith, a d j)
apply-Agree (publishes k send_event) p s y a d j = a d j
apply-Agree lists p s y a d j = a d j

run-Refines :
    (xs : List Event) (p : PubSub) (s : Subscriptions)
    → IsSymmetric p
    → Agree p s
    → Refines (run xs p) (run_spec xs s)
unfolding run
run-Refines [] p s y a = record { by_channel = a; by_connection = λ c k. sym (y.same c k) ∙ a c k }
run-Refines (x ∷ xs) p s y a =
    run-Refines xs (apply x p) (apply_spec x s) (apply-IsSymmetric x p y) (apply-Agree x p s y a)

-- After any sequence of subscribe, unsubscribe, disconnect, publish and list_channels on a new engine,
-- the index by channel and the index by connection hold exactly the subscriptions that an abstract
-- relation has, in which a subscription adds its pair, an unsubscription takes it out, a connection
-- that goes away loses its pairs, and nothing else changes any.
pub channels_refine :
    (events : List Event) → Refines (run events new_pubsub) (run_spec events (λ c k. false))
unfolding contains
channels_refine events =
    run-Refines events new_pubsub (λ c k. false) (unfold get in record { same = λ c k. refl })
      (unfold get in λ c k. refl)
