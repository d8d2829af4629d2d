-- ===== src/Routing/Targets.antt =====
-- Which queues a message is routed to.
use one_open_broker.Prelude.{
  ◌≡◌, refl, Bool, true, false, ◌&&◌, ◌||◌, none, some, List, [], ◌∷◌, ◌++◌, Str, str_eq,
  str_eq_iff, str_eq_refl, arith, if◌then◌else◌, Bool-cases, Option-cases, inl, inr,
}
use one_open_broker.Dict.{get, has, contains, contains-add, has-is_some, has-remove}
use one_open_broker.Queue.Info.{insert_sorted, sorted}
use one_open_broker.Queue.State.{log, bind as journal_bind}
use one_open_broker.Routing.State.{
  Router, Exchange, Binding, fanout, default_exchange, binding_eq, bound, add_binding, on_engine,
  without_exchange, delete_exchange, bind, targets_of, matches, route_targets,
}

contains-insert_sorted :
    (k x : Str) (xs : List Str)
    → contains k (insert_sorted x xs) ≡ (if str_eq x k then true else contains k xs)
unfolding insert_sorted contains
contains-insert_sorted k x [] = refl
contains-insert_sorted k x (y ∷ ys) = ground (arith, contains-insert_sorted k x ys)

contains-sorted : (k : Str) (xs : List Str) → contains k (sorted xs) ≡ contains k xs
unfolding sorted contains
contains-sorted k [] = refl
contains-sorted k (x ∷ xs) =
    ground (arith, contains-insert_sorted k x (sorted xs), contains-sorted k xs)

-- Whether a binding of the list passes a test and leads to the queue.
abbrev pub leads : (Binding → Bool) → Str → List Binding → Bool
leads test queue [] = false
leads test queue (b ∷ bs) = (test b && str_eq b.queue queue) || leads test queue bs

contains-targets_of :
    (test : Binding → Bool) (queue : Str) (bs : List Binding)
    → contains queue (targets_of test bs) ≡ leads test queue bs
unfolding targets_of contains
contains-targets_of test queue [] = refl
contains-targets_of test queue (b ∷ bs) =
    ground
      (arith, contains-add b.queue queue (targets_of test bs), contains-targets_of test queue bs)

-- Whether a binding is of the exchange and, unless the exchange is fanout, has the routing key.
abbrev pub admits : Exchange → Str → Str → Binding → Bool
admits ex exchange routing_key b =
    str_eq b.exchange exchange && (str_eq ex.type fanout || str_eq b.routing_key routing_key)

leads-matches :
    (ex : Exchange) (exchange routing_key queue : Str) (bs : List Binding)
    → leads (matches ex exchange routing_key) queue bs
      ≡ leads (admits ex exchange routing_key) queue bs
unfolding matches
leads-matches ex exchange routing_key queue [] = refl
leads-matches ex exchange routing_key queue (b ∷ bs) =
    ground (arith, leads-matches ex exchange routing_key queue bs)

-- The queues that a message is routed to are those that a binding of the exchange leads to; for an
-- exchange that is not fanout, a binding with the routing key of the message. An exchange that does
-- not exist routes nowhere.
pub route_targets_lem :
    (exchange routing_key queue : Str) (r : Router)
    → contains queue (route_targets exchange routing_key r) ≡ elim (get exchange r.exchanges) [
      | none ↦ false
      | some ex ↦ leads (admits ex exchange routing_key) queue r.bindings
    ]
unfolding route_targets
route_targets_lem exchange routing_key queue r = elim (Option-cases (get exchange r.exchanges)) [
  | inl n ↦ rw (n, route_targets) (unfold contains in refl)
  | inr (ex, k) ↦
      rw (k, route_targets, contains-sorted, contains-targets_of)
        (leads-matches ex exchange routing_key queue r.bindings)
]

leads-without_exchange :
    (name : Str) (test : Binding → Bool) (queue : Str) (bs : List Binding)
    → ((b : Binding) → test b ≡ true → b.exchange ≡ name)
    → leads test queue (without_exchange name bs) ≡ false
unfolding without_exchange
leads-without_exchange name test queue [] only = refl
leads-without_exchange name test queue (b ∷ bs) only =
    ground
      (arith, leads-without_exchange name test queue bs only, only b, str_eq_iff b.exchange name)

leads-admits-without :
    (ex : Exchange) (name routing_key queue : Str) (bs : List Binding)
    → leads (admits ex name routing_key) queue (without_exchange name bs) ≡ false
leads-admits-without ex name routing_key queue bs =
    leads-without_exchange name (admits ex name routing_key) queue bs
      (λ b h. ground (arith, str_eq_iff b.exchange name))

-- An exchange that was deleted routes nowhere, also when one of that name is declared again: no
-- binding of it is left.
pub delete_exchange_unroutes :
    (name : Str) (persist : Bool) (r : Router)
    → (delete_exchange name persist r).1 ≡ true
    → (has name (delete_exchange name persist r).0.exchanges ≡ false)
      × ((ex : Exchange) (routing_key queue : Str)
          → leads (admits ex name routing_key) queue (delete_exchange name persist r).0.bindings
            ≡ false)
unfolding delete_exchange on_engine
delete_exchange_unroutes name persist r h = elim (Bool-cases (str_eq name default_exchange)) [
  | inl is_default ↦ absurd (ground arith)
  | inr other ↦ elim (Bool-cases (has name r.exchanges)) [
    | inr missing ↦ absurd (ground arith)
    | inl there ↦
        rw (other, delete_exchange)
          (rw there (
            ground (arith, has-remove name name r.exchanges, str_eq_refl name),
            λ ex routing_key queue. leads-admits-without ex name routing_key queue r.bindings,
          ))
  ]
]

leads-append :
    (test : Binding → Bool) (queue : Str) (bs : List Binding) (b : Binding)
    → leads test queue (bs ++ b ∷ []) ≡ leads test queue bs || (test b && str_eq b.queue queue)
leads-append test queue [] b = ground arith
leads-append test queue (x ∷ bs) b = ground (arith, leads-append test queue bs b)

leads-of-bound :
    (ex : Exchange) (b : Binding) (bs : List Binding)
    → bound b bs ≡ true
    → leads (admits ex b.exchange b.routing_key) b.queue bs ≡ true
unfolding bound binding_eq
leads-of-bound ex b [] h = cc
leads-of-bound ex b (x ∷ bs) h = ground (arith, leads-of-bound ex b bs)

leads-add_binding :
    (ex : Exchange) (b : Binding) (bs : List Binding)
    → leads (admits ex b.exchange b.routing_key) b.queue (add_binding b bs) ≡ true
unfolding add_binding
leads-add_binding ex b bs = ground (
  arith,
  leads-of-bound ex b bs,
  leads-append (admits ex b.exchange b.routing_key) b.queue bs b,
  str_eq_refl b.exchange,
  str_eq_refl b.queue,
  str_eq_refl b.routing_key,
)

-- A `bind` that succeeds finds both the exchange and the queue.
bind_ok :
    (exchange queue routing_key : Str) (persist : Bool) (r : Router)
    → (bind exchange queue routing_key persist r).1 ≡ true
    → (ex : Exchange) × (get exchange r.exchanges ≡ some ex)
      × ((bind exchange queue routing_key persist r).0
          ≡ on_engine (log persist (journal_bind exchange queue routing_key)) (record r {
            bindings =
                add_binding
                  (record { exchange = exchange; queue = queue; routing_key = routing_key })
                  r.bindings;
          }))
unfolding bind
bind_ok exchange queue routing_key persist r h = elim (Option-cases (get exchange r.exchanges)) [
  | inl missing ↦ absurd (ground (arith, has-is_some exchange r.exchanges))
  | inr (ex, k) ↦ (ex, k, ground (arith, has-is_some exchange r.exchanges))
]

-- After a `bind` that succeeds, a message with the routing key of the binding is routed to its queue.
pub bind_routes :
    (exchange queue routing_key : Str) (persist : Bool) (r : Router)
    → (bind exchange queue routing_key persist r).1 ≡ true
    → contains queue
        (route_targets exchange routing_key (bind exchange queue routing_key persist r).0)
      ≡ true
bind_routes exchange queue routing_key persist r h =
    let (ex, k, same) = bind_ok exchange queue routing_key persist r h in
    let binding : Binding = record {
      exchange = exchange;
      queue = queue;
      routing_key = routing_key;
    } in
    rw (same, route_targets_lem)
      (unfold on_engine in rw k (leads-add_binding ex binding r.bindings))
