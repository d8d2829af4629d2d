-- ===== src/Routing/State.antt =====
-- The exchanges and bindings of core/routing.py, and every operation but `publish`.
use one_open_broker.Prelude.{
  Bool, true, false, ◌&&◌, ◌||◌, Option, none, some, List, [], ◌∷◌, ◌++◌, Str, codes, str_eq,
  if◌then◌else◌,
}
use one_open_broker.Dict.{Dict, get, put, remove, has, add}
use one_open_broker.Queue.State.{
  Engine, log, exchange_declare, exchange_delete, bind as journal_bind, unbind as journal_unbind,
}
use one_open_broker.Queue.Info.{sorted}

abbrev pub direct : Str
direct = codes "direct"

abbrev pub fanout : Str
fanout = codes "fanout"

abbrev pub default_exchange : Str
default_exchange = []

pub record Exchange : Type 0 where
  pub name : Str
  pub type : Str
  pub durable : Bool

pub record Binding : Type 0 where
  pub exchange : Str
  pub queue : Str
  pub routing_key : Str

-- The engine's journal is the journal of both, as `BrokerRuntime` sets them up.
pub record Router : Type 0 where
  pub engine : Engine
  pub exchanges : Dict Exchange
  pub bindings : List Binding

-- `self.type in {"direct", "fanout"}`
unfoldable pub is_exchange_type : Str → Bool
is_exchange_type type = str_eq type direct || str_eq type fanout

-- `a == b` of the frozen data class.
unfoldable pub binding_eq : Binding → Binding → Bool
binding_eq a b =
    str_eq a.exchange b.exchange && (str_eq a.queue b.queue && str_eq a.routing_key b.routing_key)

-- `binding in self._bindings`
unfoldable pub bound : Binding → List Binding → Bool
bound b [] = false
bound b (x ∷ xs) = binding_eq x b || bound b xs

-- `self._bindings.add(binding)`
unfoldable pub add_binding : Binding → List Binding → List Binding
add_binding b bs = if bound b bs then bs else bs ++ b ∷ []

-- `self._bindings.discard(binding)`
unfoldable pub drop_binding : Binding → List Binding → List Binding
drop_binding b [] = []
drop_binding b (x ∷ xs) = let rest = drop_binding b xs in if binding_eq x b then rest else x ∷ rest

unfoldable pub on_engine : (Engine → Engine) → Router → Router
on_engine f r = record r { engine = f r.engine }

-- `Exchange(...)`, whose `__post_init__` raises `ValueError` for another type.
unfoldable pub make_exchange : Str → Str → Bool → Option Exchange
make_exchange name type durable =
    if is_exchange_type type
    then some (record { name = name; type = type; durable = durable })
    else none

-- `none` is the `ValueError`; nothing has changed then.
unfoldable pub declare_exchange : Str → Str → Bool → Bool → Router → Option (Router × Exchange)
declare_exchange name type durable persist r = elim (get name r.exchanges) [
  | some existing ↦ some (r, existing)
  | none ↦ elim (make_exchange name type durable) [
    | none ↦ none
    | some exchange ↦ some (
      on_engine (log persist (exchange_declare name type durable))
          (record r { exchanges = put name exchange r.exchanges }),
      exchange,
    )
  ]
]

-- `{b for b in self._bindings if b.exchange != name}`
unfoldable pub without_exchange : Str → List Binding → List Binding
without_exchange name [] = []
without_exchange name (b ∷ bs) =
    let rest = without_exchange name bs in if str_eq b.exchange name then rest else b ∷ rest

unfoldable pub delete_exchange : Str → Bool → Router → Router × Bool
delete_exchange name persist r =
    if str_eq name default_exchange
    then (r, false)
    else if has name r.exchanges
    then (
      on_engine (log persist (exchange_delete name)) (record r {
        exchanges = remove name r.exchanges;
        bindings = without_exchange name r.bindings;
      }),
      true,
    )
    else (r, false)

unfoldable pub bind : Str → Str → Str → Bool → Router → Router × Bool
bind exchange queue routing_key persist r =
    let binding : Binding = record {
      exchange = exchange;
      queue = queue;
      routing_key = routing_key;
    } in
    if has exchange r.exchanges
    then (if has queue r.engine.queues
        then (
          on_engine (log persist (journal_bind exchange queue routing_key))
              (record r { bindings = add_binding binding r.bindings }),
          true,
        )
        else (r, false))
    else (r, false)

unfoldable pub unbind : Str → Str → Str → Bool → Router → Router × Bool
unbind exchange queue routing_key persist r =
    let binding : Binding = record {
      exchange = exchange;
      queue = queue;
      routing_key = routing_key;
    } in
    if bound binding r.bindings
    then (
      on_engine (log persist (journal_unbind exchange queue routing_key))
          (record r { bindings = drop_binding binding r.bindings }),
      true,
    )
    else (r, false)

unfoldable pub on_queue_declared : Str → Bool → Router → Router
on_queue_declared queue persist r = (bind default_exchange queue queue persist r).0

-- The set of the queues of the bindings that pass a test.
unfoldable pub targets_of : (Binding → Bool) → List Binding → List Str
targets_of test [] = []
targets_of test (b ∷ bs) =
    let rest = targets_of test bs in if test b then add b.queue rest else rest

unfoldable pub matches : Exchange → Str → Str → Binding → Bool
matches ex exchange routing_key b =
    if str_eq ex.type fanout
    then str_eq b.exchange exchange
    else str_eq b.exchange exchange && str_eq b.routing_key routing_key

unfoldable pub route_targets : Str → Str → Router → List Str
route_targets exchange routing_key r = elim (get exchange r.exchanges) [
  | none ↦ []
  | some ex ↦ sorted (targets_of (matches ex exchange routing_key) r.bindings)
]
