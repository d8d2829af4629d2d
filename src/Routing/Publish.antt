-- ===== src/Routing/Publish.antt =====
-- `RoutingEngine.publish` and `Message.create`.
use one_open_broker.Prelude.{
  ℕ, suc, Bool, not, ◌&&◌, Option, none, some, List, [], ◌∷◌, ◌++◌, Str, str_eq, if◌then◌else◌,
  length, ◌==◌,
}
use one_open_broker.Prelude.Int.{ℤ}
use one_open_broker.Dict.{has}
use one_open_broker.Core.Message.{Message, Bytes}
use one_open_broker.Core.Results.{EnqueueResult}
use one_open_broker.Queue.State.{Engine}
use one_open_broker.Queue.Declare.{declare_queue, default_options}
use one_open_broker.Queue.Publish.{enqueue}
use one_open_broker.Routing.State.{Router, route_targets, on_queue_declared, default_exchange}

pub record PublishArgs : Type 0 where
  pub payload : Bytes
  pub exchange : Option Str
  pub routing_key : Str
  pub queue : Option Str
  pub max_attempts : Option ℕ
  pub priority : ℤ
  pub headers : Option Bytes
  pub message_id : Option Str

pub record PublishResult : Type 0 where
  pub id : Str
  pub routed : List Str
  pub result : EnqueueResult

-- `x or d` of a text that may be missing.
unfoldable pub text_or : Option Str → Str → Str
text_or none d = d
text_or (some []) d = d
text_or (some (c ∷ s)) d = c ∷ s

-- `x or d` of a number that may be missing.
unfoldable pub number_or : Option ℕ → ℕ → ℕ
number_or none d = d
number_or (some n) d = if n == 0 then d else n

-- `Message.create`, where `uuid` is the text of `uuid.uuid4()` and `now` the reading of the clock.
unfoldable pub create : Str → ℕ → Str → PublishArgs → ℕ → Str → Str → Option Str → Message
create uuid now queue a max_attempts exchange routing_key message_id = record {
  id = text_or message_id uuid;
  queue = queue;
  payload = a.payload;
  created_at = now;
  attempts = 0;
  max_attempts = max_attempts;
  priority = a.priority;
  headers = a.headers;
  available_at = none;
  exchange = exchange;
  routing_key = routing_key;
}

-- What the loop over the targets carries along.
pub record Progress : Type 0 where
  pub engine : Engine
  pub routed : List Str
  pub last_id : Str

-- The loop. `uuids n` is the id that `uuid4` makes for the n-th target; `full` is the early return.
unfoldable pub deliver_to :
    (ℕ → Str)
    → ℕ
    → PublishArgs
    → Str
    → Str
    → Option Str
    → Bool
    → ℕ
    → List Str
    → Progress
    → Progress × Option Str
deliver_to uuids now a exchange routing_key message_id persist n [] p = (p, none)
deliver_to uuids now a exchange routing_key message_id persist n (target ∷ targets) p =
    let attempts = number_or a.max_attempts p.engine.settings.max_attempts in
    let message = create (uuids n) now target a attempts exchange routing_key message_id in
    let (engine, result) = enqueue now message persist p.engine in
    let sent : Progress = record {
      engine = engine;
      routed = p.routed ++ target ∷ [];
      last_id = message.id;
    } in
    let after : Progress = elim result [
      | EnqueueResult.ok ↦ sent
      | _ ↦ record p { engine = engine }
    ] in
    let rest =
      deliver_to uuids now a exchange routing_key message_id persist (suc n) targets after in
    elim result [ EnqueueResult.queue_full ↦ (after, some message.id) | _ ↦ rest ]

-- `if queue and not exchange: ...`: the exchange, the routing key, and the queue declared if need be.
unfoldable pub prepare : PublishArgs → Bool → Router → Option Str × Str × Router
prepare a persist r =
    let queue = text_or a.queue [] in
    let given = text_or a.exchange [] in
    if not (str_eq queue []) && str_eq given []
    then (
      some default_exchange,
      text_or (some a.routing_key) queue,
      (if has queue r.engine.queues
          then r
          else on_queue_declared queue persist
              (record r { engine = (declare_queue queue default_options persist r.engine).0 })),
    )
    else (a.exchange, a.routing_key, r)

unfoldable pub not_routed : Str → PublishResult
not_routed id = record { id = id; routed = []; result = EnqueueResult.not_found }

-- The results after the loop.
unfoldable pub conclude : Progress × Option Str → PublishResult
conclude (p, some id) = record { id = id; routed = p.routed; result = EnqueueResult.queue_full }
conclude (p, none) = elim p.routed [
  | [] ↦ not_routed p.last_id
  | target ∷ targets ↦ record { id = p.last_id; routed = p.routed; result = EnqueueResult.ok }
]

-- `publish` from the test `exchange not in self._exchanges` on.
unfoldable pub publish_on :
    (ℕ → Str) → ℕ → PublishArgs → Str → Str → Bool → Router → Router × PublishResult
publish_on uuids now a exchange routing_key persist r =
    if has exchange r.exchanges
    then (let targets = route_targets exchange routing_key r in
        let message_id = if length targets == 1 then a.message_id else none in
        let start : Progress = record { engine = r.engine; routed = []; last_id = [] } in
        let done = deliver_to uuids now a exchange routing_key message_id persist 0 targets start in
        elim targets [
          | [] ↦ (r, not_routed [])
          | target ∷ rest ↦ (record r { engine = done.0.engine }, conclude done)
        ])
    else (r, not_routed [])

unfoldable pub publish : (ℕ → Str) → ℕ → PublishArgs → Bool → Router → Router × PublishResult
publish uuids now a persist r =
    let (exchange, routing_key, ready) = prepare a persist r in
    publish_on uuids now a (elim exchange [ none ↦ default_exchange | some x ↦ x ]) routing_key
      persist ready
