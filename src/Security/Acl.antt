-- ===== src/Security/Acl.antt =====
-- `authorize` and its tables of commands. `upper` stands for `str.upper`.
use one_open_broker.Prelude.{
  ◌≡◌, refl, ◌⊎◌, inl, inr, Bool, Option, none, some, List, [], ◌∷◌, Str, codes, str_eq,
  if◌then◌else◌,
}
use one_open_broker.Security.Auth.{Principal, member}

abbrev pub unauthenticated_commands : List Str
unauthenticated_commands = codes "PING" ∷ codes "AUTH" ∷ []

abbrev pub producer_commands : List Str
producer_commands =
    codes "PING"
    ∷ codes "AUTH"
    ∷ codes "PUBLISH"
    ∷ codes "DECLARE_QUEUE"
    ∷ codes "DECLARE_EXCHANGE"
    ∷ codes "BIND"
    ∷ codes "UNBIND"
    ∷ codes "QUEUE_INFO"
    ∷ codes "LIST_QUEUES"
    ∷ []

abbrev pub consumer_commands : List Str
consumer_commands =
    codes "PING"
    ∷ codes "AUTH"
    ∷ codes "CONSUME"
    ∷ codes "GET"
    ∷ codes "ACK"
    ∷ codes "NACK"
    ∷ codes "CANCEL"
    ∷ codes "QOS"
    ∷ codes "DECLARE_QUEUE"
    ∷ codes "QUEUE_INFO"
    ∷ []

abbrev pub subscriber_commands : List Str
subscriber_commands =
    codes "PING"
    ∷ codes "AUTH"
    ∷ codes "SUBSCRIBE"
    ∷ codes "UNSUBSCRIBE"
    ∷ codes "PUBLISH_CHANNEL"
    ∷ codes "LIST_CHANNELS"
    ∷ []

abbrev pub monitor_commands : List Str
monitor_commands =
    codes "PING"
    ∷ codes "AUTH"
    ∷ codes "INFO"
    ∷ codes "STATS"
    ∷ codes "LIST_QUEUES"
    ∷ codes "QUEUE_INFO"
    ∷ codes "LIST_CONSUMERS"
    ∷ codes "LIST_CHANNELS"
    ∷ codes "DLQ_INFO"
    ∷ []

-- `ROLE_COMMANDS.get(role)`; `none` means every command.
unfoldable pub role_commands : Str → Option (List Str)
role_commands role =
    if str_eq role (codes "producer")
    then some producer_commands
    else if str_eq role (codes "consumer")
    then some consumer_commands
    else if str_eq role (codes "subscriber")
    then some subscriber_commands
    else if str_eq role (codes "monitor")
    then some monitor_commands
    else none

pub data Verdict : Type 0 where
  allowed : Verdict
  unauthorized : Verdict
  forbidden : Str → Str → Verdict

unfoldable pub authorize_role : Principal → Str → Verdict
authorize_role p cmd = elim (role_commands p.role) [
  | none ↦ allowed
  | some commands ↦ if member cmd commands then allowed else forbidden p.role cmd
]

unfoldable pub authorize_cmd : Option Principal → Str → Bool → Verdict
authorize_cmd principal cmd auth_required =
    if member cmd unauthenticated_commands then allowed else elim principal [
      | none ↦ if auth_required then unauthorized else allowed
      | some p ↦ authorize_role p cmd
    ]

unfoldable pub authorize : (Str → Str) → Option Principal → Str → Bool → Verdict
authorize upper principal command auth_required =
    authorize_cmd principal (upper command) auth_required

pub Verdict-cases :
    (v : Verdict)
    → (v ≡ allowed) ⊎ ((v ≡ unauthorized) ⊎ ((role : Str) × (cmd : Str) × (v ≡ forbidden role cmd)))
Verdict-cases allowed = inl refl
Verdict-cases unauthorized = inr (inl refl)
Verdict-cases (forbidden role cmd) = inr (inr (role, cmd, refl))
