-- ===== src/Routing/Consistent.antt =====
-- The operations of the router keep the indexes of the queue engine consistent.
use one_open_broker.Prelude.{
  ℕ, suc, ◌≡◌, refl, Bool, false, Option, none, List, [], ◌∷◌, Str, str_eq, if◌then◌else◌,
  Bool-cases, inl, inr, str_eq_ne, arith, length, ◌==◌, not, ◌&&◌, ◌≤◌, ◌∙◌, ◌⊎◌, List-cases,
}
use one_open_broker.Dict.{get, has}
use one_open_broker.Core.Message.{Message}
use one_open_broker.Core.Results.{EnqueueResult}
use one_open_broker.Queue.State.{Engine}
use one_open_broker.Queue.Declare.{declare_queue, default_options}
use one_open_broker.Queue.Publish.{enqueue}
use one_open_broker.Queue.Consistent.{IsConsistent, log-IsConsistent}
use one_open_broker.Queue.Consistent.Declare.{declare_queue-IsConsistent}
use one_open_broker.Queue.Consistent.Publish.{enqueue-IsConsistent}
use one_open_broker.Queue.Consistent.Ids.{by_id-declare_queue, get-enqueue, by_id-log}
use one_open_broker.Routing.State.{
  Router, on_queue_declared, route_targets, bind, default_exchange, on_engine,
}
use one_open_broker.Routing.Publish.{
  PublishArgs, Progress, text_or, number_or, create, deliver_to, prepare, publish_on, publish,
}

pub bind-IsConsistent :
    (exchange queue routing_key : Str) (persist : Bool) (r : Router)
    → IsConsistent r.engine
    → IsConsistent (bind exchange queue routing_key persist r).0.engine
unfolding bind on_engine
bind-IsConsistent exchange queue routing_key persist r c =
    elim (Bool-cases (has exchange r.exchanges)) [
      | inr unknown ↦ rw (unknown, bind) c
      | inl known ↦ elim (Bool-cases (has queue r.engine.queues)) [
        | inl there ↦ rw (known, bind) (rw there (log-IsConsistent persist _ r.engine c))
        | inr gone ↦ rw (known, bind) (rw gone c)
      ]
    ]

by_id-bind :
    (exchange queue routing_key : Str) (persist : Bool) (r : Router)
    → (bind exchange queue routing_key persist r).0.engine.by_id ≡ r.engine.by_id
unfolding bind on_engine
by_id-bind exchange queue routing_key persist r = elim (Bool-cases (has exchange r.exchanges)) [
  | inr unknown ↦ rw (unknown, bind) refl
  | inl known ↦ elim (Bool-cases (has queue r.engine.queues)) [
    | inl there ↦ rw (known, bind) (rw there (by_id-log persist _ r.engine))
    | inr gone ↦ rw (known, bind) (rw gone refl)
  ]
]

-- No id that the publication may use from the n-th target on is stored.
abbrev pub AreNew : (ℕ → Str) → Option Str → ℕ → Engine → Type 0
AreNew uuids message_id n e = (i : ℕ) → n ≤ i → get (text_or message_id (uuids i)) e.by_id ≡ none

EnqueueResult-cases :
    (r : EnqueueResult)
    → (r ≡ EnqueueResult.ok) ⊎ ((r ≡ EnqueueResult.queue_full) ⊎ (r ≡ EnqueueResult.not_found))
EnqueueResult-cases EnqueueResult.ok = inl refl
EnqueueResult-cases EnqueueResult.queue_full = inr (inl refl)
EnqueueResult-cases EnqueueResult.not_found = inr (inr refl)

module _ (uuids : ℕ → Str) (now : ℕ) (a : PublishArgs) (exchange routing_key : Str)
    (persist : Bool) where
  -- What a publication to one target makes.
  abbrev message_to : Option Str → ℕ → Str → Engine → Message
  message_to message_id n target e =
      create (uuids n) now target a (number_or a.max_attempts e.settings.max_attempts) exchange
        routing_key message_id

  deliver_to_step :
      (message_id : Option Str) (n : ℕ) (target : Str) (targets : List Str) (p : Progress)
      → IsConsistent (enqueue now (message_to message_id n target p.engine) persist p.engine).0
      → ((p' : Progress)
          → p'.engine ≡ (enqueue now (message_to message_id n target p.engine) persist p.engine).0
          → IsConsistent
              (deliver_to uuids now a exchange routing_key message_id persist
                (suc n)
                targets
                p').0.engine)
      → IsConsistent
          (deliver_to uuids now a exchange routing_key message_id persist n
            (target ∷ targets)
            p).0.engine
  unfolding deliver_to
  deliver_to_step message_id n target targets p here later =
      elim (EnqueueResult-cases
        (enqueue now (message_to message_id n target p.engine) persist p.engine).1) [
          | inl done ↦ rw (done, deliver_to) (rw done (later _ refl))
          | inr (inl full) ↦ rw (full, deliver_to) (rw full here)
          | inr (inr gone) ↦ rw (gone, deliver_to) (rw gone (later _ refl))
        ]

  module _ (distinct : (i j : ℕ) → uuids i ≡ uuids j → i ≡ j) where
    deliver_to-IsConsistent :
        (targets : List Str) (n : ℕ) (p : Progress)
        → IsConsistent p.engine
        → AreNew uuids none n p.engine
        → IsConsistent
            (deliver_to uuids now a exchange routing_key none persist n targets p).0.engine
    unfolding deliver_to create text_or
    deliver_to-IsConsistent [] n p c new = c
    deliver_to-IsConsistent (target ∷ targets) n p c new =
        let m = message_to none n target p.engine in
        let here = enqueue-IsConsistent now m persist p.engine c (new n (omega arith)) in
        deliver_to_step none n target targets p here (λ p' same.
          deliver_to-IsConsistent targets (suc n) p' (rw same here) (λ i above. rw same (
            get-enqueue (uuids i) now m persist p.engine
              (str_eq_ne (uuids n) (uuids i) (λ e. omega (arith, distinct n i e, above)))
              (new i (omega (arith, above))))))

    deliver_one-IsConsistent :
        (message_id : Option Str) (target : Str) (p : Progress)
        → IsConsistent p.engine
        → AreNew uuids message_id 0 p.engine
        → IsConsistent
            (deliver_to uuids now a exchange routing_key message_id persist 0
              (target ∷ [])
              p).0.engine
    unfolding deliver_to create
    deliver_one-IsConsistent message_id target p c new =
        let m = message_to message_id 0 target p.engine in
        let here = enqueue-IsConsistent now m persist p.engine c (new 0 (omega arith)) in
        deliver_to_step message_id 0 target [] p here (λ p' same. rw same here)

    targeted-IsConsistent :
        (targets : List Str) (p : Progress)
        → IsConsistent p.engine
        → AreNew uuids none 0 p.engine
        → AreNew uuids a.message_id 0 p.engine
        → IsConsistent
            (deliver_to uuids now a exchange routing_key
              (if length targets == 1 then a.message_id else none)
              persist
              0
              targets
              p).0.engine
    unfolding deliver_to
    targeted-IsConsistent [] p c new given = c
    targeted-IsConsistent (target ∷ []) p c new given =
        deliver_one-IsConsistent a.message_id target p c given
    targeted-IsConsistent (target ∷ next ∷ targets) p c new given =
        let many : (length (target ∷ next ∷ targets) == 1) ≡ false = ground arith in
        rw many (deliver_to-IsConsistent (target ∷ next ∷ targets) 0 p c new)

    publish_on-IsConsistent :
        (r : Router)
        → IsConsistent r.engine
        → AreNew uuids none 0 r.engine
        → AreNew uuids a.message_id 0 r.engine
        → IsConsistent (publish_on uuids now a exchange routing_key persist r).0.engine
    unfolding publish_on
    publish_on-IsConsistent r c new given = elim (Bool-cases (has exchange r.exchanges)) [
      | inr unknown ↦ rw (unknown, publish_on) c
      | inl known ↦ elim (List-cases (route_targets exchange routing_key r)) [
        | inl nowhere ↦ rw (known, publish_on) (rw nowhere c)
        | inr (target, targets, some_where) ↦
            rw (known, publish_on)
              (rw some_where (
                targeted-IsConsistent (route_targets exchange routing_key r)
                  (record { engine = r.engine; routed = []; last_id = [] }) c new given))
      ]
    ]

prepare_keeps :
    (P : Engine → Type 0) (a : PublishArgs) (persist : Bool) (r : Router)
    → P r.engine
    → ((name : Str)
        → P
            (on_queue_declared name persist (record r {
              engine = (declare_queue name default_options persist r.engine).0;
            })).engine)
    → P (prepare a persist r).2.engine
unfolding prepare
prepare_keeps P a persist r same declared =
    elim (Bool-cases (not (str_eq (text_or a.queue []) []) && str_eq (text_or a.exchange []) [])) [
      | inr routed ↦ rw (routed, prepare) same
      | inl named ↦ elim (Bool-cases (has (text_or a.queue []) r.engine.queues)) [
        | inl there ↦ rw (named, prepare) (rw there same)
        | inr gone ↦ rw (named, prepare) (rw gone (declared (text_or a.queue [])))
      ]
    ]

-- Publishing under ids that are not stored keeps the indexes consistent.
pub publish-IsConsistent :
    (uuids : ℕ → Str) (now : ℕ) (a : PublishArgs) (persist : Bool) (r : Router)
    → ((i j : ℕ) → uuids i ≡ uuids j → i ≡ j)
    → IsConsistent r.engine
    → AreNew uuids none 0 r.engine
    → AreNew uuids a.message_id 0 r.engine
    → IsConsistent (publish uuids now a persist r).0.engine
unfolding publish on_queue_declared
publish-IsConsistent uuids now a persist r distinct c new given =
    let ids =
      prepare_keeps (λ e. e.by_id ≡ r.engine.by_id) a persist r refl
        (λ name.
          by_id-bind default_exchange name name persist _
          ∙ by_id-declare_queue name default_options persist r.engine) in
    publish_on-IsConsistent uuids now a _ _ persist distinct (prepare a persist r).2
      (prepare_keeps IsConsistent a persist r c (λ name.
        bind-IsConsistent default_exchange name name persist
          (record r { engine = (declare_queue name default_options persist r.engine).0 })
          (declare_queue-IsConsistent name default_options persist r.engine c)))
      (λ i above. rw ids (new i above)) (λ i above. rw ids (given i above))
