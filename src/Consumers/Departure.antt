-- ===== src/Consumers/Departure.antt =====
-- A connection that goes away takes all of its consumers with it.
use one_open_broker.Prelude.{
  ℕ, ◌+◌, ◌≡◌, ◌≢◌, ◌∙◌, sym, ap, Bool, true, false, some, List, [], ◌∷◌, Str, str_eq, str_eq_iff,
  arith, Option-cases, inl, inr,
}
use one_open_broker.Dict.{Dict, get, remove, get-remove, contains}
use one_open_broker.Queue.State.{Engine}
use one_open_broker.Consumers.State.{
  Consumer, Manager, or_empty, register, qos, on_ack, cancel, cancel_all, disconnect_connection,
}
use one_open_broker.Consumers.Delivery.{try_reserve}
use one_open_broker.Consumers.Index.{
  IsIndexedManager, register-IsIndexed, qos-IsIndexed, on_ack-IsIndexed, try_reserve-IsIndexed,
  cancel-IsIndexed, registry-cancel, cancel_unknown,
}

-- Every consumer of the connection is in the list.
abbrev AreListed : Str → List Str → Dict Consumer → Type 0
AreListed conn ids d =
    (id : Str) (c : Consumer) → get id d ≡ some c → c.connection_id ≡ conn → contains id ids ≡ true

cancel-AreListed :
    (now : ℕ) (conn id : Str) (ids : List Str) (m : Manager)
    → AreListed conn (id ∷ ids) m.consumers
    → AreListed conn ids (cancel now id true m).0.consumers
unfolding contains
cancel-AreListed now conn id ids m k j c g same = elim (Option-cases (get id m.consumers)) [
  | inl gone ↦
      let there : get j m.consumers ≡ some c =
        ap (λ (x : Manager). get j x.consumers) (sym (cancel_unknown now id true m gone)) ∙ g in
      ground
        (arith, k j c there same, str_eq_iff id j, gone, there, ap (λ (x : Str). get x m.consumers))
  | inr (old, found) ↦
      let left : get j (remove id m.consumers) ≡ some c =
        ap (get j) (sym (registry-cancel now id true m old found).0) ∙ g in
      let other : str_eq id j ≡ false = ground (arith, left, get-remove id j m.consumers) in
      let there : get j m.consumers ≡ some c =
        ground (arith, left, other, get-remove id j m.consumers) in
      ground (arith, k j c there same, other)
]

cancel_all-none_left :
    (now : ℕ) (conn : Str) (ids : List Str) (n k : ℕ) (m : Manager)
    → AreListed conn ids m.consumers
    → (cancel_all now ids n m).1 ≡ some k
    → AreListed conn [] (cancel_all now ids n m).0.consumers
unfolding cancel_all
cancel_all-none_left now conn [] n k m listed ends = listed
cancel_all-none_left now conn (id ∷ ids) n k m listed ends =
    let after = cancel-AreListed now conn id ids m listed in
    elim (Option-cases (cancel now id true m).1) [
      | inl raised ↦ absurd (ground arith)
      | inr (true, done) ↦
          rw (done, cancel_all)
            (cancel_all-none_left now conn ids (n + 1) k (cancel now id true m).0 after
              (ground arith))
      | inr (false, done) ↦
          rw (done, cancel_all)
            (cancel_all-none_left now conn ids n k (cancel now id true m).0 after (ground arith))
    ]

cancel_all-IsIndexed :
    (now : ℕ) (ids : List Str) (n : ℕ) (m : Manager)
    → IsIndexedManager m
    → IsIndexedManager (cancel_all now ids n m).0
unfolding cancel_all
cancel_all-IsIndexed now [] n m k = k
cancel_all-IsIndexed now (id ∷ ids) n m k =
    let left = cancel-IsIndexed now id true m k in
    elim (Option-cases (cancel now id true m).1) [
      | inl raised ↦ rw (raised, cancel_all) left
      | inr (true, done) ↦
          rw (done, cancel_all) (cancel_all-IsIndexed now ids (n + 1) (cancel now id true m).0 left)
      | inr (false, done) ↦
          rw (done, cancel_all) (cancel_all-IsIndexed now ids n (cancel now id true m).0 left)
    ]

-- The states of the registry that its operations reach from an empty one. Between them the engine
-- may be changed by others.
pub data Reached : Manager → Type 0 where
  begins : (e : Engine) → Reached (record { engine = e; consumers = []; by_connection = [] })
  engine_moves : {m : Manager} (e : Engine) → Reached m → Reached (record m { engine = e })
  registers :
      {m : Manager} (now : ℕ) (id conn : Str) (queues : List Str) (prefetch : ℕ) (tag : Str)
      → Reached m
      → Reached (register now id conn queues prefetch tag m).0
  sets_window :
      {m : Manager} (now : ℕ) (id : Str) (prefetch : ℕ)
      → Reached m
      → Reached (qos now id prefetch m).0
  acks : {m : Manager} (now : ℕ) (id : Str) → Reached m → Reached (on_ack now id m)
  reserves : {m : Manager} (now : ℕ) (name : Str) → Reached m → Reached (try_reserve now name m).0
  cancels :
      {m : Manager} (now : ℕ) (id : Str) (recover : Bool)
      → Reached m
      → Reached (cancel now id recover m).0
  disconnects :
      {m : Manager} (now : ℕ) (conn : Str)
      → Reached m
      → Reached (disconnect_connection now conn m).0

Reached-IsIndexed : {m : Manager} → Reached m → IsIndexedManager m
unfolding disconnect_connection
Reached-IsIndexed (begins e) = (unfold get in record { listed = λ id c g. cc })
Reached-IsIndexed (engine_moves e r) = Reached-IsIndexed r
Reached-IsIndexed (registers {m} now id conn queues prefetch tag r) =
    register-IsIndexed now id conn queues prefetch tag m (Reached-IsIndexed r)
Reached-IsIndexed (sets_window {m} now id prefetch r) =
    qos-IsIndexed now id prefetch m (Reached-IsIndexed r)
Reached-IsIndexed (acks {m} now id r) = on_ack-IsIndexed now id m (Reached-IsIndexed r)
Reached-IsIndexed (reserves {m} now name r) = try_reserve-IsIndexed now name m (Reached-IsIndexed r)
Reached-IsIndexed (cancels {m} now id recover r) =
    cancel-IsIndexed now id recover m (Reached-IsIndexed r)
Reached-IsIndexed (disconnects {m} now conn r) =
    cancel_all-IsIndexed now _ 0 m (Reached-IsIndexed r)

-- In every state of the registry that its operations reach from an empty one, whatever the queue
-- engine is, a connection that goes away without an exception leaves no consumer behind.
pub disconnect_leaves_none :
    (m : Manager) (now n : ℕ) (conn id : Str) (c : Consumer)
    → Reached m
    → (disconnect_connection now conn m).1 ≡ some n
    → get id (disconnect_connection now conn m).0.consumers ≡ some c
    → c.connection_id ≢ conn
unfolding disconnect_connection contains
disconnect_leaves_none m now n conn id c r ends there same =
    let k = Reached-IsIndexed r in
    let left =
      cancel_all-none_left now conn (or_empty (get conn m.by_connection)) 0 n m
        (λ j x g is_conn.
          ap (λ (y : Str). contains j (or_empty (get y m.by_connection))) (sym is_conn)
          ∙ k.listed j x g)
        ends in
    cc (left id c there same)
