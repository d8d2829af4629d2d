-- ===== src/Queue/Consistent/Places.antt =====
-- How one queue comes through the changes that the operations make to it.
use one_open_broker.Prelude.{
  ℕ, ◌+◌, ◌≡◌, refl, true, false, List, ◌∷◌, Str, str_eq, str_eq_iff, str_eq_refl, arith, bit,
}
use one_open_broker.Dict.{
  Dict, get, put, remove, has, get-put, get-remove, has-put, has-remove, contains, add,
  contains-add, count, keys, All-put, All-remove, UniqueKeys-put, UniqueKeys-remove, discard,
  contains-discard,
}
use one_open_broker.Core.Message.{Message, InflightRecord}
use one_open_broker.Core.Heap.{count-push}
use one_open_broker.Core.Entries.{ReadyEntry, ready_before, push_ready}
use one_open_broker.Queue.State.{DurableQueue, QueueSpec, QueueStats, new_queue, ready_ids}
use one_open_broker.Queue.Publish.{make_ready, take_in}
use one_open_broker.Queue.Consistent.{
  MessagesKeyed, DeliveriesKeyed, IsDeliveryKeyed, SpecFits, IsTracked, IsLoose,
}

pub MessagesKeyed-put :
    (name id : Str) (m : Message) (d : Dict Message)
    → MessagesKeyed name d
    → m.id ≡ id
    → m.queue ≡ name
    → MessagesKeyed name (put id m d)
MessagesKeyed-put name id m d k e f j x h = ground (arith, get-put id j m d, k j x, str_eq_iff id j)

pub MessagesKeyed-remove :
    (name id : Str) (d : Dict Message) → MessagesKeyed name d → MessagesKeyed name (remove id d)
MessagesKeyed-remove name id d k j x h = ground (arith, get-remove id j d, k j x)

pub DeliveriesKeyed-put :
    (r : InflightRecord) (d : Dict InflightRecord)
    → DeliveriesKeyed d
    → DeliveriesKeyed (put r.message_id r d)
DeliveriesKeyed-put r d k =
    (All-put IsDeliveryKeyed r.message_id r d refl k.0, UniqueKeys-put r.message_id r d k.1)

pub DeliveriesKeyed-remove :
    (id : Str) (d : Dict InflightRecord) → DeliveriesKeyed d → DeliveriesKeyed (remove id d)
DeliveriesKeyed-remove id d k = (All-remove IsDeliveryKeyed id d k.0, UniqueKeys-remove id d k.1)

pub new_queue-IsTracked :
    (name : Str) (spec : QueueSpec) → SpecFits name spec → IsTracked name (new_queue spec)
unfolding get has contains count keys
new_queue-IsTracked name spec f = record {
  keyed = record { spec = f; messages = λ id m h. cc; deliveries = (tt, λ id. refl) };
  once = λ id. refl;
}

-- One more entry in the ready heap.
pub count-make_ready :
    (n : ℕ) (m : Message) (q : DurableQueue) (id : Str)
    → count id (ready_ids (make_ready n m q)) ≡ bit (str_eq m.id id) + count id (ready_ids q)
unfolding make_ready push_ready
count-make_ready n m q id = count-push ready_before (λ x. x.id) id _ q.ready

module _ {name : Str} {q : DurableQueue} where
  -- A delivery is taken out of flight.
  pub take_delivery-IsLoose :
      (id : Str)
      → IsTracked name q
      → has id q.inflight ≡ true
      → IsLoose id name (record q { inflight = remove id q.inflight })
  take_delivery-IsLoose id t h = record {
    keyed = record {
      spec = t.keyed.spec;
      messages = t.keyed.messages;
      deliveries = DeliveriesKeyed-remove id q.inflight t.keyed.deliveries;
    };
    once = λ j. ground (arith, t.once j, has-remove id j q.inflight, str_eq_iff id j);
  }

  pub loose_stored : (id : Str) → IsLoose id name q → has id q.messages ≡ true
  loose_stored id l = ground (arith, l.once id, str_eq_refl id)

  pub tracked_stored :
      (id : Str) → IsTracked name q → has id q.inflight ≡ true → has id q.messages ≡ true
  tracked_stored id t h = ground (arith, t.once id)

  -- A loose message leaves the queue.
  pub IsLoose-bury :
      (id : Str) (stats : QueueStats)
      → IsLoose id name q
      → IsTracked name (record q { messages = remove id q.messages; stats = stats })
  IsLoose-bury id stats l = record {
    keyed = record {
      spec = l.keyed.spec;
      messages = MessagesKeyed-remove name id q.messages l.keyed.messages;
      deliveries = l.keyed.deliveries;
    };
    once = λ j. ground (arith, l.once j, has-remove id j q.messages, str_eq_iff id j);
  }

  -- A loose message is delayed.
  pub IsLoose-delay :
      (m : Message) (stats : QueueStats)
      → m.queue ≡ name
      → IsLoose m.id name q
      → IsTracked name (record q {
        messages = put m.id m q.messages;
        delayed_ids = add m.id q.delayed_ids;
        stats = stats;
      })
  IsLoose-delay m stats e l = record {
    keyed = record {
      spec = l.keyed.spec;
      messages = MessagesKeyed-put name m.id m q.messages l.keyed.messages refl e;
      deliveries = l.keyed.deliveries;
    };
    once = λ j. ground (
      arith,
      l.once j,
      has-put m.id j m q.messages,
      contains-add m.id j q.delayed_ids,
      str_eq_iff m.id j,
    );
  }

  -- A message is stored, and is in no place yet.
  pub take_in-IsLoose :
      (m : Message)
      → m.queue ≡ name
      → has m.id q.messages ≡ false
      → IsTracked name q
      → IsLoose m.id name (take_in m q)
  unfolding take_in
  take_in-IsLoose m e absent t = record {
    keyed = record {
      spec = t.keyed.spec;
      messages = MessagesKeyed-put name m.id m q.messages t.keyed.messages refl e;
      deliveries = t.keyed.deliveries;
    };
    once = λ j. ground (arith, t.once j, has-put m.id j m q.messages, str_eq_iff m.id j);
  }

  -- A loose message becomes ready.
  pub IsLoose-make_ready :
      (n : ℕ) (m : Message) → IsLoose m.id name q → IsTracked name (make_ready n m q)
  unfolding make_ready
  IsLoose-make_ready n m l = record {
    keyed = record {
      spec = l.keyed.spec;
      messages = l.keyed.messages;
      deliveries = l.keyed.deliveries;
    };
    once = λ j. ground (arith, l.once j, count-make_ready n m q j);
  }

  -- A loose message that is stored as it stands is delayed.
  pub IsLoose-delay_new :
      (m : Message)
      → IsLoose m.id name q
      → IsTracked name (record q { delayed_ids = add m.id q.delayed_ids })
  IsLoose-delay_new m l = record {
    keyed = record {
      spec = l.keyed.spec;
      messages = l.keyed.messages;
      deliveries = l.keyed.deliveries;
    };
    once = λ j. ground (arith, l.once j, contains-add m.id j q.delayed_ids, str_eq_iff m.id j);
  }

-- The first ready entry becomes a delivery in flight.
pub IsTracked-deliver :
    {name : Str} (q : DurableQueue) (x : ReadyEntry) (xs : List ReadyEntry) (r : InflightRecord)
    (stats : QueueStats)
    → r.message_id ≡ x.id
    → IsTracked name (record q { ready = x ∷ xs })
    → IsTracked name
        (record q { ready = xs; inflight = put r.message_id r q.inflight; stats = stats })
unfolding count
IsTracked-deliver q x xs r stats e t = record {
  keyed = record {
    spec = t.keyed.spec;
    messages = t.keyed.messages;
    deliveries = DeliveriesKeyed-put r q.inflight t.keyed.deliveries;
  };
  once = λ j. ground (
    arith,
    t.once j,
    has-put r.message_id j r q.inflight,
    str_eq_iff x.id j,
    str_eq_iff r.message_id j,
    e,
  );
}

-- A delayed message becomes ready.
pub IsTracked-release :
    {name : Str} (q : DurableQueue) (n : ℕ) (id : Str) (m : Message)
    → IsTracked name q
    → contains id q.delayed_ids ≡ true
    → has id q.messages ≡ true
    → m.id ≡ id
    → m.queue ≡ name
    → IsTracked name (
        make_ready n m
          (record q { delayed_ids = discard id q.delayed_ids; messages = put id m q.messages }))
unfolding make_ready
IsTracked-release {name} q n id m t asleep there e f = record {
  keyed = record {
    spec = t.keyed.spec;
    messages = MessagesKeyed-put name id m q.messages t.keyed.messages e f;
    deliveries = t.keyed.deliveries;
  };
  once = λ j. ground (
    arith,
    t.once j,
    count-make_ready n m q j,
    contains-discard id j q.delayed_ids,
    has-put id j m q.messages,
    str_eq_iff id j,
    str_eq_iff m.id j,
  );
}
