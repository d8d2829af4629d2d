-- ===== src/Pubsub/State.antt =====
-- The state and the operations of `PubSubEngine`. The `send` function that a subscription stores is
-- never called by the engine, so a channel is the list of its connections.
use one_open_broker.Prelude.{
  ℕ, ◌+◌, Bool, true, false, Option, none, some, List, [], ◌∷◌, ◌++◌, Str, if◌then◌else◌, length,
}
use one_open_broker.Dict.{Dict, get, put, remove, keys, contains, add, discard}
use one_open_broker.Queue.Info.{sorted}

pub record ChannelStats : Type 0 where
  pub published : ℕ
  pub fanout : ℕ
  pub slow_drops : ℕ

abbrev pub no_channel_stats : ChannelStats
no_channel_stats = record { published = 0; fanout = 0; slow_drops = 0 }

pub record PubSub : Type 0 where
  pub subs : Dict (List Str)
  pub by_connection : Dict (List Str)
  pub stats : Dict ChannelStats
  pub total_published : ℕ
  pub total_fanout : ℕ

abbrev pub new_pubsub : PubSub
new_pubsub = record {
  subs = [];
  by_connection = [];
  stats = [];
  total_published = 0;
  total_fanout = 0;
}

-- What a `defaultdict(dict)` or `defaultdict(set)` has under a key.
abbrev pub ids_of : Option (List Str) → List Str
ids_of none = []
ids_of (some s) = s

abbrev pub stats_of : Option ChannelStats → ChannelStats
stats_of none = no_channel_stats
stats_of (some s) = s

abbrev pub subscribers : Str → PubSub → List Str
subscribers channel p = ids_of (get channel p.subs)

abbrev pub channels : Str → PubSub → List Str
channels connection_id p = ids_of (get connection_id p.by_connection)

unfoldable pub subscribe : Str → Str → PubSub → PubSub
subscribe connection_id channel p = record p {
  subs = put channel (add connection_id (subscribers channel p)) p.subs;
  by_connection = put connection_id (add channel (channels connection_id p)) p.by_connection;
}

-- `conns.pop(connection_id, None)`, and the channel goes with its last subscriber.
unfoldable pub drop_sub : Str → Str → Dict (List Str) → Dict (List Str)
drop_sub connection_id channel d = elim (discard connection_id (ids_of (get channel d))) [
  | [] ↦ remove channel d
  | c ∷ cs ↦ put channel (c ∷ cs) d
]

-- `self._by_connection[connection_id].discard(channel)` makes the entry if it is missing.
unfoldable pub unsubscribe : Str → Str → PubSub → PubSub × Bool
unsubscribe connection_id channel p =
    if contains connection_id (subscribers channel p)
    then (
      record p {
        subs = drop_sub connection_id channel p.subs;
        by_connection =
            put connection_id (discard channel (channels connection_id p)) p.by_connection;
      },
      true,
    )
    else (p, false)

unfoldable pub unsubscribe_all : Str → List Str → PubSub → PubSub
unsubscribe_all connection_id [] p = p
unsubscribe_all connection_id (channel ∷ rest) p =
    unsubscribe_all connection_id rest (unsubscribe connection_id channel p).0

unfoldable pub disconnect : Str → PubSub → PubSub
disconnect connection_id p =
    unsubscribe_all connection_id (channels connection_id p)
      (record p { by_connection = remove connection_id p.by_connection })

-- The counters of one fan-out.
pub record Fanout : Type 0 where
  pub delivered : ℕ
  pub slow : List Str
  pub total_fanout : ℕ
  pub stats : ChannelStats

-- The loop over the subscribers; `send_event` says whether a connection took the message.
unfoldable pub fan_out : (Str → Bool) → List Str → Fanout → Fanout
fan_out send_event [] f = f
fan_out send_event (connection_id ∷ ids) f = fan_out send_event ids (
    if send_event connection_id
    then record f {
      delivered = f.delivered + 1;
      total_fanout = f.total_fanout + 1;
      stats = record f.stats { fanout = f.stats.fanout + 1 };
    }
    else record f {
      slow = f.slow ++ connection_id ∷ [];
      stats = record f.stats { slow_drops = f.stats.slow_drops + 1 };
    })

unfoldable pub publish : Str → (Str → Bool) → PubSub → PubSub × Fanout
publish channel send_event p =
    let stats = stats_of (get channel p.stats) in
    let start : Fanout = record {
      delivered = 0;
      slow = [];
      total_fanout = p.total_fanout;
      stats = record stats { published = stats.published + 1 };
    } in
    let f = fan_out send_event (subscribers channel p) start in
    (
      record p {
        total_published = p.total_published + 1;
        total_fanout = f.total_fanout;
        stats = put channel f.stats p.stats;
      },
      f,
    )

pub record ChannelRow : Type 0 where
  pub channel : Str
  pub subscribers : ℕ
  pub published : ℕ
  pub fanout : ℕ

unfoldable pub union : List Str → List Str → List Str
union [] s = s
union (k ∷ ks) s = union ks (add k s)

unfoldable pub rows : List Str → PubSub → List ChannelRow
rows [] p = []
rows (name ∷ names) p =
    record {
      channel = name;
      subscribers = length (subscribers name p);
      published = (stats_of (get name p.stats)).published;
      fanout = (stats_of (get name p.stats)).fanout;
    }
    ∷ rows names p

-- `self._stats[name]` makes an entry for a channel that has none.
unfoldable pub touch_stats : List Str → Dict ChannelStats → Dict ChannelStats
touch_stats [] d = d
touch_stats (name ∷ names) d = touch_stats names (put name (stats_of (get name d)) d)

unfoldable pub list_channels : PubSub → PubSub × List ChannelRow
list_channels p =
    let names = sorted (union (keys p.stats) (keys p.subs)) in
    (record p { stats = touch_stats names p.stats }, rows names p)
