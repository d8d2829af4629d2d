-- ===== src/Pubsub/Symmetry.antt =====
-- The two indexes of subscriptions, by channel and by connection, say the same.
use one_open_broker.Prelude.{
  ◌≡◌, ◌≢◌, refl, true, false, List, [], ◌∷◌, Str, str_eq, str_eq_iff, str_eq_refl, if◌then◌else◌,
  arith, Bool-cases, inl, inr,
}
use one_open_broker.Dict.{
  Dict, get, put, remove, get-put, get-remove, contains, add, discard, contains-add,
  contains-discard,
}
use one_open_broker.Pubsub.State.{
  PubSub, ids_of, subscribers, channels, subscribe, drop_sub, unsubscribe, unsubscribe_all,
  disconnect,
}

pub record IsSymmetric (p : PubSub) : Type 0 where
  pub same :
      (connection_id channel : Str)
      → contains connection_id (subscribers channel p) ≡ contains channel (channels connection_id p)

pub ids_of-put :
    (k j : Str) (s : List Str) (d : Dict (List Str))
    → ids_of (get j (put k s d)) ≡ (if str_eq k j then s else ids_of (get j d))
ids_of-put k j s d = ground (arith, get-put k j s d)

ids_of-remove :
    (k j : Str) (d : Dict (List Str))
    → ids_of (get j (remove k d)) ≡ (if str_eq k j then [] else ids_of (get j d))
ids_of-remove k j d = ground (arith, get-remove k j d)

pub ids_of-drop_sub :
    (c k j : Str) (d : Dict (List Str))
    → ids_of (get j (drop_sub c k d))
      ≡ (if str_eq k j then discard c (ids_of (get k d)) else ids_of (get j d))
unfolding drop_sub
ids_of-drop_sub c k j d = go (discard c (ids_of (get k d))) refl
  where
    go :
        (s : List Str)
        → discard c (ids_of (get k d)) ≡ s
        → ids_of (get j (drop_sub c k d))
          ≡ (if str_eq k j then discard c (ids_of (get k d)) else ids_of (get j d))
    go [] e = rw (e, drop_sub) (ids_of-remove k j d)
    go (x ∷ xs) e = rw (e, drop_sub) (ids_of-put k j (x ∷ xs) d)

pub subscribe-IsSymmetric : (c k : Str) (p : PubSub) → IsSymmetric p → IsSymmetric (subscribe c k p)
unfolding subscribe
subscribe-IsSymmetric c k p s = record {
  same = λ d j. ground (
    arith,
    s.same d j,
    s.same c j,
    s.same d k,
    ids_of-put k j (add c (subscribers k p)) p.subs,
    ids_of-put c d (add k (channels c p)) p.by_connection,
    contains-add c d (subscribers k p),
    contains-add k j (channels c p),
    str_eq_iff c d,
    str_eq_iff k j,
  );
}

pub unsubscribe-IsSymmetric :
    (c k : Str) (p : PubSub) → IsSymmetric p → IsSymmetric (unsubscribe c k p).0
unfolding unsubscribe
unsubscribe-IsSymmetric c k p s = elim (Bool-cases (contains c (subscribers k p))) [
  | inr out ↦ rw out s
  | inl there ↦ rw there (record {
    same = λ d j. ground (
      arith,
      s.same d j,
      s.same c j,
      s.same d k,
      ids_of-drop_sub c k j p.subs,
      ids_of-put c d (discard k (channels c p)) p.by_connection,
      contains-discard c d (subscribers k p),
      contains-discard k j (channels c p),
      str_eq_iff c d,
      str_eq_iff k j,
    );
  })
]

-- While a connection is being forgotten: it is left only in the channels still to be visited.
record Leaving (c : Str) (rest : List Str) (p : PubSub) : Type 0 where
  others : (d j : Str) → d ≢ c → contains d (subscribers j p) ≡ contains j (channels d p)
  pending : (j : Str) → contains c (subscribers j p) ≡ true → contains j rest ≡ true
  forgotten : (j : Str) → contains j (channels c p) ≡ false

unsubscribe-Leaving :
    (c k : Str) (rest : List Str) (p : PubSub)
    → Leaving c (k ∷ rest) p
    → Leaving c rest (unsubscribe c k p).0
unfolding unsubscribe contains
unsubscribe-Leaving c k rest p l = elim (Bool-cases (contains c (subscribers k p))) [
  | inr out ↦ rw out (record {
    others = l.others;
    pending = λ j h. ground (arith, l.pending j h, str_eq_iff k j);
    forgotten = l.forgotten;
  })
  | inl there ↦ rw there (record {
    others = λ d j n. ground (
      arith,
      l.others d j n,
      ids_of-drop_sub c k j p.subs,
      ids_of-put c d (discard k (channels c p)) p.by_connection,
      contains-discard c d (subscribers k p),
      l.others d k n,
      str_eq_iff c d,
      str_eq_iff k j,
    );
    pending = λ j h. ground (
      arith,
      l.pending j,
      ids_of-drop_sub c k j p.subs,
      contains-discard c c (subscribers k p),
      str_eq_refl c,
      str_eq_iff k j,
    );
    forgotten = λ j. ground (
      arith,
      ids_of-put c c (discard k (channels c p)) p.by_connection,
      contains-discard k j (channels c p),
      l.forgotten j,
      str_eq_refl c,
    );
  })
]

unsubscribe_all-Leaving :
    (c : Str) (rest : List Str) (p : PubSub)
    → Leaving c rest p
    → Leaving c [] (unsubscribe_all c rest p)
unfolding unsubscribe_all
unsubscribe_all-Leaving c [] p l = l
unsubscribe_all-Leaving c (k ∷ rest) p l =
    unsubscribe_all-Leaving c rest (unsubscribe c k p).0 (unsubscribe-Leaving c k rest p l)

disconnect-Leaving : (c : Str) (p : PubSub) → IsSymmetric p → Leaving c [] (disconnect c p)
unfolding disconnect contains
disconnect-Leaving c p s = unsubscribe_all-Leaving c (channels c p) _ (record {
  others = λ d j n. ground (arith, s.same d j, ids_of-remove c d p.by_connection, str_eq_iff c d);
  pending = λ j h. ground (arith, s.same c j);
  forgotten = λ j. ground (arith, ids_of-remove c c p.by_connection, str_eq_refl c);
})

-- A connection that goes away is in no channel afterwards, and both indexes still agree.
pub disconnect_lem :
    (c : Str) (p : PubSub)
    → IsSymmetric p
    → IsSymmetric (disconnect c p)
      × ((channel : Str) → contains c (subscribers channel (disconnect c p)) ≡ false)
unfolding contains
disconnect_lem c p s =
    let l = disconnect-Leaving c p s in
    let out : (j : Str) → contains c (subscribers j (disconnect c p)) ≡ false =
      λ j. ground (arith, l.pending j) in
    (
      record {
        same = λ d j. elim (Bool-cases (str_eq d c)) [
          | inl e ↦ ground (arith, out j, l.forgotten j, str_eq_iff d c)
          | inr n ↦ l.others d j (λ e. cc (n, (str_eq_iff d c).1 e))
        ];
      },
      out,
    )
