-- ===== src/Routing/Snapshot.antt =====
-- How a router starts, and its `snapshot_state` and `restore_state`.
use one_open_broker.Prelude.{true, false, Option, none, some, List, [], ◌∷◌}
use one_open_broker.Dict.{Dict}
use one_open_broker.Queue.State.{Engine}
use one_open_broker.Routing.State.{
  Router, Exchange, Binding, default_exchange, direct, declare_exchange, bind,
}

-- An empty router with the default exchange; `none` would be the `ValueError` of its declaration.
unfoldable pub reset : Engine → Option Router
reset e =
    elim (declare_exchange default_exchange direct true false
      (record { engine = e; exchanges = []; bindings = [] })) [
        | none ↦ none
        | some (r, exchange) ↦ some r
      ]

unfoldable pub new_router : Engine → Option Router
new_router e = reset e

pub record RouterSnapshot : Type 0 where
  pub exchanges : List Exchange
  pub bindings : List Binding

unfoldable pub exchanges_of : Dict Exchange → List Exchange
exchanges_of [] = []
exchanges_of ((name, exchange) ∷ d) = exchange ∷ exchanges_of d

-- The order of a Python set is not fixed; the bindings are listed in the order of their addition.
unfoldable pub save : Router → RouterSnapshot
save r = record { exchanges = exchanges_of r.exchanges; bindings = r.bindings }

-- `none` is the `ValueError` of an exchange of another type.
unfoldable pub restore_exchanges : List Exchange → Router → Option Router
restore_exchanges [] r = some r
restore_exchanges (x ∷ xs) r = elim (declare_exchange x.name x.type x.durable false r) [
  | none ↦ none
  | some (r', exchange) ↦ restore_exchanges xs r'
]

unfoldable pub restore_bindings : List Binding → Router → Router
restore_bindings [] r = r
restore_bindings (b ∷ bs) r = restore_bindings bs (bind b.exchange b.queue b.routing_key false r).0

unfoldable pub load : RouterSnapshot → Router → Option Router
load s r = elim (reset r.engine) [
  | none ↦ none
  | some empty ↦ elim (restore_exchanges s.exchanges empty) [
    | none ↦ none
    | some r' ↦ some (restore_bindings s.bindings r')
  ]
]
