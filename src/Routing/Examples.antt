-- ===== src/Routing/Examples.antt =====
-- Runs of the router at concrete inputs.
use one_open_broker.Prelude.{◌≡◌, refl, true, false, none, some, [], ◌∷◌, Str, codes}
use one_open_broker.Dict.{get, has, contains}
use one_open_broker.Queue.Run.{engine_runs}
use one_open_broker.Queue.Examples.{declared, jobs}
use one_open_broker.Routing.State.{
  Router, Exchange, direct, fanout, on_engine, bind, delete_exchange, route_targets,
}
use one_open_broker.Routing.Targets.{
  leads, admits, route_targets_lem, bind_routes, delete_exchange_unroutes,
}

abbrev all : Str
all = codes "all"

abbrev before_bind : Router
before_bind = record {
  engine = declared;
  exchanges =
      ([], record { name = []; type = direct; durable = true })
      ∷ (all, record { name = all; type = fanout; durable = true })
      ∷ [];
  bindings = [];
}

abbrev after_bind : Router
after_bind = (bind all jobs (codes "k") true before_bind).0

binds : (bind all jobs (codes "k") true before_bind).1 ≡ true
unfolding bind engine_runs
binds = refl

bind_routes_example : contains jobs (route_targets all (codes "k") after_bind) ≡ true
bind_routes_example = bind_routes all jobs (codes "k") true before_bind binds

route_targets_example :
    contains jobs (route_targets all (codes "other") after_bind)
    ≡ elim (get all after_bind.exchanges) [
      | none ↦ false
      | some ex ↦ leads (admits ex all (codes "other")) jobs after_bind.bindings
    ]
route_targets_example = route_targets_lem all (codes "other") jobs after_bind

deletes_all : (delete_exchange all true after_bind).1 ≡ true
unfolding bind delete_exchange on_engine engine_runs
deletes_all = refl

delete_exchange_example :
    (has all (delete_exchange all true after_bind).0.exchanges ≡ false)
    × ((ex : Exchange) (routing_key queue : Str)
        → leads (admits ex all routing_key) queue (delete_exchange all true after_bind).0.bindings
          ≡ false)
delete_exchange_example = delete_exchange_unroutes all true after_bind deletes_all
