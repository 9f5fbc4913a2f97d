-- ===== src/Net/IdleTests.antt =====
-- Two connections, of which one has been idle for 300 seconds.
use redis_cpp.Base.{◌≡◌, refl, none, [], ◌∷◌, if◌then◌else◌}
use redis_cpp.Pool.Queue.{new_pool}
use redis_cpp.Net.Connection.{Connection, make_connection}
use redis_cpp.Net.Table.{lookup}
use redis_cpp.Net.Reactor.{Reactor, make_reactor, check_idle}
use redis_cpp.Net.Idle.{Distinct, idle_in, check_idle_closes}

abbrev busy : Connection
busy = make_connection 7 1 900

abbrev quiet : Connection
quiet = make_connection 8 2 700

abbrev two_clients : Reactor
two_clients = record (make_reactor 3 4 new_pool) { conns = (7, busy) ∷ (8, quiet) ∷ [] }

two_clients-Distinct : Distinct two_clients.conns
unfolding Distinct lookup
two_clients-Distinct = (refl, (refl, tt))

check_idle_closes_example :
    lookup 8 (check_idle 1000 300 two_clients).conns
    ≡ (if idle_in 1000 300 (lookup 8 two_clients.conns) then none else lookup 8 two_clients.conns)
check_idle_closes_example = check_idle_closes 1000 300 two_clients 8 two_clients-Distinct

idle_8 :
    (if idle_in 1000 300 (lookup 8 two_clients.conns) then none else lookup 8 two_clients.conns)
    ≡ none
unfolding lookup make_connection
idle_8 = refl
