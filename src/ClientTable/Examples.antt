-- ===== src/ClientTable/Examples.antt =====
-- The theorems of ClientTable at a server with two clients.
use git.Base.{
  ◌≡◌, refl, Bool, true, none, some, List, [], ◌∷◌, ◌++◌, arith, replicate, length, ◌≤◌, ◌<◌, ◌⊎◌,
}
use git.Base.Bytes.{codes}
use mathlib.Core.List.{map}
use git.ClientTable.Server.{max_clients, Client, Packet, Server, start, broadcast, leave, join}
use git.ClientTable.Array.{live}
use git.ClientTable.Broadcast.{relay, broadcast-relay}
use git.Io.{running, crashed}
use git.ClientTable.Main.{Arrival, main}
use git.ClientTable.Capacity.{main-capacity}
use git.ClientTable.Members.{IsValid, Left, Joined, leave-Left, join-Joined}
use git.ClientTable.Room.{
  Event, joins, speaks, leaves, run, room, run_room, welcome, without, Agree, run-room,
}

abbrev accepts : List Packet → Packet → Bool
accepts log p = true

abbrev ann : Client
ann = record { cfd = 4; name = codes "ann" ++ (0 ∷ []) }

abbrev bob : Client
bob = record { cfd = 5; name = codes "bob" ++ (0 ∷ []) }

abbrev two : Server
two = record {
  client = ann ∷ bob ∷ replicate 98 (record { cfd = 0; name = [] });
  cnt = 2;
  sent = [];
  closed = [];
}

two-IsValid : IsValid two
two-IsValid = record { whole = refl; fits = omega arith }

broadcast-relay_example :
    broadcast accepts (codes "hi") ann two
    ≡ some (record two { sent = relay accepts (codes "hi") ann (live two) [] })
broadcast-relay_example = broadcast-relay accepts (codes "hi") ann two (omega arith)

leave-Left_example : (s' : Server) × (leave accepts ann two ≡ some s') × Left 4 two s'
leave-Left_example = leave-Left accepts ann two two-IsValid

join-Joined_example : (s' : Server) × (join accepts 6 (codes "eve") two ≡ some s') × Joined 6 two s'
join-Joined_example = join-Joined accepts 6 (codes "eve") two two-IsValid (omega arith)

abbrev eve : Arrival
eve = record {
  cfd = 4;
  received = codes "eve";
  ip = codes "127.0.0.1";
  port = codes "5000";
  refused = none;
}

abbrev arrivals : List Arrival
arrivals = eve ∷ record eve { cfd = 5; refused = some (codes "no") } ∷ []

main-capacity_example :
    ((length arrivals ≤ max_clients)
      × ((main accepts 3 true true true (map some arrivals)).output.status ≡ running)
      × ((main accepts 3 true true true (map some arrivals)).server.cnt ≡ length arrivals))
    ⊎ ((max_clients < length arrivals)
        × ((main accepts 3 true true true (map some arrivals)).output.status ≡ crashed))
main-capacity_example = main-capacity accepts arrivals

abbrev events : List Event
events =
    joins 4 (codes "ann")
    ∷ joins 5 (codes "bob")
    ∷ speaks ann (codes "hi")
    ∷ leaves ann
    ∷ joins 6 (codes "eve")
    ∷ []

run-room_example : Agree (run_room events (room [] [])) (run accepts events start)
run-room_example = run-room accepts events

who_stays : run_room events (room [] []) ≡ some (room (6 ∷ 5 ∷ []) (4 ∷ []))
unfolding run_room welcome without
who_stays = refl
