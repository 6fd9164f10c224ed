-- ===== src/Room/Tests.antt =====
-- A visit to a room with one member.
use unopp_server.Room.Members.{
  UserInfo, Room, new_room, JoinRoom, joined, answer, join, process_close, old_conn_id, member,
}
use unopp_server.Room.Visits.{Visited, process_close-join}
use unopp_server.Prelude.{ℕ, ◌≡◌, refl, false, [], ◌∷◌, Option, none, some, if◌then◌else◌, ◌==◌}

abbrev host : UserInfo
host = record { user_name = "ann"; user_id = 7; offline = false; prepared = false }

abbrev only_host : ℕ → Option ℕ
only_host x = if x == 7 then some 5 else none

abbrev hosted : Room
hosted = record (new_room 5 "ann" 7 "table" "secret" only_host) { connections = (1, host) ∷ [] }

abbrev guest : JoinRoom
guest = record {
  conn_id = 2;
  user_name = "bob";
  user_id = 8;
  no_password = false;
  password = "secret";
}

guest_joins : answer guest hosted ≡ joined
unfolding answer old_conn_id member
guest_joins = refl

process_close-join_example :
    Visited guest hosted (join guest hosted).1 (process_close 2 (join guest hosted).1)
process_close-join_example = process_close-join guest hosted refl guest_joins
