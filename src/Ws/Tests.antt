-- ===== src/Ws/Tests.antt =====
-- Two users and their connections.
use unopp_server.Accounts.Tables.{User}
use unopp_server.Accounts.Samples.{relations, requests, users}
use unopp_server.Chat.History.{empty as no_history}
use unopp_server.Chat.Samples.{chats}
use unopp_server.Http.Messages.{Stores}
use unopp_server.Http.Server.{Site}
use unopp_server.Room.Manager.{Rand, RoomManager}
use unopp_server.Ws.Maps.{All, lookup}
use unopp_server.Ws.Messages.{Connection, authorize_by, whisper, message, Inputs, Server}
use unopp_server.Ws.Process.{process, on_unsubscribe}
use unopp_server.Ws.Queues.{Event, act, send, run, send_message}
use unopp_server.Ws.Links.{Linked}
use unopp_server.Ws.Sending.{started, IsForReceiver, run-send_message}
use unopp_server.Ws.Whispers.{lost_whisper}
use unopp_server.Prelude.{
  ℕ, ◌*◌, ◌≡◌, refl, true, false, List, [], ◌∷◌, none, some, ◌>>=◌, arith, Ensures,
}

abbrev stores : Stores
stores = record {
  users = users;
  relations = relations;
  requests = requests;
  chats = chats;
  Item = ℕ;
  item_of = λ content time. time;
}

abbrev user_of : ℕ → User
user_of x = record {
  id = x;
  user_name = "ann";
  password = "secret";
  sessdata = some (x * 10);
  slogan = none;
}

-- The users 0 to 8, and their sessdata.
abbrev site : Site stores
site = record {
  accounts = record { next = 9; at = user_of };
  friends = record { bound = 0; at = λ x y. none };
  asked = λ x y. false;
  unread = [];
  icons = λ x. none;
  history = no_history;
  stored = [];
}

abbrev rand : Rand
rand = record {
  uno = record { seating = λ n. 0; cards = λ n. 0; first = 0 };
  splendor = record { tables = λ n m. 0; first = 0; order = λ xs. xs };
  coin = true;
}

abbrev inputs : Inputs
inputs = record {
  rand = rand;
  sent_at = 20;
  stored_at = 20;
  places = λ n. 0;
  conn_place = 0;
  write = λ content name id time. content;
}

abbrev no_rooms : RoomManager
no_rooms = record { rooms = []; user_2_room_id = λ x. none }

abbrev day : List (Event stores)
day =
    act inputs (message 100 (authorize_by 70))
    ∷ act inputs (message 101 (authorize_by 20))
    ∷ send
    ∷ act inputs (message 100 (whisper 2 "hello"))
    ∷ []

run-send_message_example :
    Ensures
      (λ s. Linked stores s × All (IsForReceiver stores s) (send_message stores s).1)
      (run stores day (started stores no_rooms site))
run-send_message_example = run-send_message stores no_rooms site day (omega arith)

-- The user 7 has the connections 1 and 2, and the user 2 has the connection 3.
abbrev connection : ℕ → ℕ → Connection
connection user_id conn_id = record { user_id = user_id; user_name = "ann"; conn_id = conn_id }

abbrev three : Server stores
three = record {
  connections = (100, connection 7 1) ∷ (101, connection 7 2) ∷ (102, connection 2 3) ∷ [];
  conn_id_2_hdl = (1, some 100) ∷ (2, some 101) ∷ (3, some 102) ∷ [];
  user_id_2_conn_id = (7, 1) ∷ (7, 2) ∷ (2, 3) ∷ [];
  conn_id = 3;
  responses = [];
  room_manager = no_rooms;
  site = site;
}

lost_whisper_example :
    let s' = on_unsubscribe stores 101 three in
    (lookup 102 s'.connections ≡ some (connection 2 3))
    × ((x : Server stores) × (process stores inputs (message 100 (whisper 2 "hello")) s'
            >>= (λ r. some r.0)
          ≡ some x)
        × (x.responses ≡ s'.responses))
unfolding lookup
lost_whisper_example =
    lost_whisper stores inputs 101 100 102 (connection 7 2) (connection 7 1) (connection 2 3)
      "hello" three refl refl refl (omega arith) (omega arith) refl
