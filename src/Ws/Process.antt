-- ===== src/Ws/Process.antt =====
-- A round of WsServer::process_message: one action. `none` is undefined behaviour in a room.
use Prim.Native.String.{String}
use unopp_server.Accounts.Users.{Result, success, authorize}
use unopp_server.Accounts.Unread.{add_one_unread, clear_unread}
use unopp_server.Chat.Table.{ChatMessage}
use unopp_server.Chat.History.{new_chat_message, emplace}
use unopp_server.Http.Messages.{Stores}
use unopp_server.Room.Messages.{Sender}
use unopp_server.Room.Manager.{
  AnyBody, Rand, RoomManager, create_room, get_room_list, dispatch, manager_process_close,
}
use unopp_server.Room.Manager as Manager
use unopp_server.Ws.Maps.{lookup, assign, remove, all_of}
use unopp_server.Ws.Messages.{
  Connection, RoomCall, create, room_list, other, Message, malformed, authorize_by, whisper,
  read_whispers, for_rooms, not_known, Action, subscribe, unsubscribe, message, Whisper, Payload,
  of_rooms, whispered, Reply, please_log_in, authorize_res, echo, Inputs, Server,
}
use unopp_server.Prelude.{ℕ, ◌+◌, ◌%◌, ◌^◌, List, [], ◌∷◌, ◌++◌, map, Option, none, some, ◌>>=◌}

-- RoomManager::process_message
unfoldable pub call_rooms :
    Rand → Sender → RoomCall → RoomManager → Option (RoomManager × Manager.Sent)
call_rooms rand from (create q) m = some (create_room from q m)
call_rooms rand from room_list m = some (get_room_list from m)
call_rooms rand from (other to_join msg) m = dispatch rand from to_join msg m

-- push_message, for what the rooms send.
abbrev pub to_responses : ℕ × AnyBody → ℕ × Payload
to_responses r = (r.0, of_rooms r.1)

abbrev pub sender_of : Connection → Sender
sender_of c = record { conn_id = c.conn_id; user_name = c.user_name; user_id = c.user_id }

module _ (stores : Stores) where
  open stores use {users, relations}

  abbrev pub Processed : Type 0
  Processed = Option (Server stores × List (ℕ × Reply))

  -- WHISPER_MESSAGE
  unfoldable pub on_whisper :
      Inputs → ℕ → Connection → ℕ → String → Server stores → Server stores × List (ℕ × Reply)
  on_whisper inputs hdl c receiver_id content s =
      let text = inputs.write content c.user_name c.user_id inputs.sent_at in
      let m : ChatMessage = (record {
        sender_id = c.user_id;
        receiver_id = receiver_id;
        message = text;
        timestamp = inputs.stored_at;
      }) in
      let w : Whisper = (record { receiver_id = receiver_id; text = text }) in
      (
        record s {
          site = record s.site {
            history = new_chat_message inputs.places m s.site.history;
            unread = add_one_unread receiver_id c.user_id s.site.unread;
          };
          responses =
              s.responses
              ++ map (λ conn_id. (conn_id, whispered w)) (all_of receiver_id s.user_id_2_conn_id);
        },
        (hdl, echo w) ∷ [],
      )

  -- READ_WHISPER_MESSAGES
  unfoldable pub on_read : Connection → ℕ → Server stores → Server stores
  on_read c friend_id s =
      let (friends, unread) =
        clear_unread relations c.user_id friend_id s.site.friends s.site.unread in
      record s { site = record s.site { friends = friends; unread = unread } }

  -- The messages for the rooms.
  unfoldable pub on_room_call : Inputs → Connection → RoomCall → Server stores → Processed
  on_room_call inputs c call s = call_rooms inputs.rand (sender_of c) call s.room_manager >>= λ x.
      some (record s { room_manager = x.0; responses = s.responses ++ map to_responses x.1 }, [])

  -- A message of a connection that is authorized.
  unfoldable pub from_user : Inputs → ℕ → Connection → Message → Server stores → Processed
  from_user inputs hdl c malformed s = some (s, [])
  from_user inputs hdl c (whisper receiver_id content) s =
      some (on_whisper inputs hdl c receiver_id content s)
  from_user inputs hdl c (read_whispers friend_id) s = some (on_read c friend_id s, [])
  from_user inputs hdl c (for_rooms call) s = on_room_call inputs c call s
  from_user inputs hdl c (authorize_by sessdata) s = on_room_call inputs c not_known s

  -- The new connection of a user.
  unfoldable pub admit_user : Inputs → ℕ → ℕ × String → Server stores → Server stores
  admit_user inputs hdl u s =
      let conn_id = (s.conn_id + 1) % 2 ^ 32 in
      let c : Connection = (record { user_id = u.0; user_name = u.1; conn_id = conn_id }) in
      record s {
        connections = assign hdl c s.connections;
        conn_id_2_hdl = assign conn_id (some hdl) s.conn_id_2_hdl;
        user_id_2_conn_id = emplace inputs.conn_place (u.0, conn_id) s.user_id_2_conn_id;
        conn_id = conn_id;
      }

  -- AUTHORIZE, by what auth.authorize returns.
  unfoldable pub on_authorize :
      Inputs → ℕ → Result × Option (ℕ × String) → Server stores → Server stores × List (ℕ × Reply)
  on_authorize inputs hdl (success, some u) s =
      (admit_user inputs hdl u s, (hdl, authorize_res (some u)) ∷ [])
  on_authorize inputs hdl _ s = (s, (hdl, authorize_res none) ∷ [])

  -- A message of a connection that is not.
  unfoldable pub from_stranger :
      Inputs → ℕ → Message → Server stores → Server stores × List (ℕ × Reply)
  from_stranger inputs hdl malformed s = (s, [])
  from_stranger inputs hdl (authorize_by sessdata) s =
      on_authorize inputs hdl (authorize users sessdata s.site.accounts) s
  from_stranger inputs hdl _ s = (s, (hdl, please_log_in) ∷ [])

  unfoldable pub on_message : Inputs → ℕ → Message → Server stores → Processed
  on_message inputs hdl m s = elim (lookup hdl s.connections) [
    | none ↦ some (from_stranger inputs hdl m s)
    | some c ↦ from_user inputs hdl c m s
  ]

  -- UNSUBSCRIBE, of a connection that is authorized.
  unfoldable pub close_connection : ℕ → Connection → Server stores → Server stores
  close_connection hdl c s =
      let (room_manager, sent) = manager_process_close c.conn_id c.user_id s.room_manager in
      record s {
        connections = remove hdl s.connections;
        conn_id_2_hdl = remove c.conn_id s.conn_id_2_hdl;
        user_id_2_conn_id = remove c.conn_id s.user_id_2_conn_id;
        responses = s.responses ++ map to_responses sent;
        room_manager = room_manager;
      }

  unfoldable pub on_unsubscribe : ℕ → Server stores → Server stores
  on_unsubscribe hdl s = elim (lookup hdl s.connections) [
    | none ↦ s
    | some c ↦ close_connection hdl c s
  ]

  unfoldable pub process : Inputs → Action → Server stores → Processed
  process inputs (subscribe hdl) s = some (s, [])
  process inputs (unsubscribe hdl) s = some (on_unsubscribe hdl s, [])
  process inputs (message hdl m) s = on_message inputs hdl m s
