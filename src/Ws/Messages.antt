-- ===== src/Ws/Messages.antt =====
-- The messages and the state of src/WsServer.hpp. jsoncpp reads a payload; what it makes of one that
-- the server understands is a constructor with the values in it. A connection_hdl is a number.
use Prim.Native.String.{String}
use unopp_server.Http.Messages.{Stores}
use unopp_server.Http.Server.{Site}
use unopp_server.Room.Messages.{unknown}
use unopp_server.Room.Manager.{AnyBody, CreateRoom, RoomMessage, room_message, Rand, RoomManager}
use unopp_server.Prelude.{ℕ, List, Option, none}

pub record Connection : Type 0 where
  pub user_id : ℕ
  pub user_name : String
  pub conn_id : ℕ

-- The messages for RoomManager; `other` has the room_id of a JOIN_ROOM.
pub data RoomCall : Type 0 where
  create : CreateRoom → RoomCall
  room_list : RoomCall
  other : Option ℕ → RoomMessage → RoomCall

-- AUTHORIZE, WHISPER_MESSAGE, READ_WHISPER_MESSAGES and the rest; a payload that is no JSON or has no
-- message_type is malformed.
pub data Message : Type 0 where
  malformed : Message
  authorize_by : ℕ → Message
  whisper : ℕ → String → Message
  read_whispers : ℕ → Message
  for_rooms : RoomCall → Message

-- To RoomManager, AUTHORIZE is a message like any other that it does not know.
abbrev pub not_known : RoomCall
not_known = other none (room_message unknown)

pub data Action : Type 0 where
  subscribe unsubscribe : ℕ → Action
  message : ℕ → Message → Action

pub record Whisper : Type 0 where
  pub receiver_id : ℕ
  pub text : String

-- What the queue of responses carries.
pub data Payload : Type 0 where
  of_rooms : AnyBody → Payload
  whispered : Whisper → Payload

-- What is sent to a handle at once: AUTHORIZE_RES with the id and the name, or without success.
pub data Reply : Type 0 where
  please_log_in : Reply
  authorize_res : Option (ℕ × String) → Reply
  echo : Whisper → Reply

-- What one action takes from outside: rand(), the two readings of the clock, the places where emplace
-- puts new elements, and what FastWriter makes of a whisper with its sender and its time.
pub record Inputs : Type 0 where
  pub rand : Rand
  pub sent_at : ℕ
  pub stored_at : ℕ
  pub places : ℕ → ℕ
  pub conn_place : ℕ
  pub write : String → String → ℕ → ℕ → String

-- The members; the accounts and the chat are those of the HTTP server. A handle of conn_id_2_hdl is
-- `none` when operator[] has made it.
module _ (stores : Stores) where
  pub record Server : Type 0 where
    pub connections : List (ℕ × Connection)
    pub conn_id_2_hdl : List (ℕ × Option ℕ)
    pub user_id_2_conn_id : List (ℕ × ℕ)
    pub conn_id : ℕ
    pub responses : List (ℕ × Payload)
    pub room_manager : RoomManager
    pub site : Site stores
