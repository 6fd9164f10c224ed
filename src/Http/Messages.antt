-- ===== src/Http/Messages.antt =====
-- The requests and the responses of src/HttpServer.hpp, and what it stands on. A request has the values
-- that its handler takes out of the body or the parameters: a missing one of the body is "", 0 or false.
use Prim.Native.String.{String}
use unopp_server.Accounts.Tables
use unopp_server.Accounts.Users.{Result}
use unopp_server.Chat.Table.{Chats}
use unopp_server.Http.Cookie.{Bytes}
use unopp_server.Prelude.{ℕ, Bool, List, [], Option}

-- The tables that the two singletons keep, and what jsoncpp makes of a chat message.
pub record Stores : Type 1 where
  pub users : Tables.Users
  pub relations : Tables.Relations
  pub requests : Tables.Requests
  pub chats : Chats
  pub Item : Type 0
  pub item_of : String → ℕ → Item

-- std::string::size, generate_sessdata for a name, get_timestamp, and whether an icon's file opens.
pub record Env : Type 0 where
  pub size : String → ℕ
  pub fresh : String → ℕ
  pub now : ℕ
  pub opens : ℕ → Bool

pub data Request : Type 0 where
  hello logout get_friend_requests get_friend_list : Request
  login : String → String → Request
  login_by_id : ℕ → String → Request
  register : String → String → Request
  upload_icon : List Bytes → Request
  set_name set_slogan : String → Request
  friend_request : ℕ → Request
  handle_friend_request : Bool → ℕ → Request
  get_chat_history : Option ℕ → Request
  get_chat_history_20 : Option ℕ → Option ℕ → Request
  get_user_info : Option ℕ → Request

-- The name, the slogan and the id.
abbrev pub Info : Type 0
Info = Option (String × String × ℕ)

pub data Content (Item : Type 0) : Type 0 where
  empty please_log_in miss_params logged_out failed_to_log_out : Content Item
  greeting : ℕ → String → Content Item
  says : Result → Content Item
  friend_requests : List Info → Content Item
  friend_list : List (Info × ℕ) → Content Item
  chat_history : List (ℕ × Item) → Content Item
  chat_messages : List Item → Content Item
  user_info : Info → Content Item

-- Set-Cookie, without Max-Age.
pub data SetCookie : Type 0 where
  session : Bytes → SetCookie
  name_cookie : String → SetCookie
  id_cookie : ℕ → SetCookie

pub record Response (Item : Type 0) : Type 0 where
  pub content : Content Item
  pub cookies : List SetCookie

abbrev pub answer : {Item : Type 0} → Content Item → Response Item
answer c = record { content = c; cookies = [] }
