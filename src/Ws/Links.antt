-- ===== src/Ws/Links.antt =====
-- The tables of connections of src/WsServer.hpp fit together, in every run.
use Prim.Native.String.{String}
use unopp_server.Http.Messages.{Stores}
use unopp_server.Http.Server.{Site}
use unopp_server.Room.Manager.{AnyBody, RoomManager}
use unopp_server.Ws.Maps.{lookup, all_of, All, All-append, All-map, All-true, All-all_of}
use unopp_server.Ws.Messages.{
  Connection, Message, malformed, authorize_by, whisper, read_whispers, for_rooms, not_known,
  RoomCall, Whisper, Payload, of_rooms, whispered, Inputs, Server,
}
use unopp_server.Ws.Process.{
  call_rooms, to_responses, sender_of, on_whisper, on_read, on_room_call, from_user,
}
use unopp_server.Prelude.{ℕ, ◌≤◌, ◌≡◌, List, ◌++◌, map, some, Ensures, returns, Ensures-bind}

abbrev pub Connections : Type 0
Connections = List (ℕ × Connection)

-- The connection id k is none of the future, and if a connection has it, its user is u.
pub record IsOf (u k : ℕ) (connections : Connections) (last : ℕ) : Type 0 where
  pub given : k ≤ last
  pub user :
      (hdl : ℕ) (c : Connection) → lookup hdl connections ≡ some c → c.conn_id ≡ k → c.user_id ≡ u

-- A whisper in the queue is for a connection of its receiver.
abbrev pub IsAddressed : Connections → ℕ → ℕ × Payload → Type 0
IsAddressed connections last (k, of_rooms body) = Unit
IsAddressed connections last (k, whispered w) = IsOf w.receiver_id k connections last

module _ (stores : Stores) where
  pub record Linked (s : Server stores) : Type 0 where
    pub below :
        (hdl : ℕ) (c : Connection) → lookup hdl s.connections ≡ some c → c.conn_id ≤ s.conn_id
    pub there :
        (hdl : ℕ) (c : Connection)
        → lookup hdl s.connections ≡ some c
        → lookup c.conn_id s.conn_id_2_hdl ≡ some (some hdl)
    pub back :
        (k hdl : ℕ)
        → lookup k s.conn_id_2_hdl ≡ some (some hdl)
        → (c : Connection) × (lookup hdl s.connections ≡ some c) × (c.conn_id ≡ k)
    pub named : All (λ e. IsOf e.0 e.1 s.connections s.conn_id) s.user_id_2_conn_id
    pub addressed : All (IsAddressed s.connections s.conn_id) s.responses

  -- The tables stay.
  pub with_responses :
      (s : Server stores) (responses : List (ℕ × Payload)) (m : RoomManager) (site : Site stores)
      → All (IsAddressed s.connections s.conn_id) responses
      → Linked s
      → Linked (record s { responses = responses; room_manager = m; site = site })
  with_responses s responses m site all h = record {
    below = h.below;
    there = h.there;
    back = h.back;
    named = h.named;
    addressed = all;
  }

  pub IsAddressed-to_responses :
      (s : Server stores) (sent : List (ℕ × AnyBody))
      → All (IsAddressed s.connections s.conn_id) (map to_responses sent)
  IsAddressed-to_responses s sent =
      All-map (IsAddressed s.connections s.conn_id) to_responses sent
        (All-true (λ x. IsAddressed s.connections s.conn_id (to_responses x)) sent (λ x. tt))

  on_whisper-Linked :
      (inputs : Inputs) (hdl : ℕ) (c : Connection) (receiver_id : ℕ) (content : String)
      (s : Server stores)
      → Linked s
      → Linked (on_whisper stores inputs hdl c receiver_id content s).0
  unfolding on_whisper
  on_whisper-Linked inputs hdl c receiver_id content s h =
      let text = inputs.write content c.user_name c.user_id inputs.sent_at in
      let w : Whisper = (record { receiver_id = receiver_id; text = text }) in
      let conns = all_of receiver_id s.user_id_2_conn_id in
      let P = IsAddressed s.connections s.conn_id in
      with_responses s (s.responses ++ map (λ k. (k, whispered w)) conns) s.room_manager _
        (All-append P s.responses (map (λ k. (k, whispered w)) conns) h.addressed (
          All-map P (λ k. (k, whispered w)) conns
            (All-all_of (λ e. IsOf e.0 e.1 s.connections s.conn_id) receiver_id s.user_id_2_conn_id
              h.named)))
        h

  on_room_call-Linked :
      (inputs : Inputs) (c : Connection) (call : RoomCall) (s : Server stores)
      → Linked s
      → Ensures (λ x. Linked x.0) (on_room_call stores inputs c call s)
  unfolding on_room_call
  on_room_call-Linked inputs c call s h =
      Ensures-bind (call_rooms inputs.rand (sender_of c) call s.room_manager) λ x e. returns (
        with_responses s (s.responses ++ map to_responses x.1) x.0 s.site
          (All-append (IsAddressed s.connections s.conn_id) s.responses (map to_responses x.1)
            h.addressed (IsAddressed-to_responses s x.1))
          h)

  pub from_user-Linked :
      (inputs : Inputs) (hdl : ℕ) (c : Connection) (m : Message) (s : Server stores)
      → Linked s
      → Ensures (λ x. Linked x.0) (from_user stores inputs hdl c m s)
  unfolding from_user on_read
  from_user-Linked inputs hdl c malformed s h = returns h
  from_user-Linked inputs hdl c (whisper receiver_id content) s h =
      returns (on_whisper-Linked inputs hdl c receiver_id content s h)
  from_user-Linked inputs hdl c (read_whispers friend_id) s h = returns (
      with_responses s s.responses s.room_manager (on_read stores c friend_id s).site h.addressed h)
  from_user-Linked inputs hdl c (for_rooms call) s h = on_room_call-Linked inputs c call s h
  from_user-Linked inputs hdl c (authorize_by sessdata) s h =
      on_room_call-Linked inputs c not_known s h
