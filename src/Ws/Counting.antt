-- ===== src/Ws/Counting.antt =====
-- Each action of src/WsServer.hpp takes at most one new connection id.
use Prim.Native.String.{String}
use unopp_server.Accounts.Users.{Result, success, authorize}
use unopp_server.Http.Messages.{Stores}
use unopp_server.Ws.Maps.{lookup}
use unopp_server.Ws.Messages.{
  Connection, Message, authorize_by, for_rooms, not_known, RoomCall, Action, subscribe, unsubscribe,
  message, Inputs, Server,
}
use unopp_server.Ws.Process.{
  call_rooms, sender_of, on_whisper, on_read, on_room_call, from_user, admit_user, on_authorize,
  from_stranger, on_message, close_connection, on_unsubscribe, process,
}
use unopp_server.Prelude.{
  ℕ, ◌+◌, ◌≤◌, Option, none, some, arith, Option-cases, inl, inr, Ensures, returns, Ensures-bind,
}

module _ (stores : Stores) where
  on_room_call-conn_id :
      (inputs : Inputs) (c : Connection) (call : RoomCall) (s : Server stores)
      → Ensures (λ x. x.0.conn_id ≤ s.conn_id + 1) (on_room_call stores inputs c call s)
  unfolding on_room_call
  on_room_call-conn_id inputs c call s =
      Ensures-bind (call_rooms inputs.rand (sender_of c) call s.room_manager)
        λ x e. returns (omega arith)

  from_user-conn_id :
      (inputs : Inputs) (hdl : ℕ) (c : Connection) (m : Message) (s : Server stores)
      → Ensures (λ x. x.0.conn_id ≤ s.conn_id + 1) (from_user stores inputs hdl c m s)
  unfolding from_user on_read on_whisper
  from_user-conn_id inputs hdl c (for_rooms call) s = on_room_call-conn_id inputs c call s
  from_user-conn_id inputs hdl c (authorize_by sessdata) s =
      on_room_call-conn_id inputs c not_known s
  from_user-conn_id inputs hdl c m s = returns (omega arith)

  on_authorize-conn_id :
      (inputs : Inputs) (hdl : ℕ) (answer : Result × Option (ℕ × String)) (s : Server stores)
      → (on_authorize stores inputs hdl answer s).0.conn_id ≤ s.conn_id + 1
  unfolding on_authorize admit_user
  on_authorize-conn_id inputs hdl (success, some u) s = omega arith
  on_authorize-conn_id inputs hdl (success, none) s = omega arith
  on_authorize-conn_id inputs hdl (r, o) s = omega arith

  from_stranger-conn_id :
      (inputs : Inputs) (hdl : ℕ) (m : Message) (s : Server stores)
      → (from_stranger stores inputs hdl m s).0.conn_id ≤ s.conn_id + 1
  unfolding from_stranger
  from_stranger-conn_id inputs hdl (authorize_by sessdata) s =
      on_authorize-conn_id inputs hdl (authorize stores.users sessdata s.site.accounts) s
  from_stranger-conn_id inputs hdl m s = omega arith

  pub process-conn_id :
      (inputs : Inputs) (a : Action) (s : Server stores)
      → Ensures (λ x. x.0.conn_id ≤ s.conn_id + 1) (process stores inputs a s)
  unfolding process on_message on_unsubscribe close_connection
  process-conn_id inputs (subscribe hdl) s = returns (omega arith)
  process-conn_id inputs (unsubscribe hdl) s = elim (Option-cases (lookup hdl s.connections)) [
    | inl e ↦ rw (e, on_unsubscribe) (returns (omega arith))
    | inr (c, e) ↦ rw (e, on_unsubscribe) (returns (omega arith))
  ]
  process-conn_id inputs (message hdl m) s = elim (Option-cases (lookup hdl s.connections)) [
    | inl e ↦ rw (e, on_message) (returns (from_stranger-conn_id inputs hdl m s))
    | inr (c, e) ↦ rw (e, on_message) (from_user-conn_id inputs hdl c m s)
  ]
