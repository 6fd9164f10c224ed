-- ===== src/Ws/Sending.antt =====
-- What send_message delivers, in every run of the WebSocket server.
use unopp_server.Http.Messages.{Stores}
use unopp_server.Http.Server.{Site}
use unopp_server.Room.Manager.{RoomManager}
use unopp_server.Ws.Maps.{lookup, assign, lookup-assign_other, of_lookup-assign, All, All-mono}
use unopp_server.Ws.Messages.{
  Connection, Action, subscribe, unsubscribe, message, Message, Payload, of_rooms, whispered,
  Inputs, Server,
}
use unopp_server.Ws.Process.{on_message, process}
use unopp_server.Ws.Queues.{send_all, send_message, Event, act, send, elsewhere, step, run}
use unopp_server.Ws.Links.{IsAddressed, Linked, with_responses, from_user-Linked}
use unopp_server.Ws.Coming.{from_stranger-Linked}
use unopp_server.Ws.Counting.{process-conn_id}
use unopp_server.Ws.Going.{on_unsubscribe-Linked}
use unopp_server.Prelude.{
  ℕ, ◌+◌, ◌≤◌, ◌<◌, ◌^◌, ◌≡◌, sym, ◌∙◌, List, [], ◌∷◌, length, Option, none, some, arith,
  Option-cases, inl, inr, Ensures, returns, Ensures->>=, Ensures-mono, Ensures-×,
}

abbrev Handles : Type 0
Handles = List (ℕ × Option ℕ)

-- The handles of the connections stay.
KeepsHandles : Handles → Handles → Type 0
KeepsHandles hdls hdls' =
    (k hdl : ℕ)
    → ((lookup k hdls ≡ some (some hdl)) → (lookup k hdls' ≡ some (some hdl)))
      × ((lookup k hdls' ≡ some (some hdl)) → (lookup k hdls ≡ some (some hdl)))

KeepsHandles-assign :
    (k : ℕ) (hdls : Handles) → lookup k hdls ≡ none → KeepsHandles hdls (assign k none hdls)
unfolding KeepsHandles
KeepsHandles-assign k hdls free j hdl = (
  λ at.
      lookup-assign_other k j none hdls
        (λ same. (let gone = rw (sym same, free) at at in ground arith))
      ∙ at,
  λ at. elim (of_lookup-assign k j none (some hdl) hdls at) [
    | inl (same, its) ↦ ground arith
    | inr (ne, old) ↦ old
  ],
)

KeepsHandles-send_all :
    (responses : List (ℕ × Payload)) (hdls : Handles)
    → KeepsHandles hdls (send_all responses hdls).0
unfolding send_all KeepsHandles
KeepsHandles-send_all [] hdls = λ k hdl. (λ at. at, λ at. at)
KeepsHandles-send_all ((conn_id, p) ∷ responses) hdls = elim (Option-cases (lookup conn_id hdls)) [
  | inl e ↦
      rw (e, send_all)
        (λ k hdl.
          (let one = KeepsHandles-assign conn_id hdls e k hdl in
            let more = KeepsHandles-send_all responses (assign conn_id none hdls) k hdl in
            (λ at. more.0 (one.0 at), λ at. one.1 (more.1 at))))
  | inr (none, e) ↦ rw (e, send_all) (KeepsHandles-send_all responses hdls)
  | inr (some hdl, e) ↦ rw (e, send_all) (KeepsHandles-send_all responses hdls)
]

-- What holds of each response at the handle of its connection holds of all that is delivered.
All-send_all :
    (D : ℕ × Payload → Type 0) (responses : List (ℕ × Payload)) (hdls : Handles)
    → All (λ r. (hdl : ℕ) → lookup r.0 hdls ≡ some (some hdl) → D (hdl, r.1)) responses
    → All D (send_all responses hdls).1
unfolding send_all KeepsHandles
All-send_all D [] hdls h = tt
All-send_all D ((conn_id, p) ∷ responses) hdls h = elim (Option-cases (lookup conn_id hdls)) [
  | inl e ↦
      rw (e, send_all)
        (All-send_all D responses (assign conn_id none hdls) (
          All-mono (λ r. (hdl : ℕ) → lookup r.0 hdls ≡ some (some hdl) → D (hdl, r.1))
            (λ r.
              (hdl : ℕ) → lookup r.0 (assign conn_id none hdls) ≡ some (some hdl) → D (hdl, r.1))
            responses (λ r own hdl at. own hdl ((KeepsHandles-assign conn_id hdls e r.0 hdl).1 at))
            h.1))
  | inr (none, e) ↦ rw (e, send_all) (All-send_all D responses hdls h.1)
  | inr (some hdl, e) ↦ rw (e, send_all) (h.0 hdl e, All-send_all D responses hdls h.1)
]

module _ (stores : Stores) where
  send_message-Linked :
      (s : Server stores) → Linked stores s → Linked stores (send_message stores s).0
  unfolding send_message KeepsHandles
  send_message-Linked s h =
      let keeps = KeepsHandles-send_all s.responses s.conn_id_2_hdl in
      record {
        below = h.below;
        there = λ hdl c at. (keeps c.conn_id hdl).0 (h.there hdl c at);
        back = λ k hdl at. h.back k hdl ((keeps k hdl).1 at);
        named = h.named;
        addressed = tt;
      }

  on_message-Linked :
      (inputs : Inputs) (hdl : ℕ) (m : Message) (s : Server stores)
      → s.conn_id + 1 < 2 ^ 32
      → Linked stores s
      → Ensures (λ x. Linked stores x.0) (on_message stores inputs hdl m s)
  unfolding on_message
  on_message-Linked inputs hdl m s few h = elim (Option-cases (lookup hdl s.connections)) [
    | inl e ↦ rw (e, on_message) (returns (from_stranger-Linked stores inputs hdl m s few e h))
    | inr (c, e) ↦ rw (e, on_message) (from_user-Linked stores inputs hdl c m s h)
  ]

  process-Linked :
      (inputs : Inputs) (a : Action) (s : Server stores)
      → s.conn_id + 1 < 2 ^ 32
      → Linked stores s
      → Ensures (λ x. Linked stores x.0) (process stores inputs a s)
  unfolding process
  process-Linked inputs (subscribe hdl) s few h = returns h
  process-Linked inputs (unsubscribe hdl) s few h = returns (on_unsubscribe-Linked stores hdl s h)
  process-Linked inputs (message hdl m) s few h = on_message-Linked inputs hdl m s few h

  step-Linked :
      (e : Event stores) (s : Server stores)
      → s.conn_id + 1 < 2 ^ 32
      → Linked stores s
      → Ensures (λ s'. Linked stores s' × (s'.conn_id ≤ s.conn_id + 1)) (step stores e s)
  unfolding step send_message
  step-Linked (act inputs a) s few h =
      let linked = process-Linked inputs a s few h in
      let counted = process-conn_id stores inputs a s in
      Ensures->>= (Ensures-× linked counted) λ x both. returns both
  step-Linked send s few h = returns (send_message-Linked s h, omega arith)
  step-Linked (elsewhere site) s few h =
      returns (with_responses stores s s.responses s.room_manager site h.addressed h, omega arith)

  run-Linked :
      (es : List (Event stores)) (s : Server stores)
      → s.conn_id + length es < 2 ^ 32
      → Linked stores s
      → Ensures (Linked stores) (run stores es s)
  unfolding run
  run-Linked [] s few h = returns h
  run-Linked (e ∷ es) s few h =
      Ensures->>= (step-Linked e s (omega arith) h)
        λ s' next. run-Linked es s' (let more = next.1 in omega arith) next.0

  -- A whisper arrives at a connection of its receiver.
  abbrev pub IsForReceiver : Server stores → ℕ × Payload → Type 0
  IsForReceiver s (hdl, of_rooms body) = Unit
  IsForReceiver s (hdl, whispered w) =
      (c : Connection) × (lookup hdl s.connections ≡ some c) × (c.user_id ≡ w.receiver_id)

  send_message-IsForReceiver :
      (s : Server stores) → Linked stores s → All (IsForReceiver s) (send_message stores s).1
  unfolding send_message
  send_message-IsForReceiver s h = All-send_all (IsForReceiver s) s.responses s.conn_id_2_hdl (
      All-mono (IsAddressed s.connections s.conn_id)
        (λ r. (hdl : ℕ) → lookup r.0 s.conn_id_2_hdl ≡ some (some hdl) → IsForReceiver s (hdl, r.1))
        s.responses (λ r is hdl at. receiver r is hdl at) h.addressed)
    where
      receiver :
          (r : ℕ × Payload)
          → IsAddressed s.connections s.conn_id r
          → (hdl : ℕ) → lookup r.0 s.conn_id_2_hdl ≡ some (some hdl)
          → IsForReceiver s (hdl, r.1)
      receiver (k, of_rooms body) is hdl at = tt
      receiver (k, whispered w) is hdl at =
          let (c, own, same) = h.back k hdl at in (c, own, is.user hdl c own same)

-- The server without connections.
abbrev pub started : (stores : Stores) → RoomManager → Site stores → Server stores
started stores room_manager site = record {
  connections = [];
  conn_id_2_hdl = [];
  user_id_2_conn_id = [];
  conn_id = 0;
  responses = [];
  room_manager = room_manager;
  site = site;
}

started-Linked :
    (stores : Stores) (room_manager : RoomManager) (site : Site stores)
    → Linked stores (started stores room_manager site)
unfolding lookup
started-Linked stores room_manager site = record {
  below = λ hdl c at. ground arith;
  there = λ hdl c at. ground arith;
  back = λ k hdl at. ground arith;
  named = tt;
  addressed = tt;
}

-- After any run of fewer than 2 ^ 32 events from the start, actions of the connections with rounds of
-- send_message and changes of the accounts and the chat between them: the tables of connections fit
-- together, and of all that the next round of send_message delivers, each whisper arrives at a connection
-- that is authorized as its receiver.
pub run-send_message :
    (stores : Stores) (room_manager : RoomManager) (site : Site stores) (es : List (Event stores))
    → length es < 2 ^ 32
    → Ensures
        (λ s. Linked stores s × All (IsForReceiver stores s) (send_message stores s).1)
        (run stores es (started stores room_manager site))
run-send_message stores room_manager site es few =
    Ensures-mono
      (run-Linked stores es (started stores room_manager site) (omega arith)
        (started-Linked stores room_manager site))
      λ s h. (h, send_message-IsForReceiver stores s h)
