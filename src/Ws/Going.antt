-- ===== src/Ws/Going.antt =====
-- UNSUBSCRIBE keeps the tables of connections fit.
use unopp_server.Http.Messages.{Stores}
use unopp_server.Room.Manager.{manager_process_close}
use unopp_server.Ws.Maps.{
  lookup, remove, lookup_unique, lookup-remove_other, of_lookup-remove, All-mono, All-append,
  All-remove,
}
use unopp_server.Ws.Messages.{Connection, Payload, of_rooms, whispered, Server}
use unopp_server.Ws.Process.{to_responses, close_connection, on_unsubscribe}
use unopp_server.Ws.Links.{Connections, IsOf, IsAddressed, Linked, IsAddressed-to_responses}
use unopp_server.Prelude.{ℕ, ◌≡◌, ◌∙◌, ap, ◌++◌, map, Option, none, some, Option-cases, inl, inr}

IsOf-remove :
    (u k hdl : ℕ) (connections : Connections) (last : ℕ)
    → IsOf u k connections last
    → IsOf u k (remove hdl connections) last
IsOf-remove u k hdl connections last h = record {
  given = h.given;
  user = λ hdl' c at is. h.user hdl' c (of_lookup-remove hdl hdl' c connections at).1 is;
}

IsAddressed-remove :
    (hdl : ℕ) (connections : Connections) (last : ℕ) (r : ℕ × Payload)
    → IsAddressed connections last r
    → IsAddressed (remove hdl connections) last r
IsAddressed-remove hdl connections last (k, of_rooms body) h = tt
IsAddressed-remove hdl connections last (k, whispered w) h =
    IsOf-remove w.receiver_id k hdl connections last h

abbrev unsome : ℕ → Option ℕ → ℕ
unsome d none = d
unsome d (some x) = x

module _ (stores : Stores) where
  -- Two connections with one id are one.
  pub same_handle :
      (s : Server stores) (hdl hdl' : ℕ) (c c' : Connection)
      → Linked stores s
      → lookup hdl s.connections ≡ some c
      → lookup hdl' s.connections ≡ some c'
      → c.conn_id ≡ c'.conn_id
      → hdl ≡ hdl'
  same_handle s hdl hdl' c c' h at at' same =
      let one = h.there hdl c at in
      let other = h.there hdl' c' at' in
      ap (unsome hdl)
        (lookup_unique c'.conn_id s.conn_id_2_hdl (some hdl) (some hdl') (rw same at one) other)

  close_connection-Linked :
      (hdl : ℕ) (c : Connection) (s : Server stores)
      → lookup hdl s.connections ≡ some c
      → Linked stores s
      → Linked stores (close_connection stores hdl c s)
  unfolding close_connection
  close_connection-Linked hdl c s own h = record {
    below = λ hdl' c' at. h.below hdl' c' (of_lookup-remove hdl hdl' c' s.connections at).1;
    there = λ hdl' c' at.
        (let (ne, old) = of_lookup-remove hdl hdl' c' s.connections at in
          lookup-remove_other c.conn_id c'.conn_id s.conn_id_2_hdl
            (λ same. ne (same_handle s hdl hdl' c c' h own old same))
          ∙ h.there hdl' c' old);
    back = λ k hdl' at.
        (let (ne, old) = of_lookup-remove c.conn_id k (some hdl') s.conn_id_2_hdl at in
          let (c', at', is) = h.back k hdl' old in
          (
            c',
            lookup-remove_other hdl hdl' s.connections (λ same. ne (
                  ap (λ x. x.conn_id) (lookup_unique hdl' s.connections c c' (rw same at own) at')
                  ∙ is))
                ∙ at',
            is,
          ));
    named =
        All-remove (λ e. IsOf e.0 e.1 (remove hdl s.connections) s.conn_id) c.conn_id
          s.user_id_2_conn_id
          (All-mono (λ e. IsOf e.0 e.1 s.connections s.conn_id)
            (λ e. IsOf e.0 e.1 (remove hdl s.connections) s.conn_id) s.user_id_2_conn_id
            (λ e is. IsOf-remove e.0 e.1 hdl s.connections s.conn_id is) h.named);
    addressed =
        let sent = (manager_process_close c.conn_id c.user_id s.room_manager).1 in
        let more =
          All-append (IsAddressed s.connections s.conn_id) s.responses (map to_responses sent)
            h.addressed (IsAddressed-to_responses stores s sent) in
        All-mono (IsAddressed s.connections s.conn_id)
          (IsAddressed (remove hdl s.connections) s.conn_id) (s.responses ++ map to_responses sent)
          (λ r is. IsAddressed-remove hdl s.connections s.conn_id r is) more;
  }

  pub on_unsubscribe-Linked :
      (hdl : ℕ) (s : Server stores) → Linked stores s → Linked stores (on_unsubscribe stores hdl s)
  unfolding on_unsubscribe
  on_unsubscribe-Linked hdl s h = elim (Option-cases (lookup hdl s.connections)) [
    | inl e ↦ rw (e, on_unsubscribe) h
    | inr (c, e) ↦ rw (e, on_unsubscribe) (close_connection-Linked hdl c s e h)
  ]
