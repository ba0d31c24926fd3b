-- ===== src/SocketCore/ThreadingSocket/Limit.antt =====
-- The limit of clients under concurrency (src/veltix/socket_core/threading_socket.py). The accept
-- loop tests the limit, and adds a client only behind `accept`: in between, the clients' threads
-- and the threads of the user run.
use veltix.Prelude.{
  ℕ, ◌+◌, ◌≤◌, ◌<◌, ◌≡◌, refl, ap, true, false, Option, none, some, List, [], ◌∷◌, arith, if_intro,
  eq_nat, eq_string, eq_list,
}
use veltix.Prelude.Dict.{values, length-erase-le, length-insert-le}
use veltix.Prelude.Bytes.{Bytes}
use veltix.Internal.Recv.{RecvResult, timed_out_status, disconnected}
use veltix.Network.Types.{Registry}
use veltix.Network.Request.{Codec}
use veltix.Network.Sender.{Transport}
use veltix.SocketCore.ClientsManager.{
  ClientEntry, add_client, remove_client, get_client, count, visit, iter_on_clients,
}
use veltix.SocketCore.ThreadingSocket.{
  MaxClient, at_most, limit_reached, AcceptOutcome, accepts, accept_timeout, accept_os_error,
  accept_fails, ThreadingSocket, reject, admit, accepted, close_server_client, close_entry,
  close_found, close_client, close_all,
}
use veltix.SocketCore.ThreadingSocket.Serving.{
  Turn, data_or_empty, receive_data, process_server_message,
}

-- Where the accept thread stands: before the test of the limit, or in `accept`
pub data Phase : Type 0 where
  testing accepting : Phase

module _ (codec : Codec) (net : Transport) (Value : Type 0) (reg : Registry) where
  abbrev Socket : Type 0
  Socket = ThreadingSocket codec net Value

  -- A step of the accept thread, of a client's thread, or of a thread of the user
  pub data Step (max : MaxClient) : Phase → Socket → Phase → Socket → Type 0 where
    refuses :
        {s : Socket}
        → s.running ≡ true
        → limit_reached max (count s.client_manager) ≡ true
        → Step max testing s testing (reject codec net Value s)
    passes :
        {s : Socket}
        → s.running ≡ true
        → limit_reached max (count s.client_manager) ≡ false
        → Step max testing s accepting s
    accept_returns :
        {s : Socket} (o : AcceptOutcome)
        → Step max accepting s testing (accepted codec net Value o s)
    client_turn :
        {p : Phase} {s : Socket} (r : RecvResult) (entry : ClientEntry)
        → Step max p s p (process_server_message codec net Value reg r entry s).2
    user_closes :
        {p : Phase} {s : Socket} (id : ℕ) → Step max p s p (close_client codec net Value id s).1
    user_stops : {p : Phase} {s : Socket} → Step max p s p (close_all codec net Value s).1

  pub data Reach (max : MaxClient) (s : Socket) : Phase → Socket → Type 0 where
    start : Reach max s testing s
    later : {p q : Phase} {t u : Socket} → Reach max s p t → Step max p t q u → Reach max s q u

  -- How many clients there may be where the accept thread stands: one less in `accept`
  abbrev pub IsWithin : ℕ → Phase → Socket → Type 0
  IsWithin m testing s = count s.client_manager ≤ m
  IsWithin m accepting s = count s.client_manager < m

  -- Closing a client makes no client more.
  close-le :
      (entry : ClientEntry) (s : Socket)
      → count (close_server_client codec net Value entry s).client_manager ≤ count s.client_manager
  unfolding close_server_client remove_client count
  close-le entry s = length-erase-le entry.id s.client_manager.clients

  close_found-le :
      (o : Option ClientEntry) (s : Socket)
      → count (close_found codec net Value o s).1.client_manager ≤ count s.client_manager
  unfolding close_found close_entry
  close_found-le none s = omega arith
  close_found-le (some entry) s = close-le entry s

  visit-le :
      (es : List ClientEntry) (s : Socket)
      → count (visit (close_server_client codec net Value) es s).client_manager
        ≤ count s.client_manager
  unfolding visit
  visit-le [] s = omega arith
  visit-le (e ∷ es) s =
      omega (arith, close-le e s, visit-le es (close_server_client codec net Value e s))

  receive_data-count :
      (chunk : Bytes) (entry : ClientEntry) (s : Socket)
      → (receive_data codec net Value reg chunk entry s).2.client_manager ≡ s.client_manager
  unfolding receive_data
  receive_data-count chunk entry s = refl

  client_turn-le :
      (r : RecvResult) (entry : ClientEntry) (s : Socket)
      → count (process_server_message codec net Value reg r entry s).2.client_manager
        ≤ count s.client_manager
  unfolding process_server_message
  client_turn-le r entry s =
      if_intro
        (λ (out : Turn × ClientEntry × Socket). count out.2.client_manager ≤ count s.client_manager)
        (timed_out_status r.status) _ _ (λ _. omega arith)
        (λ _.
          if_intro
            (λ (out : Turn × ClientEntry × Socket).
              count out.2.client_manager ≤ count s.client_manager)
            (disconnected r.status) _ _ (λ _. close-le entry s)
            (λ _. omega (arith, ap count (receive_data-count (data_or_empty r.payload) entry s))))

  close_all-le :
      (s : Socket) → count (close_all codec net Value s).1.client_manager ≤ count s.client_manager
  unfolding close_all iter_on_clients
  close_all-le s =
      visit-le (values s.client_manager.clients) (record s { running = false; sock_open = false })

  accepted-le :
      (o : AcceptOutcome) (s : Socket)
      → count (accepted codec net Value o s).client_manager ≤ count s.client_manager + 1
  unfolding accepted admit count add_client
  accepted-le (accepts conn addr) s =
      length-insert-le (s.client_manager.id_count + 1) _ s.client_manager.clients
  accepted-le accept_timeout s = omega arith
  accepted-le accept_os_error s = omega arith
  accepted-le accept_fails s =
      if_intro (λ (t : Socket). count t.client_manager ≤ count s.client_manager + 1) s.running _ _
        (λ _. omega arith) (λ _. omega arith)

  fewer :
      (m : ℕ) (p : Phase) (s t : Socket)
      → count t.client_manager ≤ count s.client_manager
      → IsWithin m p s
      → IsWithin m p t
  fewer m testing s t h v = omega arith
  fewer m accepting s t h v = omega arith

  Step-IsWithin :
      {m : ℕ} {p q : Phase} {s t : Socket}
      → 0 < m
      → Step (at_most m) p s q t
      → IsWithin m p s
      → IsWithin m q t
  unfolding limit_reached reject close_client
  Step-IsWithin some_limit (refuses on full) v = v
  Step-IsWithin some_limit (passes on free) v = ground arith
  Step-IsWithin {s = s} some_limit (accept_returns o) v = omega (arith, accepted-le o s)
  Step-IsWithin {m} {p} {s = s} some_limit (client_turn r entry) v =
      fewer m p s _ (client_turn-le r entry s) v
  Step-IsWithin {m} {p} {s = s} some_limit (user_closes id) v =
      fewer m p s _ (close_found-le (get_client id s.client_manager) s) v
  Step-IsWithin {m} {p} {s = s} some_limit (user_stops) v = fewer m p s _ (close_all-le s) v

  Reach-IsWithin_at :
      {m : ℕ} {s : Socket} {p : Phase} {t : Socket}
      → 0 < m
      → count s.client_manager ≤ m
      → Reach (at_most m) s p t
      → IsWithin m p t
  Reach-IsWithin_at some_limit few start = few
  Reach-IsWithin_at some_limit few (later before st) =
      Step-IsWithin some_limit st (Reach-IsWithin_at some_limit few before)

  IsWithin-le : (m : ℕ) (p : Phase) (s : Socket) → IsWithin m p s → count s.client_manager ≤ m
  IsWithin-le m testing s v = v
  IsWithin-le m accepting s v = omega arith

  -- With a positive max_client, from a socket with no more clients than that, no interleaving of the
  -- accept loop, the clients' threads and threads that close clients or the server leads to more
  -- clients than max_client, although the test and the registration are not one step.
  pub Reach-IsWithin :
      {m : ℕ} {s : Socket} {p : Phase} {t : Socket}
      → 0 < m
      → count s.client_manager ≤ m
      → Reach (at_most m) s p t
      → count t.client_manager ≤ m
  Reach-IsWithin {m} {s} {p} {t} some_limit few r =
      IsWithin-le m p t (Reach-IsWithin_at some_limit few r)
