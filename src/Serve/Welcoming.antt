-- ===== src/Serve/Welcoming.antt =====
-- The part of a turn that accepts a connection meets undefined behaviour only where the count of
-- connections overflows or an `fd_set` has no room for the descriptor.
use chopserver.Base.{
  ℕ, ◌+◌, ◌^◌, ltb, lt_one, pos_part, zero, suc, ◌≤◌, ◌≡◌, ◌∙◌, refl, inl, inr, ℤ, pos, negsuc,
  List, Bool, false, Option, none, some, arith, Bool-cases, ◌==◌,
}
use chopserver.Structs.{Ref, Client, Server}
use chopserver.Env.{Env, print, close, malloc}
use chopserver.Memory.{Init, made, refused, init_client_struct}
use chopserver.Machine.{weight, Socket, Io, done, failed, Fault, overflow, fd_set, fd_setsize}
use chopserver.Fit.Rules.{IsUnprintable}
use chopserver.Stable.Memory.{malloc-SameEnv}
use chopserver.Manage.Clients.{
  Defined, returns, undefined_by, to_int, accept_new_client, accept_client, place_client,
  accept_connection, refuse_connection, find_slot,
}
use chopserver.Manage.Clients.Accepting.{
  Accepted, invalid, lacks, fails, crowded, overflows, seats, accept_new_client-Accepted,
}
use chopserver.Serve.{
  Host, welcome, accept_waiting, accepted_fd, accepted_sockets, client_bufsize, Event, interrupted,
  select_fails, selects, fd_isset,
}
use chopserver.Serve.Sound.{IsServing}
use chopserver.Serve.Calm.{
  IsSheltered, Calm, goes_on, meets_one, destroy_client_struct-header, with_socket-weight,
}

-- The side of the process after `accept_new_client`, where there is a result.
data KeepsHeader (header_type : ℕ) : Defined (ℤ × Server × Env) → Type 0 where
  nowhere : {f : Fault} → KeepsHeader header_type (undefined_by f)
  kept :
      {r : ℤ} {s : Server} {e : Env}
      → e.header_type ≡ header_type
      → KeepsHeader header_type (returns (r, s, e))

module _ (t : ℕ) where
  place_client-KeepsHeader :
      (r : Option ℤ) (newcli : Client) (client_fd bufsize : ℕ) (s : Server) (e : Env)
      → e.header_type ≡ t
      → KeepsHeader t (place_client r newcli client_fd bufsize s e)
  unfolding place_client close
  place_client-KeepsHeader none newcli client_fd bufsize s e same = nowhere
  place_client-KeepsHeader (some (negsuc n)) newcli client_fd bufsize s e same =
      kept (destroy_client_struct-header newcli (close (pos client_fd) e) ∙ same)
  place_client-KeepsHeader (some (pos i)) newcli client_fd bufsize s e same =
      elim (Bool-cases (ltb (s.cur_connections + 1) (2 ^ 31))) [
        | inl counts ↦ rw counts (kept same)
        | inr over ↦ rw over nowhere
      ]

  refuse_connection-header :
      (listenfd : ℤ) (arrival : Io ℕ) (e : Env)
      → e.header_type ≡ t
      → (refuse_connection listenfd arrival e).1.header_type ≡ t
  unfolding refuse_connection close
  refuse_connection-header (pos n) (failed k) e same = same
  refuse_connection-header (negsuc n) (failed k) e same = same
  refuse_connection-header (pos n) (done a) e same = same
  refuse_connection-header (negsuc n) (done a) e same = same

  accept_client-KeepsHeader :
      (accepted : ℤ) (new : Init Client) (arrival : Io ℕ) (bufsize : ℕ) (s : Server) (e : Env)
      → e.header_type ≡ t
      → KeepsHeader t (accept_client accepted new arrival bufsize s e)
  unfolding accept_client
  accept_client-KeepsHeader accepted (refused code) arrival bufsize s e same =
      kept (refuse_connection-header s.server_fd arrival e same)
  accept_client-KeepsHeader (negsuc n) (made newcli) arrival bufsize s e same = kept same
  accept_client-KeepsHeader (pos client_fd) (made newcli) arrival bufsize s e same =
      place_client-KeepsHeader (find_slot s.clients s.max_connections 0) newcli client_fd bufsize s
        e same

init_client_struct-header :
    (size : ℤ) (e : Env) → (init_client_struct Ref.here size e).1.header_type ≡ e.header_type
unfolding init_client_struct
init_client_struct-header size e = elim (Bool-cases (lt_one size)) [
  | inl small ↦ rw small refl
  | inr large ↦
      let same = (malloc-SameEnv e).header_type in
      elim (Bool-cases (malloc e).0) [
        | inl got ↦ rw (large, got) same
        | inr out ↦ rw (large, out) same
      ]
]

accept_new_client-KeepsHeader :
    (bufsize : ℕ) (arrival : Io ℕ) (s : Server) (e : Env)
    → KeepsHeader e.header_type (accept_new_client Ref.here bufsize arrival s e)
unfolding accept_new_client
accept_new_client-KeepsHeader zero arrival s e = kept refl
accept_new_client-KeepsHeader (suc k) arrival s e =
    let some_size : (suc k == 0) ≡ false = ground arith in
    let new = init_client_struct Ref.here (to_int (suc k)) e in
    rw some_size (
      accept_client-KeepsHeader e.header_type (accept_connection s.server_fd arrival) new.0 arrival
        (pos_part (to_int (suc k))) s new.1 (init_client_struct-header (to_int (suc k)) e))

-- What an `accept` brings has at most `most` bytes to come.
abbrev pub Brings : ℕ → Event → Type 0
Brings most interrupted = Unit
Brings most (select_fails e) = Unit
Brings most (selects ready (failed e)) = Unit
Brings most (selects ready (done (client_fd, sock))) = weight sock.inbox ≤ most

-- The undefined behaviour that a turn can meet when `conns` connections have been counted: in what a
-- request prints, the overflow of the count where it has come to 2 ^ 31 - 1, and `FD_SET` on a
-- descriptor that `accept` has returned and that an `fd_set` has no room for.
pub data IsUndefined (conns : ℕ) : Event → Fault → Type 0 where
  printing : {event : Event} {f : Fault} → IsUnprintable f → IsUndefined conns event f
  too_many : {event : Event} → 2 ^ 31 ≤ conns + 1 → IsUndefined conns event overflow
  too_high :
      {ready : ℤ → Bool} {client_fd : ℕ} {sock : Socket}
      → fd_setsize ≤ client_fd
      → IsUndefined conns (selects ready (done (client_fd, sock))) fd_set

accepted-IsUndefined :
    {conns new : ℕ} (ready : ℤ → Bool) (arrival : Io (ℕ × Socket)) (listenfd : ℤ)
    → accept_connection listenfd (accepted_fd arrival) ≡ pos new
    → fd_setsize ≤ new
    → IsUndefined conns (selects ready arrival) fd_set
unfolding accept_connection
accepted-IsUndefined ready (failed e) (pos n) taken high = absurd cc
accepted-IsUndefined ready (failed e) (negsuc n) taken high = absurd cc
accepted-IsUndefined {new} ready (done (client_fd, sock)) (pos n) taken high =
    let same : client_fd ≡ new = cc in too_high (rw same high)
accepted-IsUndefined ready (done (client_fd, sock)) (negsuc n) taken high = absurd cc

module _ (most conns : ℕ) (fd : ℤ) (max : ℕ) where
  accepted_sockets-weight :
      (ready : ℤ → Bool) (arrival : Io (ℕ × Socket)) (h : Host) (x : ℤ)
      → Brings most (selects ready arrival)
      → IsSheltered most conns h
      → weight (accepted_sockets arrival h.sockets x).inbox ≤ most
  accepted_sockets-weight ready (failed e) h x brings safe = safe.sockets x
  accepted_sockets-weight ready (done (client_fd, sock)) h x brings safe =
      with_socket-weight most (pos client_fd) x sock h.sockets brings safe.sockets

  -- A connection is accepted, or refused, or there is no room to count it or to wait for it; the
  -- slots are as many as `max_connections`.
  welcome-Calm :
      (ready : ℤ → Bool) (arrival : Io (ℕ × Socket)) (h : Host) (r : Defined (ℤ × Server × Env))
      → Brings most (selects ready arrival)
      → IsSheltered most conns h
      → Accepted h.server client_bufsize (accepted_fd arrival) h.env r
      → KeepsHeader h.env.header_type r
      → Calm
          (IsUndefined conns (selects ready arrival))
          (IsSheltered most (conns + 1))
          (welcome h arrival r)
  unfolding welcome print
  welcome-Calm ready arrival h r brings safe (invalid e) (kept same) = goes_on (record {
    header = rw same safe.header;
    sockets = safe.sockets;
    connections = omega (arith, safe.connections);
  })
  welcome-Calm ready arrival h r brings safe (lacks e unmade closed) (kept same) = goes_on (record {
    header = rw same safe.header;
    sockets = safe.sockets;
    connections = omega (arith, safe.connections);
  })
  welcome-Calm ready arrival h r brings safe (fails n e was_made failure closed) (kept same) =
      goes_on (record {
        header = rw same safe.header;
        sockets = safe.sockets;
        connections = omega (arith, safe.connections);
      })
  welcome-Calm ready arrival h r brings safe (crowded new e was_made taken all closed) (kept same) =
      goes_on (record {
        header = rw same safe.header;
        sockets = safe.sockets;
        connections = omega (arith, safe.connections);
      })
  welcome-Calm ready arrival h r brings safe (overflows over) nowhere =
      meets_one (too_many (omega (arith, over, safe.connections)))
  welcome-Calm ready arrival h r brings safe
        (seats new i newcli e was_made taken inside empty before small seated closed) (kept same) =
      elim (Bool-cases (ltb new fd_setsize)) [
        | inl room ↦ rw room (
            goes_on (record {
              header = rw same safe.header;
              sockets = λ x. accepted_sockets-weight ready arrival h x brings safe;
              connections = omega (arith, safe.connections);
            }))
        | inr high ↦
            rw high (
              meets_one
                (accepted-IsUndefined ready arrival h.server.server_fd taken (ground arith)))
      ]

  pub accept_waiting-Calm :
      (ready : ℤ → Bool) (listen_fds : List ℤ) (arrival : Io (ℕ × Socket)) (h : Host)
      → Brings most (selects ready arrival)
      → IsServing fd max h
      → IsSheltered most conns h
      → Calm
          (IsUndefined conns (selects ready arrival))
          (IsSheltered most (conns + 1))
          (accept_waiting listen_fds arrival h)
  unfolding accept_waiting
  accept_waiting-Calm ready listen_fds arrival h brings serving safe =
      elim (Bool-cases (fd_isset h.server.server_fd listen_fds)) [
        | inl waiting ↦ rw waiting (
            welcome-Calm ready arrival h _ brings safe
              (accept_new_client-Accepted client_bufsize (accepted_fd arrival) h.server h.env
                serving.sound.slots)
              (accept_new_client-KeepsHeader client_bufsize (accepted_fd arrival) h.server h.env))
        | inr quiet ↦ rw quiet (
            goes_on (record {
              header = safe.header;
              sockets = safe.sockets;
              connections = omega (arith, safe.connections);
            }))
      ]
