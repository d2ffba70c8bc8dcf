-- ===== src/Serve/Safe.antt =====
-- The undefined behaviour that a turn of the server can meet.
use chopserver.Base.{
  leb, pos_part, ℕ, ◌+◌, ◌<◌, ◌^◌, ◌≡◌, ◌∙◌, inl, inr, ℤ, is_neg, arith, Bool-cases, ◌==◌,
}
use chopserver.Env.{Env, plain, print, malloc}
use chopserver.Memory.{init_server_struct}
use chopserver.Stable.Memory.{malloc-SameEnv}
use chopserver.Machine.{Fault, fd_setsize}
use chopserver.Serve.{
  Host, Turn, goes, Event, interrupted, select_fails, selects, turn, ready_of, listening, start,
}
use chopserver.Serve.Sound.{IsServing}
use chopserver.Serve.Turns.{serve_clients-Going, turn-Going, start-Going, Going-goes}
use chopserver.Serve.Calm.{
  IsSheltered, Calm, goes_on, stops, meets_one, Calm-next, Calm-Going, serve_clients-Calm,
}
use chopserver.Serve.Welcoming.{Brings, IsUndefined, printing, accept_waiting-Calm}

module _ (most conns : ℕ) (small : most < 2 ^ 31) (fd : ℤ) (max : ℕ) where
  turn-Calm :
      (event : Event) (h : Host)
      → Brings most event
      → IsServing fd max h
      → IsSheltered most conns h
      → Calm (IsUndefined conns event) (IsSheltered most (conns + 1)) (turn event h)
  unfolding turn print
  turn-Calm interrupted h brings serving safe = stops
  turn-Calm (select_fails e) h brings serving safe = elim (Bool-cases (e == 3)) [
    | inl again ↦ rw again (
        goes_on (record {
          header = safe.header;
          sockets = safe.sockets;
          connections = omega (arith, safe.connections);
        }))
    | inr other ↦ rw other stops
  ]
  turn-Calm (selects ready arrival) h brings serving safe =
      let h0 = record h { env = print (plain "\n") h.env } in
      let serving0 : IsServing fd max h0 = record {
        sound = serving.sound;
        same_fd = serving.same_fd;
        same_max = serving.same_max;
        bounded = serving.bounded;
      } in
      let rounds : 0 + h.server.max_connections ≡ max = omega (arith, serving.same_max) in
      Calm-next (λ f u. printing u)
        (Calm-Going
          (serve_clients-Going fd max h.server.max_connections 0 (ready_of ready h.all_fds) h0
            rounds serving0)
          (serve_clients-Calm most conns small fd max h.server.max_connections 0
            (ready_of ready h.all_fds) h0 rounds serving0
            (record {
              header = safe.header;
              sockets = safe.sockets;
              connections = safe.connections;
            })))
        λ h' both.
          accept_waiting-Calm most conns fd max ready (ready_of ready h.all_fds) arrival h' brings
            both.0 both.1

-- A host of the program while no socket brings more than `most` bytes: at the start of the loop, or
-- after one more turn.
pub data ReachableWith (most : ℕ) (setup : ℤ) (env : Env) : Host → Type 0 where
  begins : {h : Host} → start setup env ≡ goes h → ReachableWith most setup env h
  turns :
      {h h' : Host} (event : Event)
      → ReachableWith most setup env h
      → Brings most event
      → turn event h ≡ goes h'
      → ReachableWith most setup env h'

Calm-goes :
    {F : Fault → Type 0} {P : Host → Type 0} {t : Turn} {h : Host} → Calm F P t → t ≡ goes h → P h
Calm-goes {h = h} (goes_on {h = h0} p) e = let same : h0 ≡ h = cc e in rw (← same) p
Calm-goes stops e = absurd cc
Calm-goes (meets_one u) e = absurd cc

start-Calm :
    (most : ℕ) (setup : ℤ) (env : Env) → Calm (λ f. Unit {0}) (IsSheltered most 0) (start setup env)
unfolding start listening init_server_struct
start-Calm most setup env =
    let e0 = record env { header_type = 0 } in
    let same : (malloc (malloc e0).1).1.header_type ≡ 0 =
      (malloc-SameEnv (malloc e0).1).header_type ∙ (malloc-SameEnv e0).header_type in
    elim (Bool-cases (malloc e0).0) [
      | inr out ↦ rw out stops
      | inl got ↦ elim (Bool-cases (malloc (malloc e0).1).0) [
        | inr out ↦ rw (got, out) stops
        | inl both ↦ elim (Bool-cases (is_neg setup)) [
          | inl failure ↦ rw (got, both, failure) stops
          | inr listens ↦ elim (Bool-cases (leb fd_setsize (pos_part setup))) [
            | inl high ↦ rw (got, both, listens, high) (meets_one tt)
            | inr room ↦
                rw (got, both, listens, room)
                  (goes_on (record {
                    header = rw same (omega arith);
                    sockets = λ x. omega arith;
                    connections = omega arith;
                  }))
          ]
        ]
      ]
    ]

module _ (most : ℕ) (small : most < 2 ^ 31) (setup : ℤ) (env : Env) where
  counted_exactly :
      {conns : ℕ} (h : Host)
      → IsSheltered most conns h
      → IsSheltered most h.server.cur_connections h
  counted_exactly h safe = record {
    header = safe.header;
    sockets = safe.sockets;
    connections = omega arith;
  }

  ReachableWith-both :
      (h : Host)
      → ReachableWith most setup env h
      → IsServing setup 20 h × IsSheltered most h.server.cur_connections h
  ReachableWith-both h (begins e) = (
    Going-goes (start-Going setup env) e,
    counted_exactly h (Calm-goes (start-Calm most setup env) e),
  )
  ReachableWith-both h (turns {h = before} event reached brings e) =
      let (serving, safe) = ReachableWith-both before reached in
      (
        Going-goes (turn-Going setup 20 event before serving) e,
        counted_exactly h (
            Calm-goes
              (turn-Calm most before.server.cur_connections small setup 20 event before brings
                serving safe)
              e),
      )

  -- However the events fall, and whatever arrives on the sockets, as long as none of them brings
  -- 2 ^ 31 bytes or more: a turn of the server goes on with a host that is in order, and in which at
  -- most one connection more is counted; or it ends the process; or it meets undefined behaviour of
  -- one of three kinds. The first is in what a request prints (a name outside its table, a null
  -- pointer for a `%s`, a `time_t` of which not all bytes have come). The second is the overflow of
  -- the count of connections, where it stood at 2 ^ 31 - 1 before the turn. The third is `FD_SET` on
  -- a descriptor of 1024 or above, where `accept` returned one. It meets no other undefined behaviour
  -- that the model has, in none of its requests, in the slots, or in the accepting of a connection;
  -- and since what the sockets bring is finite and every `read` comes back, its requests end.
  pub turn-IsServing :
      (event : Event) (h : Host)
      → ReachableWith most setup env h
      → Brings most event
      → Calm
          (IsUndefined h.server.cur_connections event)
          (λ h'. IsServing setup 20 h' × IsSheltered most (h.server.cur_connections + 1) h')
          (turn event h)
  turn-IsServing event h reached brings =
      let (serving, safe) = ReachableWith-both h reached in
      Calm-Going (turn-Going setup 20 event h serving)
        (turn-Calm most h.server.cur_connections small setup 20 event h brings serving safe)
