-- ===== src/Serve/Passing.antt =====
-- The slots that the loop over the clients passes over.

use chopserver.Base.{
  ℕ, ◌≡◌, refl, inl, inr, ℤ, List, [], ◌∷◌, Option, none, some, Bool, true, false, Bool-cases, ◌&&◌,
  arith,
}
use chopserver.Structs.{Client}
use chopserver.Serve.{Host, goes, same_fd, fd_isset, ready_of, serve_slot, serve_clients, and_next}
use chopserver.Serve.Leaving.{same_fd-eq}
use chopserver.Env.{plain, print}
use chopserver.Machine.{Io, Socket}
use chopserver.Serve.{turn, selects, accept_waiting, goes}
use chopserver.Serve.Sound.{IsServing}
use chopserver.Serve.Turns.{serve_clients-Going, Going-goes}

pub and_false : (b : Bool) → (b && false) ≡ false
and_false true = refl
and_false false = refl

-- A descriptor is among the ready ones exactly where it is waited for and ready.
pub ready_of-isset :
    (ready : ℤ → Bool) (fd : ℤ) (fds : List ℤ)
    → fd_isset fd (ready_of ready fds) ≡ (fd_isset fd fds && ready fd)
unfolding ready_of fd_isset
ready_of-isset ready fd [] = refl
ready_of-isset ready fd (x ∷ fds) = elim (Bool-cases (same_fd fd x)) [
  | inl same ↦ elim (Bool-cases (ready fd)) [
    | inl up ↦
        let up' : ready x ≡ true = rw (← same_fd-eq fd x same) up in
        rw (up', fd_isset, same, up) refl
    | inr down ↦
        let down' : ready x ≡ false = rw (← same_fd-eq fd x same) down in
        rw (down', ready_of-isset ready fd fds, same, down) (and_false (fd_isset fd fds))
  ]
  | inr other ↦ elim (Bool-cases (ready x)) [
    | inl up ↦ rw (up, fd_isset, other) (ready_of-isset ready fd fds)
    | inr down ↦ rw (down, other) (ready_of-isset ready fd fds)
  ]
]

-- A slot that the loop passes over: it is empty, or its client's descriptor is not ready.
pub data IsPassed (fds : List ℤ) : Option Client → Type 0 where
  vacant : IsPassed fds none
  waits : {c : Client} → fd_isset c.socket_fd fds ≡ false → IsPassed fds (some c)

pub serve_slot-IsPassed :
    {slot : Option Client} (i : ℕ) (fds : List ℤ) (h : Host)
    → IsPassed fds slot
    → serve_slot (some slot) i fds h ≡ goes h
unfolding serve_slot
serve_slot-IsPassed i fds h vacant = refl
serve_slot-IsPassed i fds h (waits e) = rw e refl

accept_waiting-quiet :
    (fds : List ℤ) (arrival : Io (ℕ × Socket)) (h : Host)
    → fd_isset h.server.server_fd fds ≡ false
    → accept_waiting fds arrival h ≡ goes h
unfolding accept_waiting
accept_waiting-quiet fds arrival h quiet = rw quiet refl

-- Where the server's own descriptor is not ready, a turn does what the loop over the clients does.
pub turn-quiet :
    (ready : ℤ → Bool) (arrival : Io (ℕ × Socket)) (fd : ℤ) (max : ℕ) (h h' : Host)
    → IsServing fd max h
    → ready fd ≡ false
    → serve_clients h.server.max_connections 0
        (ready_of ready h.all_fds)
        (record h { env = print (plain "\n") h.env })
      ≡ goes h'
    → turn (selects ready arrival) h ≡ goes h'
unfolding turn and_next
turn-quiet ready arrival fd max h h' serving quiet looped =
    let fds = ready_of ready h.all_fds in
    let kept : IsServing fd max h' =
      Going-goes
        (serve_clients-Going fd max h.server.max_connections 0 fds
          (record h { env = print (plain "\n") h.env }) (omega (arith, serving.same_max))
          (record {
            sound = serving.sound;
            same_fd = serving.same_fd;
            same_max = serving.same_max;
            bounded = serving.bounded;
          }))
        looped in
    let unasked : fd_isset h'.server.server_fd fds ≡ false =
      rw (kept.same_fd, ready_of-isset ready fd h.all_fds, quiet)
        (and_false (fd_isset fd h.all_fds)) in
    rw looped (accept_waiting-quiet fds arrival h' unasked)
