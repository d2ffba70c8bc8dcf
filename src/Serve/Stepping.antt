-- ===== src/Serve/Stepping.antt =====
-- What a client that speaks gets in its slot, and what the others notice of it.
use Prim.Native.String.{String}
use chopserver.Base.{
  ℕ, ◌<◌, ◌≡◌, ◌∙◌, true, false, [], inl, inr, Bool-cases, ◌++◌, ◌∷◌, refl, sym, ap, ℤ, pos, negsuc,
  List, Option, none, some, get_elem?, set, length, length-set, get_elem?-some, get_elem?-set_self,
  get_elem?-set_other, lt-length_of_get_elem?, false, ◌==◌, arith,
}
use chopserver.Structs.{Client}
use chopserver.Machine.{Arrival}
use chopserver.Protocol.{Message, Stance, stays, left, handle}
use chopserver.Data.Transfer.Rounds.{stream}
use chopserver.Serve.{Host, goes, same_fd, fd_isset, serve_slot}
use chopserver.Serve.Passing.{serve_slot-IsPassed}
use chopserver.Serve.Talking.{same_fd_refl, Served, serve_slot-handle}
use chopserver.Serve.Heard.{
  StaysClosed, Speech, Holds, Heard, IsAble, IsSeatedIn, still_waits, Outcome, Agree,
}

same_fd_sym : (a b : ℤ) → same_fd a b ≡ false → same_fd b a ≡ false
same_fd_sym (pos m) (pos n) e = ground arith
same_fd_sym (pos m) (negsuc n) e = refl
same_fd_sym (negsuc m) (pos n) e = refl
same_fd_sym (negsuc m) (negsuc n) e = ground arith

-- What the loop does at slot `i`: the slot has its outcome, the descriptors in it are those that
-- were there, and the other slots and the other descriptors are as they were.
pub record Step (tag : String) (clock : ℕ) (o : Option Speech) (i : ℕ) (h h1 : Host) : Type 0 where
  pub able : IsAble tag clock h1
  pub slots : length h1.server.clients ≡ length h.server.clients
  pub other_slots :
      (j : ℕ) → (j == i) ≡ false → get_elem? h1.server.clients j ≡ get_elem? h.server.clients j
  pub same_client :
      (c1 : Client) → Holds h1 i c1 → (c : Client) × Holds h i c × (c1.socket_fd ≡ c.socket_fd)
  pub other_fds :
      (x : ℤ) → ((c : Client) → Holds h i c → same_fd c.socket_fd x ≡ false) → Agree h h1 x
  pub closes : StaysClosed h h1
  pub result : Outcome clock o i h h1

fd_isset-append :
    (x y : ℤ) (fds : List ℤ) → fd_isset x fds ≡ true → fd_isset x (fds ++ y ∷ []) ≡ true
unfolding fd_isset
fd_isset-append x y [] e = absurd cc
fd_isset-append x y (z ∷ fds) e = elim (Bool-cases (same_fd x z)) [
  | inl same ↦ rw same refl
  | inr other ↦ rw other (fd_isset-append x y fds (rw other at e))
]

fd_isset-last : (x : ℤ) (fds : List ℤ) → fd_isset x (fds ++ x ∷ []) ≡ true
unfolding fd_isset
fd_isset-last x [] = rw (same_fd_refl x) refl
fd_isset-last x (z ∷ fds) = elim (Bool-cases (same_fd x z)) [
  | inl same ↦ rw same refl
  | inr other ↦ rw other (fd_isset-last x fds)
]

Served-StaysClosed :
    {stance : Stance} {answers : List Message} {inbox : List Arrival} {i : ℕ} {c : Client}
    {h h1 : Host}
    → Served stance answers inbox i c h h1
    → StaysClosed h h1
Served-StaysClosed {stance = stays mode} s x e =
    let ((c', slots, flag, fd), fds_same, closed) = s.seat in rw closed e
Served-StaysClosed {stance = left} {c} {h} s x e =
    let (slots, unset, closed) = s.seat in rw closed (fd_isset-append x c.socket_fd h.env.closed e)

module _ (tag : String) (clock : ℕ) (fds : List ℤ) where
  Served-seat :
      {stance : Stance} {answers : List Message} {inbox : List Arrival} {i : ℕ} {c : Client}
      {h h1 : Host}
      → Holds h i c
      → Served stance answers inbox i c h h1
      → (v : Option Client) × (h1.server.clients ≡ set h.server.clients i v)
        × ((c1 : Client) → v ≡ some c1 → c1.socket_fd ≡ c.socket_fd)
        × IsSeatedIn stance i c h1
        × (fd_isset c.socket_fd h1.all_fds ≡ still_waits stance (fd_isset c.socket_fd h.all_fds))
  Served-seat {stance = stays mode} {i} {c} {h} at s =
      let ((c', slots, flag, fd), fds_same, closed) = s.seat in
      (
        some c',
        slots,
        (λ c1 e. let same : c' ≡ c1 = cc in rw (← same) fd),
        (
          c',
          ap (λ l. get_elem? l i) slots
              ∙ get_elem?-set_self h.server.clients i (some c')
                  (lt-length_of_get_elem? h.server.clients i at),
          flag,
          fd,
        ),
        ap (λ l. fd_isset c.socket_fd l) fds_same,
      )
  Served-seat {stance = left} {i} {c} {h} at s =
      let (slots, unset, closed) = s.seat in
      (
        none,
        slots,
        (λ c1 e. absurd cc),
        (
          ap (λ l. get_elem? l i) slots
              ∙ get_elem?-set_self h.server.clients i none
                  (lt-length_of_get_elem? h.server.clients i at),
          rw closed (fd_isset-last c.socket_fd h.env.closed),
        ),
        unset,
      )

  spoken-Step :
      (s : Speech) (i : ℕ) (c : Client) (h h1 : Host)
      → IsAble tag clock h
      → Holds h i c
      → Served
          (handle clock s.mode s.message).0
          (handle clock s.mode s.message).1
          (stream s.more s.rest)
          i
          c
          h
          h1
      → Step tag clock (some s) i h h1
  spoken-Step s i c h h1 able at served =
      let (v, slots, fd, seat, waiting) = Served-seat at served in
      let here =
        get_elem?-set_self h.server.clients i v (lt-length_of_get_elem? h.server.clients i at) in
      record {
        able = record {
          memory = served.memory;
          tagged = rw served.header able.tagged;
          ticks = served.ticks ∙ able.ticks;
        };
        slots = ap length slots ∙ length-set h.server.clients i v;
        other_slots = λ j other.
            ap (λ l. get_elem? l j) slots ∙ get_elem?-set_other h.server.clients i j v other;
        same_client = λ c1 holds.
            let there : some v ≡ some (some c1) =
              sym here ∙ ap (λ l. get_elem? l i) (sym slots) ∙ holds in
            (c, at, fd c1 cc);
        other_fds = λ x differs.
            let other = differs c at in
            record {
              socket = served.elsewhere x other;
              waits = served.others x (same_fd_sym c.socket_fd x other);
            };
        closes = Served-StaysClosed served;
        result = λ d holds.
            let same : c ≡ d = cc in
            rw (← same) (record {
              seat = seat;
              sent = served.sent;
              unread = served.unread;
              waiting = waiting;
            });
      }

  pub serve_slot-Step :
      (o : Option Speech) (i : ℕ) (h : Host)
      → i < length h.server.clients
      → IsAble tag clock h
      → Heard fds o i h
      → (h1 : Host) × (serve_slot (get_elem? h.server.clients i) i fds h ≡ goes h1)
        × Step tag clock o i h h1
  serve_slot-Step none i h within able heard =
      let (slot, at) = get_elem?-some h.server.clients i within in
      (
        h,
        rw at (serve_slot-IsPassed i fds h (heard slot at)),
        record {
          able = able;
          slots = refl;
          other_slots = λ j other. refl;
          same_client = λ c holds. (c, holds, refl);
          other_fds = λ x differs. record { socket = refl; waits = refl };
          closes = λ x e. e;
          result = refl;
        },
      )
  serve_slot-Step (some s) i h within able (c, k) =
      let (h1, goes_on, served) =
        serve_slot-handle tag clock s.mode s.message s.more s.rest i c fds h k.at k.open_fd k.chosen
          (record {
            quiet = record { memory = able.memory; writes = k.writes };
            tagged = able.tagged;
            window = k.window;
            ticks = able.ticks;
          })
          k.flag k.proper k.arrived in
      (h1, rw k.at goes_on, spoken-Step s i c h h1 able k.at served)
