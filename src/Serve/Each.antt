-- ===== src/Serve/Each.antt =====
-- A turn of the server in which any number of clients speak.
use Prim.Native.String.{String}
use chopserver.Base.{
  ℕ, zero, suc, ◌+◌, ◌≤◌, ◌<◌, ◌≡◌, ◌∙◌, refl, sym, inl, inr, ap, ℤ, List, Option, get_elem?,
  length, Bool, false, Bool-cases, ◌==◌, ==_iff, arith,
}
use chopserver.Structs.{Client}
use chopserver.Serve.{Host, goes, same_fd, serve_clients, and_next}
use chopserver.Serve.Heard.{
  StaysClosed, Speech, Holds, Heard, IsAble, Distinct, Outcome, Agree, Agree-trans, Outcome-later,
  Outcome-earlier, Heard-later,
}
use chopserver.Env.{plain, print}
use chopserver.Machine.{Io, Socket}
use chopserver.Serve.Sound.{IsServing}
use chopserver.Serve.Passing.{turn-quiet}
use chopserver.Serve.Stepping.{Step, serve_slot-Step}
use chopserver.Serve.{ready_of, turn, selects}

-- A descriptor that no client in a slot from `i` on has.
abbrev IsForeign : (i : ℕ) → Host → ℤ → Type 0
IsForeign i h x = (j : ℕ) (c : Client) → i ≤ j → Holds h j c → same_fd c.socket_fd x ≡ false

-- What the loop does from slot `i` on.
pub record Each (clock : ℕ) (said : ℕ → Option Speech) (i : ℕ) (h h' : Host) : Type 0 where
  pub slots : length h'.server.clients ≡ length h.server.clients
  pub before : (j : ℕ) → j < i → get_elem? h'.server.clients j ≡ get_elem? h.server.clients j
  pub foreign : (x : ℤ) → IsForeign i h x → Agree h h' x
  pub closes : StaysClosed h h'
  pub outcomes : (j : ℕ) → i ≤ j → j < length h.server.clients → Outcome clock (said j) j h h'

module _ (tag : String) (clock : ℕ) where
  -- A client that is there after a step was there before, with the same descriptor.
  origin :
      {o : Option Speech} {i : ℕ} {h h1 : Host} (j : ℕ) (c1 : Client)
      → Step tag clock o i h h1
      → Holds h1 j c1
      → (c : Client) × Holds h j c × (c1.socket_fd ≡ c.socket_fd)
  origin {i} {h} {h1} j c1 st at = elim (Bool-cases (j == i)) [
    | inl same ↦
        let here : j ≡ i = (==_iff j i).0 same in
        let (c, there, fd) = st.same_client c1 (rw here at at) in
        (c, ap (λ k. get_elem? h.server.clients k) here ∙ there, fd)
    | inr other ↦ (c1, sym (st.other_slots j other) ∙ at, refl)
  ]

  Distinct-later :
      {o : Option Speech} {i : ℕ} {h h1 : Host} → Step tag clock o i h h1 → Distinct h → Distinct h1
  Distinct-later st distinct j k c d other at_j at_k =
      let (c0, at_c, same_c) = origin j c st at_j in
      let (d0, at_d, same_d) = origin k d st at_k in
      rw (same_c, same_d) (distinct j k c0 d0 other at_c at_d)

  Step-Agree :
      {o : Option Speech} {i : ℕ} {h h1 : Host}
      → Step tag clock o i h h1
      → Distinct h
      → (j : ℕ) (c : Client) → (j == i) ≡ false
      → Holds h j c
      → Agree h h1 c.socket_fd
  Step-Agree {i} st distinct j c other at =
      st.other_fds c.socket_fd λ d here. distinct i j d c (ground arith) here at

  -- One step, and what the loop does at the slots that follow.
  Each-Step :
      (said : ℕ → Option Speech) (i : ℕ) (h h1 h' : Host)
      → Distinct h
      → Step tag clock (said i) i h h1
      → Each clock said (i + 1) h1 h'
      → Each clock said i h h'
  Each-Step said i h h1 h' distinct st each = record {
    slots = each.slots ∙ st.slots;
    before = λ j below. each.before j (omega arith) ∙ st.other_slots j (ground arith);
    foreign = λ x f. Agree-trans (st.other_fds x λ c at. f i c (omega arith) at) (
        each.foreign x λ j c1 above at1.
          let (c, at, same) = origin j c1 st at1 in rw same (f j c (omega arith) at));
    closes = λ x e. each.closes x (st.closes x e);
    outcomes = λ j above below. elim (Bool-cases (j == i)) [
      | inl same ↦
          let here : j ≡ i = (==_iff j i).0 same in
          rw here (
            Outcome-later clock (said i) i h h1 h' (each.before i (omega arith))
              (λ c at. each.foreign c.socket_fd λ k c1 later at1.
                let (d, at_d, same_fd) = origin k c1 st at1 in
                rw same_fd (distinct k i d c (ground arith) at_d at))
              each.closes st.result)
      | inr other ↦
          Outcome-earlier clock (said j) j h h1 h' (st.other_slots j other)
            (λ c. Step-Agree st distinct j c other)
            (each.outcomes j (ground arith) (omega (arith, st.slots)))
    ];
  }

  module _ (fds : List ℤ) (said : ℕ → Option Speech) where
    serve_clients-Each :
        (rounds i : ℕ) (h : Host)
        → i + rounds ≡ length h.server.clients
        → IsAble tag clock h
        → Distinct h
        → ((j : ℕ) → i ≤ j → j < length h.server.clients → Heard fds (said j) j h)
        → (h' : Host) × (serve_clients rounds i fds h ≡ goes h') × Each clock said i h h'
    unfolding serve_clients and_next
    serve_clients-Each zero i h e able distinct heard = (
      h,
      refl,
      record {
        slots = refl;
        before = λ j below. refl;
        foreign = λ x f. record { socket = refl; waits = refl };
        closes = λ x e. e;
        outcomes = λ j above below. absurd (omega (arith, e));
      },
    )
    serve_clients-Each (suc rounds) i h e able distinct heard =
        let (h1, served, st) =
          serve_slot-Step tag clock fds (said i) i h (omega (arith, e)) able
            (heard i (omega arith) (omega (arith, e))) in
        let (h', looped, each) =
          serve_clients-Each rounds (i + 1) h1 (omega (arith, e, st.slots)) st.able
            (Distinct-later st distinct)
            (λ j above below.
              let other : (j == i) ≡ false = ground arith in
              Heard-later fds (said j) j h h1 (st.other_slots j other)
                (λ c. Step-Agree st distinct j c other)
                (heard j (omega arith) (omega (arith, st.slots)))) in
        (h', rw served looped, Each-Step said i h h1 h' distinct st each)

module _ (tag : String) (clock : ℕ) where
  -- A server whose slots are in order, where every `malloc` succeeds: in a turn in which `select`
  -- does not find the server's descriptor ready, and in which every client that it finds ready is
  -- awake or asleep, on a descriptor of its own that is open and takes every write whole, and has a
  -- message come whole, the server does for each of them what the protocol says, however many they
  -- are, as if it were the only one. The loop goes on; on the socket of each the answers of the
  -- protocol go out, and exactly what follows the message is left to read; its slot holds it in the
  -- mode that the message leads to, waited for as before, or, where the protocol says that it has
  -- left, is empty, its descriptor closed and not waited for any more. The slots of the others are as they were,
  -- and so is every descriptor that no client has, with its socket.
  pub turn-Each :
      (said : ℕ → Option Speech) (ready : ℤ → Bool) (arrival : Io (ℕ × Socket)) (fd : ℤ) (max : ℕ)
      (h : Host)
      → IsServing fd max h
      → ready fd ≡ false
      → IsAble tag clock h
      → Distinct h
      → ((j : ℕ) → j < max → Heard (ready_of ready h.all_fds) (said j) j h)
      → (h' : Host) × (turn (selects ready arrival) h ≡ goes h') × Each clock said 0 h h'
  unfolding print
  turn-Each said ready arrival fd max h serving quiet able distinct heard =
      let fds = ready_of ready h.all_fds in
      let printed : Host = record h { env = print (plain "\n") h.env } in
      let alike : (x : ℤ) → Agree h printed x = λ x. record { socket = refl; waits = refl } in
      let (h', looped, each) =
        serve_clients-Each tag clock fds said h.server.max_connections 0 printed
          (omega (arith, serving.sound.slots))
          (record { memory = able.memory; tagged = able.tagged; ticks = able.ticks }) distinct
          (λ j above below.
            Heard-later fds (said j) j h printed refl (λ c at. alike c.socket_fd)
              (heard j (omega (arith, serving.sound.slots, serving.same_max)))) in
      (
        h',
        turn-quiet ready arrival fd max h h' serving quiet looped,
        record {
          slots = each.slots;
          before = each.before;
          foreign = λ x f. Agree-trans (alike x) (each.foreign x f);
          closes = each.closes;
          outcomes = λ j above below.
              Outcome-earlier clock (said j) j h printed h' refl (λ c at. alike c.socket_fd)
                (each.outcomes j above below);
        },
      )
