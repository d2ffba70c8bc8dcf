-- ===== src/Manage/Request/Whole.antt =====
-- From the kinds of step to a whole request.
use chopserver.Base.{◌+◌, ℕ, arith}
use chopserver.Structs.{Ref, Packet}
use chopserver.Env.{Env}
use chopserver.Memory.{Init, made, refused}
use chopserver.Machine.{Conn, weight, gets, in_env, set_packet, ◌>>=◌}
use chopserver.Machine.Leads.{Leads, returns, Leads-mono}
use chopserver.Data.Transfer.{read_header}
use chopserver.Packet.Sending.{destroy}
use chopserver.Packet.Receiving.{parse_header}
use chopserver.Manage.Request.{receive, receive_packet, process_request}
use chopserver.Stable.Rules.{
  IsStable, Within, Tame, Tame-bind, Tame-if, Tame-pure, Tame-gets, Tame-unless_neg,
}
use chopserver.Stable.Reading.{read_header-ReadsHeader}
use chopserver.Stable.Parsing.{parse_header-Tame}
use chopserver.Stable.Memory.{SameEnv, init_packet_struct-SameEnv, destroy_packet_struct-SameEnv}

module _ {R : Conn → Conn → Type 0} (st : IsStable R) where
  read_header-Tame : (n : ℕ) (cli pack : Ref) → Tame R n (read_header cli pack)
  read_header-Tame n cli pack = record {
    at = λ c h. Leads-mono (read_header-ReadsHeader st cli pack c) λ r c' read. read.0;
  }

  parse-Tame :
      (n : ℕ) (cli : Ref)
      → Tame R n (gets (λ c. weight c.sock.inbox + 1) >>= λ fuel. parse_header fuel cli Ref.here)
  unfolding ◌>>=◌
  parse-Tame n cli = record {
    at = λ c h.
        (parse_header-Tame st (weight c.sock.inbox + 1) (weight c.sock.inbox) cli Ref.here
            (omega arith)).at
          c (omega arith);
  }

  pub receive-Tame : (n : ℕ) (cli : Ref) → Tame R n (receive cli)
  unfolding receive
  receive-Tame n cli =
      Tame-bind st.order n _ _ (read_header-Tame n cli _)
        λ status. Tame-if st.order n _ _ _ (Tame-pure st.order n _) (parse-Tame n cli)

-- A relation that also holds over a change of the packet, and over one of the counts of memory.
pub record IsWhole (R : Conn → Conn → Type 0) : Type 0 where
  pub stable : IsStable R
  pub at_packet : (p : Packet) (c : Conn) → R c (record c { pack = p })
  pub at_memory : (e : Env) (c : Conn) → SameEnv c.env e → R c (record c { env = e })

module _ {R : Conn → Conn → Type 0} (w : IsWhole R) where
  in_env-Tame :
      {A : Type 0} (n : ℕ) (f : Env → A × Env)
      → ((e : Env) → SameEnv e (f e).1)
      → Tame R n (in_env f)
  unfolding in_env
  in_env-Tame n f same = record {
    at = λ c h. returns (record { shrinks = omega arith; related = w.at_memory _ c (same c.env) });
  }

  set_packet-Tame : (n : ℕ) (p : Packet) → Tame R n (set_packet (λ _. p))
  unfolding set_packet
  set_packet-Tame n p = record {
    at = λ c h. returns (record { shrinks = omega arith; related = w.at_packet p c });
  }

  destroy-Tame : (n : ℕ) (p : Packet) → Tame R n (destroy p)
  unfolding destroy
  destroy-Tame n p = in_env-Tame n _ λ e. destroy_packet_struct-SameEnv Ref.here _ e

  receive_packet-Tame : (n : ℕ) (cli : Ref) (p : Init Packet) → Tame R n (receive_packet cli p)
  unfolding receive_packet
  receive_packet-Tame n cli (refused code) = Tame-pure w.stable.order n _
  receive_packet-Tame n cli (made new) = Tame-bind w.stable.order n _ _ (set_packet-Tame n new) λ _.
      Tame-bind w.stable.order n _ _ (receive-Tame w.stable n cli) λ status.
        Tame-bind w.stable.order n _ _ (Tame-gets w.stable.order n _) λ pack.
          Tame-unless_neg w.stable.order n _ _ _ (destroy-Tame n pack)
            λ _. Tame-pure w.stable.order n _

  process_request-Tame : (n : ℕ) (cli fds : Ref) → Tame R n (process_request cli fds)
  unfolding process_request
  process_request-Tame n cli fds = Tame-if w.stable.order n _ _ _ (Tame-pure w.stable.order n _) (
      Tame-bind w.stable.order n _ _ (in_env-Tame n _ (init_packet_struct-SameEnv Ref.here))
        λ p. receive_packet-Tame n cli p)

  pub process_request-Within :
      (cli fds : Ref) (c : Conn) → Leads (λ _. Within R c) (process_request cli fds c)
  process_request-Within cli fds c =
      (process_request-Tame (weight c.sock.inbox) cli fds).at c (omega arith)
