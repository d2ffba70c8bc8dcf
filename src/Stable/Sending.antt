-- ===== src/Stable/Sending.antt =====
-- The sending functions on any memory and any socket: what they leave alone.
use chopserver.Stable.Memory.{
  SameEnv, SameEnv-refl, SameEnv-trans, init_packet_struct-SameEnv, append_buffer-SameEnv,
  destroy_packet_struct-SameEnv,
}
use chopserver.Base.{
  ℕ, Bool, true, false, is_neg, if◌then◌else◌, ◌≡◌, refl, ◌∙◌, ap, ℤ, List, [], ◌∷◌, Option, none,
  some, arith,
}
use chopserver.Structs.{Ref, Buffer, Packet}
use chopserver.Env.{Env}
use chopserver.Memory.{Init, made, refused}
use chopserver.Machine.{
  weight, Accept, upto, refuses, Socket, Io, done, failed, write_by, write_socket, Conn, M, pure,
  ◌>>=◌, unless_neg, in_env, in_sock, set_client,
}
use chopserver.Machine.Leads.{Returns, gives, Returns-bind, Returns-mono}
use chopserver.Data.Transfer.{after_write, write_segments, write_packet}
use chopserver.Packet.Sending.{
  begin, destroy, write_dataless, finish_body, send_body, write_wordpack,
}
use chopserver.Stable.Rules.{IsPreorder, Within}

-- What is left to read and the packet that is being received are as they were, and of the client
-- only the outgoing flag may differ.
pub record Sends (c c' : Conn) : Type 0 where
  pub inbox : c'.sock.inbox ≡ c.sock.inbox
  pub pack : c'.pack ≡ c.pack
  pub socket_fd : c'.cli.socket_fd ≡ c.cli.socket_fd
  pub server_fd : c'.cli.server_fd ≡ c.cli.server_fd
  pub inc_flag : c'.cli.inc_flag ≡ c.cli.inc_flag
  pub window : c'.cli.window ≡ c.cli.window
  pub env : SameEnv c.env c'.env

Sends-IsPreorder : IsPreorder Sends
Sends-IsPreorder = record {
  reflexive = λ c. record {
    inbox = refl;
    pack = refl;
    socket_fd = refl;
    server_fd = refl;
    inc_flag = refl;
    window = refl;
    env = SameEnv-refl c.env;
  };
  transitive = λ a b c h k. record {
    inbox = k.inbox ∙ h.inbox;
    pack = k.pack ∙ h.pack;
    socket_fd = k.socket_fd ∙ h.socket_fd;
    server_fd = k.server_fd ∙ h.server_fd;
    inc_flag = k.inc_flag ∙ h.inc_flag;
    window = k.window ∙ h.window;
    env = SameEnv-trans h.env k.env;
  };
}

-- `m` returns, and does no more than send.
record Sure {A : Type 0} (m : M A) : Type 0 where
  at : (c : Conn) → Returns (λ _. Sends c) (m c)

module _ {A : Type 0} where
  Sure-pure : (a : A) → Sure (pure a)
  unfolding pure
  Sure-pure a = record { at = λ c. gives (Sends-IsPreorder.reflexive c) }

  Sure-if : (b : Bool) (m k : M A) → Sure m → Sure k → Sure (if b then m else k)
  Sure-if true m k hm hk = hm
  Sure-if false m k hm hk = hk

  Sure-bind :
      {B : Type 0} (m : M A) (k : A → M B) → Sure m → ((a : A) → Sure (k a)) → Sure (m >>= k)
  unfolding ◌>>=◌
  Sure-bind m k hm hk = record {
    at = λ c.
        Returns-bind (hm.at c) λ a c' w.
          Returns-mono ((hk a).at c') λ b c'' w'. Sends-IsPreorder.transitive c c' c'' w w';
  }

Sure-unless_neg :
    (m : M ℤ) (f : ℤ → ℤ) (k : ℤ → M ℤ) → Sure m → ((r : ℤ) → Sure (k r)) → Sure (unless_neg m f k)
unfolding unless_neg
Sure-unless_neg m f k hm hk = Sure-bind m _ hm λ r. Sure-if (is_neg r) _ _ (Sure-pure (f r)) (hk r)

in_env-Sends : {A : Type 0} (f : Env → A × Env) → ((e : Env) → SameEnv e (f e).1) → Sure (in_env f)
unfolding in_env
in_env-Sends f same = record {
  at = λ c. gives (record {
    inbox = refl;
    pack = refl;
    socket_fd = refl;
    server_fd = refl;
    inc_flag = refl;
    window = refl;
    env = same c.env;
  });
}

write_by-inbox : (l : List Accept) (bs : List ℕ) (s : Socket) → (write_by l bs s).1.inbox ≡ s.inbox
unfolding write_by
write_by-inbox [] bs s = refl
write_by-inbox (upto k ∷ l) bs s = refl
write_by-inbox (refuses e ∷ l) bs s = refl

write-Sends : (bs : List ℕ) → Sure (in_sock (write_socket bs))
unfolding in_sock write_socket
write-Sends bs = record {
  at = λ c. let same = write_by-inbox c.sock.accepts bs c.sock in gives (ground (arith, same));
}

set_out_flag-Sends : (flag : ℕ) → Sure (set_client λ cli. record cli { out_flag = flag })
unfolding set_client
set_out_flag-Sends flag = record { at = λ c. gives (ground arith) }

after_write-Sends :
    (wanted : ℕ) (r : Io ℕ) (next : ℕ → M ℤ)
    → ((k : ℕ) → Sure (next k))
    → Sure (after_write wanted r next)
unfolding after_write
after_write-Sends wanted (failed e) next h = Sure-pure _
after_write-Sends wanted (done k) next h = Sure-if _ _ _ (h k) (Sure-pure _)

write_segments-Sends : (segments : List Buffer) (total : ℕ) → Sure (write_segments segments total)
unfolding write_segments
write_segments-Sends [] total = Sure-bind _ _ (set_out_flag-Sends 0) λ _. Sure-pure _
write_segments-Sends (segment ∷ next) total =
    Sure-bind _ _ (write-Sends _) λ r. after_write-Sends _ r _ λ k. write_segments-Sends next _

write_packet-Sends : (cli : Ref) (p : Option Packet) → Sure (write_packet cli p)
unfolding write_packet
write_packet-Sends cli none = Sure-pure _
write_packet-Sends cli (some p) = Sure-if _ _ _ (Sure-pure _) (
    Sure-bind _ _ (set_out_flag-Sends _)
      λ _. Sure-bind _ _ (write-Sends _) λ r. after_write-Sends _ r _ λ _. write_segments-Sends _ _)

destroy-Sends : (out : Packet) → Sure (destroy out)
unfolding destroy
destroy-Sends out = in_env-Sends _ λ e. destroy_packet_struct-SameEnv Ref.here (some out) e

begin-Sends :
    (new : Init Packet) (no_packet no_header : ℤ) (head status control1 control2 : ℕ)
    (rest : Packet → M ℤ)
    → ((out : Packet) → Sure (rest out))
    → Sure (begin new no_packet no_header head status control1 control2 rest)
unfolding begin
begin-Sends (refused code) p h hd s a b rest next = Sure-pure _
begin-Sends (made new) p h hd s a b rest next = Sure-if _ _ _ (Sure-pure _) (next _)

write_dataless-Sends :
    (cli : Ref) (head status control1 control2 : ℕ)
    → Sure (write_dataless cli head status control1 control2)
unfolding write_dataless
write_dataless-Sends cli head status control1 control2 = Sure-if _ _ _ (Sure-pure _) (
    Sure-bind _ _ (in_env-Sends _ (init_packet_struct-SameEnv Ref.here)) λ new.
      begin-Sends new _ _ _ _ _ _ _ λ out.
        Sure-unless_neg _ _ _ (write_packet-Sends cli (some out))
          λ ret. Sure-unless_neg _ _ _ (destroy-Sends out) λ _. Sure-pure _)

finish_body-Sends :
    (cli : Ref) (text : Option (List ℕ)) (len : ℤ) (appended : ℤ × Packet)
    → Sure (finish_body cli text len appended)
unfolding finish_body
finish_body-Sends cli text len (r, out) =
    search (write_packet-Sends, destroy-Sends, Sure-if, Sure-unless_neg, Sure-pure) depth 10

send_body-Sends :
    (cli : Ref) (text : Option (List ℕ)) (len : ℤ) (out : Packet)
    → Sure (send_body cli text len out)
unfolding send_body
send_body-Sends cli text len out =
    Sure-bind _ _ (in_env-Sends _ λ e. append_buffer-SameEnv Ref.here out len e)
      λ appended. finish_body-Sends cli text len appended

write_wordpack-Sends :
    (cli : Ref) (head status control1 control2 value : ℕ)
    → Sure (write_wordpack cli head status control1 control2 value)
unfolding write_wordpack
write_wordpack-Sends cli head status control1 control2 value = Sure-if _ _ _ (Sure-pure _) (
    Sure-bind _ _ (in_env-Sends _ (init_packet_struct-SameEnv Ref.here))
      λ new. begin-Sends new _ _ _ _ _ _ _ λ out. send_body-Sends cli _ _ out)

-- A sending function returns, and leaves the rest of the connection alone.
Within-Sends : {c c' : Conn} → Sends c c' → Within Sends c c'
Within-Sends h = record { shrinks = ground (arith, ap weight h.inbox); related = h }

pub dataless-Sends :
    (cli : Ref) (head status control1 control2 : ℕ) (c : Conn)
    → Returns (λ _. Within Sends c) (write_dataless cli head status control1 control2 c)
dataless-Sends cli head status control1 control2 c =
    Returns-mono ((write_dataless-Sends cli head status control1 control2).at c)
      λ _ c' h. Within-Sends h

pub wordpack-Sends :
    (cli : Ref) (head status control1 control2 value : ℕ) (c : Conn)
    → Returns (λ _. Within Sends c) (write_wordpack cli head status control1 control2 value c)
wordpack-Sends cli head status control1 control2 value c =
    Returns-mono ((write_wordpack-Sends cli head status control1 control2 value).at c)
      λ _ c' h. Within-Sends h
