-- ===== src/Manage/Request/Balance.antt =====
-- The memory that a request takes, and gives back.
use chopserver.Base.{
  ℕ, zero, suc, ◌+◌, ◌*◌, ℤ, pos, negsuc, ◌≡◌, refl, ap, List, [], ◌∷◌, arith, length,
}
use chopserver.Structs.{Ref, Buffer, Packet}
use chopserver.Env.{Env, print, malloc-ok, free}
use chopserver.Memory.{init_buffer_struct, init_packet_struct, free_segments, destroy_packet_struct}
use chopserver.Machine.{
  Conn, Run, weight, read_socket, set_client, set_packet, ok, pure, ◌>>=◌, unless_neg,
}
use chopserver.Machine.Leads.{Returns, Returns-Leads, Leads, returns, Leads-with, Leads-bind}
use chopserver.Packet.Utility.{append_buffer, link_at_end, update_last}
use chopserver.Data.Transfer.{append_received, set_received, mark_closed}
use chopserver.Packet.Sending.{destroy, write_dataless, write_wordpack, word_bytes}
use chopserver.Packet.Sending.Exact.{IsQuiet, write_dataless-ok, write_wordpack-ok, after_call}
use chopserver.Manage.Request.{receive_packet, process_request}
use chopserver.Manage.Request.Whole.{receive-Tame}
use chopserver.Stable.Rules.{IsPreorder, IsStable, Within, Within-refl}
use chopserver.Stable.Sending.{Sends, dataless-Sends, wordpack-Sends}

abbrev segments : Conn → ℕ
segments c = length c.pack.data_section

-- The blocks that are in use, but for those of the received packet's segments, stay as many.
pub record Balanced (c c' : Conn) : Type 0 where
  pub memory : c'.env.mallocs ≡ []
  pub writes : c'.sock.accepts ≡ []
  pub balance :
      c'.env.allocated + c.env.freed + 2 * segments c
      ≡ c.env.allocated + c'.env.freed + 2 * segments c'

record QuietBalance (c c' : Conn) : Type 0 where
  quiet : IsQuiet c → Balanced c c'

QuietBalance-IsPreorder : IsPreorder QuietBalance
QuietBalance-IsPreorder = record {
  reflexive =
      λ c. record { quiet = λ q. record { memory = q.memory; writes = q.writes; balance = refl } };
  transitive = λ a b c h k. record {
    quiet = λ q.
        let x = h.quiet q in
        let y = k.quiet (record { memory = x.memory; writes = x.writes }) in
        record {
          memory = y.memory;
          writes = y.writes;
          balance = omega (arith, x.balance, y.balance);
        };
  };
}

length-update_last :
    (f : Buffer → Buffer) (bs : List Buffer) → length (update_last f bs) ≡ length bs
length-update_last f [] = refl
length-update_last f (b ∷ []) = refl
length-update_last f (b ∷ c ∷ bs) = ap suc (length-update_last f (c ∷ bs))

length-link_at_end : (bs : List Buffer) (b : Buffer) → length (link_at_end bs b) ≡ suc (length bs)
unfolding link_at_end
length-link_at_end [] b = refl
length-link_at_end (x ∷ bs) b = ap suc (length-link_at_end bs b)

after_call-Balanced : (c : Conn) (n : ℕ) (bs : List ℕ) → IsQuiet c → Balanced c (after_call c n bs)
after_call-Balanced c n bs q = record {
  memory = q.memory;
  writes = q.writes;
  balance = omega arith;
}

-- Where every `malloc` succeeds, a segment takes two blocks.
record Grown (p : Packet) (e : Env) (p' : Packet) (e' : Env) : Type 0 where
  memory : e'.mallocs ≡ []
  taken : e'.allocated + 2 * length p.data_section ≡ e.allocated + 2 * length p'.data_section
  freed : e'.freed ≡ e.freed

append_buffer-Grown :
    (p : Packet) (size : ℤ) (e : Env)
    → e.mallocs ≡ []
    → Grown p e (append_buffer Ref.here p size e).1 (append_buffer Ref.here p size e).2
unfolding append_buffer init_buffer_struct
append_buffer-Grown p (negsuc k) e h = record { memory = h; taken = refl; freed = refl }
append_buffer-Grown p (pos zero) e h = record { memory = h; taken = refl; freed = refl }
append_buffer-Grown p (pos (suc k)) e h =
    let b : Buffer = record { bytes = []; inbuf = 0; bufsize = suc k } in
    rw (malloc-ok e h, malloc-ok (record e { allocated = e.allocated + 1 }) h)
      (record {
        memory = h;
        taken = omega (arith, length-link_at_end p.data_section b);
        freed = refl;
      })

-- A call that returns where `q` holds is balanced; any call ends, as `Sends` says.
from_call :
    (c : Conn) (r : Run ℤ) (n : ℕ) (bs : List ℕ)
    → Returns (λ _. Within Sends c) r
    → (IsQuiet c → r ≡ ok (pos 0) (after_call c n bs))
    → Leads (λ _. Within QuietBalance c) r
from_call c r n bs ends exact = Leads-with r (Returns-Leads ends λ _ _ w. w) λ a c' e w. record {
  shrinks = w.shrinks;
  related = record {
    quiet = λ q.
        let same : c' ≡ after_call c n bs = cc (exact q) in rw same (after_call-Balanced c n bs q);
  };
}

dataless-QuietBalance :
    (cli : Ref) (head status control1 control2 : ℕ) (c : Conn)
    → Leads (λ _. Within QuietBalance c) (write_dataless cli head status control1 control2 c)
unfolding write_dataless pure
dataless-QuietBalance Ref.null hd s a b c = returns (Within-refl QuietBalance-IsPreorder c)
dataless-QuietBalance Ref.here hd s a b c =
    from_call c _ 1 (hd ∷ s ∷ a ∷ b ∷ []) (dataless-Sends Ref.here hd s a b c)
      λ q. write_dataless-ok hd s a b c q

wordpack-QuietBalance :
    (cli : Ref) (head status control1 control2 value : ℕ) (c : Conn)
    → Leads (λ _. Within QuietBalance c) (write_wordpack cli head status control1 control2 value c)
unfolding write_wordpack pure
wordpack-QuietBalance Ref.null hd s a b v c = returns (Within-refl QuietBalance-IsPreorder c)
wordpack-QuietBalance Ref.here hd s a b v c =
    from_call c _ 3 (hd ∷ s ∷ a ∷ b ∷ word_bytes 8 v) (wordpack-Sends Ref.here hd s a b v c)
      λ q. write_wordpack-ok hd s a b v c q

QuietBalance-IsStable : IsStable QuietBalance
unfolding read_socket print append_received set_received mark_closed set_client set_packet
QuietBalance-IsStable = record {
  order = QuietBalance-IsPreorder;
  at_read = λ n c. record {
    quiet = λ q. record { memory = q.memory; writes = q.writes; balance = refl };
  };
  at_header = λ bs c. record {
    quiet = λ q. record { memory = q.memory; writes = q.writes; balance = refl };
  };
  at_received = λ f c. returns (record {
    shrinks = omega arith;
    related = record {
      quiet = λ q. record {
        memory = q.memory;
        writes = q.writes;
        balance = omega (arith, length-update_last f c.pack.data_section);
      };
    };
  });
  at_append = λ size c. returns (record {
    shrinks = omega arith;
    related = record {
      quiet = λ q.
          let g = append_buffer-Grown c.pack size c.env q.memory in
          record {
            memory = g.memory;
            writes = q.writes;
            balance = omega (arith, g.taken, g.freed);
          };
    };
  });
  at_closed = λ c. returns (record {
    shrinks = omega arith;
    related = record {
      quiet = λ q. record { memory = q.memory; writes = q.writes; balance = refl };
    };
  });
  at_flag = λ flag c which. record {
    quiet = λ q. record { memory = q.memory; writes = q.writes; balance = refl };
  };
  at_print = λ p c. record {
    quiet = λ q. record { memory = q.memory; writes = q.writes; balance = refl };
  };
  at_dataless = dataless-QuietBalance;
  at_wordpack = wordpack-QuietBalance;
}

free_segments-counts :
    (bs : List Buffer) (e : Env)
    → ((free_segments bs e).freed ≡ e.freed + 2 * length bs)
      × ((free_segments bs e).allocated ≡ e.allocated)
unfolding free_segments free
free_segments-counts [] e = (omega arith, refl)
free_segments-counts (b ∷ bs) e =
    let h = free_segments-counts bs (free (free e)) in (omega (arith, h.0), h.1)

-- With memory to be had and a socket that takes every write whole, a request gives back every
-- block that it takes, whatever the client sends and however the request ends; the call ends.
pub process_request-balance :
    (cli all_fds : Ref) (c : Conn)
    → IsQuiet c
    → Leads
        (λ _ c'. c'.env.allocated + c.env.freed ≡ c.env.allocated + c'.env.freed)
        (process_request cli all_fds c)
unfolding process_request receive_packet ◌>>=◌ init_packet_struct unless_neg destroy
    destroy_packet_struct free
process_request-balance Ref.null fds c q = returns refl
process_request-balance Ref.here Ref.null c q = returns refl
process_request-balance Ref.here Ref.here c q =
    let new : Packet = record {
      head = 255;
      status = 255;
      control1 = 255;
      control2 = 255;
      data_section = [];
      datalen = 0;
    } in
    let c' : Conn = record c {
      pack = new;
      env = record c.env { allocated = c.env.allocated + 1 };
    } in
    let t =
      (receive-Tame QuietBalance-IsStable (weight c.sock.inbox) Ref.here).at c' (omega arith) in
    rw (malloc-ok c.env q.memory) (
      Leads-bind t λ status c'' w.
        let b = w.related.quiet (record { memory = q.memory; writes = q.writes }) in
        let f = free_segments-counts c''.pack.data_section c''.env in
        returns (omega (arith, b.balance, f)))
