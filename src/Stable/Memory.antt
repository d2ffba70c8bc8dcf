-- ===== src/Stable/Memory.antt =====
-- What the functions that allocate and free leave alone in the environment.
use chopserver.Base.{◌≡◌, refl, ◌∙◌, ℤ, List, [], ◌∷◌, Bool, true, false, Option, none, some, arith}
use chopserver.Structs.{Ref, Buffer, Packet}
use chopserver.Env.{Env, malloc_by, malloc, free}
use chopserver.Memory.{init_buffer_struct, init_packet_struct, free_segments, destroy_packet_struct}
use chopserver.Packet.Utility.{append_buffer}

-- Only the counts of memory differ.
pub record SameEnv (e e' : Env) : Type 0 where
  pub closed : e'.closed ≡ e.closed
  pub clock : e'.clock ≡ e.clock
  pub header_type : e'.header_type ≡ e.header_type
  pub shown : e'.shown ≡ e.shown

pub SameEnv-refl : (e : Env) → SameEnv e e
SameEnv-refl e = record { closed = refl; clock = refl; header_type = refl; shown = refl }

pub SameEnv-trans : {a b c : Env} → SameEnv a b → SameEnv b c → SameEnv a c
SameEnv-trans h k = record {
  closed = k.closed ∙ h.closed;
  clock = k.clock ∙ h.clock;
  header_type = k.header_type ∙ h.header_type;
  shown = k.shown ∙ h.shown;
}

malloc_by-SameEnv : (l : List Bool) (e : Env) → SameEnv e (malloc_by l e).1
unfolding malloc_by
malloc_by-SameEnv [] e = ground arith
malloc_by-SameEnv (true ∷ l) e = ground arith
malloc_by-SameEnv (false ∷ l) e = ground arith

pub malloc-SameEnv : (e : Env) → SameEnv e (malloc e).1
unfolding malloc
malloc-SameEnv e = malloc_by-SameEnv e.mallocs e

free_segments-SameEnv : (bs : List Buffer) (e : Env) → SameEnv e (free_segments bs e)
unfolding free_segments free
free_segments-SameEnv [] e = SameEnv-refl e
free_segments-SameEnv (b ∷ bs) e = ground (arith, free_segments-SameEnv bs (free (free e)))

pub init_packet_struct-SameEnv :
    (target : Ref) (e : Env) → SameEnv e (init_packet_struct target e).1
unfolding init_packet_struct
init_packet_struct-SameEnv Ref.null e = SameEnv-refl e
init_packet_struct-SameEnv Ref.here e = ground (arith, malloc-SameEnv e)

init_buffer_struct-SameEnv :
    (target : Ref) (size : ℤ) (e : Env) → SameEnv e (init_buffer_struct target size e).1
unfolding init_buffer_struct free
init_buffer_struct-SameEnv target size e =
    ground (arith, malloc-SameEnv e, malloc-SameEnv (malloc e).1)

pub append_buffer-SameEnv :
    (ptr : Ref) (p : Packet) (size : ℤ) (e : Env) → SameEnv e (append_buffer ptr p size e).2
unfolding append_buffer
append_buffer-SameEnv ptr p size e = ground (arith, init_buffer_struct-SameEnv Ref.here size e)

pub destroy_packet_struct-SameEnv :
    (target : Ref) (p : Option Packet) (e : Env) → SameEnv e (destroy_packet_struct target p e).2
unfolding destroy_packet_struct free
destroy_packet_struct-SameEnv target none e = ground arith
destroy_packet_struct-SameEnv target (some p) e =
    ground (arith, free_segments-SameEnv p.data_section e)
