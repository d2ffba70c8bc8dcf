-- ===== src/Memory.antt =====
-- src/chopconst.c: how the structures are allocated, initialised and destroyed.
-- An `init` function stores through its target only on success, so its result is the new
-- structure (the function returns 0) or the code with which it failed.
pub mod Destroying
use chopserver.Base.{
  zero, suc, ℤ, pos, negsuc, pos_part, neg, lt_one, List, [], ◌∷◌, Bool, true, false, ◌||◌, not,
  Option, none, some, replicate, if◌then◌else◌,
}
use chopserver.Structs.{Ref, is_null, Buffer, Packet, Client, Server, einval, enomem}
use chopserver.Env.{Env, malloc, free, close}

pub data Init (A : Type 0) : Type 0 where
  made : A → Init A
  refused : ℤ → Init A

unfoldable pub init_buffer_struct : Ref → ℤ → Env → Init Buffer × Env
init_buffer_struct target size e =
    if is_null target || lt_one size
    then (refused (neg einval), e)
    else let (init, e') = malloc e in
      let (mem, e'') = malloc e' in
      if not init
      then (refused (neg enomem), e')
      else if not mem
      then (refused (neg enomem), free e'')
      else (made (record { bytes = []; inbuf = 0; bufsize = pos_part size }), e'')

-- The `unsigned char` fields are set to -1, which is 255.
unfoldable pub init_packet_struct : Ref → Env → Init Packet × Env
init_packet_struct target e =
    if is_null target
    then (refused (neg einval), e)
    else let (init, e') = malloc e in
      if init
      then (
        made (record {
          head = 255;
          status = 255;
          control1 = 255;
          control2 = 255;
          data_section = [];
          datalen = 0;
        }),
        e',
      )
      else (refused (neg enomem), e')

unfoldable pub init_server_struct : Ref → ℤ → ℤ → ℤ → Env → Init Server × Env
init_server_struct target port max_conns queue_len e =
    if is_null target || (lt_one max_conns || lt_one queue_len)
    then (refused (neg einval), e)
    else let (init, e') = malloc e in
      let (mem, e'') = malloc e' in
      if not init
      then (refused (neg enomem), e')
      else if not mem
      then (refused (neg enomem), free e'')
      else (
        made (record {
          server_fd = negsuc 0;
          server_port = port;
          clients = replicate (pos_part max_conns) none;
          max_connections = pos_part max_conns;
          cur_connections = 0;
          connect_queue = queue_len;
        }),
        e'',
      )

unfoldable pub init_client_struct : Ref → ℤ → Env → Init Client × Env
init_client_struct target size e =
    if is_null target || lt_one size
    then (refused (neg einval), e)
    else let (init, e') = malloc e in
      if init
      then (
        made (record {
          socket_fd = negsuc 0;
          server_fd = negsuc 0;
          inc_flag = 255;
          out_flag = 255;
          window = pos_part size;
        }),
        e',
      )
      else (refused (neg enomem), e')

-- A `destroy` function takes the pointer that its target holds, and returns the one that it
-- leaves there.
unfoldable pub destroy_buffer_struct : Ref → Option Buffer → Env → ℤ × Option Buffer × Env
destroy_buffer_struct target none e =
    if is_null target then (neg einval, none, e) else (pos 0, none, e)
destroy_buffer_struct target (some old) e =
    if is_null target then (neg einval, some old, e) else (pos 0, none, free (free e))

-- The loop over the data section: the memory of a segment and the segment itself.
unfoldable pub free_segments : List Buffer → Env → Env
free_segments [] e = e
free_segments (cur ∷ next) e = free_segments next (free (free e))

unfoldable pub destroy_packet_struct : Ref → Option Packet → Env → ℤ × Option Packet × Env
unfolding free_segments
destroy_packet_struct target none e =
    if is_null target then (neg einval, none, e) else (pos 0, none, e)
destroy_packet_struct target (some old) e =
    if is_null target
    then (neg einval, some old, e)
    else (pos 0, none, free (free_segments old.data_section e))

-- `fd > MIN_FD`
abbrev pub is_open : ℤ → Bool
is_open (pos zero) = false
is_open (pos (suc n)) = true
is_open (negsuc n) = false

unfoldable pub destroy_client_struct : Ref → Option Client → Env → ℤ × Option Client × Env
destroy_client_struct target none e =
    if is_null target then (neg einval, none, e) else (pos 0, none, e)
destroy_client_struct target (some old) e =
    if is_null target
    then (neg einval, some old, e)
    else (pos 0, none, free (if is_open old.socket_fd then close old.socket_fd e else e))

unfoldable pub destroy_clients : List (Option Client) → Env → Env
unfolding destroy_client_struct
destroy_clients [] e = e
destroy_clients (slot ∷ slots) e =
    let (_, _, e') = destroy_client_struct Ref.here slot e in destroy_clients slots e'

unfoldable pub destroy_server_struct : Ref → Option Server → Env → ℤ × Option Server × Env
unfolding destroy_clients
destroy_server_struct target none e =
    if is_null target then (neg einval, none, e) else (pos 0, none, e)
destroy_server_struct target (some old) e =
    if is_null target
    then (neg einval, some old, e)
    else let e' = if is_open old.server_fd then close old.server_fd e else e in
      (pos 0, none, free (free (destroy_clients old.clients e')))
