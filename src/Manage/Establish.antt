-- ===== src/Manage/Establish.antt =====
-- src/chopconn.c: `establish_server_connection`.
use chopserver.Base.{
  ℤ, pos, negsuc, pos_part, neg, is_neg, lt_one, Option, some, if◌then◌else◌, ◌||◌,
}
use chopserver.Structs.{Ref, is_null, Client, einval, enomem}
use chopserver.Env.{Env}
use chopserver.Memory.{Init, made, refused, init_client_struct}

-- From the allocation on: the client that `*dest` is left with.
unfoldable pub connect_client :
    Init Client → (connected bufsize : ℤ) → Option Client → Env → ℤ × Option Client × Env
connect_client (refused code) connected bufsize old e = (neg enomem, old, e)
connect_client (made init) connected bufsize old e =
    if is_neg connected then (connected, some init, e) else (
      pos 0,
      some (record init {
        socket_fd = connected;
        server_fd = negsuc 0;
        inc_flag = 0;
        out_flag = 0;
        window = pos_part bufsize;
      }),
      e,
    )

-- `connected` is what `connect_to_server` returns, and `old` what `*dest` holds.
unfoldable pub establish_server_connection :
    (address : Ref)
    → (port : ℤ) → (dest : Ref) → (bufsize connected : ℤ) → Option Client
    → Env
    → ℤ × Option Client × Env
unfolding connect_client
establish_server_connection address port dest bufsize connected old e =
    if is_null address || (is_neg port || (is_null dest || lt_one bufsize))
    then (neg einval, old, e)
    else let (init, e') = init_client_struct dest bufsize e in
      connect_client init connected bufsize old e'
