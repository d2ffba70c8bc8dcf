-- ===== src/Debug.antt =====
-- src/chopdebug.c: the functions that print an incoming packet. The model is of a build without
-- DEBUG, in which `DEBUG_PRINT` is empty.
mod Names
pub mod Reporting
unfoldable pub use Names.*
use Prim.Native.String.{String}
use chopserver.Base.{
  ℕ, ℤ, pos, neg, ltb, ◌==◌, List, [], ◌∷◌, Bool, ◌||◌, not, length, Option, none, some, take,
  get_elem?, if◌then◌else◌,
}
use chopserver.Structs.{Ref, is_null, Buffer, Packet, start_text, enquiry, enquiry_time, einval}
use chopserver.Env.{Printed, plain, with_int, with_str, with_prefix, with_time, print}
use chopserver.Machine.{
  names, headers, short_time, indeterminate, null_text, M, pure, gets, in_env, undefined, ◌>>=◌,
  ◌>>◌,
}

-- One call of `printf`.
unfoldable pub printf : Printed → M (Unit {0})
printf p = in_env λ e. (tt, print p e)

unfoldable pub print_header : Option String → ℤ → M (Unit {0})
unfolding printf
print_header none fd = undefined headers
print_header (some format) fd = printf (with_int format fd)

-- `printf(msg_header(), client->socket_fd)`
unfoldable pub print_prefix : M (Unit {0})
unfolding print_header
print_prefix = do
  header_type ← gets (λ c. c.env.header_type)
  fd ← gets (λ c. c.cli.socket_fd)
  print_header (get_elem? all_headers header_type) fd

unfoldable pub print_segments : List Buffer → M (Unit {0})
unfolding printf
print_segments [] = pure tt
print_segments (cur ∷ next) = do
  printf (with_prefix recv_text_seg cur.inbuf cur.bytes)
  print_segments next

unfoldable pub print_text : Ref → Ref → M ℤ
unfolding print_segments print_prefix
print_text client pack = do
  p ← gets (λ c. c.pack)
  if is_null client || is_null pack || not (p.status == start_text) then pure (neg einval) else do
    print_prefix
    printf (plain recv_text_start)
    print_segments p.data_section
    printf (plain recv_text_end)
    pure (pos 0)

-- `memmove(&recv_time, pack->data->buf, sizeof(time_t))` reads outside an array below 8 bytes; of what
-- it reads, the bytes that did not arrive were never set.
unfoldable pub print_time_of : List Buffer → Packet → M ℤ
unfolding print_prefix
print_time_of [] p = pure (neg einval)
print_time_of (first ∷ rest) p =
    if not (p.status == enquiry) || not (p.control1 == enquiry_time)
    then pure (neg 1)
    else if ltb first.bufsize 8
    then undefined short_time
    else if ltb (length first.bytes) 8
    then undefined indeterminate
    else (do print_prefix; printf (with_time recv_ping_time (take 8 first.bytes)); pure (pos 0))

unfoldable pub print_time : Ref → Ref → M ℤ
unfolding print_time_of
print_time client pack = do
  p ← gets (λ c. c.pack)
  if is_null client || is_null pack then pure (neg einval) else print_time_of p.data_section p

-- The prefix, one format without arguments, and the result 0.
unfoldable pub print_line : String → M ℤ
unfolding print_prefix
print_line format = do print_prefix; printf (plain format); pure (pos 0)

unfoldable pub print_enquiry : Ref → Ref → M ℤ
unfolding print_line
print_enquiry client pack = do
  p ← gets (λ c. c.pack)
  if is_null client || is_null pack || not (p.status == enquiry)
      then pure (neg einval)
      else (if p.control1 == 0
          then print_line recv_ping_norm
          else if p.control1 == 1
          then print_line recv_ping_send
          else if p.control1 == 2
          then print_time client pack
          else if p.control1 == 3
          then print_line recv_ping_time_send
          else pure (pos 1))

-- A name that is printed must have been read inside its table and must not be NULL.
unfoldable pub print_named : String → Name → M ℤ
unfolding print_prefix
print_named format outside = undefined names
print_named format no_name = undefined null_text
print_named format (named s) = do print_prefix; printf (with_str format (some s)); pure (pos 0)

unfoldable pub print_acknowledge : Ref → Ref → M ℤ
unfolding print_named
print_acknowledge client pack = do
  p ← gets (λ c. c.pack)
  if is_null client || is_null pack
      then pure (neg einval)
      else print_named ackn_text (stat_to_str p.control1)

unfoldable pub print_neg_acknowledge : Ref → Ref → M ℤ
unfolding print_named
print_neg_acknowledge client pack = do
  p ← gets (λ c. c.pack)
  if is_null client || is_null pack
      then pure (neg einval)
      else print_named neg_ackn_text (stat_to_str p.control1)

unfoldable pub print_wakeup : Ref → Ref → M ℤ
unfolding print_line
print_wakeup client pack =
    if is_null client || is_null pack then pure (neg einval) else print_line wakeup_text

unfoldable pub print_idle : Ref → Ref → M ℤ
unfolding print_line
print_idle client pack =
    if is_null client || is_null pack then pure (neg einval) else print_line idle_text

unfoldable pub print_escape : Ref → Ref → M ℤ
unfolding print_line
print_escape client pack =
    if is_null client || is_null pack then pure (neg einval) else print_line esc_text
