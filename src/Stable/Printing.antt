-- ===== src/Stable/Printing.antt =====
-- The functions that print an incoming packet.
use Prim.Native.String.{String}
use chopserver.Base.{arith, ℕ, ℤ, List, [], ◌∷◌, Option, none, some}
use chopserver.Structs.{Ref, Buffer, Packet}
use chopserver.Env.{Printed}
use chopserver.Machine.{names, null_text, headers, Conn, in_env}
use chopserver.Machine.Leads.{returns}
use chopserver.Debug.{
  Name, named, no_name, outside, printf, print_header, print_prefix, print_segments, print_text,
  print_time_of, print_time, print_line, print_enquiry, print_named, print_acknowledge,
  print_neg_acknowledge, print_wakeup, print_idle, print_escape,
}
use chopserver.Stable.Rules.{
  IsStable, Tame, Tame-bind, Tame-if, Tame-pure, Tame-gets, Tame-undefined,
}

module _ {R : Conn → Conn → Type 0} (st : IsStable R) (n : ℕ) where
  printf-Tame : (p : Printed) → Tame R n (printf p)
  unfolding printf in_env
  printf-Tame p = record {
    at = λ c h. returns (record { shrinks = omega arith; related = st.at_print p c });
  }

  print_header-Tame : (format : Option String) (fd : ℤ) → Tame R n (print_header format fd)
  unfolding print_header
  print_header-Tame none fd = Tame-undefined st.order n headers
  print_header-Tame (some format) fd = printf-Tame _

  print_prefix-Tame : Tame R n print_prefix
  unfolding print_prefix
  print_prefix-Tame = search (print_header-Tame, Tame-bind st.order, Tame-gets st.order)

  print_segments-Tame : (segments : List Buffer) → Tame R n (print_segments segments)
  unfolding print_segments
  print_segments-Tame [] = Tame-pure st.order n tt
  print_segments-Tame (cur ∷ next) =
      Tame-bind st.order n _ _ (printf-Tame _) λ _. print_segments-Tame next

  pub print_text-Tame : (cli pack : Ref) → Tame R n (print_text cli pack)
  unfolding print_text
  print_text-Tame cli pack =
      search
        (
          printf-Tame,
          print_prefix-Tame,
          print_segments-Tame,
          Tame-bind st.order,
          Tame-if st.order,
          Tame-pure st.order,
          Tame-gets st.order,
        )
        depth 12

  print_line-Tame : (format : String) → Tame R n (print_line format)
  unfolding print_line
  print_line-Tame format =
      search (printf-Tame, print_prefix-Tame, Tame-bind st.order, Tame-pure st.order)

  print_time_of-Tame : (segments : List Buffer) (p : Packet) → Tame R n (print_time_of segments p)
  unfolding print_time_of
  print_time_of-Tame [] p = Tame-pure st.order n _
  print_time_of-Tame (first ∷ rest) p =
      search
        (
          printf-Tame,
          print_prefix-Tame,
          Tame-bind st.order,
          Tame-if st.order,
          Tame-pure st.order,
          Tame-undefined st.order,
        )
        depth 12

  print_time-Tame : (cli pack : Ref) → Tame R n (print_time cli pack)
  unfolding print_time
  print_time-Tame cli pack =
      search
        (
          print_time_of-Tame,
          Tame-bind st.order,
          Tame-if st.order,
          Tame-pure st.order,
          Tame-gets st.order,
        )
        depth 8

  pub print_enquiry-Tame : (cli pack : Ref) → Tame R n (print_enquiry cli pack)
  unfolding print_enquiry
  print_enquiry-Tame cli pack =
      search
        (
          print_line-Tame,
          print_time-Tame,
          Tame-bind st.order,
          Tame-if st.order,
          Tame-pure st.order,
          Tame-gets st.order,
        )
        depth 12

  print_named-Tame : (format : String) (name : Name) → Tame R n (print_named format name)
  unfolding print_named
  print_named-Tame format outside = Tame-undefined st.order n names
  print_named-Tame format no_name = Tame-undefined st.order n null_text
  print_named-Tame format (named s) =
      search (printf-Tame, print_prefix-Tame, Tame-bind st.order, Tame-pure st.order)

  pub print_acknowledge-Tame : (cli pack : Ref) → Tame R n (print_acknowledge cli pack)
  unfolding print_acknowledge
  print_acknowledge-Tame cli pack = search (
    print_named-Tame,
    Tame-bind st.order,
    Tame-if st.order,
    Tame-pure st.order,
    Tame-gets st.order,
  )

  pub print_neg_acknowledge-Tame : (cli pack : Ref) → Tame R n (print_neg_acknowledge cli pack)
  unfolding print_neg_acknowledge
  print_neg_acknowledge-Tame cli pack = search (
    print_named-Tame,
    Tame-bind st.order,
    Tame-if st.order,
    Tame-pure st.order,
    Tame-gets st.order,
  )

  pub print_wakeup-Tame : (cli pack : Ref) → Tame R n (print_wakeup cli pack)
  unfolding print_wakeup
  print_wakeup-Tame cli pack = search (print_line-Tame, Tame-if st.order, Tame-pure st.order)

  pub print_idle-Tame : (cli pack : Ref) → Tame R n (print_idle cli pack)
  unfolding print_idle
  print_idle-Tame cli pack = search (print_line-Tame, Tame-if st.order, Tame-pure st.order)

  pub print_escape-Tame : (cli pack : Ref) → Tame R n (print_escape cli pack)
  unfolding print_escape
  print_escape-Tame cli pack = search (print_line-Tame, Tame-if st.order, Tame-pure st.order)
