-- ===== src/Fit/Printing.antt =====
-- The functions that print an incoming packet.
use Prim.Native.String.{String}
use chopserver.Base.{
  arith, ℕ, zero, suc, ◌<◌, ◌≡◌, refl, ℤ, List, [], ◌∷◌, false, ltb, pos, take, get_elem?,
}
use chopserver.Structs.{Ref, Buffer, Packet}
use chopserver.Env.{Printed, with_time, print}
use chopserver.Machine.{gets, pure, undefined, indeterminate, ◌>>◌}
use chopserver.Debug.{
  Name, named, no_name, outside, all_headers, printf, print_header, print_prefix, print_segments,
  recv_ping_time, print_text, print_time_of, print_time, print_line, print_enquiry, print_named,
  print_acknowledge, print_neg_acknowledge, print_wakeup, print_idle, print_escape,
}
use chopserver.Fit.Segments.{AllFit}
use chopserver.Fit.Rules.{
  unprintable, unnamed, nameless, unset, Fit, Fit-pure, Fit-gets, Fit-gets_bind, Fit-if, Fit-bind,
  Fit-in_env,
}

module _ (most : ℕ) where
  printf-Fit : (p : Printed) → Fit most (printf p)
  unfolding printf print
  printf-Fit p = Fit-in_env most _ λ e. refl

  header-Fit :
      (header_type : ℕ) (fd : ℤ)
      → header_type < 2
      → Fit most (print_header (get_elem? all_headers header_type) fd)
  unfolding print_header
  header-Fit zero fd h = printf-Fit _
  header-Fit (suc zero) fd h = printf-Fit _
  header-Fit (suc (suc n)) fd h = absurd (omega arith)

  print_prefix-Fit : Fit most print_prefix
  unfolding print_prefix
  print_prefix-Fit = Fit-gets_bind most _ _ λ c h.
      (Fit-bind most (gets (λ c. c.cli.socket_fd)) _ (Fit-gets most _)
          λ fd. header-Fit c.env.header_type fd h.header).at
        c h

  print_segments-Fit : (segments : List Buffer) → Fit most (print_segments segments)
  unfolding print_segments
  print_segments-Fit [] = Fit-pure most tt
  print_segments-Fit (cur ∷ next) = Fit-bind most _ _ (printf-Fit _) λ _. print_segments-Fit next

  pub print_text-Fit : (cli pack : Ref) → Fit most (print_text cli pack)
  unfolding print_text
  print_text-Fit cli pack =
      search
        (
          printf-Fit,
          print_prefix-Fit,
          print_segments-Fit,
          Fit-bind most,
          Fit-if most,
          Fit-pure most,
          Fit-gets most,
        )
        depth 12

  print_line-Fit : (format : String) → Fit most (print_line format)
  unfolding print_line
  print_line-Fit format = search (printf-Fit, print_prefix-Fit, Fit-bind most, Fit-pure most)

  unset-Fit : Fit most (undefined {A = ℤ} indeterminate)
  unfolding undefined
  unset-Fit = record { at = λ c h. unprintable unset }

  print_stamp-Fit :
      (stamp : List ℕ)
      → Fit most (do print_prefix; printf (with_time recv_ping_time stamp); pure (pos 0))
  print_stamp-Fit stamp =
      search (printf-Fit, print_prefix-Fit, Fit-bind most, Fit-pure most) depth 12

  print_time_of-Fit :
      (segments : List Buffer) (p : Packet) → AllFit segments → Fit most (print_time_of segments p)
  unfolding print_time_of
  print_time_of-Fit [] p all = Fit-pure most _
  print_time_of-Fit (first ∷ rest) p all =
      let long : ltb first.bufsize 8 ≡ false = ground (arith, all.0.room) in
      rw long (
        Fit-if most _ _ _ (Fit-pure most _)
          (Fit-if most _ _ _ unset-Fit (print_stamp-Fit (take 8 first.bytes))))

  print_time-Fit : (cli pack : Ref) → Fit most (print_time cli pack)
  unfolding print_time
  print_time-Fit cli pack = Fit-gets_bind most _ _ λ c h.
      (Fit-if most _ _ _ (Fit-pure most _)
          (print_time_of-Fit c.pack.data_section c.pack h.segments)).at
        c h

  pub print_enquiry-Fit : (cli pack : Ref) → Fit most (print_enquiry cli pack)
  unfolding print_enquiry
  print_enquiry-Fit cli pack =
      search
        (print_line-Fit, print_time-Fit, Fit-bind most, Fit-if most, Fit-pure most, Fit-gets most)
        depth 12

  print_named-Fit : (format : String) (name : Name) → Fit most (print_named format name)
  unfolding print_named undefined
  print_named-Fit format outside = record { at = λ c h. unprintable unnamed }
  print_named-Fit format no_name = record { at = λ c h. unprintable nameless }
  print_named-Fit format (named s) =
      search (printf-Fit, print_prefix-Fit, Fit-bind most, Fit-pure most)

  pub print_acknowledge-Fit : (cli pack : Ref) → Fit most (print_acknowledge cli pack)
  unfolding print_acknowledge
  print_acknowledge-Fit cli pack =
      search (print_named-Fit, Fit-bind most, Fit-if most, Fit-pure most, Fit-gets most)

  pub print_neg_acknowledge-Fit : (cli pack : Ref) → Fit most (print_neg_acknowledge cli pack)
  unfolding print_neg_acknowledge
  print_neg_acknowledge-Fit cli pack =
      search (print_named-Fit, Fit-bind most, Fit-if most, Fit-pure most, Fit-gets most)

  pub print_wakeup-Fit : (cli pack : Ref) → Fit most (print_wakeup cli pack)
  unfolding print_wakeup
  print_wakeup-Fit cli pack = search (print_line-Fit, Fit-if most, Fit-pure most)

  pub print_idle-Fit : (cli pack : Ref) → Fit most (print_idle cli pack)
  unfolding print_idle
  print_idle-Fit cli pack = search (print_line-Fit, Fit-if most, Fit-pure most)

  pub print_escape-Fit : (cli pack : Ref) → Fit most (print_escape cli pack)
  unfolding print_escape
  print_escape-Fit cli pack = search (print_line-Fit, Fit-if most, Fit-pure most)
