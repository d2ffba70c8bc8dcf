-- ===== src/Fit/Parsing.antt =====
-- `parse_header` and the handlers that it calls.
use chopserver.Base.{ℕ, zero, suc, ◌<◌, ◌^◌, ◌||◌, refl, ℤ}
use chopserver.Structs.{Ref, is_null}
use chopserver.Machine.{M, exhausted}
use chopserver.Packet.Receiving.{
  parse_text, answer, parse_enquiry, set_inc_flag, parse_acknowledge, parse_wakeup,
  parse_neg_acknowledge, parse_idle, parse_escape, long_header_loop, parse_long_header, then_print,
  parse_header,
}
use chopserver.Fit.Rules.{
  starved, Fit, Fit-pure, Fit-gets, Fit-if, Fit-bind, Fit-unless_neg, Fit-set_client,
  Fit-mark_closed, Fit-dataless, Fit-wordpack,
}
use chopserver.Fit.Reading.{read_data-Fit, read_header-Fit}
use chopserver.Fit.Text.{read_long_text-Fit}
use chopserver.Fit.Printing.{
  print_text-Fit, print_enquiry-Fit, print_acknowledge-Fit, print_neg_acknowledge-Fit,
  print_wakeup-Fit, print_idle-Fit, print_escape-Fit,
}

module _ (most : ℕ) where
  parse_text-Fit : most < 2 ^ 31 → (cli pack : Ref) → Fit most (parse_text cli pack)
  unfolding parse_text
  parse_text-Fit small cli pack =
      search
        (
          read_data-Fit most,
          read_long_text-Fit most small,
          Fit-dataless most,
          Fit-unless_neg most,
          Fit-bind most,
          Fit-if most,
          Fit-pure most,
          Fit-gets most,
        )
        depth 14

  answer-Fit : (cli : Ref) (status control1 : ℕ) → Fit most (answer cli status control1)
  unfolding answer
  answer-Fit cli status control1 = search (Fit-dataless most, Fit-unless_neg most, Fit-pure most)

  parse_enquiry-Fit : (cli pack : Ref) → Fit most (parse_enquiry cli pack)
  unfolding parse_enquiry
  parse_enquiry-Fit cli pack =
      search
        (
          answer-Fit,
          read_data-Fit most,
          Fit-wordpack most,
          Fit-unless_neg most,
          Fit-bind most,
          Fit-if most,
          Fit-pure most,
          Fit-gets most,
        )
        depth 14

  set_inc_flag-Fit : (flag : ℕ) → Fit most (set_inc_flag flag)
  unfolding set_inc_flag
  set_inc_flag-Fit flag = Fit-set_client most _ λ cli. refl

  parse_acknowledge-Fit : (cli pack : Ref) → Fit most (parse_acknowledge cli pack)
  unfolding parse_acknowledge
  parse_acknowledge-Fit cli pack =
      search
        (
          set_inc_flag-Fit,
          Fit-mark_closed,
          Fit-bind most,
          Fit-if most,
          Fit-pure most,
          Fit-gets most,
        )
        depth 14

  parse_wakeup-Fit : (cli pack : Ref) → Fit most (parse_wakeup cli pack)
  unfolding parse_wakeup
  parse_wakeup-Fit cli pack =
      search
        (set_inc_flag-Fit, answer-Fit, Fit-bind most, Fit-if most, Fit-pure most, Fit-gets most)
        depth 8

  parse_neg_acknowledge-Fit : (cli pack : Ref) → Fit most (parse_neg_acknowledge cli pack)
  unfolding parse_neg_acknowledge
  parse_neg_acknowledge-Fit cli pack =
      search (Fit-bind most, Fit-if most, Fit-pure most, Fit-gets most) depth 12

  parse_idle-Fit : (cli pack : Ref) → Fit most (parse_idle cli pack)
  unfolding parse_idle
  parse_idle-Fit cli pack =
      search
        (set_inc_flag-Fit, answer-Fit, Fit-bind most, Fit-if most, Fit-pure most, Fit-gets most)
        depth 8

  parse_escape-Fit : (cli pack : Ref) → Fit most (parse_escape cli pack)
  unfolding parse_escape
  parse_escape-Fit cli pack =
      search
        (
          Fit-dataless most,
          Fit-mark_closed,
          Fit-unless_neg most,
          Fit-bind most,
          Fit-if most,
          Fit-pure most,
        )
        depth 8

  long_header_loop-Fit :
      (parse : M ℤ) (cli pack : Ref) (rounds : ℕ)
      → Fit most parse
      → Fit most (long_header_loop parse cli pack rounds)
  unfolding long_header_loop
  long_header_loop-Fit parse cli pack zero h = Fit-pure most tt
  long_header_loop-Fit parse cli pack (suc rounds) h =
      Fit-bind most _ _ (read_header-Fit most cli pack) λ status.
        Fit-if most _ _ _ (Fit-pure most tt) (
          Fit-bind most _ _ h λ status.
            Fit-if most _ _ _ (Fit-pure most tt) (long_header_loop-Fit parse cli pack rounds h))

  parse_long_header-Fit :
      (parse : M ℤ) (cli pack : Ref) → Fit most parse → Fit most (parse_long_header parse cli pack)
  unfolding parse_long_header
  parse_long_header-Fit parse cli pack h =
      Fit-if most (is_null cli || is_null pack) _ _ (Fit-pure most _) (
        Fit-bind most _ _ (Fit-gets most _) λ count.
          Fit-bind most _ _ (long_header_loop-Fit parse cli pack count h) λ _. Fit-pure most _)

  then_print-Fit :
      (parse show : M ℤ) → Fit most parse → Fit most show → Fit most (then_print parse show)
  unfolding then_print
  then_print-Fit parse show hp hs =
      search (hp, hs, Fit-unless_neg most, Fit-bind most, Fit-pure most)

  pub parse_header-Fit :
      (fuel : ℕ) → most < 2 ^ 31 → (cli pack : Ref) → Fit most (parse_header fuel cli pack)
  unfolding parse_header exhausted
  parse_header-Fit zero small cli pack = record { at = λ c h. starved }
  parse_header-Fit (suc fuel) small cli pack =
      search
        (
          parse_header-Fit fuel small,
          parse_long_header-Fit,
          then_print-Fit,
          parse_text-Fit small,
          print_text-Fit most,
          parse_enquiry-Fit,
          print_enquiry-Fit most,
          parse_acknowledge-Fit,
          print_acknowledge-Fit most,
          parse_wakeup-Fit,
          print_wakeup-Fit most,
          parse_neg_acknowledge-Fit,
          print_neg_acknowledge-Fit most,
          parse_idle-Fit,
          print_idle-Fit most,
          parse_escape-Fit,
          print_escape-Fit most,
          Fit-if most,
          Fit-bind most,
          Fit-pure most,
          Fit-gets most,
        )
        depth 20
