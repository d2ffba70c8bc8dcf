-- ===== src/Tests/Buffers.antt =====
-- A buffer that is filled, and the styles of packets.
use Prim.Native.String.{String}
use chopserver.Base.{ℕ, none, ◌++◌, ◌≡◌, refl, pos, [], ◌∷◌, some, arith}
use chopserver.Structs.{Ref, Buffer, Packet}
use chopserver.Machine.{bytes, Socket, read_socket}
use chopserver.Data.Transfer.{fill_buf}
use chopserver.Data.Transfer.Filling.{Filled, fill_buf-Filled}
use chopserver.Packet.Utility.{packet_style}
use chopserver.Env.{plain}
use chopserver.Debug.Reporting.{Stderr, debug_print, report, debug_print-report}
use chopserver.Packet.Utility.Style.{packet_style-inj}

abbrev half_full : Buffer
half_full = record { bytes = b'a' ∷ b'b' ∷ []; inbuf = 2; bufsize = 4 }

abbrev three_more : Socket
three_more = record { inbox = bytes (b'c' ∷ b'd' ∷ b'e' ∷ []) ∷ []; accepts = []; sent = [] }

fill_buf-half_full : fill_buf Ref.here half_full (pos 4) three_more ≡ (
  pos 0,
  record { bytes = b'a' ∷ b'b' ∷ b'c' ∷ b'd' ∷ []; inbuf = 4; bufsize = 4 },
  record three_more { inbox = bytes (b'e' ∷ []) ∷ [] },
)
unfolding fill_buf read_socket
fill_buf-half_full = refl

fill_buf-Filled_example :
    Filled half_full three_more (fill_buf Ref.here half_full (pos 4) three_more)
fill_buf-Filled_example =
    fill_buf-Filled half_full 4 three_more (record { stored = refl; fits = omega arith })

abbrev idle_packet : Packet
idle_packet = record {
  head = 0;
  status = 22;
  control1 = 1;
  control2 = 2;
  data_section = [];
  datalen = 0;
}

same_style :
    packet_style (some idle_packet) ≡ packet_style (some (record idle_packet { datalen = 1 }))
unfolding packet_style
same_style = refl

packet_style-inj_example :
    (idle_packet.head ≡ 0)
    × (idle_packet.status ≡ 22)
    × (idle_packet.control1 ≡ 1)
    × (idle_packet.control2 ≡ 2)
packet_style-inj_example =
    packet_style-inj idle_packet (record idle_packet { datalen = 1 })
      (omega arith, omega arith, omega arith, omega arith)
      (omega arith, omega arith, omega arith, omega arith) same_style

abbrev error_text : ℕ → String
error_text e = "Interrupted system call"

-- An earlier call was interrupted, and the second `dprintf` fails.
abbrev interrupted_before : Stderr
interrupted_before = record { errno = 4; lines = []; leaves = none ∷ some 9 ∷ [] }

debug_print-report_example :
    ((debug_print error_text (some "main") (some (plain "waiting")) interrupted_before).errno ≡ 4)
    × ((debug_print error_text (some "main") (some (plain "waiting")) interrupted_before).lines
        ≡ [] ++ report error_text (some "main") (some (plain "waiting")) 4)
debug_print-report_example =
    debug_print-report error_text (some "main") (some (plain "waiting")) interrupted_before
