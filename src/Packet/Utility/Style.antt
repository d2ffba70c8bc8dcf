-- ===== src/Packet/Utility/Style.antt =====
-- The style of a packet is its header, read as one number.
use chopserver.Base.{◌<◌, ◌≡◌, some, arith}
use chopserver.Structs.{Packet}
use chopserver.Packet.Utility.{packet_style}

-- The four header bytes of a packet can be read back from its style: two packets with the same
-- style have the same header.
pub packet_style-inj :
    (p q : Packet)
    → (p.head < 256) × (p.status < 256) × (p.control1 < 256) × (p.control2 < 256)
    → (q.head < 256) × (q.status < 256) × (q.control1 < 256) × (q.control2 < 256)
    → packet_style (some p) ≡ packet_style (some q)
    → (p.head ≡ q.head)
      × (p.status ≡ q.status)
      × (p.control1 ≡ q.control1)
      × (p.control2 ≡ q.control2)
unfolding packet_style
packet_style-inj p q hp hq e = (
  omega (arith, hp.0, hp.1, hp.2, hp.3, hq.0, hq.1, hq.2, hq.3, e),
  omega (arith, hp.0, hp.1, hp.2, hp.3, hq.0, hq.1, hq.2, hq.3, e),
  omega (arith, hp.0, hp.1, hp.2, hp.3, hq.0, hq.1, hq.2, hq.3, e),
  omega (arith, hp.0, hp.1, hp.2, hp.3, hq.0, hq.1, hq.2, hq.3, e),
)
