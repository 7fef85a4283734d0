-- ===== src/Framing/Examples.antt =====
-- Two frames: a message for the core, and one of a type that is not known here.
use synergy_hogsback.Prelude.{
  ℕ, ◌≡◌, refl, ◌==◌, if◌then◌else◌, List, [], ◌∷◌, ◌++◌, map, Option, none, some, arith,
}
use synergy_hogsback.Message.{
  Body, unknown_message, core_message, which, Message, MessageHeader, default_header,
}
use synergy_hogsback.Framing.Frames.{write_all, read_all, body_bytes, variant_index}
use synergy_hogsback.Framing.Arrival.{IsSendable, arrived, read_all-write_all}

-- A packer for the messages of the core only.
abbrev pack : Body → List ℕ
pack (core_message bytes) = bytes
pack _ = []

abbrev unpack : ℕ → List ℕ → Option Body
unpack n bytes = if n == 6 then some (core_message bytes) else none

abbrev to_core : MessageHeader × Message
to_core = (
  record default_header { type = 6; ttl = 5; source = 1; dest = 2 },
  record { body = core_message (7 ∷ 8 ∷ []); type = 6; ttl = 5 },
)

abbrev from_future : MessageHeader × Message
from_future = (
  record default_header { type = 200; ttl = 0; source = 3; dest = 2 },
  record { body = unknown_message (1 ∷ 2 ∷ 3 ∷ []); type = 200; ttl = 0 },
)

to_core-IsSendable : IsSendable pack unpack to_core
unfolding body_bytes variant_index which
to_core-IsSendable = record {
  fits = record {
    version = omega arith;
    type = omega arith;
    unused = omega arith;
    ttl = omega arith;
    source = omega arith;
    dest = omega arith;
  };
  short = omega arith;
  unpacked = λ h. refl;
  typed = refl;
}

from_future-IsSendable : IsSendable pack unpack from_future
unfolding body_bytes variant_index which
from_future-IsSendable = record {
  fits = record {
    version = omega arith;
    type = omega arith;
    unused = omega arith;
    ttl = omega arith;
    source = omega arith;
    dest = omega arith;
  };
  short = omega arith;
  unpacked = λ h. absurd (h refl);
  typed = refl;
}

read_all-write_all_example :
    read_all unpack 2 (write_all pack (to_core ∷ from_future ∷ []) ++ (9 ∷ []))
    ≡ some (map (arrived pack unpack) (to_core ∷ from_future ∷ []), 9 ∷ [])
read_all-write_all_example =
    read_all-write_all pack unpack (to_core ∷ from_future ∷ []) (9 ∷ [])
      (to_core-IsSendable, (from_future-IsSendable, tt))
