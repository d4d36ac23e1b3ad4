-- ===== src/Domain/Tests.antt =====
-- The shared values (src/domain) at concrete inputs.
use aegis_flow.Prelude.{◌≡◌, Option, none, some, [], ◌∷◌, Bytes, codes}
use aegis_flow.Domain.IpAddress.{Family, inet, inet6, from_bytes}
use aegis_flow.Domain.IpAddress.Mapped.{mapped, from_bytes-mapped}

-- The C library, as far as 192.0.2.1 needs it.
abbrev to_bytes : Family → Bytes → Option Bytes
to_bytes family text = none

abbrev to_text : Family → Bytes → Option Bytes
to_text inet bytes = some (codes "192.0.2.1")
to_text inet6 bytes = none

from_bytes-mapped_example :
    from_bytes to_bytes to_text (mapped 192 0 2 1)
    ≡ from_bytes to_bytes to_text (192 ∷ 0 ∷ 2 ∷ 1 ∷ [])
from_bytes-mapped_example = from_bytes-mapped to_bytes to_text 192 0 2 1
