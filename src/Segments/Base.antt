-- ===== src/Segments/Base.antt =====
-- The base address of a descriptor, written and read.
use my_linux_kernel.Common.{ℕ, ◌<◌, ◌≡◌, arith}
use my_linux_kernel.Segments.{Desc, set_base, get_base, get_limit, set_tssldt_desc}

-- A number below 2^32 from its low half and its two high bytes.
pub get_base-set_base :
    (d : Desc) (base : ℕ) → base < 4294967296 → get_base (set_base d base) ≡ base
unfolding get_base set_base
get_base-set_base d base word = omega arith

pub get_base-set_tssldt_desc :
    (addr type : ℕ) → addr < 4294967296 → type < 256 → get_base (set_tssldt_desc addr type) ≡ addr
unfolding get_base set_tssldt_desc
get_base-set_tssldt_desc addr type word byte = omega arith

pub get_limit-set_base :
    (d : Desc) (base : ℕ) → d.b < 4294967296 → get_limit (set_base d base) ≡ get_limit d
unfolding get_limit set_base
get_limit-set_base d base word = ground arith
