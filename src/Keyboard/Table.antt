-- ===== src/Keyboard/Table.antt =====
-- The tables of kernel/chr_drv/kboard.c.
use my_linux_kernel.Common.{ℕ, List, [], ◌∷◌}

-- The handlers that `key_table` names, and `no_key` for 0.
pub data Key : Type 0 where
  no_key : Key
  do_self : Key
  ctrl : Key
  unctrl : Key
  lshift : Key
  unlshift : Key
  rshift : Key
  unrshift : Key
  caps : Key
  uncaps : Key
  alt : Key
  unalt : Key
  minus : Key
  num : Key
  scroll : Key
  cursor : Key
  func : Key

abbrev pub key_table : List Key
key_table =
    no_key ∷ do_self ∷ do_self ∷ do_self ∷ do_self ∷ do_self ∷ do_self ∷ do_self ∷ do_self ∷ do_self
    ∷ do_self ∷ do_self ∷ do_self ∷ do_self ∷ do_self ∷ do_self ∷ do_self ∷ do_self ∷ do_self
    ∷ do_self ∷ do_self ∷ do_self ∷ do_self ∷ do_self ∷ do_self ∷ do_self ∷ do_self ∷ do_self
    ∷ do_self ∷ ctrl ∷ do_self ∷ do_self ∷ do_self ∷ do_self ∷ do_self ∷ do_self ∷ do_self ∷ do_self
    ∷ do_self ∷ do_self ∷ do_self ∷ do_self ∷ lshift ∷ do_self ∷ do_self ∷ do_self ∷ do_self
    ∷ do_self ∷ do_self ∷ do_self ∷ do_self ∷ do_self ∷ do_self ∷ minus ∷ rshift ∷ do_self ∷ alt
    ∷ do_self ∷ caps ∷ func ∷ func ∷ func ∷ func ∷ func ∷ func ∷ func ∷ func ∷ func ∷ func ∷ num
    ∷ scroll ∷ cursor ∷ cursor ∷ cursor ∷ do_self ∷ cursor ∷ cursor ∷ cursor ∷ do_self ∷ cursor
    ∷ cursor ∷ cursor ∷ cursor ∷ cursor ∷ no_key ∷ no_key ∷ do_self ∷ func ∷ func ∷ no_key ∷ no_key
    ∷ no_key ∷ no_key ∷ no_key ∷ no_key ∷ no_key ∷ no_key ∷ no_key ∷ no_key ∷ no_key ∷ no_key
    ∷ no_key ∷ no_key ∷ no_key ∷ no_key ∷ no_key ∷ no_key ∷ no_key ∷ no_key ∷ no_key ∷ no_key
    ∷ no_key ∷ no_key ∷ no_key ∷ no_key ∷ no_key ∷ no_key ∷ no_key ∷ no_key ∷ no_key ∷ no_key
    ∷ no_key ∷ no_key ∷ no_key ∷ no_key ∷ no_key ∷ no_key ∷ no_key ∷ no_key ∷ no_key ∷ no_key
    ∷ no_key ∷ no_key ∷ no_key ∷ no_key ∷ no_key ∷ no_key ∷ no_key ∷ no_key ∷ no_key ∷ no_key
    ∷ no_key ∷ no_key ∷ no_key ∷ no_key ∷ no_key ∷ no_key ∷ no_key ∷ no_key ∷ no_key ∷ no_key
    ∷ no_key ∷ no_key ∷ no_key ∷ no_key ∷ no_key ∷ no_key ∷ unctrl ∷ no_key ∷ no_key ∷ no_key
    ∷ no_key ∷ no_key ∷ no_key ∷ no_key ∷ no_key ∷ no_key ∷ no_key ∷ no_key ∷ no_key ∷ unlshift
    ∷ no_key ∷ no_key ∷ no_key ∷ no_key ∷ no_key ∷ no_key ∷ no_key ∷ no_key ∷ no_key ∷ no_key
    ∷ no_key ∷ unrshift ∷ no_key ∷ unalt ∷ no_key ∷ uncaps ∷ no_key ∷ no_key ∷ no_key ∷ no_key
    ∷ no_key ∷ no_key ∷ no_key ∷ no_key ∷ no_key ∷ no_key ∷ no_key ∷ no_key ∷ no_key ∷ no_key
    ∷ no_key ∷ no_key ∷ no_key ∷ no_key ∷ no_key ∷ no_key ∷ no_key ∷ no_key ∷ no_key ∷ no_key
    ∷ no_key ∷ no_key ∷ no_key ∷ no_key ∷ no_key ∷ no_key ∷ no_key ∷ no_key ∷ no_key ∷ no_key
    ∷ no_key ∷ no_key ∷ no_key ∷ no_key ∷ no_key ∷ no_key ∷ no_key ∷ no_key ∷ no_key ∷ no_key
    ∷ no_key ∷ no_key ∷ no_key ∷ no_key ∷ no_key ∷ no_key ∷ no_key ∷ no_key ∷ no_key ∷ no_key
    ∷ no_key ∷ no_key ∷ no_key ∷ no_key ∷ no_key ∷ no_key ∷ no_key ∷ no_key ∷ no_key ∷ no_key
    ∷ no_key ∷ no_key ∷ no_key ∷ no_key ∷ no_key ∷ []

-- The entries that are written out; the rest of the 127 are 0.
abbrev pub key_map : List ℕ
key_map =
    0 ∷ 27 ∷ 49 ∷ 50 ∷ 51 ∷ 52 ∷ 53 ∷ 54 ∷ 55 ∷ 56 ∷ 57 ∷ 48 ∷ 45 ∷ 61 ∷ 127 ∷ 9 ∷ 113 ∷ 119 ∷ 101
    ∷ 114 ∷ 116 ∷ 121 ∷ 117 ∷ 105 ∷ 111 ∷ 112 ∷ 91 ∷ 93 ∷ 10 ∷ 0 ∷ 97 ∷ 115 ∷ 100 ∷ 102 ∷ 103 ∷ 104
    ∷ 106 ∷ 107 ∷ 108 ∷ 59 ∷ 39 ∷ 96 ∷ 0 ∷ 92 ∷ 122 ∷ 120 ∷ 99 ∷ 118 ∷ 98 ∷ 110 ∷ 109 ∷ 44 ∷ 46 ∷ 47
    ∷ 0 ∷ 42 ∷ 0 ∷ 32 ∷ 0 ∷ 0 ∷ 0 ∷ 0 ∷ 0 ∷ 0 ∷ 0 ∷ 0 ∷ 0 ∷ 0 ∷ 0 ∷ 0 ∷ 0 ∷ 0 ∷ 0 ∷ 0 ∷ 45 ∷ 0 ∷ 0
    ∷ 0 ∷ 43 ∷ 0 ∷ 0 ∷ 0 ∷ 0 ∷ 0 ∷ 0 ∷ 0 ∷ 62 ∷ 0 ∷ 0 ∷ 0 ∷ 0 ∷ 0 ∷ 0 ∷ 0 ∷ 0 ∷ 0 ∷ 0 ∷ []

abbrev pub shift_map : List ℕ
shift_map =
    0 ∷ 27 ∷ 33 ∷ 64 ∷ 35 ∷ 36 ∷ 37 ∷ 94 ∷ 38 ∷ 42 ∷ 40 ∷ 41 ∷ 95 ∷ 43 ∷ 127 ∷ 9 ∷ 81 ∷ 87 ∷ 69 ∷ 82
    ∷ 84 ∷ 89 ∷ 85 ∷ 73 ∷ 79 ∷ 80 ∷ 123 ∷ 125 ∷ 10 ∷ 0 ∷ 65 ∷ 83 ∷ 68 ∷ 70 ∷ 71 ∷ 72 ∷ 74 ∷ 75 ∷ 76
    ∷ 58 ∷ 34 ∷ 126 ∷ 0 ∷ 124 ∷ 90 ∷ 88 ∷ 67 ∷ 86 ∷ 66 ∷ 78 ∷ 77 ∷ 60 ∷ 62 ∷ 63 ∷ 0 ∷ 42 ∷ 0 ∷ 32
    ∷ 0 ∷ 0 ∷ 0 ∷ 0 ∷ 0 ∷ 0 ∷ 0 ∷ 0 ∷ 0 ∷ 0 ∷ 0 ∷ 0 ∷ 0 ∷ 0 ∷ 0 ∷ 0 ∷ 45 ∷ 0 ∷ 0 ∷ 0 ∷ 43 ∷ 0 ∷ 0
    ∷ 0 ∷ 0 ∷ 0 ∷ 0 ∷ 0 ∷ 62 ∷ 0 ∷ 0 ∷ 0 ∷ 0 ∷ 0 ∷ 0 ∷ 0 ∷ 0 ∷ 0 ∷ 0 ∷ []

-- "HA5 DGC YB623" and "789 456 1230."
abbrev pub cur_table : List ℕ
cur_table = 72 ∷ 65 ∷ 53 ∷ 32 ∷ 68 ∷ 71 ∷ 67 ∷ 32 ∷ 89 ∷ 66 ∷ 54 ∷ 50 ∷ 51 ∷ []

abbrev pub num_table : List ℕ
num_table = 55 ∷ 56 ∷ 57 ∷ 32 ∷ 52 ∷ 53 ∷ 54 ∷ 32 ∷ 49 ∷ 50 ∷ 51 ∷ 48 ∷ 46 ∷ []
