-- ===== src/Keyboard.antt =====
-- kernel/chr_drv/kboard.c: the keyboard interrupt.
-- `scan_code`, `leds`, `mode` and `e0` are unsigned chars. `status` holds the readings of port
-- 0x64 that are to come; kb_wait waits on for ever where they run out, which is `none` here.
-- `beyond` gives the bytes that stand in memory behind a map, where the source reads past its end.
pub mod Table
pub mod Lights
pub mod Lock
pub mod Scan
mod Tests
use my_linux_kernel.Common.{
  ℕ, ◌+◌, ◌-◌, ◌==◌, ◌&&◌, ◌||◌, not, Bool, List, [], ◌∷◌, Option, none, some, ltb, leb, u8, get_or,
  length, bit_and, bit_or, bit_xor, if◌then◌else◌,
}
use my_linux_kernel.Tty.Queue.{putch}
use my_linux_kernel.Tty.Cooked.{Tty, do_tty_interrupt}
use my_linux_kernel.Keyboard.Table.{Key, key_table, key_map, shift_map, cur_table, num_table}

infixl 5 ◌>>=◌
abbrev pub ◌>>=◌ : {A B : Type 0} → Option A → (A → Option B) → Option B
none >>= f = none
some a >>= f = f a

pub record Kboard : Type 0 where
  pub scan_code : ℕ
  pub leds : ℕ
  pub mode : ℕ
  pub e0 : ℕ
  pub status : List ℕ
  pub ports : List (ℕ × ℕ)
  pub beyond : ℕ → ℕ
  pub tty : Tty

-- `mode & mask` as a test
unfoldable pub tests : ℕ → ℕ → Bool
tests word mask = not (bit_and word mask == 0)

-- PUTCH(c, &read_q)
unfoldable pub put : ℕ → Kboard → Kboard
put c k = record k { tty = record (k.tty) { read_q = putch c k.tty.read_q } }

unfoldable pub out : ℕ → ℕ → Kboard → Kboard
out value port k = record k { ports = (value, port) ∷ k.ports }

-- An entry of a map of 127 bytes, of which `map` gives those that are not 0 at the end.
abbrev pub entry : List ℕ → ℕ → Kboard → ℕ
entry map i k = if ltb i 127 then get_or map i 0 else k.beyond i

-- The character with caps lock; `c` is a signed char, so a byte above 127 is below 'a' and 64.
abbrev pub with_caps : ℕ → ℕ → ℕ
with_caps mode c =
    let c₁ = if leb b'a' c && leb c b'}' then c - 0x20 else c in
    let c₂ = if tests mode 0xc && leb 64 c₁ && ltb c₁ 96 then c₁ - 0x40 else c₁ in
    if tests mode 0x40 then c₂ else c

unfoldable pub do_self : Kboard → Kboard
do_self k =
    let c = entry (if tests k.mode 0x3 then shift_map else key_map) k.scan_code k in
    if c == 0 then k else put (with_caps k.mode c) k

abbrev pub set_mode : ℕ → Kboard → Kboard
set_mode m k = record k { mode = m }

unfoldable pub lshift : Kboard → Kboard
lshift k = set_mode (bit_or k.mode 0x01) k

unfoldable pub unlshift : Kboard → Kboard
unlshift k = set_mode (bit_and k.mode 0xfe) k

unfoldable pub rshift : Kboard → Kboard
rshift k = set_mode (bit_or k.mode 0x02) k

unfoldable pub unrshift : Kboard → Kboard
unrshift k = set_mode (bit_and k.mode 0xfd) k

unfoldable pub ctrl : Kboard → Kboard
ctrl k = set_mode (bit_or k.mode (if k.e0 == 0 then 0x04 else 0x8)) k

unfoldable pub unctrl : Kboard → Kboard
unctrl k = set_mode (bit_and k.mode (if k.e0 == 0 then 0xfb else 0xf7)) k

-- The readings of port 0x64 after the first that is 0x2.
unfoldable pub kb_wait : List ℕ → Option (List ℕ)
kb_wait [] = none
kb_wait (a ∷ more) = let rest = kb_wait more in if a == 0x2 then some more else rest

unfoldable pub set_leds : Kboard → Option Kboard
set_leds k = do
  s₁ ← kb_wait k.status
  s₂ ← kb_wait s₁
  some (out k.leds 0x60 (out 0xed 0x60 (record k { status = s₂ })))

unfoldable pub caps : Kboard → Option Kboard
caps k =
    let on =
      set_leds
        (record k { leds = bit_xor k.leds 0x04; mode = bit_or (bit_xor k.mode 0x40) 0x80 }) in
    if tests k.mode 0x80 then some k else on

unfoldable pub uncaps : Kboard → Kboard
uncaps k = set_mode (bit_and k.mode 0x7f) k

unfoldable pub scroll : Kboard → Option Kboard
scroll k = set_leds (record k { leds = bit_xor k.leds 0x1 })

unfoldable pub num : Kboard → Option Kboard
num k = set_leds (record k { leds = bit_xor k.leds 0x2 })

-- `scan_code` wraps around below 0.
unfoldable pub cursor : Kboard → Kboard
cursor k =
    let i = u8 (k.scan_code + 256 - 0x47) in
    let k' = record k { scan_code = i } in
    let c = get_or cur_table i 0 in
    let marked = if ltb c b'9' then put b'~' k' else k' in
    if ltb 12 i
    then k'
    else (if not (k.e0 == 0) || tests k.leds 0x2
        then put c (put 0x5b (put 0x1b marked))
        else put (get_or num_table i 0) k')

unfoldable pub func : Kboard → Kboard
func k =
    let i = u8 (k.scan_code + 256 - 0x3b) in
    let j = if ltb 9 i then u8 (i + 256 - 18) else i in
    let k' = record k { scan_code = j } in
    if ltb 11 j then k' else put (b'A' + j) (put 0x5b (put 0x5b (put 0x1b k')))

unfoldable pub minus : Kboard → Kboard
minus k = if k.e0 == 1 then put b'/' k else do_self k

-- The call through `key_table`; alt and unalt do nothing.
unfoldable pub call : Key → Kboard → Option Kboard
call Key.no_key k = some k
call Key.do_self k = some (do_self k)
call Key.ctrl k = some (ctrl k)
call Key.unctrl k = some (unctrl k)
call Key.lshift k = some (lshift k)
call Key.unlshift k = some (unlshift k)
call Key.rshift k = some (rshift k)
call Key.unrshift k = some (unrshift k)
call Key.caps k = caps k
call Key.uncaps k = some (uncaps k)
call Key.alt k = some k
call Key.unalt k = some k
call Key.minus k = some (minus k)
call Key.num k = num k
call Key.scroll k = scroll k
call Key.cursor k = some (cursor k)
call Key.func k = some (func k)

-- What is done with the byte that is read from port 0x60.
unfoldable pub take_code : ℕ → Kboard → Option Kboard
take_code code k =
    let called = call (get_or key_table code Key.no_key) k in
    if code == 0xe0
    then some (record k { e0 = 1 })
    else if code == 0xe1
    then some (record k { e0 = 2 })
    else called

-- `code` is what port 0x60 gives. The handler keeps it in a variable of its own.
unfoldable pub keyboard_handler : ℕ → Kboard → Option Kboard
keyboard_handler code k = do
  k' ← take_code code (out 0x20 0x20 k)
  t ← do_tty_interrupt k'.tty
  some (record k' { tty = t })
