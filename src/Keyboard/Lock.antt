-- ===== src/Keyboard/Lock.antt =====
-- kernel/chr_drv/kboard.c: caps lock in `mode` and in `leds`, through every handler and the interrupt.
use my_linux_kernel.Common.{
  ℕ, ◌==◌, ◌≡◌, refl, inl, inr, Bool, true, false, not, ◌||◌, ◌+◌, ◌-◌, Bool-cases, List, ◌∷◌,
  Option, some, get_or, ltb, u8, bit_and, bit_or, bit_xor, if◌then◌else◌,
}
use my_linux_kernel.Common.Bytes.{all_below}
use my_linux_kernel.Tty.Queue.Fifo.{IsValid, putch-IsValid}
use my_linux_kernel.Tty.Cooked.{do_tty_interrupt}
use my_linux_kernel.Tty.Cooked.Loop.{Emptied, copy_to_cooked-Drained}
use my_linux_kernel.Keyboard.{
  Kboard, tests, entry, with_caps, put, out, do_self, lshift, unlshift, rshift, unrshift, ctrl,
  unctrl, kb_wait, set_leds, caps, uncaps, scroll, num, cursor, func, minus, call, take_code,
  keyboard_handler,
}
use my_linux_kernel.Keyboard.Lights.{IsSynced, keeps, mode_kept, leds_kept, both_flipped}
use my_linux_kernel.Keyboard.Table.{Key, key_table, key_map, shift_map, cur_table, num_table}

-- What a handler keeps, and what it needs: queues that are ready, and a controller that answers.
record Ready (k : Kboard) : Type 0 where
  pub synced : IsSynced k.mode k.leds
  pub read_valid : IsValid k.tty.read_q
  pub wrote_all : Emptied k.tty.write_q

abbrev Answers : Kboard → Type 0
Answers k = (rest : List ℕ) × (k.status ≡ 0x2 ∷ 0x2 ∷ rest)

abbrev Handled : Option Kboard → Type 0
Handled r = (k : Kboard) × (r ≡ some k) × Ready k

set_leds-Handled : (k : Kboard) → Ready k → Answers k → Handled (set_leds k)
unfolding set_leds kb_wait out
set_leds-Handled k r (rest, e) =
    rw e (_, refl, record { synced = r.synced; read_valid = r.read_valid; wrote_all = r.wrote_all })

put-Ready : (c : ℕ) {k : Kboard} → Ready k → Ready (put c k)
unfolding put
put-Ready c r = record {
  synced = r.synced;
  read_valid = putch-IsValid c r.read_valid;
  wrote_all = r.wrote_all;
}

mode_Ready :
    (f : ℕ → ℕ) {k : Kboard}
    → Ready k
    → all_below 256 (keeps 0x40 f) ≡ true
    → Ready (record k { mode = f k.mode })
mode_Ready f r all = record {
  synced = mode_kept r.synced f all;
  read_valid = r.read_valid;
  wrote_all = r.wrote_all;
}

at_code : (i : ℕ) {k : Kboard} → Ready k → Ready (record k { scan_code = i })
at_code i r = record { synced = r.synced; read_valid = r.read_valid; wrote_all = r.wrote_all }

with_e0 : (i : ℕ) {k : Kboard} → Ready k → Ready (record k { e0 = i })
with_e0 i r = record { synced = r.synced; read_valid = r.read_valid; wrote_all = r.wrote_all }

if_Ready : (b : Bool) {k k' : Kboard} → Ready k → Ready k' → Ready (if b then k else k')
if_Ready true r r' = r
if_Ready false r r' = r'

caps-Handled : (k : Kboard) → Ready k → Answers k → Handled (caps k)
unfolding caps tests
caps-Handled k r a = elim (Bool-cases (tests k.mode 0x80)) [
  | inl e ↦ rw e (k, refl, r)
  | inr e ↦ rw e (
      set_leds-Handled _
        (record {
          synced =
              both_flipped r.synced (λ m. bit_or (bit_xor m 0x40) 0x80) (λ l. bit_xor l 0x04) refl
                refl;
          read_valid = r.read_valid;
          wrote_all = r.wrote_all;
        })
        a)
]

leds-Handled :
    (f : ℕ → ℕ) (k : Kboard)
    → Ready k
    → Answers k
    → all_below 256 (keeps 0x04 f) ≡ true
    → Handled (set_leds (record k { leds = f k.leds }))
leds-Handled f k r a all =
    set_leds-Handled _
      (record {
        synced = leds_kept r.synced f all;
        read_valid = r.read_valid;
        wrote_all = r.wrote_all;
      })
      a

do_self-Ready : (k : Kboard) → Ready k → Ready (do_self k)
unfolding do_self
do_self-Ready k r =
    let c = entry (if tests k.mode 0x3 then shift_map else key_map) k.scan_code k in
    if_Ready (c == 0) r (put-Ready (with_caps k.mode c) r)

cursor-Ready : (k : Kboard) → Ready k → Ready (cursor k)
unfolding cursor
cursor-Ready k r =
    let i = u8 (k.scan_code + 256 - 0x47) in
    let c = get_or cur_table i 0 in
    let moved = at_code i r in
    if_Ready (ltb 12 i) moved (
      if_Ready (not (k.e0 == 0) || tests k.leds 0x2)
        (put-Ready c
          (put-Ready 0x5b (put-Ready 0x1b (if_Ready (ltb c b'9') (put-Ready b'~' moved) moved))))
        (put-Ready (get_or num_table i 0) moved))

func-Ready : (k : Kboard) → Ready k → Ready (func k)
unfolding func
func-Ready k r =
    let i = u8 (k.scan_code + 256 - 0x3b) in
    let j = if ltb 9 i then u8 (i + 256 - 18) else i in
    let moved = at_code j r in
    if_Ready (ltb 11 j) moved
      (put-Ready (b'A' + j) (put-Ready 0x5b (put-Ready 0x5b (put-Ready 0x1b moved))))

minus-Ready : (k : Kboard) → Ready k → Ready (minus k)
unfolding minus
minus-Ready k r = if_Ready (k.e0 == 1) (put-Ready b'/' r) (do_self-Ready k r)

call-Handled : (key : Key) (k : Kboard) → Ready k → Answers k → Handled (call key k)
unfolding call tests lshift unlshift rshift unrshift ctrl unctrl uncaps scroll num
call-Handled Key.no_key k r a = (_, refl, r)
call-Handled Key.do_self k r a = (_, refl, do_self-Ready k r)
call-Handled Key.ctrl k r a = elim (Bool-cases (k.e0 == 0)) [
  | inl e ↦ rw e (_, refl, mode_Ready (λ m. bit_or m 0x04) r refl)
  | inr e ↦ rw e (_, refl, mode_Ready (λ m. bit_or m 0x8) r refl)
]
call-Handled Key.unctrl k r a = elim (Bool-cases (k.e0 == 0)) [
  | inl e ↦ rw e (_, refl, mode_Ready (λ m. bit_and m 0xfb) r refl)
  | inr e ↦ rw e (_, refl, mode_Ready (λ m. bit_and m 0xf7) r refl)
]
call-Handled Key.lshift k r a = (_, refl, mode_Ready (λ m. bit_or m 0x01) r refl)
call-Handled Key.unlshift k r a = (_, refl, mode_Ready (λ m. bit_and m 0xfe) r refl)
call-Handled Key.rshift k r a = (_, refl, mode_Ready (λ m. bit_or m 0x02) r refl)
call-Handled Key.unrshift k r a = (_, refl, mode_Ready (λ m. bit_and m 0xfd) r refl)
call-Handled Key.caps k r a = caps-Handled k r a
call-Handled Key.uncaps k r a = (_, refl, mode_Ready (λ m. bit_and m 0x7f) r refl)
call-Handled Key.alt k r a = (_, refl, r)
call-Handled Key.unalt k r a = (_, refl, r)
call-Handled Key.minus k r a = (_, refl, minus-Ready k r)
call-Handled Key.num k r a = leds-Handled (λ l. bit_xor l 0x2) k r a refl
call-Handled Key.scroll k r a = leds-Handled (λ l. bit_xor l 0x1) k r a refl
call-Handled Key.cursor k r a = (_, refl, cursor-Ready k r)
call-Handled Key.func k r a = (_, refl, func-Ready k r)

take_code-Handled : (code : ℕ) (k : Kboard) → Ready k → Answers k → Handled (take_code code k)
unfolding take_code
take_code-Handled code k r a = elim (Bool-cases (code == 0xe0)) [
  | inl e ↦ rw e (_, refl, with_e0 1 r)
  | inr e ↦ elim (Bool-cases (code == 0xe1)) [
    | inl f ↦ rw (e, f) (_, refl, with_e0 2 r)
    | inr f ↦ rw (e, f) (call-Handled (get_or key_table code Key.no_key) k r a)
  ]
]

-- Where the read queue is valid, the write queue valid and empty, the keyboard controller
-- answers twice at once, and caps lock is on exactly if its light is, every scan code is
-- handled to the end: both queues are empty afterwards, and caps lock is still on exactly if
-- its light is.
pub keyboard_handler-Handled :
    (code : ℕ) (k : Kboard) (rest : List ℕ)
    → IsSynced k.mode k.leds
    → IsValid k.tty.read_q
    → Emptied k.tty.write_q
    → k.status ≡ 0x2 ∷ 0x2 ∷ rest
    → (k' : Kboard) × (keyboard_handler code k ≡ some k')
      × IsSynced k'.mode k'.leds
      × Emptied k'.tty.read_q
      × Emptied k'.tty.write_q
unfolding keyboard_handler out do_tty_interrupt
keyboard_handler-Handled code k rest synced valid wrote answers =
    let (k₁, e, r) =
      take_code-Handled code (record k { ports = (0x20, 0x20) ∷ k.ports })
        (record { synced = synced; read_valid = valid; wrote_all = wrote }) (rest, answers) in
    let (t, f, d) = copy_to_cooked-Drained k₁.tty r.read_valid r.wrote_all in
    (record k₁ { tty = t }, rw (e, f) refl, r.synced, d.read_all, d.wrote_all)
