-- ===== src/Keyboard/Lights.antt =====
-- kernel/chr_drv/kboard.c: the bit of caps lock in `mode` and its light in `leds`.
use my_linux_kernel.Common.{ℕ, ◌<◌, ◌≡◌, ◌∙◌, sym, ap, Bool, true, not, ◌&&◌, ltb, ltb→lt}
use my_linux_kernel.Common.Bytes.{all_below, all_below-elim, same_bool, same_bool-elim, both_true}
use my_linux_kernel.Keyboard.{tests}

-- Caps lock is on in `mode` exactly if its light is on in `leds`.
pub record IsSynced (mode leds : ℕ) : Type 0 where
  pub mode_byte : mode < 256
  pub leds_byte : leds < 256
  pub same : tests mode 0x40 ≡ tests leds 0x04

-- A change `f` of a byte that keeps, or turns over, the bit `b`, tried on all bytes.
abbrev pub keeps : ℕ → (ℕ → ℕ) → ℕ → Bool
keeps b f m = ltb (f m) 256 && same_bool (tests (f m) b) (tests m b)

abbrev flips : ℕ → (ℕ → ℕ) → ℕ → Bool
flips b f m = ltb (f m) 256 && same_bool (tests (f m) b) (not (tests m b))

module _ (b : ℕ) (f : ℕ → ℕ) (m : ℕ) where
  kept : all_below 256 (keeps b f) ≡ true → m < 256 → (f m < 256) × (tests (f m) b ≡ tests m b)
  kept all small =
      let (byte, same) = both_true _ _ (all_below-elim 256 (keeps b f) m all small) in
      (ltb→lt (f m) 256 byte, same_bool-elim _ _ same)

  flipped :
      all_below 256 (flips b f) ≡ true → m < 256 → (f m < 256) × (tests (f m) b ≡ not (tests m b))
  flipped all small =
      let (byte, same) = both_true _ _ (all_below-elim 256 (flips b f) m all small) in
      (ltb→lt (f m) 256 byte, same_bool-elim _ _ same)

module _ {m l : ℕ} (s : IsSynced m l) where
  pub mode_kept : (f : ℕ → ℕ) → all_below 256 (keeps 0x40 f) ≡ true → IsSynced (f m) l
  mode_kept f all =
      let (byte, same) = kept 0x40 f m all s.mode_byte in
      record { mode_byte = byte; leds_byte = s.leds_byte; same = same ∙ s.same }

  pub leds_kept : (f : ℕ → ℕ) → all_below 256 (keeps 0x04 f) ≡ true → IsSynced m (f l)
  leds_kept f all =
      let (byte, same) = kept 0x04 f l all s.leds_byte in
      record { mode_byte = s.mode_byte; leds_byte = byte; same = s.same ∙ sym same }

  pub both_flipped :
      (f g : ℕ → ℕ)
      → all_below 256 (flips 0x40 f) ≡ true
      → all_below 256 (flips 0x04 g) ≡ true
      → IsSynced (f m) (g l)
  both_flipped f g all_f all_g =
      let (byte, same) = flipped 0x40 f m all_f s.mode_byte in
      let (byte', same') = flipped 0x04 g l all_g s.leds_byte in
      record { mode_byte = byte; leds_byte = byte'; same = same ∙ ap not s.same ∙ sym same' }
