-- ===== src/Build/Layout.antt =====
-- main of tools/build.c: what an image holds where main returns.
use my_linux_kernel.Common.{
  ℕ, ◌+◌, ◌-◌, ◌≤◌, ◌==◌, ◌≡◌, ◌≢◌, inl, inr, sym, ◌∙◌, refl, arith, Bool-cases, List, [], ◌++◌,
  Option, none, some, length, length-append, length-set, length-replicate, ltb, get_or, set, ap,
}
use my_linux_kernel.Build.Run.{Outcome, Message, overflow, returned, died}
use my_linux_kernel.Build.{Arg, Root, first_read, zeros, int_max, setup_size, system_size, build}
use my_linux_kernel.Build.Writes.{bytes}
use my_linux_kernel.Build.Files.{padded, patched, with_system, with_setup, with_boot}
use my_linux_kernel.Build.Image.{bad_count, wanted_root, with_root, image, build-Meets}

-- An image of three files that can be opened and are not too big.
pub record IsImage (root : Root) (boot setup system : Option (List (List ℕ))) (out : List ℕ)
    : Type 0 where
  pub boot_file : List (List ℕ)
  pub setup_file : List (List ℕ)
  pub system_file : List (List ℕ)
  pub opened : (boot ≡ some boot_file) × (setup ≡ some setup_file) × (system ≡ some system_file)
  pub block : length (first_read boot_file) ≡ 512
  pub setup_fits : length (bytes setup_file) ≤ setup_size
  pub system_fits : length (bytes system_file) ≤ system_size
  pub holds :
      out ≡ (patched root (first_read boot_file) ++ padded (bytes setup_file)) ++ bytes system_file
  pub size : length out ≡ 512 + 2048 + length (bytes system_file)

returned-ne-died :
    {A : Type 0} {a : A} {out out' : List ℕ} {message : Message}
    → returned a out ≢ died message out'
returned-ne-died e = cc

returned-ne-overflow : {A : Type 0} {a : A} {out : List ℕ} → returned a out ≢ overflow
returned-ne-overflow e = cc

returned-inj :
    {out out' : List ℕ}
    → ◌≡◌ {A = Outcome (Unit {0})} (returned tt out) (returned tt out')
    → out ≡ out'
returned-inj e = cc

size_lem :
    (root : Root) (block setup system : List ℕ)
    → length block ≡ 512
    → length setup ≤ setup_size
    → length ((patched root block ++ padded setup) ++ system) ≡ 512 + 2048 + length system
size_lem root block setup system whole fits = omega (
  arith,
  length-append (patched root block ++ padded setup) system,
  length-append (patched root block) (padded setup),
  length-append setup (zeros (setup_size - length setup)),
  length-replicate {A = ℕ} (setup_size - length setup) 0,
  length-set block 508 root.minor,
  length-set (set block 508 root.minor) 509 root.major,
)

with_system_lem :
    (before : List ℕ) (system : Option (List (List ℕ))) (out : List ℕ)
    → with_system before system ≡ returned tt out
    → (file : List (List ℕ)) × (system ≡ some file)
      × (length (bytes file) ≤ system_size)
      × (out ≡ before ++ bytes file)
with_system_lem before none out e = absurd (returned-ne-died (sym e))
with_system_lem before (some file) out e = elim (Bool-cases (ltb int_max (length (bytes file)))) [
  | inl over ↦ absurd (returned-ne-overflow (sym (rw over at e)))
  | inr int ↦ elim (Bool-cases (ltb system_size (length (bytes file)))) [
    | inl big ↦ absurd (returned-ne-died {out' = before ++ bytes file} (sym (rw (int, big) at e)))
    | inr fits ↦ (file, refl, ground arith, sym (returned-inj (rw (int, fits) at e)))
  ]
]

with_setup_lem :
    (before : List ℕ) (setup system : Option (List (List ℕ))) (out : List ℕ)
    → with_setup before setup system ≡ returned tt out
    → (file : List (List ℕ)) × (setup ≡ some file)
      × (length (bytes file) ≤ setup_size)
      × (with_system (before ++ padded (bytes file)) system ≡ returned tt out)
with_setup_lem before none system out e = absurd (returned-ne-died (sym e))
with_setup_lem before (some file) system out e =
    elim (Bool-cases (ltb int_max (length (bytes file)))) [
      | inl over ↦ absurd (returned-ne-overflow (sym (rw over at e)))
      | inr int ↦ elim (Bool-cases (ltb setup_size (length (bytes file)))) [
        | inl big ↦
            absurd (returned-ne-died {out' = before ++ bytes file} (sym (rw (int, big) at e)))
        | inr fits ↦ (file, refl, ground arith, rw (int, fits) at e)
      ]
    ]

with_boot-IsImage :
    (root : Root) (boot setup system : Option (List (List ℕ))) (out : List ℕ)
    → with_boot root boot setup system ≡ returned tt out
    → IsImage root boot setup system out
with_boot-IsImage root none setup system out e = absurd (returned-ne-died (sym e))
with_boot-IsImage root (some b) setup system out e =
    elim (Bool-cases (length (first_read b) == 512)) [
      | inl whole ↦
          let block : length (first_read b) ≡ 512 = ground arith in
          let (s, s_opened, s_fits, rest) = with_setup_lem _ setup system out (rw whole at e) in
          let (y, y_opened, y_fits, same) = with_system_lem _ system out rest in
          record {
            boot_file = b;
            setup_file = s;
            system_file = y;
            opened = (refl, s_opened, y_opened);
            block = block;
            setup_fits = s_fits;
            system_fits = y_fits;
            holds = same;
            size = ap length same ∙ size_lem root (first_read b) (bytes s) (bytes y) block s_fits;
          }
      | inr other ↦ absurd (returned-ne-died {out' = []} (sym (rw other at e)))
    ]

-- What the theorem on the image says of a run.
module _ (stat : Arg → Option ℕ) (open_file : Arg → Option (List (List ℕ)))
    (accepted : List ℕ → ℕ → ℕ) (argv : List Arg) (out : List ℕ) where
  with_root-IsImage :
      (o : Option Root)
      → with_root
          (λ root.
            with_boot root
              (open_file (get_or argv 1 []))
              (open_file (get_or argv 2 []))
              (open_file (get_or argv 3 [])))
          o
        ≡ returned tt out
      → (root : Root) × (o ≡ some root)
        × IsImage root
            (open_file (get_or argv 1 []))
            (open_file (get_or argv 2 []))
            (open_file (get_or argv 3 []))
            out
  with_root-IsImage none e = absurd (returned-ne-died (sym e))
  with_root-IsImage (some root) e = (root, refl, with_boot-IsImage root _ _ _ out e)

  image-IsImage :
      image stat open_file argv ≡ returned tt out
      → (root : Root) × (wanted_root stat argv ≡ some root)
        × IsImage root
            (open_file (get_or argv 1 []))
            (open_file (get_or argv 2 []))
            (open_file (get_or argv 3 []))
            out
  image-IsImage e = elim (Bool-cases (bad_count argv)) [
    | inl bad ↦ absurd (returned-ne-died {out' = []} (sym (rw bad at e)))
    | inr good ↦ with_root-IsImage (wanted_root stat argv) (rw good at e)
  ]

  -- Where main of tools/build.c returns 0 and no count of bytes has overflowed an int, the
  -- image is the boot block of 512 bytes with the root device in its bytes 508 and 509, the
  -- setup of at most 2048 bytes filled up with zeros, and the system of at most 131072 bytes:
  -- 2560 bytes and those of the system.
  pub build-IsImage :
      build accepted stat open_file argv [] ≡ returned tt out
      → (root : Root) × (wanted_root stat argv ≡ some root)
        × IsImage root
            (open_file (get_or argv 1 []))
            (open_file (get_or argv 2 []))
            (open_file (get_or argv 3 []))
            out
  build-IsImage e = elim (build-Meets stat open_file accepted argv) [
    | inl same ↦ image-IsImage (sym same ∙ e)
    | inr (left, failed, why) ↦ absurd (returned-ne-died (sym e ∙ failed))
  ]
