-- ===== src/Build/Image.antt =====
-- main of tools/build.c: the image as the bytes of the three files, and what stops it.
use my_linux_kernel.Common.{
  ℕ, ◌+◌, ◌%◌, ◌==◌, ◌≡◌, ◌⊎◌, inl, inr, refl, ◌&&◌, not, false, Bool, Bool-cases, List, [], Option,
  none, some, u8, bit_and, get_or, length, arith, if◌then◌else◌,
}
use my_linux_kernel.Common.Bits.{bit_and_low, bit_and_shift}
use my_linux_kernel.Build.Run.{Outcome, returned, died, and_then, usage, cannot_stat}
use my_linux_kernel.Build.{
  Arg, arg_len, same_arg, floppy, Root, device_root, root_device, put_image, build,
}
use my_linux_kernel.Build.Writes.{Meets}
use my_linux_kernel.Build.Files.{with_boot, with_boot_lem}

abbrev pub bad_count : List Arg → Bool
bad_count argv = not (length argv == arg_len) && not (length argv == arg_len + 1)

abbrev pub wanted_device : Option ℕ → Option Root
wanted_device none = none
wanted_device (some rdev) = some (record { major = 0; minor = rdev % 256 })

-- The root device that the arguments ask for: none where stat does not find it. The major number of
-- a device that stat finds is 0.
abbrev pub wanted_root : (Arg → Option ℕ) → List Arg → Option Root
wanted_root stat argv =
    if length argv == arg_len + 1
    then (if same_arg (get_or argv arg_len []) floppy
        then some (record { major = 0; minor = 0 })
        else wanted_device (stat (get_or argv arg_len [])))
    else some (record { major = 3; minor = 6 })

abbrev pub with_root : (Root → Outcome (Unit {0})) → Option Root → Outcome (Unit {0})
with_root rest none = died cannot_stat []
with_root rest (some root) = rest root

-- The image, or what stops it.
abbrev pub image : (Arg → Option ℕ) → (Arg → Option (List (List ℕ))) → List Arg → Outcome (Unit {0})
image stat open_file argv =
    if bad_count argv
    then died usage []
    else with_root
        (λ root.
          with_boot root (open_file (get_or argv 1 [])) (open_file (get_or argv 2 []))
            (open_file (get_or argv 3 [])))
        (wanted_root stat argv)

abbrev found : Option Root → Outcome Root
found none = died cannot_stat []
found (some root) = returned root []

high_byte : (rdev : ℕ) → u8 (bit_and rdev 0xff00) ≡ 0
high_byte rdev = omega (arith, bit_and_shift 8 rdev 0xff)

device_root_lem : (o : Option ℕ) → device_root o [] ≡ found (wanted_device o)
device_root_lem none = refl
device_root_lem (some rdev) =
    let low : u8 (bit_and rdev 0xff) ≡ rdev % 256 = omega (arith, bit_and_low 8 rdev 0xff refl) in
    rw (high_byte rdev, low) refl

root_device_lem :
    (stat : Arg → Option ℕ) (argv : List Arg)
    → root_device stat argv [] ≡ found (wanted_root stat argv)
unfolding root_device
root_device_lem stat argv = elim (Bool-cases (length argv == arg_len + 1)) [
  | inl given ↦ rw given (elim (Bool-cases (same_arg (get_or argv arg_len []) floppy)) [
    | inl disk ↦ rw disk refl
    | inr device ↦ rw device (device_root_lem (stat (get_or argv arg_len [])))
  ])
  | inr default ↦ rw default refl
]

-- A root device whose major number main allows, or none.
abbrev IsAllowed : Option Root → Type 0
IsAllowed none = Unit
IsAllowed (some root) = (root.major ≡ 0) ⊎ (root.major ≡ 3)

device-IsAllowed : (o : Option ℕ) → IsAllowed (wanted_device o)
device-IsAllowed none = tt
device-IsAllowed (some rdev) = inl refl

wanted_root-IsAllowed :
    (stat : Arg → Option ℕ) (argv : List Arg) → IsAllowed (wanted_root stat argv)
wanted_root-IsAllowed stat argv = elim (Bool-cases (length argv == arg_len + 1)) [
  | inl given ↦ rw given (elim (Bool-cases (same_arg (get_or argv arg_len []) floppy)) [
    | inl disk ↦ rw disk (inl refl)
    | inr device ↦ rw device (device-IsAllowed (stat (get_or argv arg_len [])))
  ])
  | inr default ↦ rw default (inr refl)
]

module _ (stat : Arg → Option ℕ) (open_file : Arg → Option (List (List ℕ)))
    (accepted : List ℕ → ℕ → ℕ) (argv : List Arg) where
  put_image_lem :
      (root : Root)
      → (root.major ≡ 0) ⊎ (root.major ≡ 3)
      → Meets accepted (put_image accepted open_file argv root []) (
          with_boot root
            (open_file (get_or argv 1 []))
            (open_file (get_or argv 2 []))
            (open_file (get_or argv 3 [])))
  unfolding put_image
  put_image_lem root major =
      let good : not (root.major == 2) && (not (root.major == 3) && not (root.major == 0)) ≡ false =
        ground arith in
      rw good (with_boot_lem accepted root _ _ _)

  found_lem :
      (o : Option Root)
      → IsAllowed o
      → Meets accepted (and_then (found o) (put_image accepted open_file argv)) (
          with_root
            (λ root.
              with_boot root
                (open_file (get_or argv 1 []))
                (open_file (get_or argv 2 []))
                (open_file (get_or argv 3 [])))
            o)
  found_lem none good = inl refl
  found_lem (some root) good = put_image_lem root good

  -- Whatever the arguments, the files and the reads, main of tools/build.c ends as the files'
  -- bytes say, or dies where write has not taken as many bytes as it was given: with the image,
  -- or with the first of the causes that stop it, in the order of the code. Where a file has
  -- more bytes than an int holds, the count overflows, and no result is stated. The major
  -- number of a root device that stat finds is 0.
  pub build-Meets :
      Meets accepted (build accepted stat open_file argv []) (image stat open_file argv)
  unfolding build
  build-Meets = elim (Bool-cases (bad_count argv)) [
    | inl bad ↦ rw bad (inl refl)
    | inr good ↦
        rw (good, root_device_lem stat argv)
          (found_lem (wanted_root stat argv) (wanted_root-IsAllowed stat argv))
  ]
