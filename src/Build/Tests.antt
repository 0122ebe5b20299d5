-- ===== src/Build/Tests.antt =====
-- Witnesses of the theorems on tools/build.c, and the root device that a hard disk becomes.
use my_linux_kernel.Common.{
  ℕ, ◌==◌, ◌≡◌, refl, List, [], ◌∷◌, ◌++◌, Option, none, some, replicate, if◌then◌else◌,
}
use my_linux_kernel.Build.Run.{returned}
use my_linux_kernel.Build.{
  Arg, Root, root_device, build, same_arg, put, pad, copy_chunks, put_boot, put_setup, put_system,
  put_image,
}
use my_linux_kernel.Build.Writes.{Meets}
use my_linux_kernel.Build.Files.{padded, patched}
use my_linux_kernel.Build.Image.{wanted_root, image, build-Meets}
use my_linux_kernel.Build.Layout.{IsImage, build-IsImage}

-- A boot sector, a setup in two reads, and a system.
abbrev files : Arg → Option (List (List ℕ))
files name =
    if same_arg name (1 ∷ [])
    then some (replicate 512 0x55 ∷ [])
    else if same_arg name (2 ∷ [])
    then some (replicate 300 1 ∷ replicate 200 2 ∷ [])
    else if same_arg name (3 ∷ [])
    then some (replicate 100 3 ∷ [])
    else none

-- /dev/hda2: the device number 0x302
abbrev devices : Arg → Option ℕ
devices name = some 0x302

abbrev all_of_it : List ℕ → ℕ → ℕ
all_of_it out c = c

abbrev half : List ℕ → ℕ → ℕ
half out c = if c == 200 then 100 else c

abbrev arguments : List Arg
arguments = (0 ∷ []) ∷ (1 ∷ []) ∷ (2 ∷ []) ∷ (3 ∷ []) ∷ []

hard_disk :
    root_device devices (arguments ++ (5 ∷ []) ∷ []) []
    ≡ returned (record { major = 0; minor = 2 }) []
unfolding root_device
hard_disk = refl

abbrev disk : Root
disk = record { major = 3; minor = 6 }

built :
    build all_of_it devices files arguments []
    ≡ returned tt (
        (patched disk (replicate 512 0x55) ++ padded (replicate 300 1 ++ replicate 200 2))
        ++ replicate 100 3)
unfolding build root_device put_image put_boot put_setup put_system copy_chunks pad put
built = refl

build-Meets_example :
    Meets half (build half devices files arguments []) (image devices files arguments)
build-Meets_example = build-Meets devices files half arguments

build-IsImage_example :
    (root : Root) × (wanted_root devices arguments ≡ some root)
    × IsImage root (files (1 ∷ [])) (files (2 ∷ [])) (files (3 ∷ [])) (
        (patched disk (replicate 512 0x55) ++ padded (replicate 300 1 ++ replicate 200 2))
        ++ replicate 100 3)
build-IsImage_example = build-IsImage devices files all_of_it arguments _ built
