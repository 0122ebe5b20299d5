-- ===== src/Build.antt =====
-- main of tools/build.c: the boot sector, the setup and the system become one image on the standard
-- output. A run keeps what has been written so far; die ends it, with one of its messages.
pub mod Run
pub mod Writes
pub mod Files
pub mod Image
pub mod Layout
mod Tests
use my_linux_kernel.Common.{
  ℕ, zero, suc, ◌+◌, ◌-◌, ◌*◌, ◌/◌, ◌==◌, ◌&&◌, ◌||◌, not, Bool, true, false, List, [], ◌∷◌, ◌++◌,
  Option, none, some, ltb, leb, u8, bit_and, get_or, set, length, take, drop, replicate,
  if◌then◌else◌,
}
use my_linux_kernel.Build.Run.{
  Outcome, W, returned, died, endless, overflow, pure, die, ◌>>=◌, ◌>>◌, usage, cannot_stat,
  bad_root, cannot_open_boot, bad_boot, cannot_open_setup, setup_too_big, cannot_open_system,
  system_too_big, write_failed,
}

-- The bytes of an argument.
abbrev pub Arg : Type 0
Arg = List ℕ

-- SETUP_SECTS * 512, SYS_SIZE * 16, sizeof(buf), the greatest int, and ARG_LEN
abbrev pub setup_size : ℕ
setup_size = 4 * 512

abbrev pub system_size : ℕ
system_size = 0x2000 * 16

abbrev pub buf_size : ℕ
buf_size = 1024

abbrev pub int_max : ℕ
int_max = 0x7fffffff

abbrev pub arg_len : ℕ
arg_len = 4

-- `strcmp(a, b)` is 0
abbrev pub same_arg : Arg → Arg → Bool
same_arg [] [] = true
same_arg (a ∷ xs) (b ∷ ys) = a == b && same_arg xs ys
same_arg xs ys = false

abbrev pub floppy : Arg
floppy = b'F' ∷ b'L' ∷ b'O' ∷ b'P' ∷ b'P' ∷ b'Y' ∷ []

-- major_root and minor_root, as the bytes of the two chars
pub record Root : Type 0 where
  pub major : ℕ
  pub minor : ℕ

-- The loops that clear `buf`.
abbrev pub zeros : ℕ → List ℕ
zeros n = replicate n 0

-- What `read` leaves in `buf`: the bytes that it has read, in front of the old ones.
abbrev pub fill : List ℕ → List ℕ → List ℕ
fill chunk buf = chunk ++ drop (length chunk) buf

-- The first `read` of the boot file, into a buffer of zeros.
abbrev pub first_read : List (List ℕ) → List ℕ
first_read [] = []
first_read (chunk ∷ chunks) = chunk

abbrev pub device_root : Option ℕ → W Root
device_root none = die cannot_stat
device_root (some rdev) =
    pure (record { major = u8 (bit_and rdev 0xff00); minor = u8 (bit_and rdev 0x00ff) })

-- The root device that the arguments ask for. `stat` gives the device number of a file, if it finds
-- the file.
unfoldable pub root_device : (Arg → Option ℕ) → List Arg → W Root
root_device stat argv =
    if length argv == arg_len + 1
    then (if same_arg (get_or argv arg_len []) floppy
        then pure (record { major = 0; minor = 0 })
        else device_root (stat (get_or argv arg_len [])))
    else pure (record { major = 3; minor = 6 })

-- `accepted` is how many of `c` bytes `write` takes behind those that are written. A file is what the
-- calls of `read` give, up to the first that gives nothing or fails, if open finds it.
module _ (accepted : List ℕ → ℕ → ℕ) where
  -- `write(1, buf, c)`, and die where it does not write all
  unfoldable pub put : List ℕ → ℕ → W (Unit {0})
  put buf c out =
      let k = accepted out c in
      let after = out ++ take k buf in if k == c then returned tt after else died write_failed after

  -- The boot sector with the root device in its bytes 508 and 509; what it returns is `buf`.
  unfoldable pub put_boot : Root → Option (List (List ℕ)) → W (List ℕ)
  put_boot root none = die cannot_open_boot
  put_boot root (some chunks) =
      let block = first_read chunks in
      let buf = set (set (fill block (zeros buf_size)) 508 root.minor) 509 root.major in
      if not (length block == 512) then die bad_boot else (put buf 512 >> pure buf)

  -- The loop that copies a file, with `i` bytes copied so far, an int.
  unfoldable pub copy_chunks : List (List ℕ) → ℕ → List ℕ → W (ℕ × List ℕ)
  copy_chunks [] i buf = pure (i, buf)
  copy_chunks (chunk ∷ chunks) i buf =
      put (fill chunk buf) (length chunk)
      >> (let more = copy_chunks chunks (i + length chunk) (fill chunk buf) in
          if ltb int_max (i + length chunk) then (λ out. overflow) else more)

  -- The loop that fills up the setup with zeros, on fuel.
  unfoldable pub pad : ℕ → ℕ → List ℕ → W (Unit {0})
  pad zero i buf out = endless
  pad (suc fuel) i buf out =
      let c = if ltb buf_size (setup_size - i) then buf_size else setup_size - i in
      let more = (put buf c >> pad fuel (i + c) buf) out in
      if ltb i setup_size then more else returned tt out

  unfoldable pub put_setup : List ℕ → Option (List (List ℕ)) → W (Unit {0})
  put_setup buf none = die cannot_open_setup
  put_setup buf (some chunks) = do
    (i, last) ← copy_chunks chunks 0 buf
    if ltb setup_size i then die setup_too_big else pad 3 i (zeros buf_size)

  unfoldable pub put_system : Option (List (List ℕ)) → W (Unit {0})
  put_system none = die cannot_open_system
  put_system (some chunks) = do
    (i, last) ← copy_chunks chunks 0 (zeros buf_size)
    if ltb system_size i then die system_too_big else pure tt

  -- The check of the major number, and the three files in the order of main.
  unfoldable pub put_image : (Arg → Option (List (List ℕ))) → List Arg → Root → W (Unit {0})
  put_image open_file argv root =
      if not (root.major == 2) && (not (root.major == 3) && not (root.major == 0))
      then die bad_root
      else (do
        buf ← put_boot root (open_file (get_or argv 1 []))
        put_setup buf (open_file (get_or argv 2 []))
        put_system (open_file (get_or argv 3 [])))

  -- `argv` with the name of the program in front; open_file is open and the calls of read.
  unfoldable pub build : (Arg → Option ℕ) → (Arg → Option (List (List ℕ))) → List Arg → W (Unit {0})
  build stat open_file argv =
      if not (length argv == arg_len) && not (length argv == arg_len + 1)
      then die usage
      else root_device stat argv >>= put_image open_file argv
