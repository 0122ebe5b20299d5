-- ===== src/Build/Files.antt =====
-- The three files that tools/build.c copies, as bytes.
use my_linux_kernel.Common.{
  ℕ, zero, suc, ◌-◌, ◌==◌, ◌≡◌, inl, inr, refl, ap, subst, sym, ◌∙◌, Bool-cases, List, [], ◌∷◌,
  ◌++◌, append_assoc, Option, none, some, ltb, set, length, take, arith, if◌then◌else◌,
}
use my_linux_kernel.Build.Run.{
  Outcome, overflow, returned, died, ◌>>=◌, ◌>>◌, cannot_open_boot, bad_boot, cannot_open_setup,
  setup_too_big, cannot_open_system, system_too_big,
}
use my_linux_kernel.Build.Writes.{
  bytes, Meets, bind_lem, take_filled, put_lem, pad_lem, copy_file_lem,
}
use my_linux_kernel.Build.{
  int_max, setup_size, system_size, buf_size, Root, zeros, fill, first_read, put_boot, put_setup,
  put_system,
}

-- The setup at the size that the boot sector loads.
abbrev pub padded : List ℕ → List ℕ
padded setup = setup ++ zeros (setup_size - length setup)

-- The boot sector that knows its root device.
abbrev pub patched : Root → List ℕ → List ℕ
patched root block = set (set block 508 root.minor) 509 root.major

-- What shall become of the files, from the last one on: `out` is the image before it.
abbrev pub with_system : List ℕ → Option (List (List ℕ)) → Outcome (Unit {0})
with_system out none = died cannot_open_system out
with_system out (some system) =
    if ltb int_max (length (bytes system))
    then overflow
    else if ltb system_size (length (bytes system))
    then died system_too_big (out ++ bytes system)
    else returned tt (out ++ bytes system)

abbrev pub with_setup :
    List ℕ → Option (List (List ℕ)) → Option (List (List ℕ)) → Outcome (Unit {0})
with_setup out none system = died cannot_open_setup out
with_setup out (some setup) system =
    if ltb int_max (length (bytes setup))
    then overflow
    else if ltb setup_size (length (bytes setup))
    then died setup_too_big (out ++ bytes setup)
    else with_system (out ++ padded (bytes setup)) system

abbrev pub with_boot :
    Root
    → Option (List (List ℕ))
    → Option (List (List ℕ))
    → Option (List (List ℕ))
    → Outcome (Unit {0})
with_boot root none setup system = died cannot_open_boot []
with_boot root (some boot) setup system =
    if length (first_read boot) == 512
    then with_setup (patched root (first_read boot)) setup system
    else died bad_boot []

take-set : (n i v : ℕ) (xs : List ℕ) → take n (set xs i v) ≡ set (take n xs) i v
take-set zero i v xs = refl
take-set (suc n) i v [] = refl
take-set (suc n) zero v (x ∷ xs) = refl
take-set (suc n) (suc i) v (x ∷ xs) = ap (λ (t : List ℕ). x ∷ t) (take-set n i v xs)

take-patched :
    (root : Root) (block buf : List ℕ)
    → length block ≡ 512
    → take 512 (patched root (fill block buf)) ≡ patched root block
take-patched root block buf size =
    take-set 512 509 root.major (set (fill block buf) 508 root.minor)
    ∙ ap (λ (t : List ℕ). set t 509 root.major)
        (take-set 512 508 root.minor (fill block buf)
          ∙ ap (λ (t : List ℕ). set t 508 root.minor)
              (subst (λ n. take n (fill block buf) ≡ block) size (take_filled block buf)))

module _ (accepted : List ℕ → ℕ → ℕ) where
  put_system_lem :
      (out : List ℕ) (system : Option (List (List ℕ)))
      → Meets accepted (put_system accepted system out) (with_system out system)
  unfolding put_system
  put_system_lem out none = inl refl
  put_system_lem out (some chunks) =
      let (last, copied) = copy_file_lem accepted chunks (zeros buf_size) out in
      bind_lem _ copied (elim (Bool-cases (ltb int_max (length (bytes chunks)))) [
        | inl over ↦ rw over (inl refl)
        | inr int ↦ rw int (elim (Bool-cases (ltb system_size (length (bytes chunks)))) [
          | inl big ↦ rw big (inl refl)
          | inr fits ↦ rw fits (inl refl)
        ])
      ])

  put_setup_lem :
      (buf out : List ℕ) (setup : List (List ℕ))
      → Meets accepted (put_setup accepted buf (some setup) out) (
          if ltb int_max (length (bytes setup))
          then overflow
          else if ltb setup_size (length (bytes setup))
          then died setup_too_big (out ++ bytes setup)
          else returned tt (out ++ padded (bytes setup)))
  unfolding put_setup
  put_setup_lem buf out setup =
      let n = length (bytes setup) in
      let (last, copied) = copy_file_lem accepted setup buf out in
      bind_lem _ copied (elim (Bool-cases (ltb int_max n)) [
        | inl over ↦ rw over (inl refl)
        | inr int ↦ rw int (elim (Bool-cases (ltb setup_size n)) [
          | inl big ↦ rw big (inl refl)
          | inr fits ↦
              rw (fits, sym (append_assoc out (bytes setup) (zeros (setup_size - n))))
                (pad_lem accepted 3 n (out ++ bytes setup) (ground arith) (omega arith))
        ])
      ])

  with_setup_lem :
      (buf out : List ℕ) (setup system : Option (List (List ℕ)))
      → Meets accepted
          ((put_setup accepted buf setup >> put_system accepted system) out)
          (with_setup out setup system)
  unfolding put_setup
  with_setup_lem buf out none system = inl refl
  with_setup_lem buf out (some setup) system =
      bind_lem _ (put_setup_lem buf out setup)
        (elim (Bool-cases (ltb int_max (length (bytes setup)))) [
          | inl over ↦ rw over (inl refl)
          | inr int ↦ rw int (elim (Bool-cases (ltb setup_size (length (bytes setup)))) [
            | inl big ↦ rw big (inl refl)
            | inr fits ↦ rw fits (put_system_lem (out ++ padded (bytes setup)) system)
          ])
        ])

  put_boot_lem :
      (root : Root) (boot : List (List ℕ))
      → Meets accepted (put_boot accepted root (some boot) []) (
          if length (first_read boot) == 512
          then returned
              (patched root (fill (first_read boot) (zeros buf_size)))
              (patched root (first_read boot))
          else died bad_boot [])
  unfolding put_boot
  put_boot_lem root boot =
      let block = first_read boot in
      elim (Bool-cases (length block == 512)) [
        | inl whole ↦
            let size : length block ≡ 512 = ground arith in
            rw whole (
              bind_lem _ (put_lem accepted (patched root (fill block (zeros buf_size))) 512 [])
                (inl (rw (take-patched root block (zeros buf_size) size) refl)))
        | inr other ↦ rw other (inl refl)
      ]

  pub with_boot_lem :
      (root : Root) (boot setup system : Option (List (List ℕ)))
      → Meets accepted
          ((put_boot accepted root boot >>= λ buf.
              (put_setup accepted buf setup >> put_system accepted system))
            [])
          (with_boot root boot setup system)
  unfolding put_boot
  with_boot_lem root none setup system = inl refl
  with_boot_lem root (some boot) setup system =
      let block = first_read boot in
      bind_lem _ (put_boot_lem root boot) (elim (Bool-cases (length block == 512)) [
        | inl whole ↦ rw whole (with_setup_lem _ (patched root block) setup system)
        | inr other ↦ rw other (inl refl)
      ])
