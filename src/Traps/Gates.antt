-- ===== src/Traps/Gates.antt =====
-- trap_init of kernel/traps.c: the gate of every vector.
use my_linux_kernel.Common.{
  ℕ, zero, suc, ◌+◌, ◌/◌, ◌*◌, ◌%◌, ◌<◌, ◌≤◌, ◌==◌, ◌&&◌, ◌≡◌, ◌≢◌, ◌∙◌, refl, sym, ap, subst, not,
  Bool-cases, inl, inr, Bool, true, false, leb, ltb, arith, List, [], ◌∷◌, length, get_or,
  if◌then◌else◌,
}
use my_linux_kernel.Segments.{Desc, put_desc, set_gate}
use my_linux_kernel.Traps.{
  Handler, divide_error, debug, nmi, int3, overflow, bounds, invalid_op, double_fault,
  coprocessor_segment_overrun, invalid_tss, segment_not_present, stack_segment, page_fault,
  general_protection, reserved, alignment_check, Machine, reserve, first_gates, trap_init,
}

-- The processor's exceptions in the order of their vectors.
abbrev pub exceptions : List Handler
exceptions =
    divide_error ∷ debug ∷ nmi ∷ int3 ∷ overflow ∷ bounds ∷ invalid_op ∷ reserved ∷ double_fault
    ∷ coprocessor_segment_overrun ∷ invalid_tss ∷ segment_not_present ∷ stack_segment
    ∷ general_protection ∷ page_fault ∷ reserved ∷ reserved ∷ alignment_check ∷ []

-- What a gate says: where it leads, how it is entered, and from which level on.
pub record IsGate (d : Desc) (target dpl : ℕ) : Type 0 where
  pub address : d.b / 0x10000 * 0x10000 + d.a % 0x10000 ≡ target
  pub selector : d.a / 0x10000 ≡ 8
  pub present : d.b / 0x8000 % 2 ≡ 1
  pub level : d.b / 0x2000 % 4 ≡ dpl
  pub type : d.b / 0x100 % 32 ≡ 15

set_gate-IsGate :
    (dpl target : ℕ) → target < 4294967296 → dpl < 4 → IsGate (set_gate 15 dpl target) target dpl
unfolding set_gate
set_gate-IsGate dpl target word low = record {
  address = omega arith;
  selector = omega arith;
  present = omega arith;
  level = omega arith;
  type = omega arith;
}

-- Breakpoints, overflow and bounds may be raised by user programs.
abbrev pub level_of : ℕ → ℕ
level_of v = if leb 3 v && leb v 5 then 3 else 0

module _ (address : Handler → ℕ) where
  reserve_lem :
      (n i : ℕ) (idt : ℕ → Desc) (j : ℕ)
      → reserve address n i idt j
        ≡ (if leb i j && ltb j (i + n) then set_gate 15 0 (address reserved) else idt j)
  unfolding reserve
  reserve_lem zero i idt j = ground arith
  reserve_lem (suc n) i idt j = reserve_lem n (i + 1) (put_desc i d idt) j ∙ step d
    where
      d : Desc
      d = set_gate 15 0 (address reserved)

      step :
          (d : Desc)
          → (if leb (i + 1) j && ltb j (i + 1 + n) then d else put_desc i d idt j)
            ≡ (if leb i j && ltb j (i + suc n) then d else idt j)
      step d = ground arith

  below_18 :
      (v : ℕ) (idt : ℕ → Desc)
      → v < 18
      → v ≢ 7
      → v ≢ 16
      → first_gates address idt v
        ≡ set_gate 15 (level_of v) (address (get_or exceptions v reserved))
  below_18 zero idt small a b = refl
  below_18 (suc zero) idt small a b = refl
  below_18 (suc (suc zero)) idt small a b = refl
  below_18 (suc (suc (suc zero))) idt small a b = refl
  below_18 (suc (suc (suc (suc zero)))) idt small a b = refl
  below_18 (suc (suc (suc (suc (suc zero))))) idt small a b = refl
  below_18 (suc (suc (suc (suc (suc (suc zero)))))) idt small a b = refl
  below_18 (suc (suc (suc (suc (suc (suc (suc zero))))))) idt small a b = absurd (a refl)
  below_18 (suc (suc (suc (suc (suc (suc (suc (suc zero)))))))) idt small a b = refl
  below_18 (suc (suc (suc (suc (suc (suc (suc (suc (suc zero))))))))) idt small a b = refl
  below_18 (suc (suc (suc (suc (suc (suc (suc (suc (suc (suc zero)))))))))) idt small a b = refl
  below_18 (suc (suc (suc (suc (suc (suc (suc (suc (suc (suc (suc zero))))))))))) idt small a b =
      refl
  below_18 (suc (suc (suc (suc (suc (suc (suc (suc (suc (suc (suc (suc zero)))))))))))) idt small a
        b =
      refl
  below_18 (suc (suc (suc (suc (suc (suc (suc (suc (suc (suc (suc (suc (suc zero))))))))))))) idt
        small a b =
      refl
  below_18 (suc (suc (suc (suc (suc (suc (suc (suc (suc (suc (suc (suc (suc (suc zero))))))))))))))
        idt small a b =
      refl
  below_18
        (suc
          (suc (suc (suc (suc (suc (suc (suc (suc (suc (suc (suc (suc (suc (suc zero)))))))))))))))
        idt small a b =
      refl
  below_18
        (suc (
          suc (
            suc
              (suc (suc (suc (suc (suc (suc (suc (suc (suc (suc (suc (suc (suc zero))))))))))))))))
        idt small a b =
      absurd (b refl)
  below_18
        (suc (
          suc (
            suc (
              suc (
                suc
                  (suc (suc (suc (suc (suc (suc (suc (suc (suc (suc (suc (suc zero)))))))))))))))))
        idt small a b =
      refl
  below_18
        (suc (
          suc (
            suc (
              suc (
                suc (
                  suc
                    (suc (suc (suc (suc (suc (suc (suc (suc (suc (suc (suc (suc v))))))))))))))))))
        idt small a b =
      absurd (omega arith)

-- Which vectors have a gate: those below 48 but 7 and 16.
abbrev pub has_gate : ℕ → Bool
has_gate v = ltb v 48 && (not (v == 7) && not (v == 16))

-- All gates, and the entries that are left as they were.
pub record Gated (address : Handler → ℕ) (m m' : Machine) : Type 0 where
  pub gates :
      (v : ℕ)
      → has_gate v ≡ true
      → IsGate (m'.idt v) (address (get_or exceptions v reserved)) (level_of v)
  pub left : (v : ℕ) → has_gate v ≡ false → m'.idt v ≡ m.idt v

get_or_above : (xs : List Handler) (i : ℕ) (d : Handler) → length xs ≤ i → get_or xs i d ≡ d
get_or_above [] i d h = refl
get_or_above (x ∷ xs) zero d h = absurd (omega arith)
get_or_above (x ∷ xs) (suc i) d h = get_or_above xs i d (omega arith)

module _ (address : Handler → ℕ) (m : Machine) (v : ℕ) where
  from_18 : 18 ≤ v → first_gates address m.idt v ≡ m.idt v
  from_18 above = ground arith

  gate_of :
      has_gate v ≡ true
      → reserve address 30 18 (first_gates address m.idt) v
        ≡ set_gate 15 (level_of v) (address (get_or exceptions v reserved))
  gate_of h =
      reserve_lem address 30 18 (first_gates address m.idt) v ∙ elim (Bool-cases (ltb v 18)) [
        | inl low ↦
            let outside : leb 18 v ≡ false = ground arith in
            rw outside
              (below_18 address v m.idt (ground arith) (λ e. ground arith) (λ e. ground arith))
        | inr high ↦
            let inside : leb 18 v ≡ true = ground arith in
            let below : ltb v 48 ≡ true = ground arith in
            let level : leb v 5 ≡ false = ground arith in
            let three : leb 3 v ≡ true = ground arith in
            rw (inside, below, level, three)
              (ap (λ g. set_gate 15 0 (address g))
                (sym (get_or_above exceptions v reserved (ground arith))))
      ]

  left_alone : has_gate v ≡ false → reserve address 30 18 (first_gates address m.idt) v ≡ m.idt v
  left_alone h =
      reserve_lem address 30 18 (first_gates address m.idt) v ∙ elim (Bool-cases (ltb v 18)) [
        | inl low ↦ elim (Bool-cases (v == 7)) [
          | inl e ↦ let same : v ≡ 7 = ground arith in rw same refl
          | inr other ↦ let same : v ≡ 16 = ground arith in rw same refl
        ]
        | inr high ↦
            let outside : ltb v 48 ≡ false = ground arith in
            let inside : leb 18 v ≡ true = ground arith in
            rw (inside, outside) (from_18 (ground arith))
      ]

-- trap_init gives each vector below 48 but 7 and 16 a trap gate to its handler, open to user
-- programs for 3 to 5 alone, for handlers at 32-bit addresses, and leaves the other entries of
-- the table.
pub trap_init-Gated :
    (address : Handler → ℕ) (mask_1 mask_2 : ℕ) (m : Machine)
    → ((h : Handler) → address h < 4294967296)
    → Gated address m (trap_init address mask_1 mask_2 m)
unfolding trap_init
trap_init-Gated address mask_1 mask_2 m words = record {
  gates = λ v h.
      subst (λ d. IsGate d (address (get_or exceptions v reserved)) (level_of v))
        (sym (gate_of address m v h))
        (set_gate-IsGate (level_of v) (address (get_or exceptions v reserved)) (words _)
          (ground arith));
  left = λ v h. left_alone address m v h;
}
