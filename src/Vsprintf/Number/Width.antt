-- ===== src/Vsprintf/Number/Width.antt =====
-- number of kernel/vsprintf.c: the length of the text.
use Prim.Native.Nat.{max}
use my_linux_kernel.Common.{
  ℕ, ◌+◌, ◌-◌, ◌≤◌, ◌||◌, not, Bool, true, false, List, [], ◌∷◌, ◌++◌, some, ◌≡◌, refl, ◌∙◌, arith,
  length, length-append, length-replicate, replicate, if◌then◌else◌, ltb_of_le,
}
use my_linux_kernel.Common.Int.{ℤ, pos, pos_part, ◌-ℤ◌}
use my_linux_kernel.Vsprintf.Number.{
  left, zeropad, digits, tmp_digits, sign_char, magnitude, sign_text, prefix_text, prefix_size, pad,
  padded, backwards, layout, raised, number,
}

length-backwards : (cs out : List ℕ) → length (backwards cs out) ≡ length cs + length out
length-backwards [] out = omega arith
length-backwards (c ∷ cs) out = omega (arith, length-backwards cs (c ∷ out))

prefix_size_lem : (base type : ℕ) → length (prefix_text base type) ≡ prefix_size base type
unfolding prefix_text prefix_size
prefix_size_lem base type = ground arith

pub pos_part-padded : (size : ℤ) → pos_part (padded size) ≡ 0
unfolding padded ◌-ℤ◌
pos_part-padded size = ground arith

-- Padding is written once, in one of three places.
pads :
    (z l : Bool) (size : ℤ)
    → let first = not (z || l) in
      let size₁ = if first then padded size else size in
      let size₂ = if l then size₁ else padded size₁ in
      (if first then pos_part size else 0) + (if l then 0 else pos_part size₁) + pos_part size₂
      ≡ pos_part size
pads true true size = omega arith
pads true false size = omega (arith, pos_part-padded size)
pads false true size = omega arith
pads false false size = omega (arith, pos_part-padded size, pos_part-padded (padded size))

length-if : (b : Bool) (xs : List ℕ) → length (if b then xs else []) ≡ (if b then length xs else 0)
length-if true xs = refl
length-if false xs = refl

length-if_not :
    (b : Bool) (xs : List ℕ) → length (if b then [] else xs) ≡ (if b then 0 else length xs)
length-if_not true xs = refl
length-if_not false xs = refl

length_of_seven :
    (a b c d e f g : List ℕ)
    → length (a ++ b ++ c ++ d ++ e ++ f ++ g)
      ≡ length a + length b + length c + length d + length e + length f + length g
length_of_seven a b c d e f g = omega (
  arith,
  length-append (a ++ b ++ c ++ d ++ e ++ f) g,
  length-append (a ++ b ++ c ++ d ++ e) f,
  length-append (a ++ b ++ c ++ d) e,
  length-append (a ++ b ++ c) d,
  length-append (a ++ b) c,
  length-append a b,
)

length-layout :
    (type sign : ℕ) (tmp : List ℕ) (base fill : ℕ) (size : ℤ)
    → length (layout type sign tmp base fill size)
      ≡ length (sign_text sign) + prefix_size base type + fill + length tmp + pos_part size
length-layout type sign tmp base fill size =
    let z = zeropad type in
    let l = left type in
    let first = not (z || l) in
    let size₁ = if first then padded size else size in
    let size₂ = if l then size₁ else padded size₁ in
    let c = if z then 48 else 32 in
    length_of_seven (if first then pad 32 size else []) (sign_text sign) (prefix_text base type)
      (if l then [] else pad c size₁) (replicate fill 48) (backwards tmp []) (pad 32 size₂)
    ∙ rw
        (
          length-if first (pad 32 size),
          prefix_size_lem base type,
          length-if_not l (pad c size₁),
          length-replicate {A = ℕ} (pos_part size) 32,
          length-replicate (pos_part size₁) c,
          length-replicate {A = ℕ} fill 48,
          length-replicate {A = ℕ} (pos_part size₂) 32,
          length-backwards tmp [],
        )
        (omega (arith, pads z l size))

pub pos_part-sub : (a : ℤ) (k : ℕ) → pos_part (a -ℤ pos k) ≡ pos_part a - k
unfolding ◌-ℤ◌
pos_part-sub a k = ground arith

raised_lem : (precision : ℤ) (tmp : List ℕ) → length tmp ≤ raised precision tmp
raised_lem precision tmp = ground arith

pub number-length :
    (num base : ℕ) (size precision : ℤ) (type : ℕ)
    → 2 ≤ base
    → base ≤ 36
    → let sign = sign_text (sign_char num type) in
      let tmp = tmp_digits (digits type) (magnitude num type) base in
      (out : List ℕ) × (number num base size precision type ≡ some out)
      × (length out
          ≡ max
              (pos_part size)
              (length sign + length (prefix_text base type) + raised precision tmp))
unfolding number
number-length num base size precision type two top =
    let sign = sign_char num type in
    let tmp = tmp_digits (digits type) (magnitude num type) base in
    let more = raised precision tmp in
    let rest = size -ℤ pos (length (sign_text sign)) -ℤ pos (prefix_size base type) -ℤ pos more in
    let out = layout type sign tmp base (more - length tmp) rest in
    (
      out,
      rw (ltb_of_le base 2 two, ltb_of_le 36 base top) refl,
      length-layout type sign tmp base (more - length tmp) rest
          ∙ omega (
            arith,
            prefix_size_lem base type,
            raised_lem precision tmp,
            pos_part-sub size (length (sign_text sign)),
            pos_part-sub (size -ℤ pos (length (sign_text sign))) (prefix_size base type),
            pos_part-sub (size -ℤ pos (length (sign_text sign)) -ℤ pos (prefix_size base type))
                more,
          ),
    )
