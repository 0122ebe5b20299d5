-- ===== src/Boot/Paging.antt =====
-- setup_paging of kernel/head.S: the page directory at 0 and the four page tables behind it, which map
-- the first 16 MB to themselves. Turning paging on has no counterpart.
use my_linux_kernel.Common.{
  ℕ, zero, suc, ◌+◌, ◌-◌, ◌*◌, ◌≤◌, ◌≡◌, ◌∙◌, ◌==◌, ◌&&◌, ltb, leb, arith, if◌then◌else◌,
}
use my_linux_kernel.Mm.Run.{Ram, store}

-- `rep stosl` upwards, `n` words of 0 from word `edi` on.
unfoldable pub clear_up : ℕ → ℕ → Ram → Ram
clear_up zero edi r = r
clear_up (suc n) edi r = clear_up n (edi + 1) (store r edi 0)

-- `stosl` downwards and `subl $0x1000`, until eax is negative: that is for `n` rounds from `n` pages down.
unfoldable pub fill_down : ℕ → ℕ → ℕ → Ram → Ram
fill_down zero edi eax r = r
fill_down (suc n) edi eax r = fill_down n (edi - 1) (eax - 0x1000) (store r edi eax)

abbrev pub directory : Ram → Ram
directory r = store (store (store (store r 0 0x1007) 1 0x2007) 2 0x3007) 3 0x4007

unfoldable pub setup_paging : Ram → Ram
setup_paging r = fill_down 4096 5119 0xfff007 (directory (clear_up (1024 * 5) 0 r))

clear_up-word :
    (n edi x : ℕ) (r : Ram) → clear_up n edi r x ≡ (if leb edi x && ltb x (edi + n) then 0 else r x)
unfolding clear_up
clear_up-word zero edi x r = ground arith
clear_up-word (suc n) edi x r = ground (arith, clear_up-word n (edi + 1) x (store r edi 0))

fill_down-word :
    (n eax x : ℕ) (r : Ram)
    → (1 ≤ n → eax + 0x1000 ≡ n * 0x1000 + 7)
    → fill_down n (1023 + n) eax r x
      ≡ (if leb 1024 x && ltb x (1024 + n) then (x - 1024) * 0x1000 + 7 else r x)
unfolding fill_down
fill_down-word zero eax x r first = ground arith
fill_down-word (suc n) eax x r first =
    let now = first (omega arith) in
    let edi : 1023 + suc n - 1 ≡ 1023 + n = omega arith in
    let rest =
      fill_down-word n (eax - 0x1000) x (store r (1023 + suc n) eax) (λ more. omega arith) in
    rw edi (rest ∙ one_entry n eax x (r x) (omega arith))
  where
    one_entry :
        (n eax x old : ℕ)
        → eax ≡ n * 0x1000 + 7
        → (if leb 1024 x && ltb x (1024 + n)
            then (x - 1024) * 0x1000 + 7
            else if 1023 + suc n == x
            then eax
            else old)
          ≡ (if leb 1024 x && ltb x (1024 + suc n) then (x - 1024) * 0x1000 + 7 else old)
    one_entry n eax x old at = ground arith

-- What the words are.
pub setup_paging_lem :
    (r : Ram) (x : ℕ)
    → setup_paging r x ≡ (
        if ltb x 4
        then (x + 1) * 0x1000 + 7
        else if ltb x 1024
        then 0
        else if ltb x 5120
        then (x - 1024) * 0x1000 + 7
        else r x)
unfolding setup_paging
setup_paging_lem r x =
    fill_down-word 4096 0xfff007 x (directory (clear_up (1024 * 5) 0 r)) (λ more. omega arith)
    ∙ all_words x (r x) _ (clear_up-word (1024 * 5) 0 x r)
  where
    all_words :
        (x old cleared : ℕ)
        → cleared ≡ (if leb 0 x && ltb x (0 + 1024 * 5) then 0 else old)
        → (if leb 1024 x && ltb x (1024 + 4096)
            then (x - 1024) * 0x1000 + 7
            else if 3 == x
            then 0x4007
            else if 2 == x
            then 0x3007
            else if 1 == x
            then 0x2007
            else if 0 == x
            then 0x1007
            else cleared)
          ≡ (if ltb x 4
              then (x + 1) * 0x1000 + 7
              else if ltb x 1024
              then 0
              else if ltb x 5120
              then (x - 1024) * 0x1000 + 7
              else old)
    all_words x old cleared words = ground arith
