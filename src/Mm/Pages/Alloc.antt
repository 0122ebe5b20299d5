-- ===== src/Mm/Pages/Alloc.antt =====
-- Managed maps of pages, and get_free_page of mm/swap.c on them.
use my_linux_kernel.Common.{
  ℕ, zero, suc, ◌+◌, ◌-◌, ◌*◌, ◌/◌, ◌≤◌, ◌<◌, ◌≡◌, ◌≢◌, inl, inr, refl, ◌∙◌, ◌==◌, ◌&&◌, Bool, List,
  [], ◌∷◌, Option, none, some, ltb, leb, get_or, set, length, arith, Bool-cases, leb→le, ltb→lt,
  leb_of_lt, if◌then◌else◌,
}
use my_linux_kernel.Mm.Run.{low_mem, Ram, Mm, Run, done, store}
use my_linux_kernel.Mm.Pages.{scan_free, clear_words, take_page, get_free_loop, get_free_page}

-- the count of page number `i`
abbrev pub count : Mm → ℕ → ℕ
count m i = get_or m.mem_map i 0

-- The map has an entry for each page, HIGH_MEMORY is within the pages, and no page from it on is
-- free.
pub record IsManaged (m : Mm) : Type 0 where
  pub entries : length m.mem_map ≡ 3840
  pub from : low_mem ≤ m.high_memory
  pub to : m.high_memory ≤ 0x1000000
  pub above : (i : ℕ) → i < 3840 → m.high_memory ≤ low_mem + i * 4096 → get_or m.mem_map i 0 ≢ 0

-- The scan finds the greatest free page below `n`, or there is none.
data Scan (map : List ℕ) (n : ℕ) (r : Option ℕ) : Type 0 where
  found :
      (i : ℕ)
      → r ≡ some i
      → i < n
      → get_or map i 0 ≡ 0
      → ((j : ℕ) → i < j → j < n → get_or map j 0 ≢ 0)
      → Scan map n r
  not_found : r ≡ none → ((j : ℕ) → j < n → get_or map j 0 ≢ 0) → Scan map n r

get_or_default : (xs : List ℕ) (i d e : ℕ) → i < length xs → get_or xs i d ≡ get_or xs i e
get_or_default [] i d e h = absurd (omega arith)
get_or_default (x ∷ xs) zero d e h = refl
get_or_default (x ∷ xs) (suc i) d e h = get_or_default xs i d e (omega arith)

extend :
    (map : List ℕ) (n : ℕ) (P : ℕ → Type 0)
    → get_or map n 0 ≢ 0
    → ((j : ℕ) → P j → j < n → get_or map j 0 ≢ 0)
    → (j : ℕ) → P j
    → j < suc n
    → get_or map j 0 ≢ 0
extend map n P here below j p h = elim (Bool-cases (j == n)) [
  | inl e ↦ let same : j ≡ n = ground arith in rw same here
  | inr e ↦ below j p (ground arith)
]

scan_free-Scan : (n : ℕ) (map : List ℕ) → n ≤ length map → Scan map n (scan_free n map)
unfolding scan_free
scan_free-Scan zero map h = not_found refl (λ j small. absurd (omega arith))
scan_free-Scan (suc n) map h = elim (Bool-cases (get_or map n 1 == 0)) [
  | inl free ↦ rw free (
      found n refl (omega arith) (ground (arith, get_or_default map n 0 1))
        (λ j a b. absurd (omega arith)))
  | inr taken ↦
      rw taken (go (scan_free-Scan n map (omega arith)) (ground (arith, get_or_default map n 0 1)))
]
  where
    go : Scan map n (scan_free n map) → get_or map n 0 ≢ 0 → Scan map (suc n) (scan_free n map)
    go (found i e small free above) here =
        found i e (omega arith) free (extend map n (λ j. i < j) here above)
    go (not_found e all) here =
        not_found e (λ j small. extend map n (λ _. Unit {0}) here (λ k _. all k) j tt small)

-- word `k` is in the page with number `i`
abbrev pub in_page : ℕ → ℕ → Bool
in_page i k = leb (low_mem / 4 + i * 1024) k && ltb k (low_mem / 4 + i * 1024 + 1024)

clear_words_lem :
    (n w : ℕ) (r : Ram) (k : ℕ)
    → clear_words n (w + n) r k ≡ (if leb (suc w) k && leb k (w + n) then 0 else r k)
unfolding clear_words
clear_words_lem zero w r k = ground arith
clear_words_lem (suc n) w r k =
    let next : w + suc n - 1 ≡ w + n = omega arith in
    rw next (ground (arith, clear_words_lem n w (store r (w + suc n) 0) k))

cleared :
    (i : ℕ) (r : Ram) (k : ℕ)
    → clear_words 1024 ((i * 4096 + low_mem + 4092) / 4) r k ≡ (if in_page i k then 0 else r k)
cleared i r k =
    let top : (i * 4096 + low_mem + 4092) / 4 ≡ 262143 + i * 1024 + 1024 = omega arith in
    rw top (clear_words_lem 1024 (262143 + i * 1024) r k ∙ ground arith)

-- What get_free_page does: no page is free and it returns 0, or it returns the free page with the
-- greatest number below HIGH_MEMORY, marks it used once, and clears its words and no others.
pub data Alloc (m : Mm) (r : Run ℕ) : Type 0 where
  out_of_memory : r ≡ done 0 m → ((j : ℕ) → j < 3840 → count m j ≢ 0) → Alloc m r
  allocated :
      (i : ℕ) (ram' : Ram)
      → r ≡ done (i * 4096 + low_mem) (record m { mem_map = set m.mem_map i 1; ram = ram' })
      → i * 4096 + low_mem < m.high_memory
      → count m i ≡ 0
      → ((j : ℕ) → i < j → j < 3840 → count m j ≢ 0)
      → ((k : ℕ) → ram' k ≡ (if in_page i k then 0 else m.ram k))
      → Alloc m r

get_free_loop-Alloc : (fuel : ℕ) {m : Mm} → IsManaged m → Alloc m (get_free_loop (suc fuel) 0 m)
unfolding get_free_loop take_page
get_free_loop-Alloc fuel {m} v = go (scan_free-Scan 3840 m.mem_map (omega (arith, v.entries)))
  where
    go : Scan m.mem_map 3840 (scan_free 3840 m.mem_map) → Alloc m (get_free_loop (suc fuel) 0 m)
    go (found i e small free above) =
        let below : i * 4096 + low_mem < m.high_memory =
          elim (Bool-cases (leb m.high_memory (low_mem + i * 4096))) [
            | inl over ↦ absurd (v.above i small (leb→le _ _ over) free)
            | inr under ↦ ltb→lt _ _ (ground arith)
          ] in
        rw (e, leb_of_lt m.high_memory (i * 4096 + low_mem) below)
          (allocated i _ refl below free above (cleared i m.ram))
    go (not_found e all) = rw (e, leb_of_lt m.high_memory 0 (omega arith)) (out_of_memory refl all)

-- On a managed map get_free_page ends. It returns 0 if no page is free. Otherwise it returns
-- the free page with the greatest number, which lies below HIGH_MEMORY, marks it used once,
-- clears its words, and changes no other word.
pub get_free_page-Alloc : {m : Mm} → IsManaged m → Alloc m (get_free_page m)
unfolding get_free_page
get_free_page-Alloc v = get_free_loop-Alloc 3841 v
