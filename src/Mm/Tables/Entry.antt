-- ===== src/Mm/Tables/Entry.antt =====
-- The entries of page tables that un_wp_page of mm/memory.c works on, and what it leaves.
use my_linux_kernel.Common.{
  ℕ, zero, suc, ◌+◌, ◌-◌, ◌*◌, ◌/◌, ◌%◌, ◌≤◌, ◌<◌, ◌≡◌, ◌≢◌, ◌⊎◌, ◌==◌, ◌&&◌, false, ltb, leb,
  arith, if◌then◌else◌, bit_or,
}
use my_linux_kernel.Common.Bits.{mask_fffff000, bit_or_two}
use my_linux_kernel.Mm.Run.{Ram, Mm, store}
use my_linux_kernel.Mm.Pages.{map_nr}
use my_linux_kernel.Mm.Pages.Alloc.{count, IsManaged, in_page}
use my_linux_kernel.Mm.Pages.Free.{Managed}
use my_linux_kernel.Mm.Tables.{page_of, copy_words}

-- Words that are copied to a place that does not overlap where they stand.
pub copy_words_lem :
    (n from to : ℕ) (r : Ram) (k : ℕ)
    → (from + n ≤ to) ⊎ (to + n ≤ from)
    → copy_words n from to r k ≡ (if leb to k && ltb k (to + n) then r (from + (k - to)) else r k)
unfolding copy_words
copy_words_lem zero from to r k apart = ground arith
copy_words_lem (suc n) from to r k apart =
    ground (arith, copy_words_lem n (from + 1) (to + 1) (store r to (r from)) k)

-- The entry at `p` in `m'` is present and writable, its page is the only user's, and holds the
-- words of the page of the entry in `m`. That page itself is as it was.
pub record Private (m : Mm) (p : ℕ) (m' : Mm) : Type 0 where
  pub writable : m'.ram (p / 4) % 4 ≡ 3
  pub sole : count m' (map_nr (page_of (m'.ram (p / 4)))) ≡ 1
  pub same_words :
      (k : ℕ)
      → k < 1024
      → m'.ram (page_of (m'.ram (p / 4)) / 4 + k) ≡ m.ram (page_of (m.ram (p / 4)) / 4 + k)
  pub kept :
      (k : ℕ)
      → k < 1024
      → m'.ram (page_of (m.ram (p / 4)) / 4 + k) ≡ m.ram (page_of (m.ram (p / 4)) / 4 + k)

-- An entry at `p` that may be faulted on: present, with its page in use, and standing neither in
-- that page nor in a free one.
pub record IsEntry (m : Mm) (p : ℕ) : Type 0 where
  pub word : m.ram (p / 4) < 4294967296
  pub is_present : m.ram (p / 4) % 2 ≡ 1
  pub managed : Managed m (m.ram (p / 4) / 4096 * 4096)
  pub in_use : count m (map_nr (m.ram (p / 4) / 4096 * 4096)) ≢ 0
  pub not_inside :
      (p / 4 < m.ram (p / 4) / 4096 * 1024) ⊎ (m.ram (p / 4) / 4096 * 1024 + 1024 ≤ p / 4)
  pub not_free : (i : ℕ) → i < 3840 → count m i ≡ 0 → in_page i (p / 4) ≡ false

quarter : (a : ℕ) → a / 4096 * 4096 / 4 ≡ a / 4096 * 1024
quarter a = omega arith

module _ {m : Mm} (p : ℕ) (v : IsManaged m) (t : IsEntry m p) where
  pub from_words :
      (m' : Mm) (e : ℕ)
      → m'.ram (p / 4) ≡ e
      → e < 4294967296
      → e % 4 ≡ 3
      → count m' (map_nr (e / 4096 * 4096)) ≡ 1
      → ((k : ℕ)
          → k < 1024
          → m'.ram (e / 4096 * 1024 + k) ≡ m.ram (m.ram (p / 4) / 4096 * 1024 + k))
      → ((k : ℕ)
          → k < 1024
          → m'.ram (m.ram (p / 4) / 4096 * 1024 + k) ≡ m.ram (m.ram (p / 4) / 4096 * 1024 + k))
      → Private m p m'
  from_words m' e at word rights one words kept = record {
    writable = rw at rights;
    sole = rw (at, mask_fffff000 e word) one;
    same_words = λ k small.
        rw
          (
            at,
            mask_fffff000 e word,
            mask_fffff000 (m.ram (p / 4)) t.word,
            quarter e,
            quarter (m.ram (p / 4)),
          )
          (words k small);
    kept = λ k small.
        rw (mask_fffff000 (m.ram (p / 4)) t.word, quarter (m.ram (p / 4))) (kept k small);
  }

  -- The only user of a page keeps it.
  pub sole-Private :
      count m (map_nr (m.ram (p / 4) / 4096 * 4096)) ≡ 1
      → Private m p (record m { ram = store m.ram (p / 4) (bit_or (m.ram (p / 4)) 2) })
  sole-Private one =
      from_words (record m { ram = store m.ram (p / 4) (bit_or (m.ram (p / 4)) 2) })
        (m.ram (p / 4) / 4 * 4 + 3) (ground (arith, bit_or_two (m.ram (p / 4)))) (omega arith)
        (omega arith) (rw same one) (λ k small. rw same (untouched k small)) untouched
    where
      same : (m.ram (p / 4) / 4 * 4 + 3) / 4096 ≡ m.ram (p / 4) / 4096
      same = omega arith

      untouched :
          (k : ℕ)
          → k < 1024
          → store m.ram (p / 4) (bit_or (m.ram (p / 4)) 2) (m.ram (p / 4) / 4096 * 1024 + k)
            ≡ m.ram (m.ram (p / 4) / 4096 * 1024 + k)
      untouched k small =
          let far : (p / 4 == m.ram (p / 4) / 4096 * 1024 + k) ≡ false = ground arith in rw far
