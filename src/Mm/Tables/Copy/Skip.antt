-- ===== src/Mm/Tables/Copy/Skip.antt =====
-- copy_page_tables of mm/memory.c: a round of its loop over an entry that is not present.
use my_linux_kernel.Common.{ℕ, zero, suc, ◌+◌, ◌<◌, ◌≡◌, ◌≢◌, sym, ◌∙◌, true, false, arith}
use my_linux_kernel.Mm.Run.{Mm}
use my_linux_kernel.Mm.Tables.{present}
use my_linux_kernel.Mm.Tables.Copy.{IsCopyable, IsChildTable, Copied, table_word}
use my_linux_kernel.Mm.Tables.Copy.Rest.{next, plus_zero, none_added, target_absent}

pub false-ne-true : false ≢ true
false-ne-true e = cc

module _ {size n d t : ℕ} {m : Mm} (can : IsCopyable size (suc n) d t m) where
  -- Where the first entry is not present, the others are all that is done.
  pub skip-Copied :
      {m' : Mm}
      → present (m.ram d) ≡ false
      → Copied size n (d + 1) (t + 1) m m'
      → Copied size (suc n) d t m m'
  skip-Copied {m'} none rest = record {
    managed = rest.managed;
    high = rest.high;
    directory = λ x low out. rest.directory x low (omega arith);
    alike = rest.alike;
    taken = rest.taken;
    counts = λ j small used. omega (arith, none_added can j none, rest.counts j small used);
    fresh = λ j small unused.
        let same = rest.directory t (omega (arith, can.directory)) (omega arith) in
        let not_there : present (m'.ram t) ≡ false = rw same (target_absent can) in
        rw not_there (omega (arith, none_added can j none, rest.fresh j small unused));
    single = λ j small.
        let same = rest.directory t (omega (arith, can.directory)) (omega arith) in
        let not_there : present (m'.ram t) ≡ false = rw same (target_absent can) in
        rw not_there (omega (arith, rest.single j small));
    absent = λ k small. absent k small;
    children = λ k small. children k small;
  }
    where
      absent :
          (k : ℕ) → k < suc n → present (m.ram (d + k)) ≡ false → m'.ram (t + k) ≡ m.ram (t + k)
      absent zero small is_absent =
          rw (plus_zero t) (rest.directory t (omega (arith, can.directory)) (omega arith))
      absent (suc k) small is_absent =
          rw (next t k) (rest.absent k (omega arith) (rw (next d k) at is_absent))

      children :
          (k : ℕ)
          → k < suc n
          → present (m.ram (d + k)) ≡ true
          → IsChildTable size (table_word (m.ram (d + k))) (t + k) m m'
      children zero small is_present =
          absurd (false-ne-true (sym none ∙ rw (plus_zero d) at is_present))
      children (suc k) small is_present =
          rw (next t k, next d k) (rest.children k (omega arith) (rw (next d k) at is_present))
