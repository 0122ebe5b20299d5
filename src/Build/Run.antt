-- ===== src/Build/Run.antt =====
-- Runs of tools/build.c: the output so far is passed on, and die ends the run.
use my_linux_kernel.Common.{ℕ, List}

-- The messages of die.
pub data Message : Type 0 where
  usage : Message
  cannot_stat : Message
  bad_root : Message
  cannot_open_boot : Message
  bad_boot : Message
  cannot_open_setup : Message
  setup_too_big : Message
  cannot_open_system : Message
  system_too_big : Message
  write_failed : Message

-- `endless` is a loop whose fuel has run out, `overflow` a sum that no int holds.
pub data Outcome (A : Type 0) : Type 0 where
  returned : A → List ℕ → Outcome A
  died : Message → List ℕ → Outcome A
  endless : Outcome A
  overflow : Outcome A

abbrev pub W : Type 0 → Type 0
W A = List ℕ → Outcome A

abbrev pub pure : {A : Type 0} → A → W A
pure a = returned a

abbrev pub die : {A : Type 0} → Message → W A
die message = died message

module _ {A B : Type 0} where
  abbrev pub and_then : Outcome A → (A → W B) → Outcome B
  and_then (returned a out) k = k a out
  and_then (died message out) k = died message out
  and_then endless k = endless
  and_then overflow k = overflow

  infixl 5 ◌>>=◌ ◌>>◌
  abbrev pub ◌>>=◌ : W A → (A → W B) → W B
  r >>= k = λ out. and_then (r out) k

  abbrev pub ◌>>◌ : W A → W B → W B
  r >> k = r >>= λ _. k
