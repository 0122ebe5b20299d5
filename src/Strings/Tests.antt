-- ===== src/Strings/Tests.antt =====
-- Runs of the functions of lib/string.c, and witnesses of their theorems.
use my_linux_kernel.Common.{ℕ, ◌-◌, ◌≡◌, refl, inr, arith, some, List, [], ◌∷◌, get_or}
use my_linux_kernel.Common.Int.{ℤ}
use my_linux_kernel.Strings.Memory.{Memory, IsString}
use my_linux_kernel.Strings.First.{is_string, is_string-IsString}
use my_linux_kernel.Strings.Copy.{strcat, strncat, memmove}
use my_linux_kernel.Strings.Copy.Blocks.{memmove_lem}
use my_linux_kernel.Strings.Copy.Text.{Copied, strcat_lem}
use my_linux_kernel.Strings.Copy.Append.{Ended, strncat_lem}
use my_linux_kernel.Strings.Compare.{strcmp}
use my_linux_kernel.Strings.Compare.Order.{Compared, strcmp-Compared}
use my_linux_kernel.Strings.Search.{strstr}
use my_linux_kernel.Strings.Search.Match.{Found, strstr-Found}
use my_linux_kernel.Strings.Token.{Token, strtok}
use my_linux_kernel.Strings.Token.Tokens.{IsToken, strtok-IsToken}

-- "/bin/ls" at 16, "/" at 24, "in" at 26, and behind them "/bin".
abbrev bytes : List ℕ
bytes =
    47 ∷ 98 ∷ 105 ∷ 110 ∷ 47 ∷ 108 ∷ 115 ∷ 0 ∷ 47 ∷ 0 ∷ 105 ∷ 110 ∷ 0 ∷ 47 ∷ 98 ∷ 105 ∷ 110 ∷ 0 ∷ []

abbrev ram : Memory
ram = λ a. get_or bytes (a - 16) 0

path-IsString : IsString ram 16 7
unfolding is_string
path-IsString = is_string-IsString 7 16 ram refl

slash-IsString : IsString ram 24 1
unfolding is_string
slash-IsString = is_string-IsString 1 24 ram refl

in-IsString : IsString ram 26 2
unfolding is_string
in-IsString = is_string-IsString 2 26 ram refl

strstr-Found_example : (r : ℕ) × (strstr 16 26 ram ≡ some r) × Found ram 16 26 7 2 r
strstr-Found_example =
    strstr-Found 16 26 7 2 ram path-IsString in-IsString (omega arith) (omega arith)

strtok-IsToken_example : (t : Token) × (strtok 0 16 24 ram ≡ some t) × IsToken ram 16 24 7 1 t
strtok-IsToken_example =
    strtok-IsToken 0 16 24 7 1 ram (omega arith) path-IsString slash-IsString (omega arith)
      (omega arith) (omega arith)

memmove_lem_example : ((memmove 18 16 4 ram).0 ≡ 18) × ((memmove 18 16 4 ram).1 20 ≡ 105)
memmove_lem_example = memmove_lem 18 16 4 ram 20

strcmp-Compared_example : (r : ℤ) × (strcmp 29 16 ram ≡ some r) × Compared ram 29 16 8 r
strcmp-Compared_example = strcmp-Compared 29 16 7 ram path-IsString (omega arith)

strcat_lem_example : (m' : Memory) × (strcat 26 16 ram ≡ some (26, m')) × Copied ram 16 28 8 m'
strcat_lem_example =
    strcat_lem 26 16 2 7 ram in-IsString path-IsString (inr (omega arith)) (omega arith)
      (omega arith)

strncat_lem_example : ((strncat 26 16 4 ram).0 ≡ 26) × Ended ram 16 28 4 (strncat 26 16 4 ram).1
strncat_lem_example =
    strncat_lem 26 16 2 7 4 ram in-IsString path-IsString (inr (omega arith)) (omega arith)
      (omega arith)
