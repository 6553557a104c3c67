-- ===== src/Misc/Tests.antt =====
-- Runs of the string and memory helpers, and their theorems at them.
use ff_a_acs.Base.{ℕ, ◌-◌, ◌^◌, ◌≡◌, ◌≢◌, ◌⊎◌, inr, arith, List, [], ◌∷◌, some, get_or}
use ff_a_acs.Misc.{Ram, memmove, strcmp, strcat}
use ff_a_acs.Misc.Move.{memmove_lem}
use ff_a_acs.Misc.Strings.{Reads, strcmp_lem}
use ff_a_acs.Misc.Concat.{strcat-Within}

-- Two strings of two and three characters, and zeros behind them.
abbrev ram : Ram
ram x = get_or (65 ∷ 66 ∷ 0 ∷ 65 ∷ 66 ∷ 67 ∷ 0 ∷ []) x 0

abbrev two : List ℕ
two = 65 ∷ 66 ∷ []

abbrev three : List ℕ
three = 65 ∷ 66 ∷ 67 ∷ []

first-Reads : Reads ram 0 two
first-Reads = ground arith

second-Reads : Reads ram 3 three
second-Reads = ground arith

strcmp_lem_example :
    ((strcmp 5 ram 0 3 ≡ some 0) × (two ≡ three))
    ⊎ ((strcmp 5 ram 0 3 ≡ some (2 ^ 32 - 1)) × (two ≢ three))
strcmp_lem_example =
    strcmp_lem 5 ram 0 3 two three first-Reads second-Reads (omega arith) (omega arith)

strcat-Within_example : (t : Ram) × (strcat 3 ram 0 3 3 ≡ some t) × (t 3 ≡ ram 3)
strcat-Within_example =
    strcat-Within 3 ram 0 3 3 3 (omega arith) (omega arith) (omega arith) (inr (omega arith))

-- Three bytes moved up by one, over themselves.
memmove_lem_example : memmove ram 4 3 3 6 ≡ 67
memmove_lem_example = memmove_lem ram 4 3 3 6
