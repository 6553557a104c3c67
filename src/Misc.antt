-- ===== src/Misc.antt =====
-- The string and memory helpers of val/src/val_misc.c. Strings lie in memory of characters, at
-- addresses; the loops that look for a terminator run on fuel. `val_memcmp`, `val_memcpy` and
-- `val_memset` only call the platform's.
pub mod Move
pub mod Strings
pub mod Concat
mod Tests
use ff_a_acs.Base.{
  ℕ, zero, suc, ◌+◌, ◌-◌, ◌%◌, ◌^◌, Bool, true, false, ◌&&◌, ◌||◌, ◌==◌, ◌!=◌, ltb, leb,
  if◌then◌else◌, Option, none, some,
}

abbrev pub Ram : Type 0
Ram = ℕ → ℕ

unfoldable pub poke : Ram → ℕ → ℕ → Ram
poke m a v x = if x == a then v else m x

-- `for (i = i0; ...; i++) d[i] = s[i]` for the n indices from i on.
unfoldable pub copy_up : Ram → ℕ → ℕ → ℕ → Ram
copy_up m d s zero = m
copy_up m d s (suc n) = copy_up (poke m d (m s)) (d + 1) (s + 1) n

-- `for (i = n; i-- > 0;) d[i] = s[i]`
unfoldable pub copy_down : Ram → ℕ → ℕ → ℕ → Ram
copy_down m d s zero = m
copy_down m d s (suc n) = copy_down (poke m (d + n) (m (s + n))) d s n

unfoldable pub memmove : Ram → ℕ → ℕ → ℕ → Ram
memmove m dest src n =
    if (dest == src) || (n == 0)
    then m
    else if ltb dest src
    then copy_up m dest src n
    else copy_down m dest src n

-- The loop of `val_strcmp` from a value of its counter on, which has 32 bits and wraps around: both
-- strings reach their end together, or a difference is met.
unfoldable pub strcmp_loop : ℕ → Ram → (str1 str2 ctr : ℕ) → Option ℕ
strcmp_loop zero m str1 str2 ctr = none
strcmp_loop (suc fuel) m str1 str2 ctr =
    let rest = strcmp_loop fuel m str1 str2 ((ctr + 1) % 2 ^ 32) in
    let c1 = m (str1 + ctr) in
    let c2 = m (str2 + ctr) in
    if (c1 == c2) && ((c1 != 0) && (c2 != 0))
    then rest
    else some (if (c1 == 0) && (c2 == 0) then 0 else 2 ^ 32 - 1)

unfoldable pub strcmp : ℕ → Ram → (str1 str2 : ℕ) → Option ℕ
unfolding strcmp_loop
strcmp fuel m str1 str2 = strcmp_loop fuel m str1 str2 0

-- `val_strcpy`: copies up to the terminator and it too.
unfoldable pub strcpy : ℕ → Ram → ℕ → ℕ → Option Ram
strcpy zero m dest src = none
strcpy (suc fuel) m dest src =
    let m' = poke m dest (m src) in
    let rest = strcpy fuel m' (dest + 1) (src + 1) in if m src != 0 then rest else some m'

-- The index at which `val_strcat` stops in the first string.
unfoldable pub end_of : ℕ → Ram → ℕ → ℕ → ℕ → Option ℕ
end_of zero m str1 len limit = none
end_of (suc fuel) m str1 len limit =
    let rest = end_of fuel m str1 (len + 1) limit in
    if (m (str1 + len) != 0) && ltb len limit then rest else some len

-- Its second loop: the memory and the index of the terminator.
unfoldable pub append_loop : ℕ → Ram → ℕ → ℕ → ℕ → ℕ → Option (ℕ × Ram)
append_loop zero m str1 len str2 limit = none
append_loop (suc fuel) m str1 len str2 limit =
    let rest = append_loop fuel (poke m (str1 + len) (m str2)) str1 (len + 1) (str2 + 1) limit in
    if (m str2 != 0) && ltb len limit then rest else some (len, m)

unfoldable pub strcat_up_to : ℕ → Ram → ℕ → ℕ → ℕ → Option Ram
strcat_up_to fuel m str1 str2 limit = elim (end_of fuel m str1 0 limit) [
  | none ↦ none
  | some len ↦ if leb limit len then some m else elim (append_loop fuel m str1 len str2 limit) [
    | none ↦ none
    | some (len', m') ↦ some (poke m' (str1 + len') 0)
  ]
]

-- `size_t` arithmetic: a buffer size of 0 gives the largest limit.
unfoldable pub strcat : ℕ → Ram → ℕ → ℕ → ℕ → Option Ram
strcat fuel m str1 str2 size = strcat_up_to fuel m str1 str2 ((2 ^ 64 + size - 1) % 2 ^ 64)
