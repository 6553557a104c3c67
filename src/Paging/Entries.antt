-- ===== src/Paging/Entries.antt =====
-- What the words that val/src/val_memory.c writes to tables say when they are read back.
use ff_a_acs.Base.{
  ℕ, zero, suc, ◌+◌, ◌*◌, ◌/◌, ◌%◌, ◌^◌, ◌≡◌, ◌≤◌, ◌<◌, ap, ◌∙◌, sym, arith, true, ◌||◌, ◌==◌,
  bit_or, or64, mask_down, if◌then◌else◌,
}
use native.Mathlib.Omega.{pow_step}
use native.Mathlib.Nat.{one-le-pow, pow-le-pow_right}
use ff_a_acs.Paging.Fill.{needs_table, table_of, table_entry, block_entry}

pow_pos : (k : ℕ) → 0 < 2 ^ k
pow_pos k = one-le-pow k 2 (omega arith)

-- The two lowest bits of a descriptor.
pub bit_or_two :
    (w a b : ℕ)
    → bit_or (suc (suc w)) a b % 4
      ≡ (if (a % 2 == 1) || (b % 2 == 1) then 1 else 0)
        + 2 * (if (a / 2 % 2 == 1) || (b / 2 % 2 == 1) then 1 else 0)
unfolding bit_or
bit_or_two w a b = ground arith

digits : (b p : ℕ) → 0 < p → b % (2 * p) ≡ b % 2 + 2 * (b / 2 % p)
digits b p l = grind arith

lowest : (b rest : ℕ) → (if (0 % 2 == 1) || (b % 2 == 1) then 1 else 0) + rest ≡ b % 2 + rest
lowest b rest = ground arith

bit_or_zero : (w b : ℕ) → bit_or w 0 b ≡ b % 2 ^ w
unfolding bit_or
bit_or_zero zero b = omega arith
bit_or_zero (suc w) b =
    rw (bit_or_zero w (b / 2), pow_step 2 w, digits b (2 ^ w) (pow_pos w)) (lowest b _)

bit_or_three : (w x : ℕ) → bit_or (suc (suc w)) 3 x ≡ 3 + 4 * ((x / 4) % 2 ^ w)
unfolding bit_or
bit_or_three w x = rw (bit_or_zero w (x / 2 / 2)) (ground arith)

four_divides : (k : ℕ) → 2 ≤ k → (c : ℕ) → (c * 2 ^ k) % 4 ≡ 0
four_divides zero l c = omega (arith, l)
four_divides (suc zero) l c = omega (arith, l)
four_divides (suc (suc k)) l c = rw (pow_step 2 (suc k), pow_step 2 k) (grind arith)

whole : (p base : ℕ) → 0 < p → base % p ≡ 0 → mask_down base p ≡ base
whole p base l e = grind arith

flagged : (p base : ℕ) → 4 ≤ p → base % p ≡ 0 → mask_down (base + 3) p ≡ base
flagged p base l e = grind arith

four_le : (k : ℕ) → 2 ≤ k → 4 ≤ 2 ^ k
four_le k l = pow-le-pow_right (omega arith) l

base_four : (k base : ℕ) → 2 ≤ k → base % 2 ^ k ≡ 0 → base % 4 ≡ 0
base_four k base l e =
    ap (λ b. b % 4) (sym (whole (2 ^ k) base (pow_pos k) e)) ∙ four_divides k l (base / 2 ^ k)

-- A table's entry names the table.
pub table_of-table_entry :
    (k base : ℕ)
    → 2 ≤ k
    → base % 2 ^ k ≡ 0
    → base < 2 ^ 48
    → table_of (2 ^ k) (table_entry (2 ^ k) base) ≡ base
unfolding table_of table_entry
table_of-table_entry k base l e small =
    let four = base_four k base l e in
    rw (whole (2 ^ k) base (pow_pos k) e, bit_or_three 62 base)
      (ap (λ b. mask_down b (2 ^ k)) (word four) ∙ flagged (2 ^ k) base (four_le k l) e)
  where
    word : base % 4 ≡ 0 → (3 + 4 * ((base / 4) % 2 ^ 62)) % 2 ^ 48 ≡ base + 3
    word four = omega (arith, small, four)

needs_table_lem : (word : ℕ) → (word % 4) / 2 ≡ 0 → needs_table word ≡ true
unfolding needs_table
needs_table_lem word e = ground arith

-- A block's entry names none, for attributes that leave out the bit that tells them apart.
pub needs_table-block_entry :
    (k oa attributes : ℕ)
    → 2 ≤ k
    → attributes / 2 % 2 ≡ 0
    → needs_table (block_entry (2 ^ k) oa attributes) ≡ true
unfolding block_entry
needs_table-block_entry k oa attributes l e =
    let low = four_divides k l (oa / 2 ^ k) in
    let first = bit_or_two 62 1 (mask_down oa (2 ^ k)) in
    let all = bit_or_two 62 (or64 1 (mask_down oa (2 ^ k))) attributes in
    needs_table_lem _ (ground (arith, low, first, all, e))

pub or64_second : (a b : ℕ) → (a / 2) % 2 ≡ 0 → (b / 2) % 2 ≡ 0 → (or64 a b / 2) % 2 ≡ 0
or64_second a b e f = let h = bit_or_two 62 a b in second (or64 a b) (ground (arith, h, e, f))
  where
    second : (x : ℕ) → (x % 4) / 2 ≡ 0 → (x / 2) % 2 ≡ 0
    second x h = omega (arith, h)
