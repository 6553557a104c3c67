-- ===== src/Paging/Parts.antt =====
-- Ranges of pages within the range of one entry, for the tables of val/src/val_memory.c.
use ff_a_acs.Base.{ℕ, zero, suc, ◌+◌, ◌*◌, ◌/◌, ◌%◌, ◌^◌, ◌≡◌, ◌<◌, ◌≤◌, sym, ap, ◌∙◌, subst, arith}
use native.Mathlib.Omega.{pow_step}
use native.Mathlib.Nat.{div-div-eq-div-mul, mul-le-mul_right, mul-le-mul_left}

pub index_after : (c n j m : ℕ) → 0 < m → c % m + n ≤ m → j < n → (c + j) % m ≡ c % m + j
index_after c n j m l h lt = grind arith

-- An address in the same part of size `b` lies in the same part of size `b * m`.
pub same_part : (x y b m : ℕ) → 0 < b → 0 < m → x / b ≡ y / b → x / (b * m) ≡ y / (b * m)
same_part x y b m l k e =
    sym (div-div-eq-div-mul x b m) ∙ ap (λ q. q / m) e ∙ div-div-eq-div-mul y b m

-- The part of size `b * m` reaches as far as that of size `b`.
pub part_end : (x b m : ℕ) → 0 < b → 0 < m → (x / b) * b + b ≤ (x / (b * m)) * (b * m) + b * m
part_end x b m l k =
    subst (λ q. x / b * b + b ≤ q * (b * m) + b * m) (div-div-eq-div-mul x b m)
      (scaled (x / b) (x / b / m) (whole_parts (x / b)))
  where
    whole_parts : (q : ℕ) → q + 1 ≤ (q / m + 1) * m
    whole_parts q = grind arith

    scaled : (q r : ℕ) → q + 1 ≤ (r + 1) * m → q * b + b ≤ r * (b * m) + b * m
    scaled q r h = omega (arith, mul-le-mul_right b h, left q, right r)
      where
        left : (q : ℕ) → (q + 1) * b ≡ q * b + b
        left q = grind arith

        right : (r : ℕ) → (r + 1) * m * b ≡ r * (b * m) + b * m
        right r = grind arith

pub same_table : (c n j m : ℕ) → 0 < m → c % m + n ≤ m → j < n → (c + j) / m ≡ c / m
same_table c n j m l h lt = grind arith

-- What is on `n` pages of one table ends with the table.
pub pages_end : (c n m p : ℕ) → 0 < m → c % m + n ≤ m → (c + n) * p ≤ (c / m) * (p * m) + p * m
pages_end c n m p l h = scaled (c / m) (grind arith)
  where
    scaled : (q : ℕ) → c + n ≤ (q + 1) * m → (c + n) * p ≤ q * (p * m) + p * m
    scaled q g = omega (arith, mul-le-mul_right p g, split q)
      where
        split : (q : ℕ) → (q + 1) * m * p ≡ q * (p * m) + p * m
        split q = grind arith

pow_sum : (a b : ℕ) → 2 ^ (a + b) ≡ 2 ^ a * 2 ^ b
pow_sum zero b = grind arith
pow_sum (suc a) b =
    let ih = pow_sum a b in
    ap (λ n. 2 ^ n) (omega arith)
    ∙ pow_step 2 (a + b)
    ∙ ap (λ x. 2 * x) ih
    ∙ assoc (2 ^ a) (2 ^ b)
    ∙ ap (λ x. x * 2 ^ b) (sym (pow_step 2 a))
  where
    assoc : (x y : ℕ) → 2 * (x * y) ≡ 2 * x * y
    assoc x y = grind arith

-- The size of an entry of a table with `k` levels below the next one.
pub entry_size :
    (bits page_log2 k : ℕ)
    → 2 ^ (suc k * bits + page_log2) ≡ 2 ^ page_log2 * 2 ^ bits * 2 ^ (k * bits)
entry_size bits page_log2 k =
    ap (λ n. 2 ^ n) (order k bits)
    ∙ pow_sum (page_log2 + bits) (k * bits)
    ∙ ap (λ x. x * 2 ^ (k * bits)) (pow_sum page_log2 bits)
  where
    order : (k bits : ℕ) → suc k * bits + page_log2 ≡ page_log2 + bits + k * bits
    order k bits = grind arith

pub times_pos : (x y : ℕ) → 0 < x → 0 < y → 0 < x * y
times_pos x y l k = grind arith

pub div_down : (x b : ℕ) → 0 < b → (x / b) * b ≤ x
div_down x b l = grind arith

pub several : (c n p : ℕ) → 1 ≤ n → ((c + n) * p ≡ c * p + n * p) × (p ≤ n * p)
several c n p l = (grind arith, grind arith)

pub fewer_pages : (n p m r : ℕ) → 0 < p → n < m → 0 < r → n * p < p * m * r
fewer_pages n p m r l h k = omega (
  arith,
  l,
  mul-le-mul_right {m = suc n} {n = m} p (omega (arith, h)),
  mul-le-mul_left {m = 1} {n = r} (p * m) (omega (arith, k)),
  one_more n p,
  turned m p,
  alone (p * m),
)
  where
    one_more : (n p : ℕ) → suc n * p ≡ n * p + p
    one_more n p = grind arith

    turned : (m p : ℕ) → m * p ≡ p * m
    turned m p = grind arith

    alone : (x : ℕ) → x * 1 ≡ x
    alone x = grind arith
