-- ===== src/Drivers/Stored.antt =====
-- Words that endpoints keep in the non-volatile memory of the platform, from val/src/val_framework.c
-- through SP1's loop down to platform/driver/src/pal_nvm.c, on memory that keeps bytes.
use ff_a_acs.Base.{
  ℕ, zero, suc, ◌+◌, ◌/◌, ◌^◌, ◌<◌, ◌≤◌, ◌≡◌, refl, sym, ap, ◌∙◌, arith, ◌==◌, some, if◌then◌else◌,
}
use native.Mathlib.Nat.{mod-lt}
use ff_a_acs.Base.Bytes.{Bytes}
use ff_a_acs.Ffa.{Args}
use ff_a_acs.Nvm.{Driver, Caller, nvmem_write, nvmem_read}
use ff_a_acs.Dispatch.Serve.{Node}
use ff_a_acs.Dispatch.Remote.{Reaches, remote_read-remote_write}
use ff_a_acs.Drivers.Memory.{
  Mmio, write_bytes, read_bytes, driver_nvm_write, driver_nvm_read, word_bytes, bytes_word, pal_nvm,
}

-- Memory that keeps what is written to it, and that reads leave alone.
pub record KeepsBytes {D : Type 0} (mmio : Mmio D) (cell : D → Bytes) : Type 0 where
  pub reads : (a : ℕ) (d : D) → mmio.read8 a d ≡ (cell d a, d)
  pub writes :
      (a byte x : ℕ) (d : D)
      → byte < 256
      → cell (mmio.write8 a byte d) x ≡ (if x == a then byte else cell d x)

hit : (x i v w : ℕ) → x ≡ i → (if x == i then v else w) ≡ v
hit x i v w e = ground (arith, e)

missed : (x i v w : ℕ) → x < i → (if x == i then v else w) ≡ w
missed x i v w l = ground (arith, l)

start : (k : ℕ) → k ≡ 0 + k
start k = omega arith

over : (i k : ℕ) → i + suc k ≡ suc i + k
over i k = omega arith

-- The bytes of a word give the word.
word_of :
    (b : Bytes) (word : ℕ)
    → word < 2 ^ 32
    → ((k : ℕ) → k < 4 → b k ≡ word_bytes word k)
    → bytes_word b ≡ word
word_of b word l h =
    let h0 = h 0 (omega arith) in
    let h1 = h 1 (omega arith) in
    let h2 = h 2 (omega arith) in let h3 = h 3 (omega arith) in omega (arith, l, h0, h1, h2, h3)

module _ {D : Type 0} (mmio : Mmio D) (cell : D → Bytes) (keeps : KeepsBytes mmio cell)
    (base : ℕ) where
  abbrev after : (i offset : ℕ) → Bytes → D → Bytes
  after i offset b d x = if x == i then cell d (base + offset + i) else b x

  read_step :
      (n i offset : ℕ) (b : Bytes) (d : D)
      → read_bytes mmio base (suc n) i offset b d
        ≡ read_bytes mmio base n (suc i) offset (after i offset b d) d
  unfolding read_bytes
  read_step n i offset b d = rw (read_bytes, keeps.reads (base + offset + i) d) refl

  read_bytes_state :
      (n i offset : ℕ) (b : Bytes) (d : D) → (read_bytes mmio base n i offset b d).1 ≡ d
  unfolding read_bytes
  read_bytes_state zero i offset b d = refl
  read_bytes_state (suc n) i offset b d =
      ap (λ r. r.1) (read_step n i offset b d)
      ∙ read_bytes_state n (suc i) offset (after i offset b d) d

  read_bytes_before :
      (n i offset k : ℕ) (b : Bytes) (d : D)
      → k < i
      → (read_bytes mmio base n i offset b d).0 k ≡ b k
  unfolding read_bytes
  read_bytes_before zero i offset k b d l = refl
  read_bytes_before (suc n) i offset k b d l =
      ap (λ r. r.0 k) (read_step n i offset b d)
      ∙ read_bytes_before n (suc i) offset k (after i offset b d) d (omega (arith, l))
      ∙ missed k i (cell d (base + offset + i)) (b k) (omega (arith, l))

  read_bytes_at :
      (n i offset k : ℕ) (b : Bytes) (d : D)
      → k < n
      → (read_bytes mmio base n i offset b d).0 (i + k) ≡ cell d (base + offset + (i + k))
  read_bytes_at zero i offset k b d l = absurd (omega (arith, l))
  read_bytes_at (suc n) i offset zero b d l =
      ap (λ r. r.0 (i + 0)) (read_step n i offset b d)
      ∙ read_bytes_before n (suc i) offset (i + 0) (after i offset b d) d (omega arith)
      ∙ hit (i + 0) i (cell d (base + offset + i)) (b (i + 0)) (omega arith)
      ∙ ap (cell d) (omega arith)
  read_bytes_at (suc n) i offset (suc k) b d l =
      ap (λ r. r.0 (i + suc k)) (read_step n i offset b d)
      ∙ ap (read_bytes mmio base n (suc i) offset (after i offset b d) d).0 (over i k)
      ∙ read_bytes_at n (suc i) offset k (after i offset b d) d (omega (arith, l))
      ∙ ap (λ m. cell d (base + offset + m)) (sym (over i k))

  write_bytes_before :
      (n i offset x : ℕ) (b : Bytes) (d : D)
      → ((k : ℕ) → b k < 256)
      → x < base + offset + i
      → cell (write_bytes mmio base n i offset b d) x ≡ cell d x
  unfolding write_bytes
  write_bytes_before zero i offset x b d small l = refl
  write_bytes_before (suc n) i offset x b d small l =
      write_bytes_before n (suc i) offset x b _ small (omega (arith, l))
      ∙ keeps.writes (base + offset + i) (b i) x d (small i)
      ∙ missed x (base + offset + i) (b i) (cell d x) (omega (arith, l))

  write_bytes_at :
      (n i offset k : ℕ) (b : Bytes) (d : D)
      → ((k : ℕ) → b k < 256)
      → k < n
      → cell (write_bytes mmio base n i offset b d) (base + offset + (i + k)) ≡ b (i + k)
  unfolding write_bytes
  write_bytes_at zero i offset k b d small l = absurd (omega (arith, l))
  write_bytes_at (suc n) i offset zero b d small l =
      let at = keeps.writes (base + offset + i) (b i) (base + offset + (i + 0)) d (small i) in
      write_bytes_before n (suc i) offset (base + offset + (i + 0)) b _ small (omega arith)
      ∙ at
      ∙ hit (base + offset + (i + 0)) (base + offset + i) (b i) (cell d (base + offset + (i + 0)))
          (omega arith)
      ∙ ap b (omega arith)
  write_bytes_at (suc n) i offset (suc k) b d small l =
      ap (cell (write_bytes mmio base n (suc i) offset b (mmio.write8 (base + offset + i) (b i) d)))
        (ap (λ m. base + offset + m) (over i k))
      ∙ write_bytes_at n (suc i) offset k b _ small (omega (arith, l))
      ∙ ap b (sym (over i k))

  word_small : (word k : ℕ) → word_bytes word k < 256
  word_small word k = mod-lt (word / 256 ^ k) (omega arith)

  byte_back :
      (offset word : ℕ) (d : D) (k : ℕ)
      → k < 4
      → (read_bytes mmio base 4 0 offset
            (λ _. 0)
            (write_bytes mmio base 4 0 offset (word_bytes word) d)).0
          k
        ≡ word_bytes word k
  byte_back offset word d k l =
      let t = write_bytes mmio base 4 0 offset (word_bytes word) d in
      ap (read_bytes mmio base 4 0 offset (λ _. 0) t).0 (start k)
      ∙ read_bytes_at 4 0 offset k (λ _. 0) t l
      ∙ write_bytes_at 4 0 offset k (word_bytes word) d (word_small word) l
      ∙ ap (word_bytes word) (sym (start k))

  -- A word that the driver writes is the one it then reads.
  read_word :
      (send : Args → D → Args × D) (offset word : ℕ) (d : D)
      → word < 2 ^ 32
      → (pal_nvm mmio base send).nvm_read offset
          (write_bytes mmio base 4 0 offset (word_bytes word) d)
        ≡ (0, word, write_bytes mmio base 4 0 offset (word_bytes word) d)
  unfolding pal_nvm driver_nvm_read
  read_word send offset word d l =
      let t = write_bytes mmio base 4 0 offset (word_bytes word) d in
      let p =
        word_of (read_bytes mmio base 4 0 offset (λ _. 0) t).0 word l (byte_back offset word d) in
      let q = read_bytes_state 4 0 offset (λ _. 0) t in λ k. (0, p k, q k)

  write_word :
      (send : Args → D → Args × D) (offset word : ℕ) (d : D)
      → (pal_nvm mmio base send).nvm_write offset word d
        ≡ (0, write_bytes mmio base 4 0 offset (word_bytes word) d)
  unfolding pal_nvm driver_nvm_write
  write_word send offset word d = refl

-- On memory that keeps bytes, with SP1's loop over the platform's driver and firmware that brings it the
-- requests with SP1's id: a 32-bit word that another endpoint writes within the non-volatile memory, of
-- less than 2^32 bytes, and then reads back there comes back, with no error on either way.
pub nvmem_read-nvmem_write :
    {D : Type 0} (mmio : Mmio D) (cell : D → Bytes) (base : ℕ) (send : Args → D → Args × D)
    (p : Driver D) (c : Caller) (n : Node D) (offset word : ℕ) (d : D)
    → KeepsBytes mmio cell
    → Reaches p c n
    → n.driver ≡ pal_nvm mmio base send
    → offset + 4 ≤ n.nvm_size
    → n.nvm_size < 2 ^ 32
    → word < 2 ^ 32
    → (t : D) × (nvmem_write p c n.nvm_size offset (some word) 4 d ≡ (0, t))
      × (nvmem_read p c n.nvm_size offset (some 0) 4 t ≡ (0, some word, t))
nvmem_read-nvmem_write mmio cell base send p c n offset word d keeps reach same fits size small =
    let t = write_bytes mmio base 4 0 offset (word_bytes word) d in
    let (w, r) =
      remote_read-remote_write p c n reach offset word d t t fits size small
        (ap (λ m. m.nvm_write offset word d) same
          ∙ write_word mmio cell keeps base send offset word d)
        (ap (λ m. m.nvm_read offset t) same
          ∙ read_word mmio cell keeps base send offset word d small) in
    (t, w, r)
