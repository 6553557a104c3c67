-- ===== src/Malloc/Alloc.antt =====
-- `val_malloc` on a well-formed heap is first fit on its cells.
use ff_a_acs.Base.{
  ℕ, zero, suc, ◌+◌, ◌-◌, ◌^◌, ◌≡◌, ◌≤◌, ◌<◌, ◌≢◌, refl, arith, ◌∙◌, ap, sym, List, [], ◌∷◌,
  if◌then◌else◌, true, ◌&&◌, leb, leb→le, ◌⊎◌, Bool-cases, inl, inr, some, length,
}
use ff_a_acs.Malloc.{
  Block, Store, valid_magic, write, split, set_free, set_magic, set_prev_if, set_size, set_next,
  find_block, add64,
}
use ff_a_acs.Malloc.Fields.{
  write_self, write_ne, set_size_self, set_size_ne, set_next_self, set_next_ne, set_prev_if_self,
  set_prev_if_ne, set_magic_self, set_magic_ne, set_free_self, set_free_ne,
}
use ff_a_acs.Malloc.Cells.{Cell, Tiled, carve, take_first}
use ff_a_acs.Malloc.Chain.{head_addr, header, Chain, Chain-same}

-- The stores that `val_split` and the caller go through, at a block `a` followed by `next`.
module _ (m : Store) (a n size next : ℕ) where
  abbrev new : ℕ
  new = a + 32 + n

  abbrev rest : Block
  rest = record { magic = valid_magic; free = 1; size = size - n - 32; next = next; prev = a }

  abbrev carved : Store
  carved = write m new rest

  abbrev linked : Store
  linked = set_prev_if carved next new

  abbrev cut : Store
  cut = set_size (set_next linked a new) a n

  split-cut :
      (prev f : ℕ)
      → m a ≡ record { magic = valid_magic; free = f; size = size; next = next; prev = prev }
      → a + 32 + size < 2 ^ 63
      → n + 40 ≤ size
      → split m a n ≡ cut
  unfolding split
  split-cut prev f h small fits =
      let at : add64 (add64 a 32) n ≡ new = omega arith in
      let test : leb (add64 (add64 n 32) 8) size ≡ true = ground arith in
      rw (at, h, test, write_self m new rest)

  split-small :
      (prev f : ℕ)
      → m a ≡ record { magic = valid_magic; free = f; size = size; next = next; prev = prev }
      → size < 2 ^ 63
      → n ≤ size
      → size < n + 40
      → split m a n ≡ m
  unfolding split
  split-small prev f h small le lt = ground arith

  -- What the cut leaves at each address.
  cut-a :
      (prev f : ℕ)
      → m a ≡ record { magic = valid_magic; free = f; size = size; next = next; prev = prev }
      → a ≢ next
      → cut a ≡ record { magic = valid_magic; free = f; size = n; next = new; prev = prev }
  cut-a prev f h ne = ground (
    arith,
    set_size_self (set_next linked a new) a n,
    set_next_self linked a new,
    set_prev_if_ne carved next new a ne,
    write_ne m new rest a (omega arith),
  )

  cut-new : next ≢ new → cut new ≡ rest
  cut-new ne = ground (
    arith,
    set_size_ne (set_next linked a new) a n new (omega arith),
    set_next_ne linked a new new (omega arith),
    set_prev_if_ne carved next new new (omega arith),
    write_self m new rest,
  )

  cut-next : next ≢ 0 → next ≢ a → next ≢ new → cut next ≡ record (m next) { prev = new }
  cut-next pos ne ne' = ground (
    arith,
    set_size_ne (set_next linked a new) a n next ne,
    set_next_ne linked a new next ne,
    set_prev_if_self carved next new pos,
    write_ne m new rest next ne',
  )

  cut-other : (x : ℕ) → x ≢ a → x ≢ next → x ≢ new → cut x ≡ m x
  cut-other x na nn nw = ground (
    arith,
    set_size_ne (set_next linked a new) a n x na,
    set_next_ne linked a new x na,
    set_prev_if_ne carved next new x nn,
    write_ne m new rest x nw,
  )

abbrev pub occupy : Store → ℕ → Store
occupy m b = set_free (set_magic m b valid_magic) b 0

occupy_self : (m : Store) (b : ℕ) → occupy m b b ≡ record (m b) { magic = valid_magic; free = 0 }
occupy_self m b =
    ground (arith, set_free_self (set_magic m b valid_magic) b 0, set_magic_self m b valid_magic)

occupy_ne : (m : Store) (b x : ℕ) → x ≢ b → occupy m b x ≡ m x
occupy_ne m b x h =
    ground
      (arith, set_free_ne (set_magic m b valid_magic) b 0 x h, set_magic_ne m b valid_magic x h)

-- What becomes of the chain from a free cell `c` on, and of the store below it.
pub record Carves (m g : Store) (prev n : ℕ) (c : Cell) (cs : List Cell) : Type 0 where
  pub chain : Chain g prev (carve c n cs)
  pub below : (x : ℕ) → 0 < x → x < c.addr → g x ≡ m x

module _ (m : Store) (prev e n : ℕ) (c : Cell) (pos : 0 < c.addr) (small : e < 2 ^ 63) where
  abbrev taken : List Cell → Store
  taken cs = occupy (cut m c.addr n c.size (head_addr cs)) c.addr

  -- The rest of the chain behind a cut block.
  behind-taken :
      (cs : List Cell)
      → Tiled (c.addr + 32 + c.size) cs e
      → n + 40 ≤ c.size
      → Chain m c.addr cs
      → Chain (taken cs) (c.addr + 32 + n) cs
  behind-taken [] t fits r = tt
  behind-taken (d ∷ ds) t fits (hd, r) =
      let a = c.addr in
      let g = cut m a n c.size d.addr in
      (
        ground (arith, cut-next m a n c.size d.addr, occupy_ne g a d.addr),
        Chain-same m (taken (d ∷ ds)) d.addr (d.addr + 32 + d.size) e ds t.1
            (λ x le.
              occupy_ne g a x (omega arith)
              ∙ cut-other m a n c.size d.addr x (omega arith) (omega arith) (omega arith))
            r,
      )

  below-taken :
      (cs : List Cell)
      → Tiled (c.addr + 32 + c.size) cs e
      → (x : ℕ) → 0 < x
      → x < c.addr
      → taken cs x ≡ m x
  below-taken [] t x p lt =
      occupy_ne (cut m c.addr n c.size 0) c.addr x (omega arith)
      ∙ cut-other m c.addr n c.size 0 x (omega arith) (omega arith) (omega arith)
  below-taken (d ∷ ds) t x p lt =
      occupy_ne (cut m c.addr n c.size d.addr) c.addr x (omega arith)
      ∙ cut-other m c.addr n c.size d.addr x (omega arith) (omega arith) (omega arith)

  end_le : (a : ℕ) (cs : List Cell) → Tiled a cs e → a ≤ e
  end_le a [] t = omega arith
  end_le a (d ∷ ds) t = omega (arith, end_le (d.addr + 32 + d.size) ds t.1)

  head_apart :
      (cs : List Cell)
      → Tiled (c.addr + 32 + c.size) cs e
      → (head_addr cs ≡ 0) ⊎ (c.addr + 32 + c.size ≡ head_addr cs)
  head_apart [] t = inl refl
  head_apart (d ∷ ds) t = inr (omega arith)

  carve-Carves :
      (cs : List Cell)
      → Tiled (c.addr + 32 + c.size) cs e
      → m c.addr ≡ header c (head_addr cs) prev
      → n ≤ c.size
      → Chain m c.addr cs
      → Carves m (occupy (split m c.addr n) c.addr) prev n c cs
  unfolding carve
  carve-Carves cs t h le r = elim (Bool-cases (leb (n + 40) c.size)) [
    | inl fits ↦
        let a = c.addr in
        let f : ℕ = if c.free then 1 else 0 in
        let bound = end_le (a + 32 + c.size) cs t in
        let apart = head_apart cs t in
        let g = cut m a n c.size (head_addr cs) in
        rw (split-cut m a n c.size (head_addr cs) prev f h (omega arith) (leb→le _ _ fits))
          (record {
            chain = rw fits (
              ground (arith, occupy_self g a, cut-a m a n c.size (head_addr cs) prev f h),
              (
                ground (
                  arith,
                  leb→le _ _ fits,
                  occupy_ne g a (a + 32 + n),
                  cut-new m a n c.size (head_addr cs),
                ),
                behind-taken cs t (leb→le _ _ fits) r,
              ),
            );
            below = below-taken cs t;
          })
    | inr tight ↦
        let a = c.addr in
        let f : ℕ = if c.free then 1 else 0 in
        let bound = end_le (a + 32 + c.size) cs t in
        let lt : c.size < n + 40 = ground arith in
        rw (split-small m a n c.size (head_addr cs) prev f h (omega arith) le lt) (record {
          chain = rw tight (
            ground (arith, occupy_self m a),
            Chain-same m (occupy m a) a (a + 32 + c.size) e cs t
                (λ x up. occupy_ne m a x (omega arith)) r,
          );
          below = λ x p lt. occupy_ne m a x (omega arith);
        })
  ]

pub head_addr-take_first : (cs : List Cell) (n : ℕ) → head_addr (take_first cs n).1 ≡ head_addr cs
unfolding take_first
head_addr-take_first [] n = refl
head_addr-take_first (c ∷ cs) n = ground arith

-- What a search that ends with the pointer and the store `out` has done, from the cells `cs` on.
pub record Found (m : Store) (prev a n : ℕ) (cs : List Cell) (out : ℕ × Store) : Type 0 where
  pub pointer : out.0 ≡ (take_first cs n).0
  pub chain : Chain out.1 prev (take_first cs n).1
  pub below : (x : ℕ) → 0 < x → x < a → out.1 x ≡ m x

module _ (m : Store) (e n : ℕ) (small : e < 2 ^ 63) where
  pub find_block-Found :
      (fuel prev a : ℕ) (cs : List Cell)
      → 0 < a
      → Tiled a cs e
      → Chain m prev cs
      → length cs < fuel
      → (out : ℕ × Store) × (find_block fuel m (head_addr cs) n ≡ some out)
        × Found m prev a n cs out
  unfolding find_block take_first
  find_block-Found zero prev a cs pos t h lt = absurd (omega arith)
  find_block-Found (suc fuel) prev a [] pos t h lt =
      ((0, m), refl, record { pointer = refl; chain = tt; below = λ x p q. refl })
  find_block-Found (suc fuel) prev a (c ∷ cs) pos t (h, r) lt =
      elim (Bool-cases (c.free && leb n c.size)) [
        | inl hit ↦
            let kept = carve-Carves m prev e n c (omega arith) small cs t.1 h (ground arith) r in
            let bound = end_le m prev e n c (omega arith) small (c.addr + 32 + c.size) cs t.1 in
            (
              (c.addr + 32, occupy (split m c.addr n) c.addr),
              ground (arith, h),
              record {
                pointer = rw hit;
                chain = rw hit kept.chain;
                below = λ x p lt. kept.below x p (omega arith);
              },
            )
        | inr miss ↦
            let (out, e', f) =
              find_block-Found fuel c.addr (c.addr + 32 + c.size) cs (omega arith) t.1 r
                (omega arith) in
            (
              out,
              ground (arith, h, e'),
              record {
                pointer = rw miss f.pointer;
                chain = rw miss (
                  f.below c.addr (omega arith) (omega arith)
                      ∙ h
                      ∙ ap (λ k. header c k prev) (sym (head_addr-take_first cs n)),
                  f.chain,
                );
                below = λ x p lt. f.below x p (omega arith);
              },
            )
      ]
