-- ===== src/Malloc/Calls.antt =====
-- What a call of `val_malloc` or `val_free` (val/src/val_malloc.c) does, on every branch.
use ff_a_acs.Base.{
  ℕ, ◌+◌, ◌-◌, ◌%◌, ◌^◌, ◌≡◌, ◌≤◌, ◌<◌, ◌≢◌, ◌⊎◌, refl, sym, subst, ap, ◌∙◌, arith, List, [], ◌∷◌,
  ◌++◌, true, false, ◌&&◌, leb, ◌==◌, Bool-cases, inl, inr, some, length, All,
}
use ff_a_acs.Malloc.{Store, Heap, align, init_heap, ensure_init, malloc, free, valid_magic}
use ff_a_acs.Malloc.Cells.{Cell, cell, Tiled, carve, take_first}
use ff_a_acs.Malloc.Chain.{header}
use ff_a_acs.Malloc.Fields.{write_self}
use ff_a_acs.Malloc.Alloc.{find_block-Found, head_addr-take_first}
use ff_a_acs.Malloc.Laws.{
  Holds, take_first-fits, take_first-skips, Tiled-take_first, Coalesced-take_first,
  Aligned-take_first,
}

align_mod : (n : ℕ) → align n % 8 ≡ 0
unfolding align
align_mod n = omega arith

-- A request in the last seven bytes of the address space is rounded up to nothing.
align_wraps : (n : ℕ) → 2 ^ 64 - 7 ≤ n → n < 2 ^ 64 → align n ≡ 0
unfolding align
align_wraps n l u = omega arith

align_up : (n : ℕ) → n < 2 ^ 64 - 7 → (n ≤ align n) × (align n < n + 8)
unfolding align
align_up n u = (omega arith, omega arith)

-- The search gives 0 exactly where every free cell is too small, and then leaves the cells alone.
take_first_fails :
    (n a e : ℕ) (cs : List Cell)
    → Tiled a cs e
    → ((take_first cs n).0 ≡ 0)
    → All (λ c. c.free ≡ true → c.size < n) cs × ((take_first cs n).1 ≡ cs)
unfolding take_first
take_first_fails n a e [] t z = (tt, refl)
take_first_fails n a e (c ∷ cs) t z = elim (Bool-cases (c.free && leb n c.size)) [
  | inl w ↦ absurd (ground (arith, take_first-fits n c cs w))
  | inr w ↦
      let z1 = ap (λ k. k.0) (sym (take_first-skips n c cs w)) ∙ z in
      let (small, same) = take_first_fails n (c.addr + 32 + c.size) e cs t.1 z1 in
      ((ground (arith, w), small), rw (take_first-skips n c cs w) (ap (λ k. c ∷ k) same))
]

take_first_zero :
    (c : Cell) (cs : List Cell)
    → c.free ≡ true
    → 40 ≤ c.size
    → take_first (c ∷ cs) 0
      ≡ (c.addr + 32, cell c.addr 0 false ∷ cell (c.addr + 32) (c.size - 32) true ∷ cs)
unfolding carve
take_first_zero c cs f s = take_first-fits 0 c cs (ground (arith, f)) ∙ ground (arith, s)

-- The cells `ds` hold a used cell of at least `n` bytes whose payload is at `p`.
pub record Serves (n p : ℕ) (ds : List Cell) : Type 0 where
  pub front : List Cell
  pub block : Cell
  pub back : List Cell
  pub cells : ds ≡ front ++ (block ∷ back)
  pub used : block.free ≡ false
  pub payload : p ≡ block.addr + 32
  pub room : n ≤ block.size

Serves-le : (n k p : ℕ) (ds : List Cell) → n ≤ k → Serves k p ds → Serves n p ds
Serves-le n k p ds le v = record {
  front = v.front;
  block = v.block;
  back = v.back;
  cells = v.cells;
  used = v.used;
  payload = v.payload;
  room = omega (arith, v.room);
}

carve-Serves :
    (n : ℕ) (c : Cell) (cs : List Cell) → n ≤ c.size → Serves n (c.addr + 32) (carve c n cs)
unfolding carve
carve-Serves n c cs l = elim (Bool-cases (leb (n + 40) c.size)) [
  | inl w ↦ record {
    front = [];
    block = cell c.addr n false;
    back = cell (c.addr + 32 + n) (c.size - n - 32) true ∷ cs;
    cells = rw w refl;
    used = refl;
    payload = refl;
    room = omega arith;
  }
  | inr w ↦ record {
    front = [];
    block = cell c.addr c.size false;
    back = cs;
    cells = rw w refl;
    used = refl;
    payload = refl;
    room = l;
  }
]

take_first-Serves :
    (n : ℕ) (cs : List Cell)
    → (take_first cs n).0 ≢ 0
    → Serves n (take_first cs n).0 (take_first cs n).1
unfolding take_first
take_first-Serves n [] nz = absurd (nz refl)
take_first-Serves n (c ∷ cs) nz = elim (Bool-cases (c.free && leb n c.size)) [
  | inl w ↦ rw (take_first-fits n c cs w) (carve-Serves n c cs (ground (arith, w)))
  | inr w ↦
      let k = take_first-Serves n cs (λ z. nz (rw w z)) in
      rw (take_first-skips n c cs w) (record {
        front = c ∷ k.front;
        block = k.block;
        back = k.back;
        cells = ap (λ ds. c ∷ ds) k.cells;
        used = k.used;
        payload = k.payload;
        room = k.room;
      })
]

module _ (base total : ℕ) (pos : 0 < base) (small : base + total < 2 ^ 63) where
  -- Where the heap, set up if it was not, holds the cells `cs`, and with fuel for each of them,
  -- `malloc` of a size that is not 0 returns: it gives the pointer of a first-fit search for the
  -- rounded size, and the heap then holds the cells that this search leaves.
  pub malloc-Holds :
      (fuel size : ℕ) (h : Heap) (cs : List Cell)
      → Holds base total (ensure_init base total h) cs
      → size ≢ 0
      → length cs < fuel
      → (h1 : Heap) × (malloc base total fuel h size ≡ some ((take_first cs (align size)).0, h1))
        × Holds base total h1 (take_first cs (align size)).1
  unfolding malloc
  malloc-Holds fuel size h cs k nz lt =
      let h0 = ensure_init base total h in
      let (out, e, f) =
        find_block-Found h0.store (base + total) (align size) small fuel 0 base cs pos k.tiled
          k.chain lt in
      (
        record h0 { store = out.1 },
        ground (arith, k.front, e, f.pointer),
        record {
          ready = k.ready;
          front = k.front ∙ sym (head_addr-take_first cs (align size));
          tiled = Tiled-take_first base (base + total) (align size) cs k.tiled;
          chain = f.chain;
          coalesced = Coalesced-take_first (align size) cs k.coalesced;
          aligned = Aligned-take_first (align size) cs (align_mod size) k.aligned;
        },
      )

  -- A heap that was not set up becomes one free cell that fills the buffer, which starts on a multiple
  -- of 8 bytes and has a multiple of 8 bytes, at least 32.
  pub ensure_init-Holds :
      (h : Heap)
      → h.initialized ≡ 0
      → 32 ≤ total
      → base % 8 ≡ 0
      → total % 8 ≡ 0
      → Holds base total (ensure_init base total h) (cell base (total - 32) true ∷ [])
  unfolding ensure_init init_heap
  ensure_init-Holds h z l a t = rw z (record {
    ready = refl;
    front = refl;
    tiled = (refl, omega arith);
    chain = (write_self h.store base (header (cell base (total - 32) true) 0 0), tt);
    coalesced = (refl, tt);
    aligned = ((a, omega arith), tt);
  })

  -- Where the heap, set up if it was not, holds the cells `cs`, and with fuel for each of them, a call
  -- for 1 to 2^64 - 8 bytes returns: either NULL, where no free cell has room for the rounded size and
  -- the cells stay, or the payload of a used cell with room for the size.
  pub malloc_lem :
      (fuel size : ℕ) (h : Heap) (cs : List Cell)
      → Holds base total (ensure_init base total h) cs
      → size ≢ 0
      → size < 2 ^ 64 - 7
      → length cs < fuel
      → (p : ℕ) × (h1 : Heap) × (ds : List Cell) × (malloc base total fuel h size ≡ some (p, h1))
        × Holds base total h1 ds
        × ((p ≡ 0) × (ds ≡ cs) × All (λ c. c.free ≡ true → c.size < align size) cs
            ⊎ Serves size p ds)
  malloc_lem fuel size h cs k nz u lt =
      let (h1, e, k1) = malloc-Holds fuel size h cs k nz lt in
      let n = align size in
      (
        (take_first cs n).0,
        h1,
        (take_first cs n).1,
        e,
        k1,
        elim (Bool-cases ((take_first cs n).0 == 0)) [
          | inl w ↦
              let (few, same) =
                take_first_fails n base (base + total) cs k.tiled (ground (arith, w)) in
              inl (ground (arith, w), same, few)
          | inr w ↦
              let v = take_first-Serves n cs (ground (arith, w)) in
              inr (Serves-le size n (take_first cs n).0 (take_first cs n).1 (align_up size u).0 v)
        ],
      )

  -- A request in the last seven bytes of the address space is served by a block of no bytes, where
  -- the heap holds cells of which the first is free and has 40 bytes, with fuel for each of them.
  pub malloc_huge :
      (fuel size : ℕ) (h : Heap) (c : Cell) (cs : List Cell)
      → Holds base total (ensure_init base total h) (c ∷ cs)
      → 2 ^ 64 - 7 ≤ size
      → size < 2 ^ 64
      → c.free ≡ true
      → 40 ≤ c.size
      → length (c ∷ cs) < fuel
      → (h1 : Heap) × (malloc base total fuel h size ≡ some (c.addr + 32, h1))
        × Holds base total h1 (cell c.addr 0 false ∷ cell (c.addr + 32) (c.size - 32) true ∷ cs)
  malloc_huge fuel size h c cs k l u f s lt =
      let (h1, e, k1) = malloc-Holds fuel size h (c ∷ cs) k (omega arith) lt in
      let z = ap (λ n. take_first (c ∷ cs) n) (align_wraps size l u) ∙ take_first_zero c cs f s in
      (h1, e ∙ ap (λ r. some (r.0, h1)) z, subst (λ r. Holds base total h1 r.1) z k1)

-- `val_free` of NULL, of an address behind a header without the magic, or of a free block reports
-- an error and changes nothing; only a used block goes on to be coalesced.
pub free_refuses :
    (fuel : ℕ) (m : Store) (ptr : ℕ)
    → (ptr ≡ 0)
      ⊎ (((m ((ptr + 2 ^ 64 - 32) % 2 ^ 64)).magic ≢ valid_magic)
          ⊎ ((m ((ptr + 2 ^ 64 - 32) % 2 ^ 64)).free ≢ 0))
    → free fuel m ptr ≡ some (1, m)
unfolding free
free_refuses fuel m ptr (inl h) = rw h refl
free_refuses fuel m ptr (inr (inl h)) = ground arith
free_refuses fuel m ptr (inr (inr h)) = ground arith
