-- ===== src/Malloc/Laws.antt =====
-- The heap that `val_malloc` keeps, and what its callers may rely on.
use ff_a_acs.Base.{
  ℕ, ◌+◌, ◌%◌, ◌≡◌, ◌≤◌, refl, sym, arith, List, [], ◌∷◌, true, false, ◌&&◌, leb, Bool-cases, inl,
  inr, All,
}
use ff_a_acs.Malloc.{Heap}
use ff_a_acs.Malloc.Cells.{Cell, Tiled, Coalesced, head_free, carve, take_first}
use ff_a_acs.Malloc.Chain.{head_addr, Chain}

-- A cell on an 8-byte boundary with a size that is a multiple of 8.
abbrev pub Aligned : Cell → Type 0
Aligned c = (c.addr % 8 ≡ 0) × (c.size % 8 ≡ 0)

-- The heap `h` of `total` bytes at `base` holds the cells `cs`: they tile the buffer, no two free
-- neighbours are left apart, and the headers in the store are theirs.
pub record Holds (base total : ℕ) (h : Heap) (cs : List Cell) : Type 0 where
  pub ready : h.initialized ≡ 1
  pub front : h.free_list ≡ head_addr cs
  pub tiled : Tiled base cs (base + total)
  pub chain : Chain h.store 0 cs
  pub coalesced : Coalesced cs
  pub aligned : All Aligned cs

Tiled-carve :
    (e n : ℕ) (c : Cell) (cs : List Cell)
    → n ≤ c.size
    → Tiled (c.addr + 32 + c.size) cs e
    → Tiled c.addr (carve c n cs) e
unfolding carve
Tiled-carve e n c cs l t = elim (Bool-cases (leb (n + 40) c.size)) [
  | inl w ↦ ground arith
  | inr w ↦ ground arith
]

pub take_first-fits :
    (n : ℕ) (c : Cell) (cs : List Cell)
    → (c.free && leb n c.size) ≡ true
    → take_first (c ∷ cs) n ≡ (c.addr + 32, carve c n cs)
unfolding take_first
take_first-fits n c cs w = rw w refl

pub take_first-skips :
    (n : ℕ) (c : Cell) (cs : List Cell)
    → (c.free && leb n c.size) ≡ false
    → take_first (c ∷ cs) n ≡ ((take_first cs n).0, c ∷ (take_first cs n).1)
unfolding take_first
take_first-skips n c cs w = rw w refl

pub Tiled-take_first : (a e n : ℕ) (cs : List Cell) → Tiled a cs e → Tiled a (take_first cs n).1 e
unfolding take_first
Tiled-take_first a e n [] t = t
Tiled-take_first a e n (c ∷ cs) t =
    let h = Tiled-take_first (c.addr + 32 + c.size) e n cs t.1 in
    elim (Bool-cases (c.free && leb n c.size)) [
      | inl w ↦ rw (take_first-fits n c cs w, sym t.0) (Tiled-carve e n c cs (ground arith) t.1)
      | inr w ↦ rw (take_first-skips n c cs w) (t.0, h)
    ]

head_free-take_first :
    (n : ℕ) (cs : List Cell) → head_free cs ≡ false → head_free (take_first cs n).1 ≡ false
unfolding take_first
head_free-take_first n [] h = h
head_free-take_first n (c ∷ cs) h = rw (take_first-skips n c cs (ground (arith, h))) h

Coalesced-carve :
    (n : ℕ) (c : Cell) (cs : List Cell)
    → c.free ≡ true
    → Coalesced (c ∷ cs)
    → Coalesced (carve c n cs)
unfolding carve
Coalesced-carve n c cs f h = elim (Bool-cases (leb (n + 40) c.size)) [
  | inl w ↦ ground arith
  | inr w ↦ ground arith
]

pub Coalesced-take_first : (n : ℕ) (cs : List Cell) → Coalesced cs → Coalesced (take_first cs n).1
unfolding take_first
Coalesced-take_first n [] h = h
Coalesced-take_first n (c ∷ cs) h = elim (Bool-cases (c.free && leb n c.size)) [
  | inl w ↦ rw (take_first-fits n c cs w) (Coalesced-carve n c cs (ground (arith, w)) h)
  | inr w ↦
      rw (take_first-skips n c cs w)
        (ground (arith, head_free-take_first n cs), Coalesced-take_first n cs h.1)
]

Aligned-carve :
    (n : ℕ) (c : Cell) (cs : List Cell)
    → n % 8 ≡ 0
    → n ≤ c.size
    → All Aligned (c ∷ cs)
    → All Aligned (carve c n cs)
unfolding carve
Aligned-carve n c cs m l h = elim (Bool-cases (leb (n + 40) c.size)) [
  | inl w ↦ ground arith
  | inr w ↦ ground arith
]

pub Aligned-take_first :
    (n : ℕ) (cs : List Cell) → n % 8 ≡ 0 → All Aligned cs → All Aligned (take_first cs n).1
unfolding take_first
Aligned-take_first n [] m h = tt
Aligned-take_first n (c ∷ cs) m h = elim (Bool-cases (c.free && leb n c.size)) [
  | inl w ↦ rw (take_first-fits n c cs w) (Aligned-carve n c cs m (ground arith) h)
  | inr w ↦ rw (take_first-skips n c cs w) (h.0, Aligned-take_first n cs m h.1)
]
