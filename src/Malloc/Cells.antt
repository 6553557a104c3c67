-- ===== src/Malloc/Cells.antt =====
-- The abstract heap: the blocks in address order, and what each call does to that list.
use ff_a_acs.Base.{ℕ, ◌+◌, ◌-◌, ◌≡◌, Bool, true, false, ◌&&◌, List, [], ◌∷◌, leb, if◌then◌else◌}

pub record Cell : Type 0 where
  pub addr : ℕ
  pub size : ℕ
  pub free : Bool

abbrev pub cell : ℕ → ℕ → Bool → Cell
cell a n f = record { addr = a; size = n; free = f }

-- The cells follow one another without a gap from `a` to `e`.
abbrev pub Tiled : ℕ → List Cell → ℕ → Type 0
Tiled a [] e = a ≡ e
Tiled a (c ∷ cs) e = (c.addr ≡ a) × Tiled (c.addr + 32 + c.size) cs e

abbrev pub head_free : List Cell → Bool
head_free [] = false
head_free (c ∷ cs) = c.free

-- No two neighbours are both free.
abbrev pub Coalesced : List Cell → Type 0
Coalesced [] = Unit
Coalesced (c ∷ cs) = ((c.free && head_free cs) ≡ false) × Coalesced cs

-- The used cell of `n` bytes at a free cell, and the free rest if it is worth a header.
unfoldable pub carve : Cell → ℕ → List Cell → List Cell
carve c n cs =
    if leb (n + 40) c.size
    then cell c.addr n false ∷ cell (c.addr + 32 + n) (c.size - n - 32) true ∷ cs
    else cell c.addr c.size false ∷ cs

-- First fit: the payload's address, 0 if nothing fits, and the cells.
unfoldable pub take_first : List Cell → ℕ → ℕ × List Cell
unfolding carve
take_first [] n = (0, [])
take_first (c ∷ cs) n =
    let (p, ds) = take_first cs n in
    if c.free && leb n c.size then (c.addr + 32, carve c n cs) else (p, c ∷ ds)

-- The front of a list, nearest cell first, put back before `cs`.
abbrev pub plug : List Cell → List Cell → List Cell
plug [] cs = cs
plug (f ∷ fs) cs = plug fs (f ∷ cs)

-- A free cell swallows the free cells behind it, and is swallowed by those before it.
unfoldable pub absorb : Cell → List Cell → Cell × List Cell
absorb c [] = (c, [])
absorb c (d ∷ ds) =
    let rest = absorb (cell c.addr (c.size + (32 + d.size)) c.free) ds in
    if d.free then rest else (c, d ∷ ds)

unfoldable pub retreat : List Cell → Cell → List Cell → List Cell
retreat [] c cs = c ∷ cs
retreat (f ∷ fs) c cs =
    let rest = retreat fs (cell f.addr (f.size + (32 + c.size)) f.free) cs in
    if f.free then rest else plug (f ∷ fs) (c ∷ cs)

-- The cells once `c`, between those in front of it and those behind it, is given back.
unfoldable pub release : List Cell → Cell → List Cell → List Cell
unfolding absorb retreat
release fs c ds = let (c', es) = absorb (cell c.addr c.size true) ds in retreat fs c' es
