-- ===== src/Malloc/Chain.antt =====
-- A doubly linked run of headers in the store, and the list of cells that it stands for.
use ff_a_acs.Base.{ℕ, ◌+◌, ◌≡◌, ◌≤◌, arith, ◌∙◌, List, [], ◌∷◌, if◌then◌else◌}
use ff_a_acs.Malloc.{Block, Store, valid_magic}
use ff_a_acs.Malloc.Cells.{Cell, Tiled}

abbrev pub head_addr : List Cell → ℕ
head_addr [] = 0
head_addr (c ∷ cs) = c.addr

abbrev pub header : Cell → (next prev : ℕ) → Block
header c n p = record {
  magic = valid_magic;
  free = if c.free then 1 else 0;
  size = c.size;
  next = n;
  prev = p;
}

-- The headers of `cs` link to one another, the first back to `prev`, the last to NULL.
abbrev pub Chain : Store → ℕ → List Cell → Type 0
Chain m prev [] = Unit
Chain m prev (c ∷ cs) = (m c.addr ≡ header c (head_addr cs) prev) × Chain m c.addr cs

-- The same, read from the back: the nearest header links on to `next`.
abbrev pub Back : Store → ℕ → List Cell → Type 0
Back m next [] = Unit
Back m next (f ∷ fs) = (m f.addr ≡ header f next (head_addr fs)) × Back m f.addr fs

pub Chain-same :
    (m g : Store) (prev a e : ℕ) (cs : List Cell)
    → Tiled a cs e
    → ((x : ℕ) → a ≤ x → g x ≡ m x)
    → Chain m prev cs
    → Chain g prev cs
Chain-same m g prev a e [] t same h = tt
Chain-same m g prev a e (c ∷ cs) t same (h, r) = (
  same c.addr (omega arith) ∙ h,
  Chain-same m g c.addr (c.addr + 32 + c.size) e cs t.1 (λ x le. same x (omega arith)) r,
)
