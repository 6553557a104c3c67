-- ===== src/Malloc/Plug.antt =====
-- The block list of val/src/val_malloc.c seen from one of its blocks: the cells in front of it, nearest
-- first, and those behind.
use ff_a_acs.Base.{ℕ, ◌+◌, ◌≡◌, refl, sym, arith, List, [], ◌∷◌, ◌++◌, false, ◌&&◌, All, length}
use ff_a_acs.Malloc.{Store}
use ff_a_acs.Malloc.Cells.{Cell, Tiled, Coalesced, head_free, plug}
use ff_a_acs.Malloc.Chain.{head_addr, Chain, Back}

-- The cells in front end without a gap at `a`, the farthest starts at `base`.
abbrev pub Behind : ℕ → List Cell → ℕ → Type 0
Behind base [] a = base ≡ a
Behind base (f ∷ fs) a = (f.addr + 32 + f.size ≡ a) × Behind base fs f.addr

-- No two neighbours are both free, read from the back.
abbrev pub Apart : List Cell → Type 0
Apart [] = Unit
Apart (f ∷ fs) = ((head_free fs && f.free) ≡ false) × Apart fs

pub Chain-plug :
    (m : Store) (fs cs : List Cell)
    → Back m (head_addr cs) fs
    → Chain m (head_addr fs) cs
    → Chain m 0 (plug fs cs)
Chain-plug m [] cs b h = h
Chain-plug m (f ∷ fs) cs (e, b) h = Chain-plug m fs (f ∷ cs) b (e, h)

pub Chain-unplug :
    (m : Store) (fs cs : List Cell)
    → Chain m 0 (plug fs cs)
    → Back m (head_addr cs) fs × Chain m (head_addr fs) cs
Chain-unplug m [] cs h = (tt, h)
Chain-unplug m (f ∷ fs) cs h = let (b, (e, r)) = Chain-unplug m fs (f ∷ cs) h in ((e, b), r)

pub Tiled-plug :
    (base a e : ℕ) (fs cs : List Cell) → Behind base fs a → Tiled a cs e → Tiled base (plug fs cs) e
Tiled-plug base a e [] cs b t = rw b t
Tiled-plug base a e (f ∷ fs) cs (g, b) t = Tiled-plug base f.addr e fs (f ∷ cs) b (refl, rw g t)

pub Tiled-unplug :
    (base e : ℕ) (fs : List Cell) (c : Cell) (cs : List Cell)
    → Tiled base (plug fs (c ∷ cs)) e
    → Behind base fs c.addr × Tiled c.addr (c ∷ cs) e
Tiled-unplug base e [] c cs t = (sym t.0, (refl, t.1))
Tiled-unplug base e (f ∷ fs) c cs t =
    let (b, (r, (g, t1))) = Tiled-unplug base e fs f (c ∷ cs) t in ((sym g, b), (refl, t1))

pub Coalesced-plug :
    (fs cs : List Cell)
    → Apart fs
    → (head_free fs && head_free cs) ≡ false
    → Coalesced cs
    → Coalesced (plug fs cs)
Coalesced-plug [] cs a e h = h
Coalesced-plug (f ∷ fs) cs (g, a) e h = Coalesced-plug fs (f ∷ cs) a g (e, h)

pub Coalesced-unplug :
    (fs cs : List Cell)
    → Coalesced (plug fs cs)
    → Apart fs × ((head_free fs && head_free cs) ≡ false) × Coalesced cs
Coalesced-unplug [] cs h = (tt, refl, h)
Coalesced-unplug (f ∷ fs) cs h =
    let (a, g, (e, r)) = Coalesced-unplug fs (f ∷ cs) h in ((g, a), e, r)

module _ (P : Cell → Type 0) where
  pub All-plug : (fs cs : List Cell) → All P fs → All P cs → All P (plug fs cs)
  All-plug [] cs b h = h
  All-plug (f ∷ fs) cs (p, b) h = All-plug fs (f ∷ cs) b (p, h)

  pub All-unplug : (fs cs : List Cell) → All P (plug fs cs) → All P fs × All P cs
  All-unplug [] cs h = (tt, h)
  All-unplug (f ∷ fs) cs h = let (b, (p, r)) = All-unplug fs (f ∷ cs) h in ((p, b), r)

pub length-plug : (fs cs : List Cell) → length (plug fs cs) ≡ length fs + length cs
length-plug [] cs = omega arith
length-plug (f ∷ fs) cs = omega (arith, length-plug fs (f ∷ cs))

pub plug-append : (fs gs cs : List Cell) → plug (fs ++ gs) cs ≡ plug gs (plug fs cs)
plug-append [] gs cs = refl
plug-append (f ∷ fs) gs cs = plug-append fs gs (f ∷ cs)
