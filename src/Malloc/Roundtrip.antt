-- ===== src/Malloc/Roundtrip.antt =====
-- `val_free` undoes `val_malloc` (val/src/val_malloc.c).
use ff_a_acs.Base.{
  ℕ, ◌+◌, ◌-◌, ◌^◌, ◌≡◌, ◌≤◌, ◌<◌, ◌≢◌, refl, arith, ◌∙◌, ap, sym, List, [], ◌∷◌, ◌++◌, length,
  true, false, some, ◌&&◌, inl, inr, Bool-cases, leb, subst,
}
use ff_a_acs.Malloc.{Store, Heap, align, ensure_init, malloc, free}
use ff_a_acs.Malloc.Cells.{
  Cell, cell, Coalesced, head_free, absorb, retreat, release, plug, carve, take_first,
}
use ff_a_acs.Malloc.Join.{joined}
use ff_a_acs.Malloc.Plug.{Coalesced-unplug, length-plug, plug-append}
use ff_a_acs.Malloc.Free.{absorb-free, absorb-used, retreat-used}
use ff_a_acs.Malloc.Laws.{Holds, take_first-fits, take_first-skips}
use ff_a_acs.Malloc.Calls.{malloc-Holds}
use ff_a_acs.Malloc.Release.{free-Holds}

-- What a search that succeeds has found: the free cell `c` between `fs` and `ds`.
record Hit (n : ℕ) (cs : List Cell) : Type 0 where
  fs : List Cell
  c : Cell
  ds : List Cell
  cells : cs ≡ plug fs (c ∷ ds)
  was_free : c.free ≡ true
  room : n ≤ c.size
  found : take_first cs n ≡ (c.addr + 32, plug fs (carve c n ds))

take_first-Hit : (n : ℕ) (cs : List Cell) → (take_first cs n).0 ≢ 0 → Hit n cs
unfolding take_first
take_first-Hit n [] nz = absurd (nz refl)
take_first-Hit n (x ∷ cs) nz = elim (Bool-cases (x.free && leb n x.size)) [
  | inl w ↦ record {
    fs = [];
    c = x;
    ds = cs;
    cells = refl;
    was_free = ground (arith, w);
    room = ground (arith, w);
    found = take_first-fits n x cs w;
  }
  | inr w ↦
      let k = take_first-Hit n cs (λ z. nz (rw w z)) in
      record {
        fs = k.fs ++ (x ∷ []);
        c = k.c;
        ds = k.ds;
        cells = ap (λ ys. x ∷ ys) k.cells ∙ sym (plug-append k.fs (x ∷ []) (k.c ∷ k.ds));
        was_free = k.was_free;
        room = k.room;
        found =
            take_first-skips n x cs w
            ∙ ap (λ r. (r.0, x ∷ r.1)) k.found
            ∙ ap (λ ys. (k.c.addr + 32, ys)) (sym (plug-append k.fs (x ∷ []) (carve k.c n k.ds)));
      }
]

absorb-quiet : (c : Cell) (ds : List Cell) → head_free ds ≡ false → absorb c ds ≡ (c, ds)
unfolding absorb
absorb-quiet c [] q = refl
absorb-quiet c (d ∷ ds) q = absorb-used c d ds q

retreat-quiet :
    (fs : List Cell) (c : Cell) (cs : List Cell)
    → head_free fs ≡ false
    → retreat fs c cs ≡ plug fs (c ∷ cs)
unfolding retreat
retreat-quiet [] c cs q = refl
retreat-quiet (f ∷ fs) c cs q = retreat-used f fs c cs q

-- Giving back what was carved from a free cell that had no free neighbour restores it.
release-carve :
    (fs : List Cell) (c : Cell) (ds : List Cell) (n : ℕ)
    → c.free ≡ true
    → n ≤ c.size
    → Coalesced (plug fs (c ∷ ds))
    → (u : Cell) × (es : List Cell) × (carve c n ds ≡ u ∷ es)
      × (u.free ≡ false)
      × (u.addr ≡ c.addr)
      × (release fs u es ≡ plug fs (c ∷ ds))
unfolding carve release
release-carve fs c ds n f l k =
    let (p, q, (g, r)) = Coalesced-unplug fs (c ∷ ds) k in
    let before : head_free fs ≡ false = ground (arith, q, f) in
    let behind : head_free ds ≡ false = ground (arith, g, f) in
    let whole : cell c.addr c.size true ≡ c = ground (arith, f) in
    let last : retreat fs c ds ≡ plug fs (c ∷ ds) = retreat-quiet fs c ds before in
    elim (Bool-cases (leb (n + 40) c.size)) [
      | inl w ↦
          let rest = cell (c.addr + 32 + n) (c.size - n - 32) true in
          let back : joined (cell c.addr n true) rest ≡ c = ground (arith, f, w) in
          (
            cell c.addr n false,
            rest ∷ ds,
            rw w refl,
            refl,
            refl,
            rw
                (
                  release,
                  absorb-free (cell c.addr n true) rest ds refl,
                  back,
                  absorb-quiet c ds behind,
                )
                last,
          )
      | inr w ↦ (
        cell c.addr c.size false,
        ds,
        rw w refl,
        refl,
        refl,
        rw (release, whole, absorb-quiet c ds behind) last,
      )
    ]

length-carve : (c : Cell) (n : ℕ) (ds : List Cell) → length (carve c n ds) ≤ length ds + 2
unfolding carve
length-carve c n ds = ground arith

-- One cell more than before, at most.
length-cut :
    (fs : List Cell) (c : Cell) (ds : List Cell) (n : ℕ) (u : Cell) (es : List Cell)
    → carve c n ds ≡ u ∷ es
    → length (plug fs (u ∷ es)) ≤ length (plug fs (c ∷ ds)) + 1
length-cut fs c ds n u es e =
    omega
      (arith, length-plug fs (u ∷ es), length-plug fs (c ∷ ds), length-carve c n ds, ap length e)

module _ (base total : ℕ) (pos : 0 < base) (small : base + total < 2 ^ 63) where
  -- Where the heap, set up if it was not, holds the cells `cs`, fuel is left for one cell more than
  -- they are, and the first-fit search for the rounded size succeeds: `val_malloc` gives a pointer that
  -- `val_free` takes back, and the heap then holds `cs` again.
  pub free-malloc :
      (fuel size : ℕ) (h : Heap) (cs : List Cell)
      → Holds base total (ensure_init base total h) cs
      → size ≢ 0
      → length cs + 1 < fuel
      → (take_first cs (align size)).0 ≢ 0
      → (h1 : Heap) × (m : Store) × (malloc base total fuel h size
          ≡ some ((take_first cs (align size)).0, h1))
        × (free fuel h1.store (take_first cs (align size)).0 ≡ some (0, m))
        × Holds base total (record h1 { store = m }) cs
  free-malloc fuel size h cs k nz lt hit =
      let n = align size in
      let (h1, e, k1) = malloc-Holds base total pos small fuel size h cs k nz (omega arith) in
      let t = take_first-Hit n cs hit in
      let whole : Coalesced (plug t.fs (t.c ∷ t.ds)) = subst Coalesced t.cells k.coalesced in
      let (u, es, cut, used, at, back) = release-carve t.fs t.c t.ds n t.was_free t.room whole in
      let left : take_first cs n ≡ (u.addr + 32, plug t.fs (u ∷ es)) =
        t.found ∙ rw (cut, at) refl in
      let k2 : Holds base total h1 (plug t.fs (u ∷ es)) =
        subst (λ r. Holds base total h1 r.1) left k1 in
      let (m, f, k3) =
        free-Holds base total pos small fuel h1 t.fs u es k2 used
          (omega (arith, length-cut t.fs t.c t.ds n u es cut, ap length t.cells)) in
      (
        h1,
        m,
        e,
        subst (λ (r : ℕ × List Cell). free fuel h1.store r.0 ≡ some (0, m)) (sym left) f,
        subst (λ ys. Holds base total (record h1 { store = m }) ys) (back ∙ sym t.cells) k3,
      )
