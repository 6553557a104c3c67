-- ===== src/Malloc/Release.antt =====
-- `val_free` (val/src/val_malloc.c) gives a block back to the heap: the list of blocks that results.
use ff_a_acs.Base.{
  ℕ, ◌+◌, ◌-◌, ◌%◌, ◌^◌, ◌≡◌, ◌<◌, refl, arith, ◌∙◌, ap, sym, List, [], ◌∷◌, length, true, false,
  some, ◌==◌, inl, inr, Bool-cases, All,
}
use ff_a_acs.Malloc.{Store, Heap, valid_magic, set_free, coalesce, free, block_size}
use ff_a_acs.Malloc.Fields.{set_free_self, set_free_ne}
use ff_a_acs.Malloc.Cells.{Cell, cell, Tiled, Coalesced, head_free, absorb, retreat, release, plug}
use ff_a_acs.Malloc.Chain.{head_addr, Chain, Chain-same, Back}
use ff_a_acs.Malloc.Join.{joined}
use ff_a_acs.Malloc.Plug.{
  Behind, Apart, Chain-unplug, Tiled-plug, Tiled-unplug, Coalesced-plug, Coalesced-unplug, All-plug,
  All-unplug, length-plug,
}
use ff_a_acs.Malloc.Free.{
  Back-same, Tiled-le, Behind-le, coalesce_forward-Forward, coalesce_backward-Chain, absorb-free,
  absorb-used, retreat-free, retreat-used, Tiled-joined,
}
use ff_a_acs.Malloc.Laws.{Aligned, Holds}

-- A free cell `c` and what is behind it, once it has swallowed its free neighbours.
record Absorbed (e : ℕ) (c : Cell) (r : Cell × List Cell) : Type 0 where
  addr : r.0.addr ≡ c.addr
  free : r.0.free ≡ c.free
  tiled : Tiled r.0.addr (r.0 ∷ r.1) e
  quiet : head_free r.1 ≡ false
  coalesced : Coalesced r.1
  aligned : All Aligned (r.0 ∷ r.1)

absorb-Absorbed :
    (e : ℕ) (c : Cell) (ds : List Cell)
    → Tiled c.addr (c ∷ ds) e
    → Coalesced ds
    → All Aligned (c ∷ ds)
    → Absorbed e c (absorb c ds)
unfolding absorb
absorb-Absorbed e c [] t k a = record {
  addr = refl;
  free = refl;
  tiled = t;
  quiet = refl;
  coalesced = tt;
  aligned = a;
}
absorb-Absorbed e c (d ∷ ds) t k a = elim (Bool-cases d.free) [
  | inl w ↦
      let ih =
        absorb-Absorbed e (joined c d) ds (Tiled-joined e c d ds t) k.1
          ((a.0.0, omega (arith, a)), a.1.1) in
      rw (absorb-free c d ds w) (record {
        addr = ih.addr;
        free = ih.free;
        tiled = ih.tiled;
        quiet = ih.quiet;
        coalesced = ih.coalesced;
        aligned = ih.aligned;
      })
  | inr w ↦
      rw (absorb-used c d ds w)
        (record { addr = refl; free = refl; tiled = t; quiet = w; coalesced = k; aligned = a })
]

-- The cells that result fill the same bytes, and have no free neighbours apart.
record Sound (base e : ℕ) (cs : List Cell) : Type 0 where
  tiled : Tiled base cs e
  coalesced : Coalesced cs
  aligned : All Aligned cs

retreat-Sound :
    (base e : ℕ) (fs : List Cell) (c : Cell) (cs : List Cell)
    → Behind base fs c.addr
    → Tiled c.addr (c ∷ cs) e
    → Apart fs
    → head_free cs ≡ false
    → Coalesced cs
    → All Aligned fs
    → All Aligned (c ∷ cs)
    → Sound base e (retreat fs c cs)
unfolding retreat
retreat-Sound base e [] c cs b t p q k af a = record {
  tiled = rw b t;
  coalesced = (ground (arith, q), k);
  aligned = a;
}
retreat-Sound base e (f ∷ fs) c cs (g, b) t (p, p') q k (af, af') a = elim (Bool-cases f.free) [
  | inl w ↦
      let t1 : Tiled f.addr (f ∷ c ∷ cs) e = (refl, (sym g, t.1)) in
      let ih =
        retreat-Sound base e fs (joined f c) cs b (Tiled-joined e f c cs t1) p' q k af'
          ((af.0, omega (arith, af, a.0)), a.1) in
      rw (retreat-free f fs c cs w) ih
  | inr w ↦ rw (retreat-used f fs c cs w) (record {
    tiled = Tiled-plug base c.addr e (f ∷ fs) (c ∷ cs) (g, b) t;
    coalesced = Coalesced-plug (f ∷ fs) (c ∷ cs) (p, p') (ground (arith, w)) (ground (arith, q), k);
    aligned = All-plug Aligned (f ∷ fs) (c ∷ cs) (af, af') a;
  })
]

release-Sound :
    (base e : ℕ) (fs : List Cell) (c : Cell) (ds : List Cell)
    → Sound base e (plug fs (c ∷ ds))
    → Sound base e (release fs c ds)
unfolding release
release-Sound base e fs c ds s =
    let (b, t) = Tiled-unplug base e fs c ds s.tiled in
    let (p, q, k) = Coalesced-unplug fs (c ∷ ds) s.coalesced in
    let (af, a) = All-unplug Aligned fs (c ∷ ds) s.aligned in
    let c1 = cell c.addr c.size true in
    let r = absorb-Absorbed e c1 ds t k.1 a in
    retreat-Sound base e fs (absorb c1 ds).0 (absorb c1 ds).1 (rw (r.addr) b) r.tiled p r.quiet
      r.coalesced af r.aligned

-- A used block is marked and coalesced.
free-coalesce :
    (fuel b : ℕ) (m : Store) (out : ℕ × Store)
    → b < 2 ^ 63
    → (m b).magic ≡ valid_magic
    → (m b).free ≡ 0
    → coalesce fuel (set_free m b 1) b ≡ some out
    → free fuel m (b + 32) ≡ some (0, out.1)
unfolding free
free-coalesce fuel b m out small magic fr e =
    let at : (b + 32 + 2 ^ 64 - block_size) % 2 ^ 64 ≡ b = omega arith in
    let ptr : (b + 32 == 0) ≡ false = ground arith in rw (at, ptr, magic, fr, e) refl

head_addr-Tiled : (base e : ℕ) (cs : List Cell) → base < e → Tiled base cs e → head_addr cs ≡ base
head_addr-Tiled base e [] lt t = absurd (omega (arith, t))
head_addr-Tiled base e (c ∷ cs) lt t = t.0

module _ (base total : ℕ) (pos : 0 < base) (small : base + total < 2 ^ 63) where
  -- `val_coalesce` on a block that has just been marked as free.
  coalesce-Chain :
      (fuel : ℕ) (m : Store) (fs : List Cell) (c : Cell) (ds : List Cell)
      → Tiled base (plug fs (c ∷ ds)) (base + total)
      → Chain m 0 (plug fs (c ∷ ds))
      → Coalesced (plug fs (c ∷ ds))
      → All Aligned (plug fs (c ∷ ds))
      → length (plug fs (c ∷ ds)) < fuel
      → (out : ℕ × Store) × (coalesce fuel (set_free m c.addr 1) c.addr ≡ some out)
        × Chain out.1 0 (release fs c ds)
  unfolding release coalesce
  coalesce-Chain fuel m fs c ds t h k a lt =
      let e = base + total in
      let c1 = cell c.addr c.size true in
      let m1 = set_free m c.addr 1 in
      let (b, t1) = Tiled-unplug base e fs c ds t in
      let (hb, (hc, hr)) = Chain-unplug m fs (c ∷ ds) h in
      let low = Behind-le base c.addr fs b in
      let sizes = length-plug fs (c ∷ ds) in
      let kd = Coalesced-unplug fs (c ∷ ds) k in
      let r = absorb-Absorbed e c1 ds t1 kd.2.1 (All-unplug Aligned fs (c ∷ ds) a).1 in
      let h1 : Chain m1 (head_addr fs) (c1 ∷ ds) = (
        set_free_self m c.addr 1 ∙ rw hc refl,
        Chain-same m m1 c.addr (c.addr + 32 + c.size) e ds t1.1
            (λ x up. set_free_ne m c.addr 1 x (omega arith)) hr,
      ) in
      let b1 : Back m1 c.addr fs =
        Back-same m m1 base c.addr c.addr fs pos b (λ x p q. set_free_ne m c.addr 1 x (omega arith))
          hb in
      let (m2, e2, f) =
        coalesce_forward-Forward e small fuel (head_addr fs) m1 c1 ds (omega arith) t1 h1
          (omega (arith, sizes)) in
      let b2 : Back m2 (absorb c1 ds).0.addr fs =
        rw (r.addr) (Back-same m1 m2 base c.addr c.addr fs pos b f.below b1) in
      let (out, e3, h3) =
        coalesce_backward-Chain e small base pos fuel m2 fs (absorb c1 ds).0 (absorb c1 ds).1
          (rw (r.addr) b) r.tiled b2 f.chain (omega (arith, sizes)) in
      (out, rw (coalesce, e2) (rw (r.addr) at e3), h3)

  -- On a heap that holds the cells `cs`, of which `c` is in use, with fuel for each of them, `val_free`
  -- of the payload of `c` succeeds, and the heap then holds the cells with `c` free and merged with its
  -- free neighbours on both sides.
  pub free-Holds :
      (fuel : ℕ) (h : Heap) (fs : List Cell) (c : Cell) (ds : List Cell)
      → Holds base total h (plug fs (c ∷ ds))
      → c.free ≡ false
      → length (plug fs (c ∷ ds)) < fuel
      → (m1 : Store) × (free fuel h.store (c.addr + 32) ≡ some (0, m1))
        × Holds base total (record h { store = m1 }) (release fs c ds)
  unfolding free
  free-Holds fuel h fs c ds k used lt =
      let (out, e, ch) =
        coalesce-Chain fuel h.store fs c ds k.tiled k.chain k.coalesced k.aligned lt in
      let (b, t1) = Tiled-unplug base (base + total) fs c ds k.tiled in
      let hc = (Chain-unplug h.store fs (c ∷ ds) k.chain).1.0 in
      let some_room : base < base + total = omega (
        arith,
        Behind-le base c.addr fs b,
        Tiled-le (c.addr + 32 + c.size) (base + total) ds t1.1,
      ) in
      let near = Tiled-le (c.addr + 32 + c.size) (base + total) ds t1.1 in
      let s =
        release-Sound base (base + total) fs c ds
          (record { tiled = k.tiled; coalesced = k.coalesced; aligned = k.aligned }) in
      (
        out.1,
        free-coalesce fuel c.addr h.store out (omega arith) (ap (λ k. k.magic) hc)
            (ap (λ k. k.free) hc ∙ rw used refl) e,
        record {
          ready = k.ready;
          front =
              k.front
              ∙ head_addr-Tiled base (base + total) (plug fs (c ∷ ds)) some_room k.tiled
              ∙ sym (head_addr-Tiled base (base + total) (release fs c ds) some_room s.tiled);
          tiled = s.tiled;
          chain = ch;
          coalesced = s.coalesced;
          aligned = s.aligned;
        },
      )
