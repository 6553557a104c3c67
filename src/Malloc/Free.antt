-- ===== src/Malloc/Free.antt =====
-- `val_coalesce` (val/src/val_malloc.c) on a chain of headers merges the cells.
use ff_a_acs.Base.{
  ℕ, zero, suc, ◌+◌, ◌^◌, ◌≡◌, ◌≤◌, ◌<◌, refl, arith, ◌∙◌, sym, List, [], ◌∷◌, length, true, false,
  some, ◌!=◌, inl, inr, Bool-cases,
}
use ff_a_acs.Malloc.{Store, coalesce_forward, coalesce_backward}
use ff_a_acs.Malloc.Cells.{Cell, Tiled, absorb, retreat, plug}
use ff_a_acs.Malloc.Chain.{head_addr, Chain, Back}
use ff_a_acs.Malloc.Join.{
  joined, join_cells, coalesce_forward-join, coalesce_backward-join, Chain-join, join-other,
}
use ff_a_acs.Malloc.Plug.{Behind, Chain-plug}

pub Tiled-le : (a e : ℕ) (cs : List Cell) → Tiled a cs e → a ≤ e
Tiled-le a e [] t = omega (arith, t)
Tiled-le a e (c ∷ cs) t = omega (arith, t.0, Tiled-le (c.addr + 32 + c.size) e cs t.1)

pub Behind-le : (base a : ℕ) (fs : List Cell) → Behind base fs a → base ≤ a
Behind-le base a [] b = omega (arith, b)
Behind-le base a (f ∷ fs) b = omega (arith, b.0, Behind-le base f.addr fs b.1)

pub Back-same :
    (m g : Store) (base n a : ℕ) (fs : List Cell)
    → 0 < base
    → Behind base fs a
    → ((x : ℕ) → 0 < x → x < a → g x ≡ m x)
    → Back m n fs
    → Back g n fs
Back-same m g base n a [] pos b same h = tt
Back-same m g base n a (f ∷ fs) pos (e, b) same (h, r) = (
  same f.addr (omega (arith, Behind-le base f.addr fs b)) (omega (arith, e)) ∙ h,
  Back-same m g base f.addr f.addr fs pos b (λ x p lt. same x p (omega (arith, e))) r,
)

pub absorb-free :
    (c d : Cell) (ds : List Cell) → d.free ≡ true → absorb c (d ∷ ds) ≡ absorb (joined c d) ds
unfolding absorb
absorb-free c d ds w = rw w refl

pub absorb-used : (c d : Cell) (ds : List Cell) → d.free ≡ false → absorb c (d ∷ ds) ≡ (c, d ∷ ds)
unfolding absorb
absorb-used c d ds w = ground (arith, w)

pub retreat-free :
    (f : Cell) (fs : List Cell) (c : Cell) (cs : List Cell)
    → f.free ≡ true
    → retreat (f ∷ fs) c cs ≡ retreat fs (joined f c) cs
unfolding retreat
retreat-free f fs c cs w = ground (arith, w)

pub retreat-used :
    (f : Cell) (fs : List Cell) (c : Cell) (cs : List Cell)
    → f.free ≡ false
    → retreat (f ∷ fs) c cs ≡ plug (f ∷ fs) (c ∷ cs)
unfolding retreat
retreat-used f fs c cs w = ground (arith, w)

pub Tiled-joined :
    (e : ℕ) (c d : Cell) (ds : List Cell)
    → Tiled c.addr (c ∷ d ∷ ds) e
    → Tiled c.addr (joined c d ∷ ds) e
Tiled-joined e c d ds t =
    let x : d.addr + 32 + d.size ≡ c.addr + 32 + (c.size + (32 + d.size)) = omega (arith, t.1.0) in
    (refl, rw (← x) t.1.1)

pub join_below :
    (m : Store) (e x : ℕ) (c d : Cell) (cs : List Cell)
    → Tiled c.addr (c ∷ d ∷ cs) e
    → 0 < x
    → x < c.addr
    → join_cells m c d cs x ≡ m x
join_below m e x c d [] t p q =
    join-other m c.addr d.addr (c.size + (32 + d.size)) 0 x (omega arith) (omega (arith, t.1.0))
      (omega arith)
join_below m e x c d (y ∷ cs) t p q =
    join-other m c.addr d.addr (c.size + (32 + d.size)) y.addr x (omega arith)
      (omega (arith, t.1.0)) (omega (arith, t))

-- The forward loop: the chain it leaves, and the store below it.
pub record Forward (m out : Store) (prev : ℕ) (c : Cell) (r : Cell × List Cell) : Type 0 where
  pub chain : Chain out prev (r.0 ∷ r.1)
  pub below : (x : ℕ) → 0 < x → x < c.addr → out x ≡ m x

module _ (e : ℕ) (small : e < 2 ^ 63) where
  pub coalesce_forward-Forward :
      (fuel prev : ℕ) (m : Store) (c : Cell) (ds : List Cell)
      → 0 < c.addr
      → Tiled c.addr (c ∷ ds) e
      → Chain m prev (c ∷ ds)
      → length ds < fuel
      → (out : Store) × (coalesce_forward fuel m c.addr ≡ some out)
        × Forward m out prev c (absorb c ds)
  unfolding absorb coalesce_forward
  coalesce_forward-Forward zero prev m c ds pos t h lt = absurd (omega arith)
  coalesce_forward-Forward (suc fuel) prev m c [] pos t h lt =
      (m, rw (h.0) refl, record { chain = h; below = λ x p q. refl })
  coalesce_forward-Forward (suc fuel) prev m c (d ∷ ds) pos t h lt = elim (Bool-cases d.free) [
    | inl w ↦
        let le = Tiled-le (d.addr + 32 + d.size) e ds t.1.1 in
        let m1 = join_cells m c d ds in
        let (out, q, f) =
          coalesce_forward-Forward fuel prev m1 (joined c d) ds pos (Tiled-joined e c d ds t)
            (Chain-join m prev e c d small pos ds t h) (omega arith) in
        (
          out,
          coalesce_forward-join m prev e c d small pos fuel ds t le h w ∙ q,
          rw (absorb-free c d ds w) (record {
            chain = f.chain;
            below = λ x p q. f.below x p q ∙ join_below m e x c d ds t p q;
          }),
        )
    | inr w ↦
        let test : (d.addr != 0) ≡ true = ground (arith, t.1.0) in
        (
          m,
          rw (h.0, h.1.0, w, test) refl,
          rw (absorb-used c d ds w) (record { chain = h; below = λ x p q. refl }),
        )
  ]

  module _ (base : ℕ) (pos : 0 < base) where
    pub coalesce_backward-Chain :
        (fuel : ℕ) (m : Store) (fs : List Cell) (c : Cell) (cs : List Cell)
        → Behind base fs c.addr
        → Tiled c.addr (c ∷ cs) e
        → Back m c.addr fs
        → Chain m (head_addr fs) (c ∷ cs)
        → length fs < fuel
        → (out : ℕ × Store) × (coalesce_backward fuel m c.addr ≡ some out)
          × Chain out.1 0 (retreat fs c cs)
    unfolding retreat coalesce_backward
    coalesce_backward-Chain zero m fs c cs b t k h lt = absurd (omega arith)
    coalesce_backward-Chain (suc fuel) m [] c cs b t k h lt = ((c.addr, m), rw (h.0) refl, h)
    coalesce_backward-Chain (suc fuel) m (f ∷ fs) c cs (g, b) t (hf, k) h lt =
        let low = Behind-le base f.addr fs b in
        elim (Bool-cases f.free) [
          | inl w ↦
              let le = Tiled-le (c.addr + 32 + c.size) e cs t.1 in
              let m1 = join_cells m f c cs in
              let t1 : Tiled f.addr (f ∷ c ∷ cs) e = (refl, (sym g, t.1)) in
              let (out, q, r) =
                coalesce_backward-Chain fuel m1 fs (joined f c) cs b (Tiled-joined e f c cs t1)
                  (Back-same m m1 base f.addr f.addr fs pos b
                    (λ x p q. join_below m e x f c cs t1 p q) k)
                  (Chain-join m (head_addr fs) e f c small (omega arith) cs t1 (hf, h))
                  (omega arith) in
              (
                out,
                coalesce_backward-join m (head_addr fs) e f c small (omega arith) fuel cs t1 le
                      (hf, h) w
                    ∙ q,
                rw (retreat-free f fs c cs w) r,
              )
          | inr w ↦
              let test : (f.addr != 0) ≡ true = ground arith in
              (
                (c.addr, m),
                rw (h.0, hf, w, test) refl,
                rw (retreat-used f fs c cs w) (Chain-plug m (f ∷ fs) (c ∷ cs) (hf, k) h),
              )
        ]
