-- ===== src/Malloc/Join.antt =====
-- One round of `val_coalesce` (val/src/val_malloc.c): a block swallows the one behind it.
use ff_a_acs.Base.{
  ℕ, suc, ◌+◌, ◌^◌, ◌≡◌, ◌≤◌, ◌<◌, ◌≢◌, refl, arith, ◌∙◌, List, [], ◌∷◌, true, ◌!=◌,
}
use ff_a_acs.Malloc.{
  Store, invalid_magic, set_magic, set_prev_if, set_size, set_next, coalesce_forward,
  coalesce_backward, add64, block_size,
}
use ff_a_acs.Malloc.Fields.{
  set_size_self, set_size_ne, set_next_self, set_next_ne, set_prev_if_self, set_prev_if_ne,
  set_magic_self, set_magic_ne,
}
use ff_a_acs.Malloc.Cells.{Cell, cell, Tiled}
use ff_a_acs.Malloc.Chain.{head_addr, Chain, Chain-same}

-- `b` takes over the size `n` and the link `next` of the block at `gone`.
module _ (m : Store) (b gone n next : ℕ) where
  abbrev sized : Store
  sized = set_size m b n

  abbrev unlinked : Store
  unlinked = set_next sized b next

  abbrev marked : Store
  marked = set_magic unlinked gone invalid_magic

  abbrev pub join : Store
  join = set_prev_if marked next b

  join-b : b ≢ gone → b ≢ next → join b ≡ record (m b) { size = n; next = next }
  join-b ne nn = ground (
    arith,
    set_prev_if_ne marked next b b nn,
    set_magic_ne unlinked gone invalid_magic b ne,
    set_next_self sized b next,
    set_size_self m b n,
  )

  join-next : next ≢ 0 → next ≢ b → next ≢ gone → join next ≡ record (m next) { prev = b }
  join-next pos nb ng = ground (
    arith,
    set_prev_if_self marked next b pos,
    set_magic_ne unlinked gone invalid_magic next ng,
    set_next_ne sized b next next nb,
    set_size_ne m b n next nb,
  )

  pub join-other : (x : ℕ) → x ≢ b → x ≢ gone → x ≢ next → join x ≡ m x
  join-other x nb ng nn = ground (
    arith,
    set_prev_if_ne marked next b x nn,
    set_magic_ne unlinked gone invalid_magic x ng,
    set_next_ne sized b next x nb,
    set_size_ne m b n x nb,
  )

-- The cell that results.
abbrev pub joined : Cell → Cell → Cell
joined c d = cell c.addr (c.size + (32 + d.size)) c.free

-- The store after a round on the neighbours `c` and `d`, the cells `cs` behind them.
abbrev pub join_cells : Store → Cell → Cell → List Cell → Store
join_cells m c d cs = join m c.addr d.addr (c.size + (32 + d.size)) (head_addr cs)

module _ (m : Store) (prev e : ℕ) (c d : Cell) (small : e < 2 ^ 63) (pos : 0 < c.addr) where
  pub coalesce_forward-join :
      (fuel : ℕ) (cs : List Cell)
      → Tiled c.addr (c ∷ d ∷ cs) e
      → d.addr + 32 + d.size ≤ e
      → Chain m prev (c ∷ d ∷ cs)
      → d.free ≡ true
      → coalesce_forward (suc fuel) m c.addr ≡ coalesce_forward fuel (join_cells m c d cs) c.addr
  unfolding coalesce_forward
  coalesce_forward-join fuel cs t le (hc, (hd, r)) f =
      let n = c.size + (32 + d.size) in
      let sum : add64 c.size (add64 block_size d.size) ≡ n = omega (arith, t) in
      let ne : d.addr ≢ c.addr = omega (arith, t) in
      let ne' : c.addr ≢ d.addr = omega (arith, t) in
      let test : (d.addr != 0) ≡ true = ground (arith, t) in
      rw
        (
          hc,
          hd,
          sum,
          set_size_ne m c.addr n d.addr ne,
          hd,
          set_magic_ne (unlinked m c.addr d.addr n (head_addr cs)) d.addr invalid_magic c.addr ne',
          set_next_self (sized m c.addr d.addr n (head_addr cs)) c.addr (head_addr cs),
          f,
          test,
        )
        refl

  pub coalesce_backward-join :
      (fuel : ℕ) (cs : List Cell)
      → Tiled c.addr (c ∷ d ∷ cs) e
      → d.addr + 32 + d.size ≤ e
      → Chain m prev (c ∷ d ∷ cs)
      → c.free ≡ true
      → coalesce_backward (suc fuel) m d.addr ≡ coalesce_backward fuel (join_cells m c d cs) c.addr
  unfolding coalesce_backward
  coalesce_backward-join fuel cs t le (hc, (hd, r)) f =
      let n = c.size + (32 + d.size) in
      let sum : add64 c.size (add64 block_size d.size) ≡ n = omega (arith, t) in
      let ne : d.addr ≢ c.addr = omega (arith, t) in
      let test : (c.addr != 0) ≡ true = ground arith in
      rw
        (
          hd,
          hc,
          sum,
          set_size_ne m c.addr n d.addr ne,
          hd,
          set_magic_self (unlinked m c.addr d.addr n (head_addr cs)) d.addr invalid_magic,
          set_next_ne (sized m c.addr d.addr n (head_addr cs)) c.addr (head_addr cs) d.addr ne,
          set_size_ne m c.addr n d.addr ne,
          hd,
          f,
          test,
        )
        refl

  pub Chain-join :
      (cs : List Cell)
      → Tiled c.addr (c ∷ d ∷ cs) e
      → Chain m prev (c ∷ d ∷ cs)
      → Chain (join_cells m c d cs) prev (joined c d ∷ cs)
  Chain-join [] t (hc, (hd, r)) = (
    join-b m c.addr d.addr (c.size + (32 + d.size)) 0 (omega (arith, t)) (omega arith) ∙ rw hc refl,
    tt,
  )
  Chain-join (x ∷ cs) t (hc, (hd, (hx, r))) =
      let n = c.size + (32 + d.size) in
      (
        join-b m c.addr d.addr n x.addr (omega (arith, t)) (omega (arith, t)) ∙ rw hc refl,
        (
          join-next m c.addr d.addr n x.addr (omega (arith, t)) (omega (arith, t))
                (omega (arith, t))
              ∙ rw hx refl,
          Chain-same m (join_cells m c d (x ∷ cs)) x.addr (x.addr + 32 + x.size) e cs t.1.1.1
              (λ y up.
                join-other m c.addr d.addr n x.addr y (omega (arith, t)) (omega (arith, t))
                  (omega (arith, t)))
              r,
        ),
      )
