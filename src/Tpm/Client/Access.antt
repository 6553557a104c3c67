-- ===== src/Tpm/Client/Access.antt =====
-- The client's accesses to the CRB window.
use ff_a_acs.Base.{
  ℕ, ◌+◌, ◌*◌, ◌≤◌, ◌≡◌, ◌≢◌, ◌⊎◌, inl, inr, arith, refl, List, ◌++◌, Option, none, some, ltb,
  Bool-cases, ◌!=◌, false,
}
use ff_a_acs.Ffa.Session.{val_success, val_error}
use ff_a_acs.Tpm.Mmio.{Memory, crb_base, locality_size, copy_to_mmio}
use ff_a_acs.Tpm.Mmio.Frame.{copy_to_mmio_other}
use ff_a_acs.Tpm.Window.{Outside, first_bytes, copy_from-copy_to_first}
use ff_a_acs.Tpm.Client.{crb_copy_to_mmio, crb_copy_from_mmio, mmio_range_valid, drop}

mmio_range_valid-within :
    (addr size : ℕ)
    → mmio_range_valid addr size ≡ val_success
    → size ≢ 0
    → (crb_base ≤ addr) × (addr + size ≤ crb_base + 5 * locality_size)
unfolding mmio_range_valid
mmio_range_valid-within addr size e n = ground arith

crb_copy_to_mmio-Outside :
    (m : Memory) (dst : ℕ) (src : Option (List ℕ)) (size b : ℕ)
    → Outside b
    → (crb_copy_to_mmio m dst src size).1 b ≡ m b
unfolding crb_copy_to_mmio
crb_copy_to_mmio-Outside m dst none size b out = refl
crb_copy_to_mmio-Outside m dst (some src) size b out =
    ground (arith, mmio_range_valid-within dst size, copy_to_mmio_other m dst src size b)

ltb-irreflexive : (n : ℕ) → ltb n n ≡ false
ltb-irreflexive n = ground arith

copy_from-copy_to_mmio :
    (m : Memory) (dst : ℕ) (src buf : List ℕ) (size : ℕ)
    → mmio_range_valid dst size ≡ val_success
    → crb_copy_from_mmio (copy_to_mmio m dst src size) (some buf) size dst size
      ≡ (val_success, some (first_bytes src size ++ drop size buf))
unfolding crb_copy_from_mmio
copy_from-copy_to_mmio m dst src buf size e =
    rw (ltb-irreflexive size, e, copy_from-copy_to_first m dst src size) refl

-- Copying to the window changes no byte outside it, whatever the address, the size and the source.
-- It either reports an error and changes nothing at all, or succeeds; then copying as many bytes
-- back to a buffer of that size succeeds too and puts the same bytes at its front.
crb_copy_lem :
    (m : Memory) (dst : ℕ) (src buf : List ℕ) (size b : ℕ)
    → Outside b
    → let (status, t) = crb_copy_to_mmio m dst (some src) size in
      (t b ≡ m b)
      × (((status ≡ val_error) × (t ≡ m))
          ⊎ ((status ≡ val_success)
              × (crb_copy_from_mmio t (some buf) size dst size
                  ≡ (val_success, some (first_bytes src size ++ drop size buf)))))
unfolding crb_copy_to_mmio
crb_copy_lem m dst src buf size b out = (
  crb_copy_to_mmio-Outside m dst (some src) size b out,
  elim (Bool-cases (mmio_range_valid dst size != val_success)) [
    | inl e ↦ rw e (inl (refl, refl))
    | inr e ↦ rw e (inr (refl, copy_from-copy_to_mmio m dst src buf size (ground arith)))
  ],
)
