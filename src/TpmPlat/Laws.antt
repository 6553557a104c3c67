-- ===== src/TpmPlat/Laws.antt =====
-- What the TPM may rely on from the non-volatile memory of TpmPlat.
use ff_a_acs.Base.{
  ℕ, ◌+◌, ◌≤◌, ◌<◌, ◌≡◌, ◌≢◌, ◌⊎◌, refl, sym, ap, ◌∙◌, arith, true, Option, none, some, List, [],
  ◌∷◌, inl, inr, Bool-cases, ◌==◌, ==→eq, ◌&&◌,
}
use ff_a_acs.TpmPlat.{
  Globals, start, nv_range_valid, nv_memory_read, nv_memory_write, nv_memory_clear, nv_memory_move,
  nv_get_changed_status,
}
use ff_a_acs.Base.Bytes.{
  Bytes, copy_bytes, fill_bytes, copy_bytes_inside, copy_bytes_whole, copy_bytes_outside,
  fill_bytes_inside, fill_bytes_outside, same_bytes_refl,
}

range_accepted :
    (nv_size offset size : ℕ) → offset + size ≤ nv_size → nv_range_valid nv_size offset size ≡ true
unfolding nv_range_valid
range_accepted nv_size offset size h = ground arith

range_inside :
    (nv_size offset size : ℕ)
    → nv_range_valid nv_size offset size ≡ true
    → (size == 0) ≢ true
    → offset + size ≤ nv_size
unfolding nv_range_valid
range_inside nv_size offset size h k = ground arith

-- What is written to a range that lies in the memory is read back from it byte by byte, and the
-- memory then reports no change against it.
pub nv_memory_read-nv_memory_write :
    (nv_size offset size : ℕ) (given junk : Bytes) (s : Globals)
    → offset + size ≤ nv_size
    → (out : Bytes) × (nv_memory_read nv_size offset size
          (some junk)
          (nv_memory_write nv_size offset size (some given) s).1
        ≡ (1, some out))
      × ((k : ℕ) → k < size → out k ≡ given k)
      × (nv_get_changed_status nv_size offset size
            (some given)
            (nv_memory_write nv_size offset size (some given) s).1
          ≡ some 0)
unfolding nv_memory_read nv_memory_write nv_get_changed_status
nv_memory_read-nv_memory_write nv_size offset size given junk s h =
    let ok = range_accepted nv_size offset size h in
    elim (Bool-cases (size == 0)) [
      | inl e ↦ (junk, rw (ok, e) refl, λ k l. omega (arith, l, ==→eq size 0 e), rw (ok, e) refl)
      | inr e ↦
          let same =
            same_bytes_refl size (copy_bytes s.nv offset given 0 size) offset given 0
              (λ k l. copy_bytes_inside s.nv offset given 0 size k l) in
          (
            copy_bytes junk 0 (copy_bytes s.nv offset given 0 size) offset size,
            rw (ok, e) refl,
            λ k l.
                copy_bytes_whole junk (copy_bytes s.nv offset given 0 size) offset size k l
                ∙ copy_bytes_inside s.nv offset given 0 size k l
                ∙ ap given (omega arith),
            rw (ok, e, same) refl,
          )
    ]

-- The calls that store to the memory, and a sequence of them.
pub data Store : Type 0 where
  write : (offset size : ℕ) → Option Bytes → Store
  clear : (offset size : ℕ) → Store
  move : (source dest size : ℕ) → Store

unfoldable store : ℕ → Store → Globals → Globals
store nv_size (write offset size buffer) s = (nv_memory_write nv_size offset size buffer s).1
store nv_size (clear offset size) s = (nv_memory_clear nv_size offset size s).1
store nv_size (move source dest size) s = (nv_memory_move nv_size source dest size s).1

unfoldable pub stores : ℕ → List Store → Globals → Globals
unfolding store
stores nv_size [] s = s
stores nv_size (c ∷ cs) s = stores nv_size cs (store nv_size c s)

-- A byte that is not marked as written has the value it started with, and none is marked behind the
-- end of the memory.
pub record IsTracked (nv_size : ℕ) (s : Globals) : Type 0 where
  pub unmarked : (x : ℕ) → s.nv_written x ≡ 0 → s.nv x ≡ 0
  pub bounded : (x : ℕ) → nv_size ≤ x → s.nv_written x ≡ 0

-- A store of any bytes within a range of the memory, which it marks.
range-IsTracked :
    {nv_size : ℕ} {s : Globals} (m : Bytes) (offset size manufacture : ℕ)
    → offset + size ≤ nv_size
    → ((x : ℕ) → (x < offset) ⊎ (offset + size ≤ x) → m x ≡ s.nv x)
    → IsTracked nv_size s
    → IsTracked nv_size (record s {
      nv = m;
      nv_written = fill_bytes s.nv_written offset 1 size;
      nv_needs_manufacture = manufacture;
    })
range-IsTracked {nv_size} {s} m offset size manufacture fits outside t = record {
  unmarked = λ x h. elim (place x) [
    | inl far ↦
        outside x far ∙ t.unmarked x (sym (fill_bytes_outside s.nv_written offset 1 size x far) ∙ h)
    | inr near ↦
        let one = fill_bytes_inside s.nv_written offset 1 size x near.0 near.1 in
        omega (arith, one, h)
  ];
  bounded = λ x h.
      fill_bytes_outside s.nv_written offset 1 size x (inr (omega (arith, fits, h)))
      ∙ t.bounded x h;
}
  where
    place : (x : ℕ) → ((x < offset) ⊎ (offset + size ≤ x)) ⊎ ((offset ≤ x) × (x < offset + size))
    place x = ground arith

store-IsTracked :
    (nv_size : ℕ) (c : Store) (s : Globals)
    → IsTracked nv_size s
    → IsTracked nv_size (store nv_size c s)
unfolding store nv_memory_write nv_memory_clear nv_memory_move
store-IsTracked nv_size (write offset size none) s t = t
store-IsTracked nv_size (write offset size (some given)) s t =
    elim (Bool-cases (nv_range_valid nv_size offset size)) [
      | inr bad ↦ rw (store, nv_memory_write, bad) t
      | inl ok ↦ elim (Bool-cases (size == 0)) [
        | inl e ↦ rw (store, nv_memory_write, ok, e) t
        | inr e ↦
            rw (store, nv_memory_write, ok, e)
              (range-IsTracked (copy_bytes s.nv offset given 0 size) offset size 0
                (range_inside nv_size offset size ok (ground (arith, e)))
                (copy_bytes_outside s.nv offset given 0 size) t)
      ]
    ]
store-IsTracked nv_size (clear offset size) s t =
    elim (Bool-cases (nv_range_valid nv_size offset size)) [
      | inr bad ↦ rw (store, nv_memory_clear, bad) t
      | inl ok ↦ elim (Bool-cases (size == 0)) [
        | inl e ↦ rw (store, nv_memory_clear, ok, e) t
        | inr e ↦
            rw (store, nv_memory_clear, ok, e)
              (range-IsTracked (fill_bytes s.nv offset 0xff size) offset size 1
                (range_inside nv_size offset size ok (ground (arith, e)))
                (fill_bytes_outside s.nv offset 0xff size) t)
      ]
    ]
store-IsTracked nv_size (move source dest size) s t =
    elim (Bool-cases (nv_range_valid nv_size source size && nv_range_valid nv_size dest size)) [
      | inr bad ↦ rw (store, nv_memory_move, bad) t
      | inl ok ↦ elim (Bool-cases (size == 0)) [
        | inl e ↦ rw (store, nv_memory_move, ok, e) t
        | inr e ↦
            rw (store, nv_memory_move, ok, e)
              (range-IsTracked (copy_bytes s.nv dest s.nv source size) dest size 0
                (range_inside nv_size dest size (ground (arith, ok)) (ground (arith, e)))
                (copy_bytes_outside s.nv dest s.nv source size) t)
      ]
    ]

pub start-IsTracked : (nv_size : ℕ) → IsTracked nv_size start
unfolding start
start-IsTracked nv_size = record { unmarked = λ x h. refl; bounded = λ x h. refl }

-- After any sequence of writes, clears and moves, refused ones too, each byte that is not marked as
-- written is 0 as at the start, and no byte behind the end of the memory is marked.
pub stores-IsTracked :
    (nv_size : ℕ) (cs : List Store) (s : Globals)
    → IsTracked nv_size s
    → IsTracked nv_size (stores nv_size cs s)
unfolding stores
stores-IsTracked nv_size [] s t = t
stores-IsTracked nv_size (c ∷ cs) s t =
    stores-IsTracked nv_size cs (store nv_size c s) (store-IsTracked nv_size c s t)
