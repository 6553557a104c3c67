-- ===== src/Malloc/Tests.antt =====
-- Runs of the heap allocator, val/src/val_malloc.c: a buffer of 1024 bytes at 4096.
use ff_a_acs.Base.{◌==◌, if◌then◌else◌, ◌≡◌, refl, arith, List, [], ◌∷◌, true, false, some}
use ff_a_acs.Malloc.{Store, Block, Heap, malloc, free, align, ensure_init}
use ff_a_acs.Malloc.Cells.{Cell, cell, take_first, release}
use ff_a_acs.Malloc.Laws.{Holds}
use ff_a_acs.Malloc.Calls.{Serves}
use ff_a_acs.Malloc.Calls
use ff_a_acs.Malloc.Release
use ff_a_acs.Malloc.Roundtrip
use ff_a_acs.Malloc.Aligned
use ff_a_acs.Malloc.Resize
use ff_a_acs.Malloc.Resize.{realloc, fault}
use ff_a_acs.Malloc.Chain.{header}

abbrev no_block : Block
no_block = record { magic = 0; free = 0; size = 0; next = 0; prev = 0 }

abbrev cold : Heap
cold = record { store = λ x. no_block; free_list = 0; initialized = 0 }

abbrev one_cell : List Cell
one_cell = cell 4096 992 true ∷ []

held : Holds 4096 1024 (ensure_init 4096 1024 cold) one_cell
held =
    Calls.ensure_init-Holds 4096 1024 (omega arith) (omega arith) cold refl (omega arith) refl refl

malloc-Holds_example :
    (h1 : Heap) × (malloc 4096 1024 2 cold 20 ≡ some (4128, h1))
    × Holds 4096 1024 h1 (cell 4096 24 false ∷ cell 4152 936 true ∷ [])
unfolding align take_first
malloc-Holds_example =
    Calls.malloc-Holds 4096 1024 (omega arith) (omega arith) 2 20 cold one_cell held (omega arith)
      (omega arith)

-- The heap with one used cell between a free one and the rest.
abbrev three : List Cell
three = cell 4096 24 true ∷ cell 4152 8 false ∷ cell 4192 896 true ∷ []

abbrev warm : Heap
warm = record {
  store = λ x.
      if x == 4096
      then header (cell 4096 24 true) 4152 0
      else if x == 4152
      then header (cell 4152 8 false) 4192 4096
      else header (cell 4192 896 true) 0 4152;
  free_list = 4096;
  initialized = 1;
}

warm-Holds : Holds 4096 1024 warm three
warm-Holds = record {
  ready = refl;
  front = refl;
  tiled = omega arith;
  chain = (refl, (refl, (refl, tt)));
  coalesced = (refl, (refl, (refl, tt)));
  aligned = omega arith;
}

free-Holds_example :
    (m1 : Store) × (free 4 warm.store 4184 ≡ some (0, m1))
    × Holds 4096 1024 (record warm { store = m1 }) (cell 4096 992 true ∷ [])
unfolding release
free-Holds_example =
    Release.free-Holds 4096 1024 (omega arith) (omega arith) 4 warm (cell 4096 24 true ∷ [])
      (cell 4152 8 false) (cell 4192 896 true ∷ []) warm-Holds refl (omega arith)

free-malloc_example :
    (h1 : Heap) × (m : Store) × (malloc 4096 1024 3 cold 20 ≡ some (4128, h1))
    × (free 3 h1.store 4128 ≡ some (0, m))
    × Holds 4096 1024 (record h1 { store = m }) one_cell
unfolding align take_first
free-malloc_example =
    Roundtrip.free-malloc 4096 1024 (omega arith) (omega arith) 3 20 cold one_cell held
      (omega arith) (omega arith) (omega arith)

-- The heap with its only block in use.
abbrev full : Heap
full = record { store = λ x. header (cell 4096 992 false) 0 0; free_list = 4096; initialized = 1 }

realloc_faults_example : realloc 4096 1024 9 full 4128 980 ≡ fault
unfolding align
realloc_faults_example =
    Resize.realloc_faults 4096 1024 9 full 4096 980 (omega arith) refl refl (omega arith)
      (omega arith) (omega arith) (omega arith)

-- A block of 40 bytes at an address of the form 16 k + 8.
abbrev lone : Store
lone = λ x. if x == 4136 then header (cell 4136 40 true) 0 0 else no_block
