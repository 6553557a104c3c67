-- ===== src/Share/Tests.antt =====
-- Runs of the memory sharing descriptors, val/src/val_ffa_helpers.c.
use ff_a_acs.Base.{arith, List, true, replicate}
use ff_a_acs.Share.{Access, MemoryRegion, RegionInit, Constituent, memory_region_init}
use ff_a_acs.Share.Laws.{Layout}
use ff_a_acs.Share.Laws

abbrev blank : Access
blank = record {
  receiver = 0;
  permissions = 0;
  flags = 0;
  composite_offset = 0;
  impdef0 = 0;
  impdef1 = 0;
  reserved = 0;
}

abbrev region : MemoryRegion
region = record {
  sender = 0;
  attributes = 0;
  flags = 0;
  handle = 0;
  tag = 0;
  access_desc_size = 0;
  receiver_count = 0;
  receivers_offset = 0;
  receivers = λ x. blank;
}

-- Two receivers and room for one constituent.
abbrev two : RegionInit
two = record {
  max_size = 144;
  sender = 1;
  receiver = 2;
  tag = 0;
  flags = 0;
  impdef0 = 0;
  impdef1 = 0;
  data_access = 2;
  instruction_access = 1;
  mem_type = 2;
  cacheability = 3;
  shareability = 3;
  multi_share = true;
  receiver_count = 2;
  receivers = λ x. blank;
}

abbrev pages : List Constituent
pages = replicate 3 (record { address = 0x1000; page_count = 1 })

memory_region_init-Layout_example : Layout two 3 (memory_region_init two pages region)
memory_region_init-Layout_example =
    Laws.memory_region_init-Layout two pages region (omega arith) (omega arith) (omega arith)
      (omega arith) (omega arith)

abbrev cramped : RegionInit
cramped = record two { max_size = 100 }
