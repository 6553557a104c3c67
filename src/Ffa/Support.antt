-- ===== src/Ffa/Support.antt =====
-- Which FF-A calls the firmware supports: `val_is_ffa_feature_supported` and
-- `val_ffa_mark_supported_fid` of val/src/val_ffa_helpers.c over the list of val/inc/val_ffa.h, and the
-- check of a test's call in `val_check_test_abi_support` of val/src/val_test_dispatch.c.
use ff_a_acs.Base.{
  ℕ, ◌+◌, ◌/◌, Bool, true, ◌||◌, ◌==◌, ◌!=◌, if◌then◌else◌, List, [], ◌∷◌, Option, none, some,
}
use ff_a_acs.Ffa.{Args, zero_args}
use ff_a_acs.Ffa.Ids.{fid_mem_retrieve_req_32, fid_mem_retrieve_req_64}
use ff_a_acs.Ffa.Setup.{ffa_features}
use ff_a_acs.Ffa.Session.{val_success, val_error, status_of}

-- The ids in the order of FFA_FID_LIST.
unfoldable pub supported_fids : List ℕ
supported_fids =
    0x84000060 ∷ 0x84000061 ∷ 0x84000062 ∷ 0x84000063 ∷ 0x84000064 ∷ 0x84000065 ∷ 0x84000066
    ∷ 0x84000067 ∷ 0x84000068 ∷ 0x84000069 ∷ 0x8400006a ∷ 0x8400006b ∷ 0x8400006c ∷ 0x8400006d
    ∷ 0x8400006e ∷ 0x8400006f ∷ 0x84000070 ∷ 0x84000071 ∷ 0x84000072 ∷ 0x84000073 ∷ 0x84000074
    ∷ 0x84000075 ∷ 0x84000076 ∷ 0x84000077 ∷ 0x8400007c ∷ 0x8400007d ∷ 0x8400007e ∷ 0x8400007f
    ∷ 0x84000080 ∷ 0x84000081 ∷ 0x84000082 ∷ 0x84000083 ∷ 0x84000084 ∷ 0x84000085 ∷ 0x84000086
    ∷ 0x84000087 ∷ 0x84000088 ∷ 0x84000089 ∷ 0x8400008a ∷ 0xc4000061 ∷ 0xc4000066 ∷ 0xc400006f
    ∷ 0xc4000070 ∷ 0xc4000071 ∷ 0xc4000072 ∷ 0xc4000073 ∷ 0xc4000074 ∷ 0xc4000087 ∷ 0xc4000083
    ∷ 0xc4000088 ∷ 0xc4000089 ∷ 0xc400008a ∷ 0xc400008d ∷ 0xc400008e ∷ 0xc400008b ∷ []

-- The index of the first entry that is `fid`, counted from `i`.
unfoldable pub find_fid : ℕ → List ℕ → ℕ → Option ℕ
find_fid fid [] i = none
find_fid fid (x ∷ xs) i = let rest = find_fid fid xs (i + 1) in if x == fid then some i else rest

-- `ffa_fid_state`: 1 is supported, 0xff is not, anything else asks the firmware.
abbrev pub FidState : Type 0
FidState = ℕ → ℕ

unfoldable pub mark_supported_fid : FidState → ℕ → Bool → FidState
unfolding find_fid supported_fids
mark_supported_fid state fid supported = elim (find_fid fid supported_fids 0) [
  | none ↦ state
  | some i ↦ λ j. if j == i then if supported then 1 else 0xff else state j
]

-- The second argument is there from FF-A 1.1 on.
unfoldable pub features_frame : ℕ → Args
features_frame fid = record zero_args {
  arg1 = fid;
  arg2 = if (fid == fid_mem_retrieve_req_32) || (fid == fid_mem_retrieve_req_64) then 2 else 0;
}

module _ {W : Type 0} (conduit : W → Args → Args × W) where
  unfoldable pub ask_firmware : ℕ → W → ℕ × W
  unfolding features_frame status_of
  ask_firmware fid w =
      let (payload, w') = ffa_features conduit w (features_frame fid) in (status_of payload, w')

  unfoldable pub is_ffa_feature_supported : FidState → ℕ → W → ℕ × W
  unfolding find_fid supported_fids
  is_ffa_feature_supported state fid w = elim (find_fid fid supported_fids 0) [
    | none ↦ (val_error, w)
    | some i ↦
        if state i == 1
        then (val_success, w)
        else if state i == 0xff
        then (val_error, w)
        else ask_firmware fid w
  ]

  -- FFA_FID_SKIP_CHECK runs the test; an id without its prefix wants the call of either width, and
  -- the wider is looked up only if the other is not there.
  unfoldable pub check_test_abi_support : FidState → ℕ → W → Bool × W
  check_test_abi_support state test_fid w =
      if test_fid == 0xabcdefff
      then (true, w)
      else if test_fid / 65536 != 0
      then (let (status, w') = is_ffa_feature_supported state test_fid w in
          (status == val_success, w'))
      else (let (narrow, w1) = is_ffa_feature_supported state (test_fid + 0x84000000) w in
          let (wide, w2) = is_ffa_feature_supported state (test_fid + 0xc4000000) w1 in
          if narrow == val_success then (true, w1) else (wide == val_success, w2))
