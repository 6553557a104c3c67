-- ===== src/Ffa/Call.antt =====
-- One FF-A call: `ffa_smccc` of val/src/val_ffa_abi.c, and the three shapes in which that file's
-- calls pass their frame on. The conduit instruction and the firmware behind it are the function
-- `conduit` from the frame to the frame that comes back, over the rest of the world.
use ff_a_acs.Base.{ℕ, ◌%◌, ◌^◌, replicate}
use ff_a_acs.Ffa.{Args}

-- `(uint32_t)` on the seven argument registers, with the ten others 0.
unfoldable pub low_words : Args → Args
low_words a = record {
  fid = a.fid;
  arg1 = a.arg1 % 2 ^ 32;
  arg2 = a.arg2 % 2 ^ 32;
  arg3 = a.arg3 % 2 ^ 32;
  arg4 = a.arg4 % 2 ^ 32;
  arg5 = a.arg5 % 2 ^ 32;
  arg6 = a.arg6 % 2 ^ 32;
  arg7 = a.arg7 % 2 ^ 32;
  ext_args = replicate 10 0;
}

module _ {W : Type 0} (conduit : W → Args → Args × W) where
  unfoldable pub ffa_smccc : W → ℕ → Args → Args × W
  ffa_smccc w f a = conduit w (record a { fid = f })

  unfoldable pub call_32 : ℕ → W → Args → Args × W
  unfolding ffa_smccc low_words
  call_32 f w a = ffa_smccc w f (low_words a)

  unfoldable pub call_64 : ℕ → W → Args → Args × W
  unfolding ffa_smccc
  call_64 f w a = ffa_smccc w f (record a { ext_args = replicate 10 0 })

  unfoldable pub call_ext : ℕ → W → Args → Args × W
  unfolding ffa_smccc
  call_ext f w a = ffa_smccc w f a
