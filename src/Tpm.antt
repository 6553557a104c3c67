-- ===== src/Tpm.antt =====
-- The TPM service over the CRB interface: val/src/val_tpm_crb_service.c with the register layout
-- and the byte helpers of val/inc/val_tpm_crb.h.
pub mod Mmio
pub mod State
pub mod Service
pub mod Handler
pub mod Signal
pub mod Valid
pub mod Grants
pub mod Exclusive
pub mod Deferral
pub mod Rights
pub mod Window
pub mod Client
mod Tests
