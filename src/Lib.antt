-- ===== src/Lib.antt =====
-- The validation layer (val/) of the FF-A architecture compliance suite: the library that the test
-- endpoints of the suite run on, between the tests and the firmware that is under test. The tests
-- call it to set up memory, to build the descriptors of memory sharing calls and to keep their state,
-- and one endpoint of it serves a TPM to the others.
--
-- What is modelled, and where (paths from the repository's root):
-- - Base: the shared names, Boolean tests, lists over the native numbers, bitwise operations.
-- - Ffa: the call frame `ffa_args_t` and the function ids of val/inc/val_ffa.h, and the calls of
--   val/src/val_ffa_abi.c. The conduit instruction and the firmware behind it are one function from
--   the frame that goes out to the frame that comes back. Ffa/Resume has the loops that run an
--   interrupted endpoint again, Ffa/Schedule the firmware that these loops are proved over, Ffa/Session
--   what the file builds on single calls, Ffa/Support which calls the firmware supports, with
--   `val_check_test_abi_support`.
-- - Tpm: the TPM command response buffer service, val/src/val_tpm_crb_service.c. Tpm/State holds its
--   globals, Tpm/Mmio the register window as memory of bytes, Tpm/Service and Tpm/Handler a function
--   for each C function and each service call. The TPM behind `pal_tpm_execute_command` and the FF-A
--   notification call are the record `Platform` over a world of its own. The properties are proved in
--   Tpm/Exclusive, Tpm/Deferral, Tpm/Rights, Tpm/Window and Tpm/Mmio/Frame, over the step relation of
--   Tpm/Exclusive where they speak of every state that is reached.
-- - Tpm/Client: the client side, val/src/val_tpm_crb_common_abi.c, in the bare-metal build without a
--   hypervisor of the normal world, over the calls of Ffa. Tpm/Client/Holdings says what the
--   firmware and the interrupt controller keep for a client, for the clean-up in Tpm/Client/Released. Tpm/Client/Relay puts the client together
--   with the service: the firmware is a parameter that delivers the requests and brings the answers
--   back.
-- - Malloc: the heap of val/src/val_malloc.c as a store of block headers at their addresses, with
--   every operation of that file; Malloc/Resize has `val_calloc` and `val_realloc`, Malloc/Aligned
--   `val_aligned_alloc`, which alone can hand out a pointer whose header overlaps another one.
--   Malloc/Cells is the abstract heap, the list of blocks in address order; Malloc/Alloc and Malloc/Calls relate the two for `val_malloc`, Malloc/Free and Malloc/Release for
--   `val_free`.
-- - Paging: val/src/val_memory.c, the walk that fills the translation tables (Paging/Fill), what calls
--   it (Paging/Create, Paging/Setup) and the granule choice of val/src/val_endpoint_info.c. Which memory
--   is a table of which level is an argument, and Paging/Layout says when entries and pools agree with it.
--   Paging/Lookup is the lookup of an address by the entries, as the architecture has it, and
--   Paging/Translate compares the walk with it.
-- - Nvm: the non-volatile memory of val/src/val_framework.c in both builds.
-- - Share: the memory sharing descriptors of val/src/val_ffa_helpers.c, for FF-A 1.2.
-- - Misc: the string and memory helpers of val/src/val_misc.c.
-- - Events: val/src/val_shemaphore.c as a step relation on processors that share one event.
-- - Endpoints: the endpoint table of val/src/val_endpoint_info.c and the lookups in it. Of
--   val/src/val_framework.c, Endpoints/Presence marks the endpoints that are there from the firmware's
--   partition descriptors, with the parser of val/src/val_ffa_helpers.c, and Endpoints/Sync hands the
--   table to the other endpoints; Endpoints/Relay puts the two sides of the hand-over together.
-- - Framework: the progress of a regression run in val/src/val_framework.c, its watchdog calls
--   (Framework/Watchdog) and `val_test_dispatch` of val/src/val_test_dispatch.c (Framework/Run). The
--   order of the tests is followed in Framework/Order, Framework/Course and Framework/Saved, where a
--   call is a function from the world to a value, an error or a panic and the world behind it.
-- - Irq: the interrupt handlers of platform/pal_baremetal/tgt_tfa_fvp/src/pal_irq.c.
-- - Gic: the distributor of platform/driver/src/gic/pal_gic_common.c, the GICv2 driver of pal_gic_v2.c
--   (Gic/V2), the GICv3 driver of pal_gic_v3.c (Gic/V3, and its redistributor frames in Gic/Frames) and
--   the choice between them in pal_arm_gic_v2v3.c (Gic/Choice), which gives the calls of the controller
--   that Irq takes as an argument. Gic/Chain puts these together for GICv2 and Gic/Private for GICv3.
-- - Drivers: of platform/driver/src, the watchdog of pal_sp805_watchdog.c (Drivers/Sp805, and what a
--   watchdog makes of its calls in Drivers/Locked), the timers of pal_ap_refclk_timer.c
--   (Drivers/Refclk) and the non-volatile memory of pal_nvm.c (Drivers/Memory), which Drivers/Stored puts
--   below the loop of Dispatch/Serve and the calls of Nvm.
-- - TpmPlat: the platform side of the TPM in
--   platform/pal_baremetal/tgt_tfa_fvp/src/pal_tpm_tcg_platform.c, its non-volatile memory, its bytes
--   of entropy and its fixed answers. TpmPlat/Startup is pal_tpm.c beside it, which sets the TPM up at the
--   first command and gives the service its `pal_tpm_execute_command`; TpmPlat/Ready follows the
--   commands one after another. The TPM library itself is an argument.
-- - Dispatch: val/src/val_test_dispatch.c. Dispatch/Serve is the loop in which an endpoint serves
--   requests, Dispatch/Execute how the dispatcher starts a test, Dispatch/Parallel the status of a test
--   on another processor, Dispatch/Secondary the loop of a secondary processor. Dispatch/Remote puts the
--   loop together with Nvm, Dispatch/Delegate with Dispatch/Execute.
--
-- Machine words are plain numbers with their wrap-around written out, pointers are addresses and NULL
-- is 0. Loops without a structure to follow run on fuel: the search of the heap needs one round for
-- each block and one more; the walk of the tables needs one for each address of the range and one for
-- each level. The header of a heap block is a record in the store, so that the model does not say what
-- a caller that writes past its payload does to it, and headers that overlap are related where
-- `val_aligned_alloc` places a block, not by what later calls write. Logging is left out.
--
-- A panic ends the simulation and is a value of its own. Constants of headers outside the repository
-- (VAL_SKIP_CHECK, VAL_STATUS_INVALID, the RESULT macros) are parameters, but for VAL_SUCCESS, which
-- the code tests for as 0.
--
-- Not modelled: the drivers of the serial port, the consoles and the SMMU test engine, exceptions, the
-- start of processors, the C library calls that the TPM library needs and the tests themselves. They are access to devices, or lie above
-- the parts that are here. The report of a test, its printing and the constants of a run are of the platform's shared code, which the repository
-- does not have, and are arguments.
pub mod Base
pub mod Ffa
pub mod Tpm
pub mod TpmPlat
pub mod Irq
pub mod Malloc
pub mod Paging
pub mod Nvm
pub mod Share
pub mod Misc
pub mod Events
pub mod Endpoints
pub mod Dispatch
pub mod Framework
pub mod Gic
pub mod Drivers
