-- ===== src/Lib.antt =====
-- A model of intel-ipsec-mb, the multi-buffer cryptography library: the part in C that takes jobs, checks
-- them, sends them through their cipher and their hash, and gives them back in order.
--
-- A job (IMB_JOB of lib/intel-ipsec-mb.h) is written by the client into the next slot of a ring of 128 jobs
-- and submitted. The manager checks it, hands it to a cipher and to a hash in the order of its chain, and
-- keeps it in the lanes of an out-of-order manager while other jobs of its kind are missing. A job that a
-- lane gives up is submitted again for its other half. Jobs are given back in the order of submission.
--
--   * Base (with Base/*): names and lemmas that the other files share.
--   * Job, Errno: IMB_JOB and its enumerations, the error codes, lib/error.c and lib/include/error.h. A
--     pointer is its address, 0 for NULL; an enumeration has a constructor for values that it does not name.
--   * Iv: the initialization vectors of lib/zuc_iv.c, lib/kasumi_iv.c and lib/snow3g_iv.c, as lists of bytes.
--   * Auto: the choice of an instruction set by lib/mb_mgr_auto.c.
--   * Cpu: the detection of processor features by lib/cpu_feature.c. CPUID is a parameter, and the static
--     variables are passed explicitly.
--   * Alloc: alloc_mb_mgr and free_mb_mgr of lib/alloc.c in the LINUX build, on a heap that knows which
--     addresses are allocated. posix_memalign is a parameter; a call of free with an address that is not
--     allocated is `none`.
--   * Sha: sha_generic of lib/sha_one_block.c, which pads and hashes a whole message; the function that hashes a
--     block is a parameter. The loop over the blocks gets as much fuel as the message has bytes, and takes one
--     for a block.
--   * Des: DES, 3DES and DOCSIS DES of lib/des_basic.c (Des.Boxes, Des.Block, Des.Modes) and the key schedule
--     of lib/des_key.c and lib/include/des_utils.h (Des.Schedule). The modes change a memory of bytes
--     (Base.Memory), so that a buffer may be encrypted in place; a key schedule is the list of its words, and
--     a lookup is the element of the table. The manager calls these functions through lib/include/des.h.
--     Des.Inverse to Des.OneBlock are about one block, Des.Chaining to Des.Docsis about the modes, and
--     Des.Select to Des.SixBits about the key schedule.
--   * Validate: `is_job_invalid` of lib/include/mb_mgr_code.h. Validate.Aes, Validate.NonAes and Validate.Hash
--     hold a function for each `case`, its tests in the order of the source; the result tells undefined
--     behaviour (`fault`) from a rejection. Validate.Spec and Validate.HashSpec are the
--     conditions of an accepted job, as propositions. They follow the code where its comments, the header or
--     README ask for something else, and list these places; Validate.Untested is about some of them.
--   * Mgr: the manager of lib/include/mb_mgr_code.h in the SSE build (lib/sse/mb_mgr_sse.c), with the helpers
--     of lib/include/docsis_common.h and lib/include/des.h. Mgr.State is IMB_MGR; a job pointer is the byte
--     offset of the job in `jobs`. Mgr.Steps, Mgr.Cipher and Mgr.Hash are the functions that dispatch a job by
--     its cipher mode and hash algorithm, with the calls of Mgr.CipherCalls; Mgr.Jobs is RESUBMIT_JOB,
--     submit_new_job and complete_job; Mgr.Api is the interface, from submit_job_and_check to QUEUE_SIZE.
--   * Mgr.Kernels and Mgr.Contract: what the manager calls. The schedulers and the routines are assembly, and
--     the custom functions are the client's: they are parameters over a state of which nothing is known but
--     that a scheduler keeps a set of waiting jobs, which Mgr.Contract states. Mgr.OneLane is a scheduler that
--     meets it.
--   * Mgr.Home to Mgr.Trace: the theorems on the manager. Mgr.Home gives the manager in which a job may wait
--     for a stage, and Mgr.Dispatch is about that; Mgr.Sound is the invariant, and Mgr.Slots to Mgr.Liveness
--     are about the calls that have to keep it; Mgr.Ring, Mgr.Enter, Mgr.Start, Mgr.Take, Mgr.Fifo and
--     Mgr.Drain are about the ring as a queue; Mgr.Trace is about sequences of calls.
--
-- The `while` loops take fuel. RESUBMIT_JOB and complete_job get 257 rounds: each round takes a stage from a
-- job of the ring, and there are two stages for each of 128 jobs. `none` is a loop that ran out of fuel.
--
-- Left out: the assembly, the instances of the manager for other instruction sets, the ciphers and hashes
-- that are in C other than DES and the padding of SHA, and the build options: SAFE_PARAM is on in Des and off in Mgr, SAFE_DATA, which
-- clears local variables at the end of a call, is off. The ring theorems leave out jobs with a custom cipher or
-- hash, whose flush functions run the job itself. A custom function of the client may write to the job that it
-- gets and to the state outside the manager, but not to other jobs of the ring.
pub mod Base
pub mod Job
pub mod Errno
pub mod Validate
pub mod Iv
pub mod Alloc
pub mod Cpu
pub mod Auto
pub mod Sha
pub mod Des
pub mod Mgr
