-- ===== src/Errno.antt =====
-- Error codes of lib/intel-ipsec-mb.h and the error status of lib/error.c and lib/include/error.h.
use intel_ipsec_mb.Base.{ℕ, ◌==◌, leb, if◌then◌else◌, Option, none, some, List, [], ◌∷◌}
use Prim.Native.String.{String}

-- IMB_ERR_...
abbrev pub err_null_mbmgr : ℕ
err_null_mbmgr = 2001

abbrev pub err_job_null_src : ℕ
err_job_null_src = 2002

abbrev pub err_job_null_dst : ℕ
err_job_null_dst = 2003

abbrev pub err_job_null_key : ℕ
err_job_null_key = 2004

abbrev pub err_job_null_iv : ℕ
err_job_null_iv = 2005

abbrev pub err_job_null_auth : ℕ
err_job_null_auth = 2006

abbrev pub err_job_null_aad : ℕ
err_job_null_aad = 2007

abbrev pub err_job_ciph_len : ℕ
err_job_ciph_len = 2008

abbrev pub err_job_auth_len : ℕ
err_job_auth_len = 2009

abbrev pub err_job_iv_len : ℕ
err_job_iv_len = 2010

abbrev pub err_job_key_len : ℕ
err_job_key_len = 2011

abbrev pub err_job_auth_tag_len : ℕ
err_job_auth_tag_len = 2012

abbrev pub err_job_aad_len : ℕ
err_job_aad_len = 2013

abbrev pub err_job_src_offset : ℕ
err_job_src_offset = 2014

abbrev pub err_job_chain_order : ℕ
err_job_chain_order = 2015

abbrev pub err_ciph_mode : ℕ
err_ciph_mode = 2016

abbrev pub err_hash_algo : ℕ
err_hash_algo = 2017

abbrev pub err_job_null_auth_key : ℕ
err_job_null_auth_key = 2018

abbrev pub err_max : ℕ
err_max = 2019

-- errno.h
abbrev pub efault : ℕ
efault = 14

abbrev pub einval : ℕ
einval = 22

abbrev pub enodev : ℕ
enodev = 19

-- Where error numbers are kept: in the manager (there is none where its pointer is NULL), and in the
-- global `imb_errno`.
pub record Status : Type 0 where
  pub mgr_errno : Option ℕ
  pub global_errno : ℕ

-- imb_set_errno
unfoldable pub set_errno : Status → ℕ → Status
set_errno s e = elim s.mgr_errno [
  | none ↦ record s { global_errno = e }
  | some _ ↦ record { mgr_errno = some e; global_errno = e }
]

-- imb_get_errno
unfoldable pub get_errno : Status → ℕ
get_errno s = elim s.mgr_errno [ some e ↦ e | none ↦ s.global_errno ]

-- The library's own messages, in the order of the `switch`.
pub messages : List (ℕ × String)
messages =
    (0, "No error")
    ∷ (err_null_mbmgr, "Null IMB_MGR pointer")
    ∷ (err_job_null_src, "Null source pointer")
    ∷ (err_job_null_dst, "Null destination pointer")
    ∷ (err_job_null_key, "Null key pointer")
    ∷ (err_job_null_iv, "Null Initialization Vector (IV) pointer")
    ∷ (err_job_null_auth, "Null authentication tag output pointer")
    ∷ (err_job_null_aad, "Null Additional Authenticated Data (AAD) pointer")
    ∷ (err_job_ciph_len, "Invalid cipher message length")
    ∷ (err_job_auth_len, "Invalid authentication message length")
    ∷ (err_job_iv_len, "Invalid Initialization Vector (IV) length")
    ∷ (err_job_key_len, "Invalid key length")
    ∷ (err_job_auth_tag_len, "Invalid authentication tag length")
    ∷ (err_job_aad_len, "Invalid Additional Authenticated Data (AAD) length")
    ∷ (err_job_src_offset, "Invalid source offset")
    ∷ (err_job_chain_order, "Invalid chain order")
    ∷ (err_ciph_mode, "Invalid cipher mode")
    ∷ (err_hash_algo, "Invalid hash algorithm")
    ∷ (err_job_null_auth_key, "Null pointer to authentication key")
    ∷ []

-- The `case` labels in turn; `default` asks the C library.
pub case_of : (ℕ → String) → List (ℕ × String) → ℕ → String
case_of strerror [] e = strerror e
case_of strerror ((c, text) ∷ rest) e = if e == c then text else case_of strerror rest e

-- imb_get_strerror. `strerror` is the C library's.
pub get_strerror : (ℕ → String) → ℕ → String
get_strerror strerror e = if leb err_max e then "Unknown error" else case_of strerror messages e
