-- ===== src/Dump.antt =====
-- The state of the daemon as text: `sysd_dump` of src/sysd_ovsdb_if.c, and its callers in src/sysd.c,
-- `sysd_diag_dump_basic_cb` and `sysd_unixctl_dump`.
pub mod Text
pub mod Replies
mod Examples
use ops_sysd.Base.{
  ℕ, zero, suc, ◌+◌, ◌-◌, Bool, true, false, not, List, [], ◌∷◌, ◌++◌, Option, none, some, ltb,
  if◌then◌else◌, length, take,
}
use ops_sysd.Base.Cstring.{strcpy}
use ops_sysd.Base.Decimal.{decimal}
use ops_sysd.Base.Int.{ℤ, pos}
use ops_sysd.Base.Printf.{print_int}
use ops_sysd.Base.Text.{Bytes, codes}
use ops_sysd.Base.Outcome.{Outcome, ok, fault, ◌>>=◌}
use ops_sysd.Configure.Rows.{c_string}
use ops_sysd.Manifest.{DaemonInfo, Manifest}

abbrev pub buf_len : ℕ
buf_len = 16000

abbrev pub max_err_str_len : ℕ
max_err_str_len = 255

-- strncat(buf, src, REM_BUF_LEN). The bound is a size_t: for a text that does not end before the last
-- byte it would be huge.
unfoldable pub strncat : ℕ → Bytes → Bytes → Outcome Bytes
strncat buflen buf src =
    if ltb (length buf) buflen then ok (buf ++ take (buflen - 1 - length buf) src) else fault

abbrev pub daemon_title : Bytes
daemon_title = codes "=============== Daemon Info =========================\n"

abbrev pub column_line : Bytes
column_line = codes "Name\t\t\tis_hw_handler\t\t\tcur_hw\n"

abbrev pub mgmt_title : Bytes
mgmt_title = codes "=============== Mgmt_intf Info ==========================\n"

abbrev pub tabs : Bytes
tabs = 9 ∷ 9 ∷ 9 ∷ []

-- %d of a bool
abbrev pub flag_text : Bool → Bytes
flag_text true = decimal 1
flag_text false = decimal 0

-- The body of the loop; both numbers pass through tmp_buf[100].
unfoldable pub dump_daemon : ℕ → DaemonInfo → Bytes → Outcome Bytes
unfolding strncat
dump_daemon buflen d buf = do
  named ← strncat buflen buf d.name
  spaced ← strncat buflen named tabs
  handler ← strcpy 100 (flag_text d.is_hw_handler)
  flagged ← strncat buflen spaced handler
  apart ← strncat buflen flagged tabs
  cur_hw ← strcpy 100 (print_int d.cur_hw)
  counted ← strncat buflen apart cur_hw
  strncat buflen counted (10 ∷ [])

-- while ((num_hw_daemons - 1) >= i): the first daemons of the array, whichever they are.
unfoldable pub dump_daemons : ℕ → ℕ → List DaemonInfo → Bytes → Outcome Bytes
unfolding dump_daemon
dump_daemons buflen zero ds buf = ok buf
dump_daemons buflen (suc left) [] buf = fault
dump_daemons buflen (suc left) (d ∷ ds) buf =
    dump_daemon buflen d buf >>= dump_daemons buflen left ds

-- mgmt_intf->name
abbrev pub mgmt_name : Option Bytes → Outcome Bytes
mgmt_name none = fault
mgmt_name (some block) = c_string block

-- `sysd_dump`; what the buffer held is written over.
unfoldable pub dump : ℕ → Manifest → Outcome Bytes
unfolding dump_daemons strncat c_string
dump buflen m = do
  title ← strcpy buflen daemon_title
  columns ← strncat buflen title column_line
  daemons ← dump_daemons buflen m.num_hw_daemons m.daemons columns
  section ← strncat buflen daemons mgmt_title
  name ← mgmt_name m.mgmt_intf
  named ← strncat buflen section name
  strncat buflen named (10 ∷ [])

-- `sysd_diag_dump_basic_cb` where `buf` is not NULL: what *buf points to afterwards
unfoldable pub diag_dump_basic_cb : (calloc_ok : Bool) → Manifest → Outcome (Option Bytes)
diag_dump_basic_cb calloc_ok m =
    if not calloc_ok then ok none else do buf ← dump buf_len m; ok (some buf)

abbrev pub support_title : Bytes
support_title = codes "Support Dump for Platform SYS Daemon (ops-sysd)\n\n"

-- `sysd_unixctl_dump`: the reply of the command ops-sysd/dump
unfoldable pub unixctl_dump : (calloc_ok : Bool) → Manifest → Outcome Bytes
unixctl_dump calloc_ok m =
    if not calloc_ok
    then ok (
        take (max_err_str_len - 1)
          (codes "sysd daemon failed to allocate " ++ (decimal buf_len ++ codes " bytes\n")))
    else strcpy buf_len support_title >>= λ title. dump buf_len m
