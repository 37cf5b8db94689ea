-- ===== src/Dump/Examples.antt =====
-- The dump of a small manifest.
use ops_sysd.Base.{◌≡◌, refl, true, some, take}
use ops_sysd.Base.Decimal.{digits}
use ops_sysd.Base.Text.{codes, strn_eq}
use ops_sysd.Base.Outcome.{ok}
use ops_sysd.Configure.Rows.{c_string}
use ops_sysd.Dump.{
  strncat, mgmt_name, dump_daemon, dump_daemons, dump, diag_dump_basic_cb, unixctl_dump,
}
use ops_sysd.Dump.Text.{dump_text}
use ops_sysd.Dump.Replies.{unixctl_dump-read}
use ops_sysd.Manifest.{new_daemon, get_hw_handler, count_hw}
use ops_sysd.Manifest.Counts.{read_manifest_file-IsRead}
use ops_sysd.Manifest.Examples.{always, block, document, globals, read_globals}

globals_mgmt : mgmt_name globals.mgmt_intf ≡ ok (codes "eth0")
unfolding c_string
globals_mgmt = refl

-- Of the two daemons the first is listed, though the other is the hardware daemon.
dump-globals :
    dump 200 globals
    ≡ ok (
        codes
          "=============== Daemon Info =========================\nName\t\t\tis_hw_handler\t\t\tcur_hw\nops-sysd\t\t\t0\t\t\t1\n=============== Mgmt_intf Info ==========================\neth0\n")
unfolding dump dump_daemons dump_daemon strncat c_string digits new_daemon get_hw_handler strn_eq
dump-globals = refl

unixctl_dump-read_example :
    (unixctl_dump true globals
      ≡ ok (take 15999 (dump_text (count_hw globals.daemons) globals.daemons (codes "eth0"))))
    × (diag_dump_basic_cb true globals
        ≡ ok (
            some
              (take 15999 (dump_text (count_hw globals.daemons) globals.daemons (codes "eth0")))))
unixctl_dump-read_example =
    unixctl_dump-read document globals (codes "eth0")
      (read_manifest_file-IsRead always block document globals read_globals) globals_mgmt
