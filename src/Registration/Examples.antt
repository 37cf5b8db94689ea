-- ===== src/Registration/Examples.antt =====
-- An IDL that does what is documented, and the theorems on it.
use ops_sysd.Base.{
  ℕ, ◌+◌, ◌≡◌, refl, Bool, true, false, not, ◌&&◌, ◌||◌, List, [], ◌∷◌, ◌++◌, all, if◌then◌else◌,
  none, some, arith,
}
use ops_sysd.Base.Text.{Bytes, codes, str_eq}
use ops_sysd.Base.Outcome.{ok}
use ops_sysd.Configure.Courses.Examples as Courses
use ops_sysd.Configure.Examples.{idl_names, address, find_first}
use ops_sysd.Configure.Run.{Sysd, Pass, run}
use ops_sysd.Configure.Tables.{dflt_timezone, SystemConfig, Globals, blank_system}
use ops_sysd.HwDone.Examples as HwDone
use ops_sysd.Manifest.{count_hw}
use ops_sysd.Packages.{PackageRow}
use ops_sysd.Registration.{
  Column, col_eq, IdlCall, add_table, add_column, omit_alert, Idl, IsIdl, ovsdb_conn_init,
  daemon_col, system_col, conn_calls, replay,
}
use ops_sysd.Registration.Linked.{with_zone, cli_platform_timezone_set-run}
use ops_sysd.Timezone.Commands.{cmd_success, cli_platform_timezone_set, config_context_timezone}
use ops_sysd.Timezone.Examples.{tables, tables-IsTable}
use ops_sysd.Timezone.Zones.{base_path}
use ops_sysd.Registration.Ready.{IsWaiting, after_pass, run-up}
use ops_sysd.Registration.Columns.{has_column}
use ops_sysd.Registration.Waking.{waking, receive_all, run-quiet}
use ops_sysd.Release.{update_sw_info}

pub record Modes : Type 0 where
  pub monitored : Column → Bool
  pub alerting : Column → Bool
  pub seqno : ℕ

abbrev call : IdlCall → Modes → Modes
call (add_table t) s = s
call (add_column d) s = record s {
  monitored = λ c. col_eq c d || s.monitored c;
  alerting = λ c. col_eq c d || s.alerting c;
}
call (omit_alert d) s = record s { alerting = λ c. not (col_eq c d) && s.alerting c }

-- A change of a column that alerts is counted.
abbrev receive : List Column → Modes → Modes
receive cs s = if all (λ c. not (s.alerting c)) cs then s else record s { seqno = s.seqno + 1 }

abbrev modes : Idl Modes
modes = record {
  create = λ b. record { monitored = λ c. b; alerting = λ c. b; seqno = 0 };
  get_seqno = λ s. s.seqno;
  set_lock = λ l s. s;
  call = call;
  receive = receive;
  monitors = λ s. s.monitored;
  alerts = λ s. s.alerting;
}

alerting-receive :
    (b : Bool) (s : Modes) (c : Column)
    → (if b then s else record s { seqno = s.seqno + 1 }).alerting c ≡ s.alerting c
alerting-receive true s c = refl
alerting-receive false s c = refl

modes-IsIdl : IsIdl Modes modes
modes-IsIdl = record {
  created = λ c. refl;
  created_alerts = λ c. refl;
  locked = λ l s c. refl;
  locked_alerts = λ l s c. refl;
  table = λ t s c. refl;
  table_alerts = λ t s c. refl;
  added = λ d s c. refl;
  added_alerts = λ d s c. refl;
  omitted = λ d s c. refl;
  omitted_alerts = λ d s c. refl;
  received = λ cs s c. alerting-receive (all (λ d. not (s.alerting d)) cs) s c;
  unchanged = λ cs s h. rw h refl;
  changed = λ cs s h e. omega (arith, rw h at e);
}

abbrev report : List (List Column)
report = (daemon_col (codes "cur_hw") ∷ []) ∷ []

-- What the daemon itself writes behind the report
abbrev reply : List Column
reply = system_col (codes "cur_hw") ∷ system_col (codes "next_hw") ∷ []

report_counts : 1 ≡ modes.get_seqno (receive_all modes report (ovsdb_conn_init modes).idl)
unfolding ovsdb_conn_init replay conn_calls str_eq
report_counts = refl

reply_counts :
    1 ≡ modes.get_seqno (modes.receive reply (receive_all modes report (ovsdb_conn_init modes).idl))
unfolding ovsdb_conn_init replay conn_calls str_eq
reply_counts = refl

reply_quiet : all (λ c. not (has_column c waking)) reply ≡ true
unfolding str_eq
reply_quiet = refl

run-quiet_example :
    run idl_names address find_first Courses.same_columns Courses.globals Courses.defaults
      Courses.early_pass Courses.after
    ≡ ok Courses.after
run-quiet_example =
    run-quiet modes modes-IsIdl idl_names address find_first Courses.same_columns Courses.globals
      Courses.defaults report reply Courses.early_pass Courses.after report_counts reply_counts
      reply_quiet

-- A switch on which the last hardware daemon has just reported
abbrev installed : PackageRow
installed = record {
  name = codes "vim";
  version = codes "1";
  src_url = codes "http://a";
  src_type = codes "git";
}

abbrev system : SystemConfig
system = record blank_system { timezone = some dflt_timezone }

abbrev waiting : Sysd
waiting = record Courses.at_start {
  db = record Courses.empty { systems = system ∷ []; daemons = HwDone.both_up.rows };
  packages = installed ∷ [];
}

abbrev two_handlers : Globals
two_handlers = record Courses.globals {
  manifest = record Courses.manifest {
    daemons = HwDone.daemons;
    num_daemons = 3;
    num_hw_daemons = 2;
  };
}

abbrev woken : Pass
woken = record Courses.early_pass { release = none }

waiting-IsWaiting : IsWaiting two_handlers waiting system dflt_timezone
unfolding count_hw
waiting-IsWaiting = record {
  systems = refl;
  timezone = refl;
  zone_fits = omega arith;
  first_package = installed;
  others = [];
  packages = refl;
  not_set = refl;
  counted = refl;
}

report_seen :
    1
    ≡ modes.get_seqno (
        modes.receive
          (daemon_col (codes "cur_hw") ∷ [])
          (receive_all modes [] (ovsdb_conn_init modes).idl))
unfolding ovsdb_conn_init replay conn_calls str_eq
report_seen = refl

none_seen : 0 ≡ modes.get_seqno (receive_all modes [] (ovsdb_conn_init modes).idl)
unfolding ovsdb_conn_init replay conn_calls str_eq
none_seen = refl

report_wakes : all (λ c. not (has_column c waking)) (daemon_col (codes "cur_hw") ∷ []) ≡ false
unfolding str_eq
report_wakes = refl

run-up_example :
    run idl_names address find_first Courses.same_columns two_handlers Courses.defaults woken
      waiting
    ≡ ok
        (record (after_pass woken waiting system dflt_timezone system.software) { complete = true })
unfolding update_sw_info
run-up_example =
    run-up idl_names address find_first Courses.same_columns two_handlers Courses.defaults modes
      modes-IsIdl [] (daemon_col (codes "cur_hw") ∷ []) woken waiting system dflt_timezone
      system.software waiting-IsWaiting none_seen report_seen report_wakes HwDone.both_up-IsFoundSet
      refl refl refl refl

zone_seen :
    1
    ≡ modes.get_seqno (
        modes.receive
          (system_col (codes "timezone") ∷ [])
          (receive_all modes [] (ovsdb_conn_init modes).idl))
unfolding ovsdb_conn_init replay conn_calls str_eq
zone_seen = refl

-- "timezone set asia/tokyo" on the same switch
cli_platform_timezone_set-run_example :
    (zone : Bytes) × (s : Sysd) × (cli_platform_timezone_set tables true true
        (codes "asia/tokyo")
        (some (some dflt_timezone))
      ≡ ok (record { rc = cmd_success; output = []; system = some (some zone) }))
    × (config_context_timezone (some (some zone))
        ≡ ok ((codes "timezone set " ++ codes "asia/tokyo") ∷ []))
    × (run idl_names address find_first Courses.same_columns two_handlers Courses.defaults woken
          (with_zone waiting zone)
        ≡ ok s)
    × (s.localtime ≡ some (base_path ++ zone))
unfolding update_sw_info
cli_platform_timezone_set-run_example =
    cli_platform_timezone_set-run idl_names address find_first Courses.same_columns two_handlers
      Courses.defaults modes modes-IsIdl tables dflt_timezone (codes "asia/tokyo") 0 [] woken
      waiting system system.software installed [] tables-IsTable refl refl (omega arith) refl refl
      none_seen zone_seen refl refl refl refl refl
