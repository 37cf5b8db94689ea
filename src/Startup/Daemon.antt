-- ===== src/Startup/Daemon.antt =====
-- `main` of src/sysd.c from the command line to the end of its loop.
pub mod Examples
use ops_sysd.Base.{
  ℕ, ◌≤◌, ◌≡◌, refl, sym, ap, ◌∙◌, subst, Bool, true, not, List, [], map, Option, none, some,
  if◌then◌else◌, All,
}
use ops_sysd.Base.Text.{Bytes}
use ops_sysd.Base.Outcome.{Outcome, ok, ◌>>=◌, >>=-assoc, Ensures}
use ops_sysd.Configure.Interfaces.{IdlNames}
use ops_sysd.Configure.Run.{Sysd, run_all}
use ops_sysd.Configure.Splits.{Shash}
use ops_sysd.Configure.Tables.{QosEnv, Globals}
use ops_sysd.Dump.{mgmt_name}
use ops_sysd.Dump.Replies.{IsRead-IsDumpable}
use ops_sysd.Release.{SoftwareColumns}
use ops_sysd.Startup.CfgYaml.{SystemLed}
use ops_sysd.Startup.Loop.{Round, LoopState, enter_loop, main_loop}
use ops_sysd.Startup.Main.{StartEnv, Start, running, start}
use ops_sysd.Startup.Options.{Opt, Parsed, parsed, parse_options}
use ops_sysd.Startup.Rounds.{exits, until_exit, main_loop-run_all}
use ops_sysd.Startup.Started.{IsRunning, IsStarted, start-IsStarted}

-- Where main ends: at the command line, without a server for ovs-appctl, in one of the exits before the
-- loop, or behind the loop.
pub data MainEnd : Type 0 where
  at_options : Parsed → MainEnd
  no_appctl : MainEnd
  before_loop : Start → MainEnd
  after_loop : LoopState → MainEnd

-- The command line, and whether unixctl_server_create goes through.
pub record Call : Type 0 where
  pub rundir : Bytes
  pub options : List Opt
  pub arguments : List Bytes
  pub appctl_ok : Bool

module _ (led : Option SystemLed) (names : IdlNames) (ether_string : ℕ → Bytes)
    (find : Shash → Bytes → Option ℕ)
    (write_outside : SoftwareColumns → SoftwareColumns → Outcome SoftwareColumns) (qos : QosEnv)
    (rounds : List Round) (s : Sysd) where
  abbrev pub loop_from : Start → Outcome MainEnd
  loop_from (running globals) = do
    t ← main_loop led names ether_string find write_outside globals qos rounds (enter_loop led s)
    ok (after_loop t)
  loop_from stopped = ok (before_loop stopped)

  abbrev pub main_from : Bool → StartEnv → Parsed → Outcome MainEnd
  main_from appctl_ok env (parsed socket path) =
      if not appctl_ok then ok no_appctl else (start env >>= loop_from)
  main_from appctl_ok env stopped = ok (at_options stopped)

  -- The process; `s` is the database with the state of a process that has just started.
  unfoldable pub main : Call → StartEnv → Outcome MainEnd
  main call env =
      main_from call.appctl_ok env (parse_options call.rundir call.options call.arguments none)

  -- The database and the state that main has worked on, if it came to its loop
  abbrev pub worked : MainEnd → Option Sysd
  worked (after_loop t) = some t.sysd
  worked _ = none

  main-running :
      (call : Call) (env : StartEnv) (socket : Bytes) (path : Option Bytes) (globals : Globals)
      → parse_options call.rundir call.options call.arguments none ≡ parsed socket path
      → call.appctl_ok ≡ true
      → start env ≡ ok (running globals)
      → main call env ≡ loop_from (running globals)
  unfolding main
  main-running call env socket path globals p a r = simp (p, a, r) refl

  -- If the command line is accepted, ovs-appctl is served, the steps before the loop lead to it with
  -- some globals, the manifest names a management interface, and no round has two exit commands: main
  -- does the passes of `sysd_run` on these globals, up to the round of the first exit command, and
  -- then ends; all else that it does neither faults nor changes what they work on.
  pub main-run_all :
      (call : Call) (env : StartEnv) (socket : Bytes) (path : Option Bytes) (globals : Globals)
      (mgmt : Bytes)
      → parse_options call.rundir call.options call.arguments none ≡ parsed socket path
      → call.appctl_ok ≡ true
      → start env ≡ ok (running globals)
      → mgmt_name globals.manifest.mgmt_intf ≡ ok mgmt
      → All (λ r. exits r.commands ≤ 1) rounds
      → (main call env >>= λ e. ok (worked e)) ≡ (
          run_all names ether_string find write_outside globals qos
            (map (λ r. r.pass) (until_exit rounds))
            s
          >>= λ t. ok (some t))
  main-run_all call env socket path globals mgmt p a r m one =
      let loop =
        main_loop led names ether_string find write_outside globals qos rounds (enter_loop led s) in
      let run : IsRunning env globals = subst (Ensures (IsStarted env)) r (start-IsStarted env) in
      let dumpable = IsRead-IsDumpable run.document globals.manifest mgmt run.manifest_read m in
      ap (λ x. x >>= λ e. ok (worked e)) (main-running call env socket path globals p a r)
      ∙ >>=-assoc loop (λ t. ok (after_loop t)) (λ e. ok (worked e))
      ∙ sym (>>=-assoc loop (λ t. ok t.sysd) (λ t. ok (some t)))
      ∙ ap (λ x. x >>= λ t. ok (some t))
          (main_loop-run_all led globals mgmt dumpable names ether_string find write_outside qos
            rounds (enter_loop led s) one refl refl)
