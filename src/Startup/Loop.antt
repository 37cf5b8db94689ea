-- ===== src/Startup/Loop.antt =====
-- The loop of `main` (src/sysd.c): a pass of `sysd_run`, then the commands of ovs-appctl, until one of
-- them is the exit command, `sysd_exit`.
use ops_sysd.Base.{
  ℕ, Bool, true, false, ◌||◌, List, [], ◌∷◌, ◌++◌, Option, none, some, if◌then◌else◌,
}
use ops_sysd.Base.Text.{Bytes}
use ops_sysd.Base.Outcome.{Outcome, ok, fault, ◌>>=◌}
use ops_sysd.Configure.Interfaces.{IdlNames}
use ops_sysd.Configure.Run.{Sysd, Pass, run}
use ops_sysd.Configure.Splits.{Shash}
use ops_sysd.Configure.Tables.{QosEnv, Globals}
use ops_sysd.Dump.{unixctl_dump}
use ops_sysd.Release.{SoftwareColumns}
use ops_sysd.Startup.CfgYaml.{SystemLed, set_system_status_led}

-- The commands that `main` registers; for a dump, whether its buffer is given.
pub data Command : Type 0 where
  dump_command : (calloc_ok : Bool) → Command
  exit_command : Command

-- One round: what the pass finds, and the commands that unixctl_server_run serves after it.
pub record Round : Type 0 where
  pub pass : Pass
  pub commands : List Command

-- `freed` says that the array `subsystems` was given back; `led` is the register of the status LED that
-- was written last, with its value.
pub record LoopState : Type 0 where
  pub sysd : Sysd
  pub exiting : Bool
  pub freed : Bool
  pub led : Option (ℕ × ℕ)
  pub replies : List Bytes

abbrev pub write_led : Option (ℕ × ℕ) → Option (ℕ × ℕ) → Option (ℕ × ℕ)
write_led none old = old
write_led (some written) old = some written

-- The state in which main comes to its loop
abbrev pub enter_loop : Option SystemLed → Sysd → LoopState
enter_loop led s = record {
  sysd = s;
  exiting = false;
  freed = false;
  led = write_led (set_system_status_led led true) none;
  replies = [];
}

abbrev pub is_exit : Command → Bool
is_exit (dump_command calloc_ok) = false
is_exit exit_command = true

abbrev pub has_exit : List Command → Bool
has_exit [] = false
has_exit (c ∷ cs) = is_exit c || has_exit cs

module _ (led : Option SystemLed) (globals : Globals) where
  -- `sysd_unixctl_dump` and `sysd_exit`, which frees without a test; its reply is NULL.
  unfoldable pub serve : Command → LoopState → Outcome LoopState
  unfolding set_system_status_led
  serve (dump_command calloc_ok) s = do
    reply ← unixctl_dump calloc_ok globals.manifest
    ok (record s { replies = s.replies ++ reply ∷ [] })
  serve exit_command s =
      if s.freed
      then fault
      else ok (record s {
        exiting = true;
        freed = true;
        led = write_led (set_system_status_led led false) s.led;
        replies = s.replies ++ [] ∷ [];
      })

  -- unixctl_server_run
  unfoldable pub serve_all : List Command → LoopState → Outcome LoopState
  unfolding serve
  serve_all [] s = ok s
  serve_all (c ∷ cs) s = serve c s >>= serve_all cs

module _ (led : Option SystemLed) (names : IdlNames) (ether_string : ℕ → Bytes)
    (find : Shash → Bytes → Option ℕ)
    (write_outside : SoftwareColumns → SoftwareColumns → Outcome SoftwareColumns)
    (globals : Globals) (env : QosEnv) where
  -- A pass may read `subsystems`: every pass behind the free counts as a fault.
  abbrev pub guarded_run : Bool → Pass → Sysd → Outcome Sysd
  guarded_run true pass s = fault
  guarded_run false pass s = run names ether_string find write_outside globals env pass s

  -- while (!exiting)
  unfoldable pub main_loop : List Round → LoopState → Outcome LoopState
  unfolding serve_all
  main_loop [] s = ok s
  main_loop (r ∷ rs) s = if s.exiting then ok s else do
    sysd ← guarded_run s.freed r.pass s.sysd
    served ← serve_all led globals r.commands (record s { sysd = sysd })
    main_loop rs served
