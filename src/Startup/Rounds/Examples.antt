-- ===== src/Startup/Rounds/Examples.antt =====
-- A course of three rounds, the second of which has the exit command, and two command lines.
use ops_sysd.Base.{◌≡◌, refl, true, List, [], ◌∷◌, none, some}
use ops_sysd.Base.Text.{codes}
use ops_sysd.Base.Outcome.{fault}
use ops_sysd.Configure.Courses.Examples as Courses
use ops_sysd.Configure.Courses.Examples.{defaults, manifest, early_pass, same_columns}
use ops_sysd.Configure.Examples.{idl_names, address, find_first}
use ops_sysd.Configure.Run.{run}
use ops_sysd.Startup.CfgYaml.{set_system_status_led}
use ops_sysd.Startup.Loop.{Round, dump_command, exit_command, enter_loop, main_loop}
use ops_sysd.Startup.Options.{unixctl, handled, parsed, parse_options}

abbrev pub course : List Round
course =
    record { pass = early_pass; commands = dump_command true ∷ [] }
    ∷ record { pass = early_pass; commands = exit_command ∷ dump_command true ∷ [] }
    ∷ record { pass = record early_pass { seqno = 2 }; commands = [] }
    ∷ []

-- Two exit commands in one round free the subsystems twice.
exit_twice :
    main_loop none idl_names address find_first same_columns Courses.globals defaults
      (record {
        pass = record early_pass { lock_contended = true };
        commands = exit_command ∷ exit_command ∷ [];
      }
        ∷ [])
      (enter_loop none Courses.at_start)
    ≡ fault
unfolding main_loop run set_system_status_led
exit_twice = refl

-- The last path counts, and the first argument that is no option is the socket.
parse_two_paths :
    parse_options
      (codes "/run")
      (unixctl (codes "a") ∷ handled ∷ unixctl (codes "b") ∷ [])
      (codes "tcp:db" ∷ [])
      none
    ≡ parsed (codes "tcp:db") (some (codes "b"))
unfolding parse_options
parse_two_paths = refl
