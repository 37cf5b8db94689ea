-- ===== src/Registration/Vtysh.antt =====
-- The start of the vtysh plugin (src/cli/system_vty.c): `cli_pre_init` with `system_ovsdb_init`, and
-- `cli_post_init`; and its two commands that run "date".

use ops_sysd.Base.{◌≡◌, ap, ◌∙◌, Bool, ◌||◌, List, [], ◌∷◌, map, Option, if◌then◌else◌}
use ops_sysd.Base.Text.{Bytes, codes}
use ops_sysd.Base.Outcome.{Outcome, ok, fault, ◌>>=◌}
use ops_sysd.Registration.{
  Column, IdlCall, add_table, add_column, Idl, IsIdl, replay, system_col, subsystem_col,
}
use ops_sysd.Registration.Columns.{has_column}
use ops_sysd.Registration.Modes.{replay-monitors}
use ops_sysd.Timezone.Commands.{CmdRc, cmd_success, Blocks, Installed, install_timezone_set_command}
use ops_sysd.Timezone.Zones.{Entries, ZoneDb}

abbrev fan_col : Bytes → Column
fan_col name = record { table = codes "Fan"; name = name }

abbrev led_col : Bytes → Column
led_col name = record { table = codes "Led"; name = name }

-- The columns of `system_ovsdb_init`, in order
abbrev pub vtysh_columns : List Column
vtysh_columns =
    system_col (codes "timezone")
    ∷ led_col (codes "id")
    ∷ led_col (codes "state")
    ∷ led_col (codes "status")
    ∷ led_col (codes "other_config")
    ∷ led_col (codes "external_ids")
    ∷ subsystem_col (codes "interfaces")
    ∷ subsystem_col (codes "leds")
    ∷ subsystem_col (codes "fans")
    ∷ subsystem_col (codes "asset_tag_number")
    ∷ subsystem_col (codes "name")
    ∷ subsystem_col (codes "type")
    ∷ subsystem_col (codes "hw_desc_dir")
    ∷ subsystem_col (codes "other_info")
    ∷ subsystem_col (codes "other_config")
    ∷ subsystem_col (codes "external_ids")
    ∷ fan_col (codes "status")
    ∷ fan_col (codes "direction")
    ∷ fan_col (codes "name")
    ∷ fan_col (codes "rpm")
    ∷ fan_col (codes "other_config")
    ∷ fan_col (codes "hw_config")
    ∷ fan_col (codes "external_ids")
    ∷ fan_col (codes "speed")
    ∷ []

abbrev vtysh_tables : List IdlCall
vtysh_tables =
    add_table (codes "Fan")
    ∷ add_table (codes "Led")
    ∷ add_table (codes "System")
    ∷ add_table (codes "Subsystem")
    ∷ []

-- `system_ovsdb_init`, on the IDL that vtysh has made
unfoldable pub system_ovsdb_init : {S : Type 0} → Idl S → S → S
unfolding replay
system_ovsdb_init idl s = replay idl (map add_column vtysh_columns) (replay idl vtysh_tables s)

-- `cli_pre_init`: the IDL, and what `install_element` is given for the configuration node. The
-- result of `system_install_timezone_set_command` is not looked at.
unfoldable pub cli_pre_init :
    {S : Type 0}
    → Idl S
    → Blocks
    → (no_str : Bytes) → Entries
    → ZoneDb
    → S
    → Outcome (S × Option Installed)
unfolding system_ovsdb_init install_timezone_set_command
cli_pre_init idl blocks no_str tree db s = do
  installed ← install_timezone_set_command blocks no_str tree db
  ok (system_ovsdb_init idl s, installed)

pub data Node : Type 0 where
  view_node : Node
  enable_node : Node

pub data ShowCommand : Type 0 where
  show_system : ShowCommand
  show_system_clock : ShowCommand
  show_date : ShowCommand
  show_timezone : ShowCommand

-- The calls of install_element in `cli_post_init`, in order
abbrev pub show_elements : List (Node × ShowCommand)
show_elements =
    (enable_node, show_system)
    ∷ (view_node, show_system)
    ∷ (view_node, show_system_clock)
    ∷ (enable_node, show_system_clock)
    ∷ (view_node, show_date)
    ∷ (enable_node, show_date)
    ∷ (view_node, show_timezone)
    ∷ (enable_node, show_timezone)
    ∷ []

-- install_element, install_show_run_config_subcontext with whether it gives e_vtysh_ok, and
-- execute_command, on the state of vtysh
module _ {V : Type 0} (install_element : Node → ShowCommand → V → V)
    (install_subcontext : V → Bool × V) where
  unfoldable pub install_elements : List (Node × ShowCommand) → V → V
  install_elements [] v = v
  install_elements ((node, command) ∷ elements) v =
      install_elements elements (install_element node command v)

  -- `cli_post_init`, which asserts that the callback could be installed.
  unfoldable pub cli_post_init : V → Outcome V
  unfolding install_elements
  cli_post_init v =
      let (installed, done) = install_subcontext (install_elements show_elements v) in
      if installed then ok done else fault

module _ {V : Type 0} (execute_command : Bytes → V → V) where
  -- `vtysh_show_system_clock`
  abbrev pub vtysh_show_system_clock : V → CmdRc × V
  vtysh_show_system_clock v = (cmd_success, execute_command (codes "date") v)

  -- `vtysh_show_date`
  abbrev pub vtysh_show_date : V → CmdRc × V
  vtysh_show_date v = (cmd_success, execute_command (codes "date") v)

module _ {S : Type 0} (idl : Idl S) (laws : IsIdl S idl) where
  -- After the start of the plugin vtysh receives the columns of `vtysh_columns`, and those it received
  -- before.
  pub system_ovsdb_init-monitors :
      (s : S) (c : Column)
      → idl.monitors (system_ovsdb_init idl s) c ≡ has_column c vtysh_columns || idl.monitors s c
  unfolding system_ovsdb_init
  system_ovsdb_init-monitors s c =
      replay-monitors idl laws (map add_column vtysh_columns) (replay idl vtysh_tables s) c
      ∙ ap (λ b. has_column c vtysh_columns || b) (replay-monitors idl laws vtysh_tables s c)
