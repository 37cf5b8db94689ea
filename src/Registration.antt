-- ===== src/Registration.antt =====
-- `sysd_ovsdb_conn_init` of src/sysd.c: which columns of the database the daemon asks for, and which
-- of them wake it. The IDL of OVS is a parameter; Vtysh has the same for vtysh.
pub mod Columns
pub mod Modes
pub mod Waking
pub mod Ready
pub mod Linked
pub mod Vtysh
mod Examples
use mathlib.Core.List.{flatten}
use ops_sysd.Base.{ℕ, Bool, true, false, not, ◌&&◌, ◌||◌, List, [], ◌∷◌, all, ◌≡◌, ◌≢◌}
use ops_sysd.Base.Text.{Bytes, codes, str_eq}

-- A column of the schema, ovsrec_TABLE_col_NAME
pub record Column : Type 0 where
  pub table : Bytes
  pub name : Bytes

abbrev pub col_eq : Column → Column → Bool
col_eq a b = str_eq a.table b.table && str_eq a.name b.name

-- The calls of the IDL that say what is monitored.
pub data IdlCall : Type 0 where
  add_table : Bytes → IdlCall
  add_column : Column → IdlCall
  omit_alert : Column → IdlCall

-- The IDL: ovsdb_idl_create with the argument monitor_everything_by_default, and the modes of a
-- column, that its changes are received and that they change the sequence number. `receive` is what the
-- IDL does when these columns of rows that are there have changed in the database.
pub record Idl (S : Type 0) : Type 0 where
  pub create : (monitor_everything : Bool) → S
  pub get_seqno : S → ℕ
  pub set_lock : Bytes → S → S
  pub call : IdlCall → S → S
  pub receive : List Column → S → S
  pub monitors : S → Column → Bool
  pub alerts : S → Column → Bool

-- What the documentation of the IDL says of these calls.
pub record IsIdl (S : Type 0) (idl : Idl S) : Type 0 where
  pub created : (c : Column) → idl.monitors (idl.create false) c ≡ false
  pub created_alerts : (c : Column) → idl.alerts (idl.create false) c ≡ false
  pub locked :
      (l : Bytes) (s : S) (c : Column) → idl.monitors (idl.set_lock l s) c ≡ idl.monitors s c
  pub locked_alerts :
      (l : Bytes) (s : S) (c : Column) → idl.alerts (idl.set_lock l s) c ≡ idl.alerts s c
  pub table :
      (t : Bytes) (s : S) (c : Column)
      → idl.monitors (idl.call (add_table t) s) c ≡ idl.monitors s c
  pub table_alerts :
      (t : Bytes) (s : S) (c : Column) → idl.alerts (idl.call (add_table t) s) c ≡ idl.alerts s c
  pub added :
      (d : Column) (s : S) (c : Column)
      → idl.monitors (idl.call (add_column d) s) c ≡ col_eq c d || idl.monitors s c
  pub added_alerts :
      (d : Column) (s : S) (c : Column)
      → idl.alerts (idl.call (add_column d) s) c ≡ col_eq c d || idl.alerts s c
  pub omitted :
      (d : Column) (s : S) (c : Column)
      → idl.monitors (idl.call (omit_alert d) s) c ≡ idl.monitors s c
  pub omitted_alerts :
      (d : Column) (s : S) (c : Column)
      → idl.alerts (idl.call (omit_alert d) s) c ≡ not (col_eq c d) && idl.alerts s c
  pub received :
      (cs : List Column) (s : S) (c : Column) → idl.alerts (idl.receive cs s) c ≡ idl.alerts s c
  pub unchanged :
      (cs : List Column) (s : S)
      → all (λ c. not (idl.alerts s c)) cs ≡ true
      → idl.get_seqno (idl.receive cs s) ≡ idl.get_seqno s
  pub changed :
      (cs : List Column) (s : S)
      → all (λ c. not (idl.alerts s c)) cs ≡ false
      → idl.get_seqno (idl.receive cs s) ≢ idl.get_seqno s

-- A sequence of calls
unfoldable pub replay : {S : Type 0} → Idl S → List IdlCall → S → S
replay idl [] s = s
replay idl (c ∷ cs) s = replay idl cs (idl.call c s)

abbrev pub system_col : Bytes → Column
system_col name = record { table = codes "System"; name = name }

abbrev pub subsystem_col : Bytes → Column
subsystem_col name = record { table = codes "Subsystem"; name = name }

abbrev pub interface_col : Bytes → Column
interface_col name = record { table = codes "Interface"; name = name }

abbrev pub daemon_col : Bytes → Column
daemon_col name = record { table = codes "Daemon"; name = name }

abbrev pub package_col : Bytes → Column
package_col name = record { table = codes "Package_Info"; name = name }

-- The two calls for a column that does not wake the daemon
abbrev pub quietly : Column → List IdlCall
quietly c = add_column c ∷ omit_alert c ∷ []

-- The calls of `sysd_ovsdb_conn_init`, in order
abbrev pub conn_calls : List IdlCall
unfolding flatten
conn_calls = flatten (
    (add_table (codes "System") ∷ [])
    ∷ quietly (system_col (codes "subsystems"))
    ∷ quietly (system_col (codes "cur_hw"))
    ∷ quietly (system_col (codes "next_hw"))
    ∷ quietly (system_col (codes "other_info"))
    ∷ quietly (system_col (codes "software_info"))
    ∷ quietly (system_col (codes "switch_version"))
    ∷ (add_column (system_col (codes "timezone")) ∷ add_table (codes "Subsystem") ∷ [])
    ∷ quietly (subsystem_col (codes "name"))
    ∷ quietly (subsystem_col (codes "asset_tag_number"))
    ∷ quietly (subsystem_col (codes "hw_desc_dir"))
    ∷ quietly (subsystem_col (codes "other_config"))
    ∷ quietly (subsystem_col (codes "interfaces"))
    ∷ (add_table (codes "Interface") ∷ [])
    ∷ quietly (interface_col (codes "name"))
    ∷ quietly (interface_col (codes "hw_intf_info"))
    ∷ quietly (interface_col (codes "type"))
    ∷ quietly (interface_col (codes "user_config"))
    ∷ (add_table (codes "Daemon")
        ∷ add_column (daemon_col (codes "name"))
        ∷ add_column (daemon_col (codes "cur_hw"))
        ∷ [])
    ∷ quietly (daemon_col (codes "is_hw_handler"))
    ∷ (add_column (system_col (codes "mgmt_intf"))
        ∷ add_column (system_col (codes "mgmt_intf_status"))
        ∷ add_table (codes "Package_Info")
        ∷ [])
    ∷ quietly (package_col (codes "name"))
    ∷ quietly (package_col (codes "src_type"))
    ∷ quietly (package_col (codes "src_url"))
    ∷ quietly (package_col (codes "version"))
    ∷ [])

-- The two globals that the function sets.
pub record Connection (S : Type 0) : Type 0 where
  pub idl : S
  pub idl_seqno : ℕ

-- `sysd_ovsdb_conn_init`
unfoldable pub ovsdb_conn_init : {S : Type 0} → Idl S → Connection S
unfolding replay
ovsdb_conn_init idl =
    let created = idl.create false in
    record {
      idl = replay idl conn_calls (idl.set_lock (codes "ops_sysd") created);
      idl_seqno = idl.get_seqno created;
    }
