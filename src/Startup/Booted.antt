-- ===== src/Startup/Booted.antt =====
-- From the files that main reads to the first transaction: what the steps before the loop leave is what
-- `sysd_initial_configure` needs.
mod Examples
use ops_sysd.Base.{
  ℕ, ◌≡◌, refl, sym, ap, ◌∙◌, subst, true, List, [], ◌∷◌, Option, none, some, length, All,
}
use ops_sysd.Base.Int.{ℤ}
use ops_sysd.Base.Text.{Bytes}
use ops_sysd.Base.Outcome.{ok, Ensures}
use ops_sysd.Configure.Complete.{HasDefaults, IsLoaded}
use ops_sysd.Configure.Initial.{initial_configure}
use ops_sysd.Configure.Interfaces.{IdlNames}
use ops_sysd.Configure.Rows.{c_string}
use ops_sysd.Configure.Splits.{Shash}
use ops_sysd.Configure.SubsystemLaws.{IsSmall, IsReady}
use ops_sysd.Configure.Tables.{SystemConfig, Database, Globals, Allocs}
use ops_sysd.Configure.Written.{IsConfigured, IsOptionalSetter, initial_configure-IsConfigured}
use ops_sysd.Dump.{mgmt_name}
use ops_sysd.Fru.Layout.{FruEeprom}
use ops_sysd.Qos.Columns.{YamlQosInfo, YamlAclInfo}
use ops_sysd.Qos.Maps.{YamlMapEntry}
use ops_sysd.Startup.Getters.{ConfigYaml, qos_env, with_ports}
use ops_sysd.Startup.Main.{StartEnv, Start, running, start}
use ops_sysd.Startup.Started.{HasInterfaces, IsRunning, IsStarted, start-IsStarted}
use ops_sysd.Subsystem.{Subsystem}

-- The strings and the address of the FRU data are whole.
pub record IsWhole (fru : FruEeprom) (country date : Bytes) : Type 0 where
  pub country_is : c_string fru.country_code ≡ ok country
  pub date_is : c_string fru.manufacture_date ≡ ok date
  pub mac_size : length fru.base_mac_address ≡ 6

-- There is memory for the rows.
pub record IsGiven (allocs : Allocs) : Type 0 where
  pub subsystem_list : allocs.subsystem_list ≡ true
  pub daemon_list : allocs.daemon_list ≡ true
  pub interface_list : allocs.interface_list 0 ≡ true

mgmt_name-some :
    (o : Option Bytes) (mgmt : Bytes)
    → mgmt_name o ≡ ok mgmt
    → (block : Bytes) × (o ≡ some block) × (c_string block ≡ ok mgmt)
mgmt_name-some none mgmt h = cc
mgmt_name-some (some block) mgmt h = (block, refl, h)

IsRunning-IsLoaded :
    (env : StartEnv) (globals : Globals) (allocs : Allocs) (s : Subsystem) (mgmt : Bytes)
    → IsRunning env globals
    → globals.subsystems ≡ s ∷ []
    → IsGiven allocs
    → mgmt_name globals.manifest.mgmt_intf ≡ ok mgmt
    → IsLoaded globals allocs s mgmt
IsRunning-IsLoaded env globals allocs s mgmt r one given h =
    let (block, e, f) = mgmt_name-some globals.manifest.mgmt_intf mgmt h in
    record {
      subsystem_list = given.subsystem_list;
      daemon_list = given.daemon_list;
      interface_list = given.interface_list;
      one = one;
      block = block;
      mgmt_intf = e;
      mgmt_name = f;
      counted = r.manifest_read.num_daemons_is;
    }

IsRunning-HasInterfaces :
    (env : StartEnv) (globals : Globals) (s : Subsystem)
    → IsRunning env globals
    → globals.subsystems ≡ s ∷ []
    → HasInterfaces s
IsRunning-HasInterfaces env globals s r one =
    subst HasInterfaces (cons_inj (sym r.one ∙ one)) r.interfaces
  where
    cons_inj : {a b : Subsystem} → a ∷ [] ≡ b ∷ [] → a ≡ b
    cons_inj h = cc

module _ {H : Type 0} (yaml : ConfigYaml H) (cfg_yaml_handle : H) (print : ℤ → Bytes)
    (strict : Bytes) where
  -- If the steps before the loop lead to it, with the ports that config-yaml gives; the manifest
  -- names a management interface; the strings of the FRU data end and its address has six bytes; the
  -- speeds of a port fit into their string, and it has at most four subports; there is memory for
  -- the rows; config-yaml has defaults for QoS and ACLs, between one and as many entries as each map
  -- has; and the setter of table_id is one for at most one value: then the first transaction does
  -- not fault on any database, and leaves the configuration that `initial_configure-IsConfigured`
  -- describes.
  pub start-IsConfigured :
      (names : IdlNames) (ether_string : ℕ → Bytes) (find : Shash → Bytes → Option ℕ)
      (env : StartEnv) (globals : Globals) (s : Subsystem) (allocs : Allocs)
      (mgmt country date : Bytes) (info : YamlQosInfo) (acl : YamlAclInfo)
      (cos dscp : ℕ → YamlMapEntry) (n m : ℕ) (db : Database)
      → start (with_ports yaml cfg_yaml_handle env) ≡ ok (running globals)
      → globals.subsystems ≡ s ∷ []
      → mgmt_name globals.manifest.mgmt_intf ≡ ok mgmt
      → IsWhole s.fru_eeprom country date
      → All IsSmall s.interfaces
      → IsGiven allocs
      → HasDefaults (qos_env yaml cfg_yaml_handle print strict) info acl cos dscp n m
      → IsOptionalSetter names.table_id_reads
      → (db' : Database) × (sys : SystemConfig) × (initial_configure names ether_string find globals
            allocs
            (qos_env yaml cfg_yaml_handle print strict)
            db
          ≡ ok db')
        × IsConfigured names ether_string find globals
            (qos_env yaml cfg_yaml_handle print strict)
            s
            mgmt
            cos
            dscp
            n
            m
            sys
            db
            db'
  start-IsConfigured names ether_string find env globals s allocs mgmt country date info acl cos
        dscp n m db h one name whole small given defaults o =
      let ports = with_ports yaml cfg_yaml_handle env in
      let run : IsRunning ports globals =
        subst (Ensures (IsStarted ports)) h (start-IsStarted ports) in
      let interfaces = IsRunning-HasInterfaces ports globals s run one in
      let ready : IsReady s country date interfaces.info = record {
        country_is = whole.country_is;
        date_is = whole.date_is;
        mac_size = whole.mac_size;
        info_is = interfaces.info_is;
        counted = interfaces.counted;
        small = small;
      } in
      initial_configure-IsConfigured names ether_string find globals allocs
        (qos_env yaml cfg_yaml_handle print strict) s mgmt country date interfaces.info info acl cos
        dscp n m db (IsRunning-IsLoaded ports globals allocs s mgmt run one given name) ready
        defaults o
