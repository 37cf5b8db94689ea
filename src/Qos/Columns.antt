-- ===== src/Qos/Columns.antt =====
-- src/qos_init.c `qos_init_trust` and src/acl_init.c `acl_init_limits`: columns of the System row.
use ops_sysd.Base.{◌≡◌, ◌≢◌, refl, Option, none, some}
use ops_sysd.Base.Int.{ℤ}
use ops_sysd.Base.Text.{Bytes, codes, str_eq, str_eq_ne}
use ops_sysd.Base.Outcome.{Outcome, ok, fault}
use ops_sysd.Qos.Column.{Smap, smap_replace}

abbrev pub qos_trust_key : Bytes
qos_trust_key = codes "qos_trust"

abbrev pub acl_limit_key_max_acls : Bytes
acl_limit_key_max_acls = codes "max_acls"

abbrev pub acl_limit_key_max_aces : Bytes
acl_limit_key_max_aces = codes "max_aces"

abbrev pub acl_limit_key_max_aces_per_acl : Bytes
acl_limit_key_max_aces_per_acl = codes "max_aces_per_acl"

-- YamlQosInfo
pub record YamlQosInfo : Type 0 where
  pub trust : Option Bytes
  pub default_name : Bytes
  pub factory_default_name : Bytes

-- YamlAclInfo
pub record YamlAclInfo : Type 0 where
  pub max_acls : ℤ
  pub max_aces : ℤ
  pub max_aces_per_acl : ℤ

-- `qos_init_trust` on the column qos_config
unfoldable pub init_trust : Option YamlQosInfo → Smap → Smap
init_trust none qos_config = qos_config
init_trust (some info) qos_config = elim info.trust [
  | none ↦ qos_config
  | some trust ↦ smap_replace qos_config qos_trust_key trust
]

-- `acl_init_limits` on the column other_info; snprintf with %d into 16 bytes is `print`
unfoldable pub init_limits : (ℤ → Bytes) → Option YamlAclInfo → Smap → Outcome Smap
init_limits print none other_info = fault
init_limits print (some info) other_info = ok (
    smap_replace
      (smap_replace (smap_replace other_info acl_limit_key_max_acls (print info.max_acls))
        acl_limit_key_max_aces (print info.max_aces))
      acl_limit_key_max_aces_per_acl (print info.max_aces_per_acl))

-- Where the ACL information is there, the column has the three limits at their keys and is as
-- before at every other key.
pub init_limits-column :
    (print : ℤ → Bytes) (info : YamlAclInfo) (other_info : Smap)
    → (column : Smap) × (init_limits print (some info) other_info ≡ ok column)
      × (column acl_limit_key_max_acls ≡ some (print info.max_acls))
      × (column acl_limit_key_max_aces ≡ some (print info.max_aces))
      × (column acl_limit_key_max_aces_per_acl ≡ some (print info.max_aces_per_acl))
      × ((key : Bytes)
          → key ≢ acl_limit_key_max_acls
          → key ≢ acl_limit_key_max_aces
          → key ≢ acl_limit_key_max_aces_per_acl
          → column key ≡ other_info key)
unfolding init_limits str_eq
init_limits-column print info other_info = (
  _,
  refl,
  refl,
  refl,
  refl,
  λ key a b c. simp (str_eq_ne key _ c, str_eq_ne key _ b, str_eq_ne key _ a) refl,
)
