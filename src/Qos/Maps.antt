-- ===== src/Qos/Maps.antt =====
-- src/qos_init.c: `qos_init_cos_map` and `qos_init_dscp_map`. The remark of the DSCP map is off by
-- the define at the top of the file.
use ops_sysd.Base.{ℕ, zero, suc, ◌+◌, List, [], Option, none, some, get_elem?, set, replicate}
use ops_sysd.Base.Int.{ℤ, pos}
use ops_sysd.Base.Text.{Bytes, codes}
use ops_sysd.Base.Outcome.{Outcome, ok, fault, ◌>>=◌}
use ops_sysd.Qos.Column.{Smap, smap_init, smap_replace, to_unsigned}

abbrev pub qos_cos_map_entry_count : ℕ
qos_cos_map_entry_count = 8

abbrev pub qos_dscp_map_entry_count : ℕ
qos_dscp_map_entry_count = 64

abbrev pub qos_default_code_point_key : Bytes
qos_default_code_point_key = codes "default_code_point"

abbrev pub qos_default_local_priority_key : Bytes
qos_default_local_priority_key = codes "default_local_priority"

abbrev pub qos_default_color_key : Bytes
qos_default_color_key = codes "default_color"

abbrev pub qos_default_description_key : Bytes
qos_default_description_key = codes "default_description"

-- The members of config-yaml's YamlCosMapEntry and YamlDscpMapEntry that are read.
pub record YamlMapEntry : Type 0 where
  pub code_point : ℤ
  pub local_priority : ℤ
  pub color : Bytes
  pub description : Bytes

-- A row of QoS_COS_Map_Entry or QoS_DSCP_Map_Entry.
pub record MapEntry : Type 0 where
  pub code_point : ℤ
  pub local_priority : ℤ
  pub color : Bytes
  pub description : Bytes
  pub hw_defaults : Smap

-- A row as it is inserted.
abbrev pub blank : MapEntry
blank = record {
  code_point = pos 0;
  local_priority = pos 0;
  color = [];
  description = [];
  hw_defaults = smap_init;
}

-- The row that cos_map[ii] or dscp_map[ii] points to is changed. Behind the last row, and for an
-- entry that is NULL, there is nothing to follow.
unfoldable pub set_row :
    (YamlMapEntry → MapEntry → MapEntry)
    → Option YamlMapEntry
    → ℕ
    → List MapEntry
    → Outcome (List MapEntry)
set_row set_entry none ii rows = fault
set_row set_entry (some e) ii rows = elim (get_elem? rows ii) [
  | none ↦ fault
  | some r ↦ ok (set rows ii (set_entry e r))
]

-- The loop of both maps from `ii` on, `left` rounds of it.
unfoldable pub set_rows :
    (YamlMapEntry → MapEntry → MapEntry)
    → (ℕ → Option YamlMapEntry)
    → (left ii : ℕ) → List MapEntry
    → Outcome (List MapEntry)
unfolding set_row
set_rows set_entry entry zero ii rows = ok rows
set_rows set_entry entry (suc left) ii rows =
    set_row set_entry (entry ii) ii rows >>= λ rows'. set_rows set_entry entry left (ii + 1) rows'

-- The whole of both maps: `none` if nothing is inserted, or what the column of the System row gets.
unfoldable pub init_map :
    ℕ
    → (List MapEntry → Outcome (List MapEntry))
    → Option YamlMapEntry
    → Outcome (Option (List MapEntry))
init_map size fill none = ok none
init_map size fill (some first) = do rows ← fill (replicate size blank); ok (some rows)

-- snprintf with PRId64 is `print`.
module _ (print : ℤ → Bytes) where
  unfoldable pub set_cos_map_entry : YamlMapEntry → MapEntry → MapEntry
  set_cos_map_entry e row = record {
    code_point = e.code_point;
    local_priority = e.local_priority;
    color = e.color;
    description = e.description;
    hw_defaults =
        smap_replace
          (smap_replace
            (smap_replace
              (smap_replace row.hw_defaults qos_default_code_point_key (print e.code_point))
              qos_default_local_priority_key (print e.local_priority))
            qos_default_color_key e.color)
          qos_default_description_key e.description;
  }

  unfoldable pub set_dscp_map_entry : YamlMapEntry → MapEntry → MapEntry
  set_dscp_map_entry e row = record {
    code_point = e.code_point;
    local_priority = e.local_priority;
    color = e.color;
    description = e.description;
    hw_defaults =
        smap_replace
          (smap_replace
            (smap_replace
              (smap_replace row.hw_defaults qos_default_code_point_key (print e.code_point))
              qos_default_local_priority_key (print e.local_priority))
            qos_default_color_key e.color)
          qos_default_description_key e.description;
  }

  -- config-yaml's yaml_get_cos_map_entry and its count, and the same for DSCP
  module _ (entry : ℕ → Option YamlMapEntry) (count : ℤ) where
    unfoldable pub init_default_cos_map : List MapEntry → Outcome (List MapEntry)
    unfolding set_rows
    init_default_cos_map rows = set_rows set_cos_map_entry entry (to_unsigned count) 0 rows

    unfoldable pub init_cos_map : Outcome (Option (List MapEntry))
    unfolding init_map init_default_cos_map
    init_cos_map = init_map qos_cos_map_entry_count init_default_cos_map (entry 0)

    unfoldable pub init_default_dscp_map : List MapEntry → Outcome (List MapEntry)
    unfolding set_rows
    init_default_dscp_map rows = set_rows set_dscp_map_entry entry (to_unsigned count) 0 rows

    unfoldable pub init_dscp_map : Outcome (Option (List MapEntry))
    unfolding init_map init_default_dscp_map
    init_dscp_map = init_map qos_dscp_map_entry_count init_default_dscp_map (entry 0)
