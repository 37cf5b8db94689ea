-- ===== src/Manifest/Tree.antt =====
-- OVS's `struct json`. An object is the list of its members in the order in which SHASH_FOR_EACH
-- visits them; numbers carry no value here, since the daemon reads none.
use ops_sysd.Base.Text.{Bytes}

mutual
  pub data Json : Type 0 where
    json_null json_false json_true json_integer json_real : Json
    json_string : Bytes → Json
    json_array : Elems → Json
    json_object : Members → Json

  pub data Elems : Type 0 where
    no_elem : Elems
    elem : Json → Elems → Elems

  pub data Members : Type 0 where
    no_member : Members
    member : Bytes → Json → Members → Members
