-- ===== src/Timezone/Tables.antt =====
-- What the walk over the files puts in the tables.
use ops_sysd.Base.{
  ◌+◌, ◌<◌, ◌≤◌, ◌≡◌, refl, ap, ◌∙◌, ◌&&◌, List, [], ◌∷◌, ◌++◌, map, ltb, lt→ltb, if◌then◌else◌,
  length, All, length-append, Bool-cases, inl, inr, arith, take_whole, length-map, map-append,
  All-append,
}
use ops_sysd.Base.Cstring.{strcat}
use ops_sysd.Base.Text.{Bytes, codes}
use ops_sysd.Base.Outcome.{ok, Ensures, Ensures-bind, Ensures-after}
use ops_sysd.Timezone.Zones.{
  to_lower, max_timezones, max_timezone_name_size, max_timezone_cmd_size, lower, base_path, ZoneDb,
  populate_zone_db, Menu, add_info_to_cmd_options, remove_base_path, Entries, no_entry, file_entry,
  dir_entry, join_path, print_path, is_dot, find_posix_timezones,
}

-- The two tables belong together: as many rows as `zone_count` says, which are at most 900, every
-- name has room for its NUL, and the names of the first are those of the second in lower case.
pub record IsTable (db : ZoneDb) : Type 0 where
  pub counted : length db.list_of_zones_caps ≡ db.zone_count
  pub within : db.zone_count ≤ max_timezones
  pub fits : All (λ zone. length zone < max_timezone_name_size) db.list_of_zones_caps
  pub lowered : db.list_of_zones ≡ map lower db.list_of_zones_caps

-- The tables with some zones more.
abbrev pub extend : List Bytes → ZoneDb → ZoneDb
extend zs db = record {
  list_of_zones = db.list_of_zones ++ map lower zs;
  list_of_zones_caps = db.list_of_zones_caps ++ zs;
  zone_count = db.zone_count + length zs;
}

pub extend-IsTable :
    (zone : Bytes) (db : ZoneDb)
    → IsTable db
    → db.zone_count < max_timezones
    → length zone < max_timezone_name_size
    → IsTable (extend (zone ∷ []) db)
extend-IsTable zone db t c l = record {
  counted = omega (arith, t.counted, length-append db.list_of_zones_caps (zone ∷ []));
  within = omega (arith, c);
  fits = All-append _ db.list_of_zones_caps (zone ∷ []) t.fits (l, tt);
  lowered = rw (map-append lower db.list_of_zones_caps (zone ∷ []), t.lowered) refl;
}

pub counted_lower : (db : ZoneDb) → IsTable db → length db.list_of_zones ≡ db.zone_count
counted_lower db t = ap length t.lowered ∙ length-map lower db.list_of_zones_caps ∙ t.counted

pub populate_zone_db-extends :
    (zone : Bytes) (db : ZoneDb)
    → IsTable db
    → db.zone_count < max_timezones
    → length zone < max_timezone_name_size
    → populate_zone_db (lower zone) zone db ≡ ok (extend (zone ∷ []) db)
unfolding populate_zone_db
populate_zone_db-extends zone db t c l =
    rw
      (
        lt→ltb _ _ c,
        length-map to_lower zone,
        lt→ltb _ _ l,
        take_whole db.list_of_zones_caps db.zone_count (omega (arith, t.counted)),
        take_whole db.list_of_zones db.zone_count (omega (arith, counted_lower db t)),
      )
      refl

populate_zone_db-IsTable :
    (zone : Bytes) (db : ZoneDb)
    → IsTable db
    → Ensures IsTable (populate_zone_db (lower zone) zone db)
unfolding populate_zone_db
populate_zone_db-IsTable zone db t =
    let e = length-map to_lower zone in
    elim (Bool-cases (
      ltb db.zone_count max_timezones
      && ltb (length (lower zone)) max_timezone_name_size
      && ltb (length zone) max_timezone_name_size)) [
        | inl b ↦
            let (c, l) : (db.zone_count < max_timezones) × (length zone < max_timezone_name_size) =
              ground (arith, b) in
            rw (populate_zone_db-extends zone db t c l) (extend-IsTable zone db t c l)
        | inr b ↦ rw b tt
      ]

abbrev pub HasTable : Menu → Type 0
HasTable m = IsTable m.db

add_info_to_cmd_options-HasTable :
    (zone : Bytes) (m : Menu) → HasTable m → Ensures HasTable (add_info_to_cmd_options zone m)
unfolding add_info_to_cmd_options
add_info_to_cmd_options-HasTable zone m t =
    Ensures-after HasTable (strcat max_timezone_cmd_size m.help zone) _ (λ help.
      Ensures-after HasTable (strcat max_timezone_cmd_size help (codes " Zone \n")) _ (λ help'.
        Ensures-after HasTable (strcat max_timezone_cmd_size m.cmd (lower zone)) _ (λ cmd.
          Ensures-after HasTable (strcat max_timezone_cmd_size cmd (codes " | ")) _ (λ cmd'.
            Ensures-bind HasTable IsTable (populate_zone_db (lower zone) zone m.db) _
              (populate_zone_db-IsTable zone m.db t) (λ db d. d)))))

-- Whatever the files of the system are, and whatever the tables held that belonged together: if the
-- walk does not write past the end of an array, they belong together after it. They have as many
-- rows as `zone_count` says, at most 900; every name is shorter than its array; and the names of
-- `list_of_zones` are those of `list_of_zones_caps` in lower case.
pub find_posix_timezones-HasTable :
    (name : Bytes) (tree : Entries) (m : Menu)
    → HasTable m
    → Ensures HasTable (find_posix_timezones name tree m)
unfolding find_posix_timezones
find_posix_timezones-HasTable name no_entry m t = t
find_posix_timezones-HasTable name (file_entry entry rest) m t =
    Ensures-after HasTable (print_path 100 (join_path name entry)) _ (λ dir.
      Ensures-bind HasTable HasTable (add_info_to_cmd_options (remove_base_path dir base_path) m) _
        (add_info_to_cmd_options-HasTable _ m t) (λ n. find_posix_timezones-HasTable name rest n))
find_posix_timezones-HasTable name (dir_entry entry contents rest) m t =
    Ensures-after HasTable (print_path 1024 (join_path name entry)) _ (λ path.
      Ensures-bind HasTable HasTable
        (if is_dot entry then ok m else find_posix_timezones path contents m) _
        (elim (Bool-cases (is_dot entry)) [
          | inl e ↦ rw e t
          | inr e ↦ rw e (find_posix_timezones-HasTable path contents m t)
        ])
        (λ n. find_posix_timezones-HasTable name rest n))
