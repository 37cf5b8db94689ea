-- ===== src/Timezone/Setting.antt =====
-- What the commands make of the timezone column, and what the other parts then make of it.
use mathlib.Core.Bool.{true≢false}
use ops_sysd.Base.{
  ℕ, zero, suc, ◌+◌, ◌<◌, ◌≡◌, ◌≢◌, refl, sym, ap, ◌∙◌, Bool, true, false, List, [], ◌∷◌, ◌++◌,
  none, some, some_inj, lt→ltb, if◌then◌else◌, length, get_elem?, get_elem?-map, All, All-get_elem?,
  take_whole, length-map, arith, Bool-cases, inl, inr,
}
use ops_sysd.Base.Cstring.{strcpy-fits}
use ops_sysd.Base.Text.{Bytes, codes, str_eq, str_eq_refl, str_eq_ne, str_eq_iff}
use ops_sysd.Base.Outcome.{ok}
use ops_sysd.Timezone.Zones.{lower, to_lower, base_path, posix_dir, ZoneDb}
use ops_sysd.Timezone.Tables.{IsTable, counted_lower}
use ops_sysd.Timezone.Commands.{
  default_timezone, find_zone, translate_cmd_to_filepath, cmd_success, invalid_timezone, requested,
  set_timezone, refuse, apply_index, answer_request, cli_set_timezone, cli_platform_timezone_set,
  cli_platform_timezone_set_no_form, config_context_timezone, config_context_system,
}
use ops_sysd.Timezone.Apply.{LocalTime, relink, handle_timezone_update}

find_zone-some :
    (zs : List Bytes) (i k : ℕ) (name : Bytes)
    → get_elem? zs i ≡ some name
    → (j : ℕ) × (find_zone zs k name ≡ some (k + j)) × (get_elem? zs j ≡ some name)
unfolding find_zone
find_zone-some [] i k name h = cc
find_zone-some (z ∷ zs) i k name h = elim (Bool-cases (str_eq z name)) [
  | inl e ↦ (zero, rw (e, find_zone) (ap some (omega arith)), ap some ((str_eq_iff z name).0 e))
  | inr e ↦
      let (m, later) = later_than z zs name i e h in
      let (j, f, g) = find_zone-some zs m (k + 1) name later in
      (suc j, rw (e, find_zone, f) (ap some (omega arith)), g)
]
  where
    later_than :
        (z : Bytes) (zs : List Bytes) (name : Bytes) (i : ℕ)
        → str_eq z name ≡ false
        → get_elem? (z ∷ zs) i ≡ some name
        → (m : ℕ) × (get_elem? zs m ≡ some name)
    later_than z zs name zero e h =
        absurd (true≢false (sym ((str_eq_iff z name).1 (some_inj h)) ∙ e))
    later_than z zs name (suc m) e h = (m, h)

find_zone-none :
    (zs : List Bytes) (k : ℕ) (name : Bytes) → All (λ z. z ≢ name) zs → find_zone zs k name ≡ none
unfolding find_zone
find_zone-none [] k name h = refl
find_zone-none (z ∷ zs) k name (n, h) = rw (str_eq_ne z name n) (find_zone-none zs (k + 1) name h)

-- A name in the table stands for the row of a zone that is this name in lower case.
answer_request-found :
    (db : ZoneDb) (commits : Bool) (old name : Bytes) (i : ℕ)
    → IsTable db
    → get_elem? db.list_of_zones i ≡ some name
    → (zone : Bytes) × (j : ℕ) × (get_elem? db.list_of_zones_caps j ≡ some zone)
      × (lower zone ≡ name)
      × (length zone < 100)
      × (answer_request db commits (some old) (some name)
          ≡ ok (record {
            rc = cmd_success;
            output = [];
            system = some (if commits then some zone else some old);
          }))
unfolding answer_request translate_cmd_to_filepath apply_index set_timezone
answer_request-found db commits old name i t h =
    let (j, f, g) = find_zone-some db.list_of_zones i zero name h in
    let (zone, e, l) = get_elem?-map lower db.list_of_zones_caps j (rw (← t.lowered) g) in
    let short = All-get_elem? (λ z. length z < 100) db.list_of_zones_caps j t.fits e in
    let counted = counted_lower db t in
    let z : 0 + j ≡ j = omega arith in
    (
      zone,
      j,
      e,
      l,
      short,
      rw
          (
            take_whole db.list_of_zones db.zone_count (omega (arith, counted)),
            f,
            z,
            take_whole db.list_of_zones_caps db.zone_count (omega (arith, t.counted)),
            e,
            lt→ltb (length posix_dir + length zone) 500 (omega (arith, short)),
          )
          refl,
    )

relink-links : (target : Bytes) (link : LocalTime) → relink true true target link ≡ some target
unfolding relink
relink-links target none = refl
relink-links target (some old) = refl

-- On tables that belong together, with a System row whose timezone is shorter than 100 bytes and a
-- transaction that could be created: "timezone set NAME" with a name of `list_of_zones` succeeds
-- without a message, whether the commit goes through or not. If it does, the column holds a zone of
-- `list_of_zones_caps` for which both callbacks of the running configuration print
-- "timezone set NAME" again, and the daemon makes /etc/localtime a link to that zone, if the file
-- can be removed and the link made; if it does not, the column is as before.
pub cli_platform_timezone_set-stored :
    (db : ZoneDb) (commits : Bool) (old name : Bytes) (i : ℕ) (link : LocalTime)
    → IsTable db
    → length old < 100
    → get_elem? db.list_of_zones i ≡ some name
    → (zone : Bytes) × (j : ℕ) × (get_elem? db.list_of_zones_caps j ≡ some zone)
      × (cli_platform_timezone_set db true commits name (some (some old))
          ≡ ok (record {
            rc = cmd_success;
            output = [];
            system = some (if commits then some zone else some old);
          }))
      × (config_context_timezone (some (some zone)) ≡ ok ((codes "timezone set " ++ name) ∷ []))
      × (config_context_system (some (some zone)) ≡ ok ((codes "timezone set " ++ name) ∷ []))
      × (handle_timezone_update true true (some (some zone)) link ≡ ok (some (base_path ++ zone)))
unfolding cli_platform_timezone_set cli_set_timezone requested config_context_timezone
    config_context_system handle_timezone_update relink
cli_platform_timezone_set-stored db commits old name i link t o h =
    let (zone, j, e, l, short, a) = answer_request-found db commits old name i t h in
    let n : length name ≡ length zone = ap length (sym l) ∙ length-map to_lower zone in
    let copied = strcpy-fits 200 zone (omega (arith, short)) in
    (
      zone,
      j,
      e,
      rw (strcpy-fits 100 old o, strcpy-fits 500 name (omega (arith, n, short))) a,
      rw (copied, l) refl,
      rw (copied, l) refl,
      rw
          (
            lt→ltb (26 + length zone) 200 (omega (arith, short)),
            relink-links (base_path ++ zone) link,
          )
          refl,
    )

-- On tables that belong together, with a System row whose timezone is shorter than 100 bytes and a
-- transaction that goes through: "no timezone set NAME" with that zone in lower case succeeds without a
-- message and puts a zone of `list_of_zones_caps` there that is "utc" in lower case, if `list_of_zones`
-- has "utc".
pub cli_platform_timezone_set_no_form-utc :
    (db : ZoneDb) (old : Bytes) (i : ℕ)
    → IsTable db
    → length old < 100
    → get_elem? db.list_of_zones i ≡ some default_timezone
    → (zone : Bytes) × (j : ℕ) × (get_elem? db.list_of_zones_caps j ≡ some zone)
      × (lower zone ≡ default_timezone)
      × (cli_platform_timezone_set_no_form db true true (lower old) (some (some old))
          ≡ ok (record { rc = cmd_success; output = []; system = some (some zone) }))
unfolding cli_platform_timezone_set_no_form cli_set_timezone requested
cli_platform_timezone_set_no_form-utc db old i t o h =
    let (zone, j, e, l, _, a) = answer_request-found db true old default_timezone i t h in
    (zone, j, e, l, rw (strcpy-fits 100 old o, str_eq_refl (lower old)) a)

answer_request-unknown :
    (db : ZoneDb) (commits : Bool) (old name : Bytes)
    → IsTable db
    → All (λ z. z ≢ name) db.list_of_zones
    → answer_request db commits (some old) (some name) ≡ ok (refuse invalid_timezone (some old))
unfolding answer_request translate_cmd_to_filepath apply_index
answer_request-unknown db commits old name t h =
    rw
      (
        take_whole db.list_of_zones db.zone_count (omega (arith, counted_lower db t)),
        find_zone-none db.list_of_zones zero name h,
      )
      refl

-- On tables that belong together, with a System row whose timezone is shorter than 100 bytes and a
-- transaction that could be created: "timezone set NAME" with a name shorter than 500 bytes
-- that is not in `list_of_zones` gives the user a message and CMD_ERR_NO_MATCH, and leaves the column
-- as it was.
pub cli_platform_timezone_set-unknown :
    (db : ZoneDb) (commits : Bool) (old name : Bytes)
    → IsTable db
    → length old < 100
    → length name < 500
    → All (λ z. z ≢ name) db.list_of_zones
    → cli_platform_timezone_set db true commits name (some (some old))
      ≡ ok (refuse invalid_timezone (some old))
unfolding cli_platform_timezone_set cli_set_timezone requested
cli_platform_timezone_set-unknown db commits old name t o n h =
    rw (strcpy-fits 100 old o, strcpy-fits 500 name n)
      (answer_request-unknown db commits old name t h)
