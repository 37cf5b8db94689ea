-- ===== src/Timezone/Walk.antt =====
-- Which names the walk finds: those of all files below the directory, in the order of the walk.
use mathlib.Core.List.{append_assoc, append-nil}
use ops_sysd.Base.{
  ◌-◌, ℕ, zero, suc, ◌+◌, ◌<◌, ◌≤◌, ◌≡◌, refl, sym, ap, ◌∙◌, false, List, [], ◌∷◌, ◌++◌, map,
  lt→ltb, if◌then◌else◌, length, All, length-append, take_whole, map-append, Bool-cases, inl, inr,
  arith,
}
use ops_sysd.Base.Cstring.{strcat-fits}
use ops_sysd.Base.Text.{Bytes, codes}
use ops_sysd.Base.Outcome.{Outcome, ok, ◌>>=◌, >>=-assoc, >>=-ext}
use ops_sysd.Timezone.Zones.{
  max_timezones, max_timezone_name_size, max_timezone_cmd_size, lower, posix_dir, base_path, Menu,
  add_info_to_cmd_options, starts_with, remove_from, remove_base_path, Entries, no_entry,
  file_entry, dir_entry, join_path, print_path, is_dot, find_posix_timezones,
}
use ops_sysd.Timezone.Tables.{extend, extend-IsTable, populate_zone_db-extends, HasTable}

-- The names below a directory, in the order of the walk.
abbrev pub zones : Entries → List Bytes
zones no_entry = []
zones (file_entry entry rest) = entry ∷ zones rest
zones (dir_entry entry contents rest) =
    (if is_dot entry then [] else map (join_path entry) (zones contents)) ++ zones rest

-- Every path has room in the array that it is printed to.
abbrev pub HasShortPaths : Bytes → Entries → Type 0
HasShortPaths name no_entry = Unit
HasShortPaths name (file_entry entry rest) =
    (length (join_path name entry) < 99) × HasShortPaths name rest
HasShortPaths name (dir_entry entry contents rest) =
    (length (join_path name entry) < 1023)
    × ((is_dot entry ≡ false → HasShortPaths (join_path name entry) contents)
        × HasShortPaths name rest)

-- A name in which the path of the directory does not stand again.
abbrev pub Lacks : Bytes → Bytes → Type 0
Lacks base [] = Unit
Lacks base (c ∷ s) = (starts_with (c ∷ s) base ≡ false) × Lacks base s

remove_from-Lacks : (base s : Bytes) → Lacks base s → remove_from base zero s ≡ s
unfolding remove_from
remove_from-Lacks base [] h = refl
remove_from-Lacks base (c ∷ s) (n, h) = rw (n, remove_from, remove_from-Lacks base s h) refl

remove_base_path-base :
    (zone : Bytes) → Lacks base_path zone → remove_base_path (base_path ++ zone) base_path ≡ zone
unfolding remove_base_path remove_from starts_with
remove_base_path-base zone h = remove_from-Lacks base_path zone h

-- The walk as a list of additions.
abbrev add_zones : List Bytes → Menu → Outcome Menu
add_zones [] m = ok m
add_zones (zone ∷ zs) m = add_info_to_cmd_options zone m >>= add_zones zs

add_zones-append :
    (xs ys : List Bytes) (m : Menu) → add_zones (xs ++ ys) m ≡ add_zones xs m >>= add_zones ys
add_zones-append [] ys m = refl
add_zones-append (x ∷ xs) ys m =
    >>=-ext (add_info_to_cmd_options x m) _ _ (add_zones-append xs ys)
    ∙ sym (>>=-assoc (add_info_to_cmd_options x m) (add_zones xs) (add_zones ys))

abbrev stripped : Bytes → Bytes → Bytes
stripped name zone = remove_base_path (join_path name zone) base_path

stripped-below :
    (name entry : Bytes) (zs : List Bytes)
    → map (stripped name) (map (join_path entry) zs) ≡ map (stripped (join_path name entry)) zs
stripped-below name entry [] = refl
stripped-below name entry (z ∷ zs) =
    rw (append_assoc name (b'/' ∷ entry) (b'/' ∷ z), stripped-below name entry zs) refl

print_path-fits :
    (size : ℕ) (text : Bytes) → length text + 1 < size → print_path size text ≡ ok text
print_path-fits size text h =
    rw (lt→ltb (length text) size (omega (arith, h)), take_whole text (size - 2) (omega (arith, h)))
      refl

find_posix_timezones-adds :
    (name : Bytes) (tree : Entries) (m : Menu)
    → HasShortPaths name tree
    → find_posix_timezones name tree m ≡ add_zones (map (stripped name) (zones tree)) m
unfolding find_posix_timezones
find_posix_timezones-adds name no_entry m h = refl
find_posix_timezones-adds name (file_entry entry rest) m (p, h) =
    rw (print_path-fits 100 (join_path name entry) (omega (arith, p)))
      (>>=-ext (add_info_to_cmd_options _ m) _ _ (λ n. find_posix_timezones-adds name rest n h))
find_posix_timezones-adds name (dir_entry entry contents rest) m (p, (k, h)) =
    rw (print_path-fits 1024 (join_path name entry) (omega (arith, p)))
      (elim (Bool-cases (is_dot entry)) [
        | inl e ↦ rw (e, find_posix_timezones-adds name rest m h) refl
        | inr e ↦
            rw
              (
                e,
                map-append (stripped name) (map (join_path entry) (zones contents)) (zones rest),
                stripped-below name entry (zones contents),
                add_zones-append (map (stripped (join_path name entry)) (zones contents))
                    (map (stripped name) (zones rest)) m,
                find_posix_timezones-adds (join_path name entry) contents m (k e),
              )
              (>>=-ext _ _ _ (λ n. find_posix_timezones-adds name rest n h))
      ])

stripped-zones : (zs : List Bytes) → All (Lacks base_path) zs → map (stripped posix_dir) zs ≡ zs
stripped-zones [] h = refl
stripped-zones (z ∷ zs) (l, h) = rw (remove_base_path-base z l, stripped-zones zs h) refl

-- The texts that the zones add to the two blocks.
abbrev pub help_of : List Bytes → Bytes
help_of [] = []
help_of (zone ∷ zs) = zone ++ (codes " Zone \n" ++ help_of zs)

abbrev pub cmd_of : List Bytes → Bytes
cmd_of [] = []
cmd_of (zone ∷ zs) = lower zone ++ (codes " | " ++ cmd_of zs)

abbrev pub grown : List Bytes → Menu → Menu
grown zs m = record { db = extend zs m.db; cmd = m.cmd ++ cmd_of zs; help = m.help ++ help_of zs }

-- There is room for the zones in the tables and in the two texts.
pub record HasRoom (zs : List Bytes) (m : Menu) : Type 0 where
  pub rows : m.db.zone_count + length zs ≤ max_timezones
  pub names : All (λ zone. length zone < max_timezone_name_size) zs
  pub help_fits : length m.help + length (help_of zs) < max_timezone_cmd_size
  pub cmd_fits : length m.cmd + length (cmd_of zs) < max_timezone_cmd_size

add_info_to_cmd_options-grows :
    (zone : Bytes) (m : Menu)
    → HasTable m
    → HasRoom (zone ∷ []) m
    → add_info_to_cmd_options zone m ≡ ok (grown (zone ∷ []) m)
unfolding add_info_to_cmd_options
add_info_to_cmd_options-grows zone m t r =
    let c = length-append (lower zone) (codes " | ") in
    let h = length-append zone (codes " Zone \n") in
    let c' = length-append m.cmd (lower zone) in
    let h' = length-append m.help zone in
    rw
      (
        strcat-fits 90000 m.help zone (omega (arith, r.help_fits, h)),
        strcat-fits 90000 (m.help ++ zone) (codes " Zone \n") (omega (arith, r.help_fits, h, h')),
        strcat-fits 90000 m.cmd (lower zone) (omega (arith, r.cmd_fits, c)),
        strcat-fits 90000 (m.cmd ++ lower zone) (codes " | ") (omega (arith, r.cmd_fits, c, c')),
        populate_zone_db-extends zone m.db t (omega (arith, r.rows)) r.names.0,
      )
      (simp append_assoc)

grown-grown :
    (zone : Bytes) (zs : List Bytes) (m : Menu)
    → grown zs (grown (zone ∷ []) m) ≡ grown (zone ∷ zs) m
grown-grown zone zs m =
    let e : m.db.zone_count + 1 + length zs ≡ m.db.zone_count + suc (length zs) = omega arith in
    simp (append_assoc, e)

-- There is room for the zones behind the first one, once it has been added.
HasRoom-grown :
    (zone : Bytes) (zs : List Bytes) (m : Menu)
    → HasRoom (zone ∷ zs) m
    → HasRoom (zone ∷ []) m × HasRoom zs (grown (zone ∷ []) m)
HasRoom-grown zone zs m r =
    let c = length-append (lower zone) (codes " | ") in
    let d = length-append (lower zone) (codes " | " ++ cmd_of zs) in
    let h = length-append zone (codes " Zone \n") in
    let k = length-append zone (codes " Zone \n" ++ help_of zs) in
    let c' = length-append m.cmd (lower zone ++ codes " | ") in
    let h' = length-append m.help (zone ++ codes " Zone \n") in
    (
      record {
        rows = omega (arith, r.rows);
        names = (r.names.0, tt);
        help_fits = omega (arith, r.help_fits, h, k);
        cmd_fits = omega (arith, r.cmd_fits, c, d);
      },
      record {
        rows = omega (arith, r.rows);
        names = r.names.1;
        help_fits = omega (arith, r.help_fits, h, k, h');
        cmd_fits = omega (arith, r.cmd_fits, c, d, c');
      },
    )

add_zones-grows :
    (zs : List Bytes) (m : Menu) → HasTable m → HasRoom zs m → add_zones zs m ≡ ok (grown zs m)
add_zones-grows [] m t r =
    let z : m.db.zone_count + length {A = Bytes} [] ≡ m.db.zone_count = omega arith in
    simp (append-nil, z)
add_zones-grows (zone ∷ zs) m t r =
    let (one, others) = HasRoom-grown zone zs m r in
    rw (add_info_to_cmd_options-grows zone m t one) (
      add_zones-grows zs (grown (zone ∷ []) m)
        (extend-IsTable zone m.db t (omega (arith, r.rows)) r.names.0) others
      ∙ ap ok (grown-grown zone zs m))

-- If every path has room in the array that it is printed to, and the path of the directory does not
-- stand in a name once more, then the walk over the directory of the zones adds exactly the names of
-- the files below it, in order: to the two tables, in lower case to the first; to the text of the
-- command, in lower case with a bar behind each; and to the help text. The tables are taken to
-- belong together before, and tables and texts to have room.
pub find_posix_timezones-zones :
    (tree : Entries) (m : Menu)
    → HasShortPaths posix_dir tree
    → All (Lacks base_path) (zones tree)
    → HasTable m
    → HasRoom (zones tree) m
    → find_posix_timezones posix_dir tree m ≡ ok (grown (zones tree) m)
find_posix_timezones-zones tree m p l t r =
    find_posix_timezones-adds posix_dir tree m p
    ∙ rw (stripped-zones (zones tree) l) (add_zones-grows (zones tree) m t r)
