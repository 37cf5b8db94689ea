-- ===== src/Timezone/Apply.antt =====
-- src/sysd_ovsdb_if.c `sysd_handle_timezone_update`: the link to the zone of the System row.
use ops_sysd.Base.{Bool, true, false, Option, none, some}
use ops_sysd.Base.Cstring.{strcat, strcpy}
use ops_sysd.Base.Text.{Bytes}
use ops_sysd.Base.Outcome.{Outcome, ok, fault, ◌>>=◌}
use ops_sysd.Timezone.Zones.{base_path}
use ops_sysd.Timezone.Commands.{System}

-- What /etc/localtime is: nothing, or a link to a file.
abbrev pub LocalTime : Type 0
LocalTime = Option Bytes

-- unlink and symlink, the first of which is not checked. `unlinks` and `links` tell if they go
-- through; a link is not made where one still is.
unfoldable pub relink : (unlinks links : Bool) → Bytes → LocalTime → LocalTime
relink unlinks links target none = elim links [ true ↦ some target | false ↦ none ]
relink true links target (some old) = elim links [ true ↦ some target | false ↦ none ]
relink false links target (some old) = some old

-- An empty column has no keys, and data->keys is followed without a test; a key that there is is a
-- string, so the branch for NULL is not taken.
unfoldable pub handle_timezone_update :
    (unlinks links : Bool) → System → LocalTime → Outcome LocalTime
unfolding relink
handle_timezone_update unlinks links none link = ok link
handle_timezone_update unlinks links (some none) link = fault
handle_timezone_update unlinks links (some (some timezone)) link = do
  base ← strcpy 200 base_path
  timezone_cmd ← strcat 200 base timezone
  ok (relink unlinks links timezone_cmd link)
