-- ===== src/Packages/Document.antt =====
-- What the file with the versions is meant to hold: packages, each with its keys in order.
use ops_sysd.Base.{◌≡◌, List, [], ◌∷◌, ◌++◌, none, if◌then◌else◌}
use ops_sysd.Base.Text.{Bytes, codes, str_eq}
use ops_sysd.Packages.{Event, scalar, other_event, stream_end, PackageRow, check_key}

pub record Package : Type 0 where
  pub name : Bytes
  pub pv : Bytes
  pub srcrev : Bytes
  pub src_url : Bytes
  pub src_type : Bytes

abbrev pub values : Package → List Bytes
values p =
    codes "PKG"
    ∷ p.name
    ∷ codes "PV"
    ∷ p.pv
    ∷ codes "SRCREV"
    ∷ p.srcrev
    ∷ codes "SRC_URL"
    ∷ p.src_url
    ∷ codes "TYPE"
    ∷ p.src_type
    ∷ []

-- No value is spelled like a key.
pub record HasValues (p : Package) : Type 0 where
  pub name_value : check_key p.name ≡ none
  pub pv_value : check_key p.pv ≡ none
  pub srcrev_value : check_key p.srcrev ≡ none
  pub src_url_value : check_key p.src_url ≡ none
  pub src_type_value : check_key p.src_type ≡ none

abbrev pub document : List Package → List Bytes
document [] = []
document (p ∷ ps) = values p ++ document ps

-- The revision is the version, unless it is INVALID.
abbrev pub row_of : Package → PackageRow
row_of p = record {
  name = p.name;
  version = if str_eq p.srcrev (codes "INVALID") then p.pv else p.srcrev;
  src_url = p.src_url;
  src_type = p.src_type;
}

-- The scalars of a stream, up to its end.
abbrev pub scalars : List Event → List Bytes
scalars [] = []
scalars (stream_end ∷ es) = []
scalars (other_event ∷ es) = scalars es
scalars (scalar value ∷ es) = value ∷ scalars es
