-- ===== src/Packages/Examples.antt =====
-- Two packages, and the theorems of this part at them.
use ops_sysd.Base.{ℕ, ◌+◌, ◌/◌, ◌≡◌, refl, Bool, true, List, [], ◌∷◌, ◌++◌, map, none, All, length}
use ops_sysd.Base.Text.{codes, str_eq}
use ops_sysd.Base.Outcome.{ok, fault}
use ops_sysd.Packages.{
  Event, scalar, other_event, stream_end, Load, check_key, check_key_from, add_package_info,
}
use ops_sysd.Packages.Document.{Package, HasValues, row_of}
use ops_sysd.Packages.Batches.{add_package_info-rows}
use ops_sysd.Packages.Faults.{add_package_info-no_type}

abbrev always : ℕ → Bool
always n = true

abbrev sysd : Package
sysd = record {
  name = codes "ops-sysd";
  pv = codes "git";
  srcrev = codes "a1b2c3";
  src_url = codes "git://ops-sysd";
  src_type = codes "git";
}

abbrev zlib : Package
zlib = record {
  name = codes "zlib";
  pv = codes "1.2.8";
  srcrev = codes "INVALID";
  src_url = codes "http://zlib.net";
  src_type = codes "http";
}

abbrev stream : List Event
stream =
    other_event
    ∷ scalar (codes "PKG")
    ∷ scalar (codes "ops-sysd")
    ∷ scalar (codes "PV")
    ∷ scalar (codes "git")
    ∷ scalar (codes "SRCREV")
    ∷ scalar (codes "a1b2c3")
    ∷ scalar (codes "SRC_URL")
    ∷ scalar (codes "git://ops-sysd")
    ∷ scalar (codes "TYPE")
    ∷ scalar (codes "git")
    ∷ other_event
    ∷ other_event
    ∷ scalar (codes "PKG")
    ∷ scalar (codes "zlib")
    ∷ scalar (codes "PV")
    ∷ scalar (codes "1.2.8")
    ∷ scalar (codes "SRCREV")
    ∷ scalar (codes "INVALID")
    ∷ scalar (codes "SRC_URL")
    ∷ scalar (codes "http://zlib.net")
    ∷ scalar (codes "TYPE")
    ∷ scalar (codes "http")
    ∷ other_event
    ∷ stream_end
    ∷ []

packages-HasValues : All HasValues (sysd ∷ zlib ∷ [])
unfolding check_key check_key_from str_eq
packages-HasValues = (
  record {
    name_value = refl;
    pv_value = refl;
    srcrev_value = refl;
    src_url_value = refl;
    src_type_value = refl;
  },
  (
    record {
      name_value = refl;
      pv_value = refl;
      srcrev_value = refl;
      src_url_value = refl;
      src_type_value = refl;
    },
    tt,
  ),
)

add_package_info-rows_example :
    (t : Load) × (add_package_info always always true true stream [] ≡ ok t)
    × (t.table ≡ [] ++ map row_of (sysd ∷ zlib ∷ []))
    × (t.txn ≡ none)
    × (t.commits ≡ (length (sysd ∷ zlib ∷ []) + 1999) / 2000)
add_package_info-rows_example =
    add_package_info-rows always always stream (sysd ∷ zlib ∷ []) [] (λ n. refl) (λ n. refl) refl
      packages-HasValues

abbrev untyped : List Event
untyped =
    scalar (codes "PKG")
    ∷ scalar (codes "ops-sysd")
    ∷ scalar (codes "PV")
    ∷ scalar (codes "git")
    ∷ scalar (codes "SRCREV")
    ∷ scalar (codes "a1b2c3")
    ∷ scalar (codes "SRC_URL")
    ∷ scalar (codes "git://ops-sysd")
    ∷ scalar (codes "PKG")
    ∷ scalar (codes "zlib")
    ∷ stream_end
    ∷ []

add_package_info-no_type_example : add_package_info always always true true untyped [] ≡ fault
unfolding check_key check_key_from str_eq
add_package_info-no_type_example =
    add_package_info-no_type always always untyped (codes "ops-sysd") (codes "git") (codes "a1b2c3")
      (codes "git://ops-sysd") (codes "zlib") [] [] (λ n. refl) refl refl refl refl refl refl
