-- ===== src/HwDone/Examples.antt =====
-- Two hardware daemons that come up one after the other, and the theorems of this part at it.
use mathlib.Core.Bool.{false≢true}
use mathlib.Core.Path.{subst}
use ops_sysd.Base.{◌≡◌, ◌↔◌, inl, inr, refl, true, false, List, [], ◌∷◌, All, length}
use ops_sysd.Base.Int.{pos}
use ops_sysd.Base.Text.{Bytes, Begins, codes, strn_eq, strn_eq-none, str_eq}
use ops_sysd.Manifest.{DaemonInfo, count_hw}
use ops_sysd.HwDone.{
  DaemonRow, HwState, find_row, tally, is_done, chk_if_hw_daemons_done, set_hw_done, check,
}
use ops_sysd.HwDone.Decision.{IsFoundSet}
use ops_sysd.HwDone.Own.{IsRegistered, HasReported, IsApart, is_done_iff}
use ops_sysd.HwDone.Reports.{
  report, reports, checks, Reach, here, next, IsStart, Reach-configured_after, failed_commit_final,
}

abbrev switchd : Bytes
switchd = codes "ops-switchd"

abbrev ledd : Bytes
ledd = codes "ops-ledd"

abbrev pub daemons : List DaemonInfo
daemons =
    record { name = codes "ops-sysd"; is_hw_handler = false; cur_hw = pos 1 }
    ∷ record { name = switchd; is_hw_handler = true; cur_hw = pos 0 }
    ∷ record { name = ledd; is_hw_handler = true; cur_hw = pos 0 }
    ∷ []

abbrev row : Bytes → DaemonRow
row name = record { name = name; cur_hw = pos 0; is_hw_handler = true }

abbrev at_start : HwState
at_start = record {
  rows = row switchd ∷ row ledd ∷ [];
  systems = record { cur_hw = pos 0; next_hw = pos 0 } ∷ [];
  hw_init_done_set = false;
}

rows-IsRegistered : All (IsRegistered at_start.rows) daemons
rows-IsRegistered =
    ((λ h. absurd (false≢true h)), ((λ h. inl (refl, refl)), ((λ h. inr (inl (refl, refl))), tt)))

differ : (tag name : Bytes) → strn_eq tag name (length tag) ≡ false → Begins tag name → name ≡ tag
differ tag name h b = absurd (strn_eq-none tag name h b)

rows-IsApart : All (IsApart at_start.rows) daemons
unfolding strn_eq
rows-IsApart = (
  ((λ h. differ (codes "ops-sysd") switchd refl), ((λ h. differ (codes "ops-sysd") ledd refl), tt)),
  (
    ((λ h e. refl), ((λ h. differ switchd ledd refl), tt)),
    (((λ h. differ ledd switchd refl), ((λ h e. refl), tt)), tt),
  ),
)

at_start-IsStart : IsStart daemons at_start
at_start-IsStart = record {
  registered = rows-IsRegistered;
  apart = rows-IsApart;
  unconfigured = refl;
  not_done = refl;
}

is_done_iff_example :
    (is_done daemons (count_hw daemons) at_start.rows ≡ true)
    ↔ All (HasReported at_start.rows) daemons
is_done_iff_example =
    is_done_iff at_start.rows daemons rows-IsRegistered rows-IsApart (((λ e. cc), tt), (tt, tt))

-- The first daemon reports, sysd checks in vain, the second one reports.
abbrev one_up : HwState
one_up = record at_start { rows = report switchd at_start.rows }

abbrev pub both_up : HwState
both_up = record one_up { rows = report ledd one_up.rows }

one_waits : check daemons (count_hw daemons) true one_up ≡ one_up
unfolding check chk_if_hw_daemons_done is_done tally find_row count_hw report str_eq strn_eq
one_waits = refl

to_both_up : Reach daemons at_start both_up
to_both_up =
    next
      (subst (Reach daemons at_start) one_waits
        (next (next here (reports at_start switchd)) (checks one_up true)))
      (reports one_up ledd)

abbrev configured : HwState
configured = record both_up {
  systems = record { cur_hw = pos 1; next_hw = pos 1 } ∷ [];
  hw_init_done_set = true;
}

both_go : check daemons (count_hw daemons) true both_up ≡ configured
unfolding check chk_if_hw_daemons_done set_hw_done is_done tally find_row count_hw report str_eq
    strn_eq
both_go = refl

Reach-configured_after_example : All (HasReported configured.rows) daemons
Reach-configured_after_example =
    Reach-configured_after daemons at_start configured at_start-IsStart
      (subst (Reach daemons at_start) both_go (next to_both_up (checks both_up true))) refl

pub both_up-IsFoundSet : All (IsFoundSet both_up.rows) daemons
unfolding find_row report str_eq strn_eq
both_up-IsFoundSet = ((λ h. absurd (false≢true h)), ((λ h. refl), ((λ h. refl), tt)))

both_done : is_done daemons (count_hw daemons) both_up.rows ≡ true
unfolding is_done tally find_row count_hw report str_eq strn_eq
both_done = refl

failed_commit_final_example :
    (record (check daemons (count_hw daemons) false both_up) {
      rows = report ledd (check daemons (count_hw daemons) false both_up).rows;
    }).systems
    ≡ both_up.systems
failed_commit_final_example =
    failed_commit_final daemons both_up _ refl both_done
      (next here (reports (check daemons (count_hw daemons) false both_up) ledd))

-- The row of another daemon, whose name begins with this one's, counts for it.
prefix_counts :
    is_done
      (record { name = codes "ops-led"; is_hw_handler = true; cur_hw = pos 0 }
        ∷ record { name = ledd; is_hw_handler = true; cur_hw = pos 0 }
        ∷ [])
      2
      (record { name = ledd; cur_hw = pos 1; is_hw_handler = true } ∷ row (codes "ops-led") ∷ [])
    ≡ true
unfolding is_done tally find_row strn_eq
prefix_counts = refl
