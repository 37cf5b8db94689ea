-- ===== src/HwDone/Reports.antt =====
-- The daemons report on their own time, and sysd checks on its own: every interleaving.
use mathlib.Core.Bool.{false≢true}
use ops_sysd.Base.{
  ◌≡◌, inl, inr, refl, sym, ◌∙◌, Bool, true, false, Bool-cases, List, [], ◌∷◌, arith, map, All,
  ◌||◌, if◌then◌else◌,
}
use ops_sysd.Base.Int.{pos, is_positive}
use ops_sysd.Base.Text.{Bytes, str_eq}
use ops_sysd.Manifest.{DaemonInfo, count_hw}
use ops_sysd.HwDone.{
  DaemonRow, SystemRow, HwState, set_hw_done, is_done, chk_if_hw_daemons_done, check,
}
use ops_sysd.HwDone.Own.{
  Any, IsOwn, IsUp, IsRegistered, HasReported, IsApart, AreDistinct, is_done-HasReported,
  is_done_iff,
}

-- A hardware daemon has processed the description files: it sets `cur_hw` in its row.
unfoldable pub report : Bytes → List DaemonRow → List DaemonRow
report name [] = []
report name (r ∷ rs) =
    (if str_eq r.name name then record r { cur_hw = pos 1 } else r) ∷ report name rs

-- Some row of the System table says that the hardware is configured.
abbrev pub is_configured : List SystemRow → Bool
is_configured [] = false
is_configured (s ∷ ss) = is_positive s.cur_hw || is_configured ss

-- What holds of a row however its `cur_hw` is set holds of the rows after a report.
Any-report :
    (P : DaemonRow → Type 0) (name : Bytes) (rows : List DaemonRow)
    → ((r : DaemonRow) → P r → P (record r { cur_hw = pos 1 }))
    → Any P rows
    → Any P (report name rows)
unfolding report
Any-report P name [] h a = a
Any-report P name (r ∷ rs) h (inl p) = elim (Bool-cases (str_eq r.name name)) [
  | inl e ↦ rw e (inl (h r p))
  | inr e ↦ rw e (inl p)
]
Any-report P name (r ∷ rs) h (inr a) = inr (Any-report P name rs h a)

All-report :
    (P : DaemonRow → Type 0) (name : Bytes) (rows : List DaemonRow)
    → ((r : DaemonRow) → P r → P (record r { cur_hw = pos 1 }))
    → All P rows
    → All P (report name rows)
unfolding report
All-report P name [] h a = tt
All-report P name (r ∷ rs) h (p, a) = elim (Bool-cases (str_eq r.name name)) [
  | inl e ↦ rw e (h r p, All-report P name rs h a)
  | inr e ↦ rw e (p, All-report P name rs h a)
]

module _ (daemons : List DaemonInfo) where
  -- One step of the system: a report, or a pass of sysd whose transaction succeeds or not.
  pub data Step : HwState → HwState → Type 0 where
    reports : (s : HwState) (name : Bytes) → Step s (record s { rows = report name s.rows })
    checks :
        (s : HwState) (commit_ok : Bool) → Step s (check daemons (count_hw daemons) commit_ok s)

  pub data Reach (s : HwState) : HwState → Type 0 where
    here : Reach s s
    next : {t u : HwState} → Reach s t → Step t u → Reach s u

  -- Before any step: a row for every hardware daemon, names that are told apart, and nothing
  -- configured.
  pub record IsStart (s : HwState) : Type 0 where
    pub registered : All (IsRegistered s.rows) daemons
    pub apart : All (IsApart s.rows) daemons
    pub unconfigured : is_configured s.systems ≡ false
    pub not_done : s.hw_init_done_set ≡ false

  record IsSafe (s : HwState) : Type 0 where
    registered : All (IsRegistered s.rows) daemons
    apart : All (IsApart s.rows) daemons
    done_after : s.hw_init_done_set ≡ true → All (HasReported s.rows) daemons
    configured_after : is_configured s.systems ≡ true → All (HasReported s.rows) daemons

  All-IsRegistered :
      (name : Bytes) (rows : List DaemonRow) (ds : List DaemonInfo)
      → All (IsRegistered rows) ds
      → All (IsRegistered (report name rows)) ds
  All-IsRegistered name rows [] h = tt
  All-IsRegistered name rows (d ∷ ds) (g, h) = (
    (λ hw. Any-report (IsOwn d) name rows (λ r own. own) (g hw)),
    All-IsRegistered name rows ds h,
  )

  All-IsApart :
      (name : Bytes) (rows : List DaemonRow) (ds : List DaemonInfo)
      → All (IsApart rows) ds
      → All (IsApart (report name rows)) ds
  All-IsApart name rows [] h = tt
  All-IsApart name rows (d ∷ ds) (g, h) =
      (All-report _ name rows (λ r apart. apart) g, All-IsApart name rows ds h)

  All-HasReported :
      (name : Bytes) (rows : List DaemonRow) (ds : List DaemonInfo)
      → All (HasReported rows) ds
      → All (HasReported (report name rows)) ds
  All-HasReported name rows [] h = tt
  All-HasReported name rows (d ∷ ds) (g, h) = (
    (λ hw. Any-report (IsUp d) name rows (λ r up. (up.0, omega arith)) (g hw)),
    All-HasReported name rows ds h,
  )

  set_hw_done-IsSafe :
      (commit_ok : Bool) (s : HwState)
      → All (IsRegistered s.rows) daemons
      → All (IsApart s.rows) daemons
      → All (HasReported s.rows) daemons
      → IsSafe (set_hw_done commit_ok s)
  unfolding set_hw_done
  set_hw_done-IsSafe commit_ok s g a h = record {
    registered = g;
    apart = a;
    done_after = λ _. h;
    configured_after = λ _. h;
  }

  check-IsSafe :
      (commit_ok : Bool) (s : HwState)
      → IsSafe s
      → IsSafe (check daemons (count_hw daemons) commit_ok s)
  unfolding check chk_if_hw_daemons_done
  check-IsSafe commit_ok s i = elim (Bool-cases s.hw_init_done_set) [
    | inl set ↦ simp set i
    | inr unset ↦ simp unset (elim (Bool-cases (is_done daemons (count_hw daemons) s.rows)) [
      | inl go ↦ rw go (
          set_hw_done-IsSafe commit_ok s i.registered i.apart
            (is_done-HasReported s.rows daemons i.registered i.apart go))
      | inr wait ↦ rw wait i
    ])
  ]

  Step-IsSafe : {s t : HwState} → Step s t → IsSafe s → IsSafe t
  Step-IsSafe (reports s name) i = record {
    registered = All-IsRegistered name s.rows daemons i.registered;
    apart = All-IsApart name s.rows daemons i.apart;
    done_after = λ e. All-HasReported name s.rows daemons (i.done_after e);
    configured_after = λ e. All-HasReported name s.rows daemons (i.configured_after e);
  }
  Step-IsSafe (checks s commit_ok) i = check-IsSafe commit_ok s i

  IsStart-IsSafe : (s : HwState) → IsStart s → IsSafe s
  IsStart-IsSafe s i = record {
    registered = i.registered;
    apart = i.apart;
    done_after = λ e. absurd (false≢true (sym i.not_done ∙ e));
    configured_after = λ e. absurd (false≢true (sym i.unconfigured ∙ e));
  }

  Reach-IsSafe : {s t : HwState} → IsStart s → Reach s t → IsSafe t
  Reach-IsSafe {s} i here = IsStart-IsSafe s i
  Reach-IsSafe i (next r st) = Step-IsSafe st (Reach-IsSafe i r)

  -- In every interleaving of reports and checks, from a start with a row of its own for every
  -- hardware daemon of the manifest, no hardware daemon in the table whose name begins with a
  -- different name of the manifest, nothing configured and the check not over: once the System table
  -- says that the hardware is configured, every hardware daemon of the manifest has `cur_hw` above 0
  -- in a row of its own name.
  pub Reach-configured_after :
      (s t : HwState)
      → IsStart s
      → Reach s t
      → is_configured t.systems ≡ true
      → All (HasReported t.rows) daemons
  Reach-configured_after s t i r = (Reach-IsSafe i r).configured_after

  -- Once every hardware daemon has reported in its own row, with names that are distinct and told
  -- apart, and the flag is not yet set, the next check whose transaction goes through writes 1 to
  -- `cur_hw` and `next_hw` in every row of the System table.
  pub check-configures :
      (t : HwState)
      → All (IsRegistered t.rows) daemons
      → All (IsApart t.rows) daemons
      → AreDistinct t.rows
      → t.hw_init_done_set ≡ false
      → All (HasReported t.rows) daemons
      → check daemons (count_hw daemons) true t ≡ record t {
        systems = map (λ _. record { cur_hw = pos 1; next_hw = pos 1 }) t.systems;
        hw_init_done_set = true;
      }
  unfolding check chk_if_hw_daemons_done set_hw_done
  check-configures t g a distinct unset h =
      simp (unset, (is_done_iff t.rows daemons g a distinct).1 h)

  check_done :
      (commit_ok : Bool) (s : HwState)
      → s.hw_init_done_set ≡ true
      → check daemons (count_hw daemons) commit_ok s ≡ s
  unfolding check
  check_done commit_ok s h = simp h

  done-kept :
      {s t : HwState}
      → Reach s t
      → s.hw_init_done_set ≡ true
      → (t.hw_init_done_set ≡ true) × (t.systems ≡ s.systems)
  done-kept here h = (h, refl)
  done-kept (next r (reports s name)) h = done-kept r h
  done-kept (next r (checks s commit_ok)) h =
      let (set, same) = done-kept r h in rw (check_done commit_ok s set) (set, same)

  failed_check :
      (s : HwState)
      → s.hw_init_done_set ≡ false
      → is_done daemons (count_hw daemons) s.rows ≡ true
      → ((check daemons (count_hw daemons) false s).hw_init_done_set ≡ true)
        × ((check daemons (count_hw daemons) false s).systems ≡ s.systems)
  unfolding check chk_if_hw_daemons_done set_hw_done
  failed_check s unset go = ground arith

  -- The transaction is tried once: if it fails, the System table keeps what it held through every
  -- later report and check, however many of them there are.
  pub failed_commit_final :
      (s t : HwState)
      → s.hw_init_done_set ≡ false
      → is_done daemons (count_hw daemons) s.rows ≡ true
      → Reach (check daemons (count_hw daemons) false s) t
      → t.systems ≡ s.systems
  failed_commit_final s t unset go r =
      let (set, same) = failed_check s unset go in (done-kept r set).1 ∙ same
