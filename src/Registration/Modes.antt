-- ===== src/Registration/Modes.antt =====
-- Which columns are monitored, and which of them alert, after a sequence of calls.
use ops_sysd.Base.{
  ◌≡◌, refl, sym, ◌∙◌, Bool, true, false, not, ◌&&◌, ◌||◌, Bool-cases, inl, inr, List, [], ◌∷◌, all,
  arith,
}
use ops_sysd.Registration.{
  Column, col_eq, IdlCall, add_table, add_column, omit_alert, Idl, IsIdl, replay,
}
use ops_sysd.Registration.Columns.{has_column, bool_eq, bool_eq→≡, all-has_column, not_within}

abbrev pub columns_added : List IdlCall → List Column
columns_added [] = []
columns_added (add_column c ∷ cs) = c ∷ columns_added cs
columns_added (_ ∷ cs) = columns_added cs

abbrev pub columns_omitted : List IdlCall → List Column
columns_omitted [] = []
columns_omitted (omit_alert c ∷ cs) = c ∷ columns_omitted cs
columns_omitted (_ ∷ cs) = columns_omitted cs

-- Whether a column alerts after some calls, if `before` is whether it did before.
abbrev pub alerts_after : List IdlCall → Column → (before : Bool) → Bool
alerts_after [] c before = before
alerts_after (add_table t ∷ cs) c before = alerts_after cs c before
alerts_after (add_column d ∷ cs) c before = alerts_after cs c (col_eq c d || before)
alerts_after (omit_alert d ∷ cs) c before = alerts_after cs c (not (col_eq c d) && before)

-- Calls on other columns change nothing.
alerts_after-other :
    (cs : List IdlCall) (c : Column) (before : Bool)
    → has_column c (columns_added cs) ≡ false
    → has_column c (columns_omitted cs) ≡ false
    → alerts_after cs c before ≡ before
alerts_after-other [] c before h k = refl
alerts_after-other (add_table t ∷ cs) c before h k = alerts_after-other cs c before h k
alerts_after-other (add_column d ∷ cs) c before h k =
    alerts_after-other cs c (col_eq c d || before) (ground arith) k ∙ ground arith
alerts_after-other (omit_alert d ∷ cs) c before h k =
    alerts_after-other cs c (not (col_eq c d) && before) h (ground arith) ∙ ground arith

-- To know what alerts after some calls it is enough to look at the columns that they name.
pub alerts_after-named :
    (cs : List IdlCall) (woken : List Column)
    → all (λ c. bool_eq (alerts_after cs c false) (has_column c woken)) (columns_added cs) ≡ true
    → all (λ c. has_column c (columns_added cs)) (columns_omitted cs) ≡ true
    → all (λ c. has_column c (columns_added cs)) woken ≡ true
    → (c : Column) → alerts_after cs c false ≡ has_column c woken
alerts_after-named cs woken agree omits adds c =
    elim (Bool-cases (has_column c (columns_added cs))) [
      | inl e ↦ bool_eq→≡ _ _ (
          all-has_column (λ d. bool_eq (alerts_after cs d false) (has_column d woken))
            (columns_added cs) c agree e)
      | inr e ↦
          alerts_after-other cs c false e
            (not_within (columns_added cs) (columns_omitted cs) c omits e)
          ∙ sym (not_within (columns_added cs) woken c adds e)
    ]

module _ {S : Type 0} (idl : Idl S) (laws : IsIdl S idl) where
  pub replay-monitors :
      (cs : List IdlCall) (s : S) (c : Column)
      → idl.monitors (replay idl cs s) c ≡ has_column c (columns_added cs) || idl.monitors s c
  unfolding replay
  replay-monitors [] s c = refl
  replay-monitors (add_table t ∷ cs) s c =
      rw (replay-monitors cs (idl.call (add_table t) s) c, laws.table t s c) refl
  replay-monitors (add_column d ∷ cs) s c =
      rw (replay-monitors cs (idl.call (add_column d) s) c, laws.added d s c) (ground arith)
  replay-monitors (omit_alert d ∷ cs) s c =
      rw (replay-monitors cs (idl.call (omit_alert d) s) c, laws.omitted d s c) refl

  pub replay-alerts :
      (cs : List IdlCall) (s : S) (c : Column)
      → idl.alerts (replay idl cs s) c ≡ alerts_after cs c (idl.alerts s c)
  unfolding replay
  replay-alerts [] s c = refl
  replay-alerts (add_table t ∷ cs) s c =
      rw (replay-alerts cs (idl.call (add_table t) s) c, laws.table_alerts t s c) refl
  replay-alerts (add_column d ∷ cs) s c =
      rw (replay-alerts cs (idl.call (add_column d) s) c, laws.added_alerts d s c) refl
  replay-alerts (omit_alert d ∷ cs) s c =
      rw (replay-alerts cs (idl.call (omit_alert d) s) c, laws.omitted_alerts d s c) refl
