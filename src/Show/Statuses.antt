-- ===== src/Show/Statuses.antt =====
-- The status of a power supply in the words of vtysh, and when a list of them can be printed.
use mathlib.Core.Bool.{Bool-set}
use mathlib.Core.List.{Mem, Perm, forall_mem-cons, not-mem-nil}
use mathlib.Core.List.Perm
use ops_sysd.Base.{◌≡◌, refl, sym, ◌∙◌, Bool, true, false, List, [], ◌∷◌, ◌++◌, Option, none, some}
use ops_sysd.Base.Printf.{pad_right}
use ops_sysd.Base.Text.{Bytes}
use ops_sysd.Base.Outcome.{ok, >>=-eq-ok}
use ops_sysd.Show.Devices.{
  PsuRow, VtyNames, print_rows, format_psu_string, status_line, psu_line, psu_lines,
}

abbrev pub is_some : Option Bytes → Bool
is_some none = false
is_some (some text) = true

abbrev pub has_status : PsuRow → Bool
has_status row = is_some row.status

abbrev pub HaveStatus : List PsuRow → Type 0
HaveStatus rows = (row : PsuRow) → Mem row rows → has_status row ≡ true

pub HaveStatus-cons :
    (row : PsuRow) (rows : List PsuRow)
    → has_status row ≡ true
    → HaveStatus rows
    → HaveStatus (row ∷ rows)
HaveStatus-cons row rows h k = (forall_mem-cons (λ x. Bool-set _ _)).1 (h, k)

pub HaveStatus-perm :
    {rows table : List PsuRow} → Perm rows table → HaveStatus table → HaveStatus rows
HaveStatus-perm p h row m = h row ((Perm.mem_iff p).0 m)

module _ (names : VtyNames) where
  -- The text of a power supply: its status in the words of vtysh
  abbrev status_text : (name : Bytes) → Option Bytes → Bytes
  status_text name none = []
  status_text name (some text) = pad_right 15 name ++ (pad_right 10 text ++ names.newline)

  abbrev pub psu_text : PsuRow → Bytes
  psu_text row = status_text row.name (format_psu_string names row.status)

  status_line-text :
      (name : Bytes) (status : Option Bytes)
      → is_some status ≡ true
      → status_line names name status ≡ ok (status_text name status)
  status_line-text name none h = cc
  status_line-text name (some text) h = refl

  status_line-some :
      (name : Bytes) (status : Option Bytes) (line : Bytes)
      → status_line names name status ≡ ok line
      → is_some status ≡ true
  status_line-some name none line h = cc
  status_line-some name (some text) line h = refl

  is_some-format_psu_string :
      (status : Option Bytes) → is_some (format_psu_string names status) ≡ is_some status
  unfolding format_psu_string
  is_some-format_psu_string none = refl
  is_some-format_psu_string (some status) = refl

  psu_line-text : (row : PsuRow) → has_status row ≡ true → psu_line names row ≡ ok (psu_text row)
  psu_line-text row h =
      status_line-text row.name (format_psu_string names row.status)
        (is_some-format_psu_string row.status ∙ h)

  psu_line-status :
      (row : PsuRow) (line : Bytes) → psu_line names row ≡ ok line → has_status row ≡ true
  psu_line-status row line h =
      sym (is_some-format_psu_string row.status)
      ∙ status_line-some row.name (format_psu_string names row.status) line h

  pub psu_lines-text :
      (rows : List PsuRow) → HaveStatus rows → psu_lines names rows ≡ ok (print_rows psu_text rows)
  unfolding psu_lines print_rows
  psu_lines-text [] h = refl
  psu_lines-text (row ∷ rows) h =
      let (first, rest) = (forall_mem-cons (λ x. Bool-set (has_status x) true)).0 h in
      rw (psu_line-text row first, psu_lines-text rows rest) refl

  pub psu_lines-status :
      (rows : List PsuRow) (lines : Bytes) → psu_lines names rows ≡ ok lines → HaveStatus rows
  unfolding psu_lines
  psu_lines-status [] lines h = λ row m. absurd (not-mem-nil m)
  psu_lines-status (row ∷ rows) lines h =
      let (line, e, f) = >>=-eq-ok (psu_line names row) _ h in
      let (rest, g, _) = >>=-eq-ok (psu_lines names rows) _ f in
      HaveStatus-cons row rows (psu_line-status row line e) (psu_lines-status rows rest g)
