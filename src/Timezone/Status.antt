-- ===== src/Timezone/Status.antt =====
-- "show system timezone" (src/cli/system_vty.c): the column, and what timedatectl says.
use ops_sysd.Base.{
  ℕ, suc, ◌+◌, ◌-◌, ◌≤◌, ◌≡◌, refl, Bool, true, Bool-cases, inl, inr, List, [], ◌∷◌, ◌++◌, Option,
  none, some, ltb, ltb→lt, ltb→le, if◌then◌else◌, drop, arith,
}
use ops_sysd.Base.Text.{Bytes, codes}
use ops_sysd.Base.Outcome.{Outcome, ok, fault}
use ops_sysd.Timezone.Commands.{System, CmdRc, cmd_success, cmd_err_no_match}

-- The line on the column; `txn_ok` says whether a transaction could be created. How the commit ends
-- changes no line.
unfoldable pub configured_line : (txn_ok : Bool) → System → Bytes
configured_line true (some (some timezone)) =
    codes "System is configured for timezone : " ++ (timezone ++ 10 ∷ [])
configured_line _ _ = []

-- while (fgets(…) != NULL && line_count < 6) line_count++; the line for which the second test fails
-- has been read.
unfoldable pub skip_lines : (line_count : ℕ) → List Bytes → List Bytes
skip_lines line_count [] = []
skip_lines line_count (line ∷ lines) =
    let rest = skip_lines (line_count + 1) lines in if ltb line_count 6 then rest else lines

abbrev pub print_lines : List Bytes → Bytes
print_lines [] = []
print_lines (line ∷ lines) = line ++ print_lines lines

abbrev pub print_status : Bytes → Option (List Bytes) → CmdRc × Bytes
print_status head none = (cmd_err_no_match, head)
print_status head (some lines) = (cmd_success, head ++ print_lines (skip_lines 0 lines))

-- `vtysh_show_system_timezone`: `file` has the strings that fgets gives of the file that timedatectl
-- writes, if it can be opened. pclose is given what popen returned, NULL or not.
unfoldable pub show_system_timezone :
    (txn_ok popen_ok : Bool) → System → Option (List Bytes) → Outcome (CmdRc × Bytes)
unfolding configured_line skip_lines
show_system_timezone txn_ok popen_ok system file =
    if popen_ok then ok (print_status (configured_line txn_ok system) file) else fault

skip_lines-drop : (k : ℕ) (lines : List Bytes) → k ≤ 6 → skip_lines k lines ≡ drop (7 - k) lines
unfolding skip_lines
skip_lines-drop k [] h = elim (Bool-cases (ltb k 6)) [
  | inl e ↦ let n : 7 - k ≡ suc (6 - k) = omega (arith, h) in rw n refl
  | inr e ↦ let n : 7 - k ≡ suc (6 - k) = omega (arith, h) in rw n refl
]
skip_lines-drop k (line ∷ lines) h =
    let n : 7 - k ≡ suc (6 - k) = omega (arith, h) in
    elim (Bool-cases (ltb k 6)) [
      | inl e ↦
          let small = ltb→lt k 6 e in
          let m : 7 - (k + 1) ≡ 6 - k = omega arith in
          rw (n, e, skip_lines-drop (k + 1) lines (omega (arith, small)), m) refl
      | inr e ↦ let same : 6 - k ≡ 0 = omega (arith, ltb→le k 6 e) in rw (n, e, same) refl
    ]

-- If timedatectl could be started and its file read, "show system timezone" succeeds: it prints the
-- column, if the System row has one and a transaction could be created, and of the file all from the
-- eighth string of fgets on.
pub show_system_timezone-drop :
    (txn_ok : Bool) (system : System) (lines : List Bytes)
    → show_system_timezone txn_ok true system (some lines)
      ≡ ok (cmd_success, configured_line txn_ok system ++ print_lines (drop 7 lines))
unfolding show_system_timezone
show_system_timezone-drop txn_ok system lines = rw (skip_lines-drop 0 lines (omega arith)) refl
