-- ===== src/HwDone.antt =====
-- src/sysd_ovsdb_if.c: `sysd_chk_if_hw_daemons_done` and `sysd_set_hw_done`, on the Daemon and
-- System tables of the database, and the call in `sysd_run` that they hang under.
pub mod Decision
pub mod Own
pub mod Reports
pub mod Examples
use ops_sysd.Base.{
  ℕ, zero, suc, ◌+◌, Bool, true, false, not, ◌&&◌, ◌||◌, List, [], ◌∷◌, map, ◌==◌, ltb, length,
  if◌then◌else◌,
}
use ops_sysd.Base.Int.{ℤ, pos, is_positive}
use ops_sysd.Base.Text.{Bytes, strn_eq}
use ops_sysd.Manifest.{DaemonInfo}

-- A row of the Daemon table, in the columns that are read.
pub record DaemonRow : Type 0 where
  pub name : Bytes
  pub cur_hw : ℤ
  pub is_hw_handler : Bool

-- A row of the System table, in the columns that are written.
pub record SystemRow : Type 0 where
  pub cur_hw : ℤ
  pub next_hw : ℤ

-- The tables, in the order of iteration, and the static `hw_init_done_set`.
pub record HwState : Type 0 where
  pub rows : List DaemonRow
  pub systems : List SystemRow
  pub hw_init_done_set : Bool

-- strncmp(daemons[i]->name, db_daemon->name, strlen(daemons[i]->name)) == 0, for a handler
abbrev pub is_row_of : Bytes → DaemonRow → Bool
is_row_of name r = r.is_hw_handler && strn_eq name r.name (length name)

-- How the inner loop over the Daemon table ends for one daemon of the manifest.
pub data Found : Type 0 where
  found_set found_not_set not_found : Found

unfoldable pub find_row : Bytes → List DaemonRow → Found
find_row name [] = not_found
find_row name (r ∷ rs) =
    if is_row_of name r
    then (if is_positive r.cur_hw then found_set else found_not_set)
    else find_row name rs

-- The variables `not_set` and `num_found` of the outer loop.
pub record Tally : Type 0 where
  pub not_set : Bool
  pub num_found : ℕ

abbrev pub count_found : Found → Tally → Tally
count_found found_set t = record t { num_found = t.num_found + 1 }
count_found found_not_set t = record t { not_set = true }
count_found not_found t = t

-- The outer loop; `not_set` breaks it.
unfoldable pub tally : List DaemonRow → List DaemonInfo → Tally → Tally
tally rows [] t = t
tally rows (d ∷ ds) t =
    let t' = if d.is_hw_handler then count_found (find_row d.name rows) t else t in
    let rest = tally rows ds t' in if t'.not_set then t' else rest

abbrev no_tally : Tally
no_tally = record { not_set = false; num_found = 0 }

-- `sysd_set_hw_done`. If the transaction does not go through the tables stay as they are, and the
-- flag is set all the same.
unfoldable pub set_hw_done : Bool → HwState → HwState
set_hw_done commit_ok s = record s {
  systems =
      if commit_ok
      then map (λ _. record { cur_hw = pos 1; next_hw = pos 1 }) s.systems
      else s.systems;
  hw_init_done_set = true;
}

module _ (daemons : List DaemonInfo) (num_hw_daemons : ℕ) where
  -- Whether `sysd_chk_if_hw_daemons_done` goes on to `sysd_set_hw_done`.
  unfoldable pub is_done : List DaemonRow → Bool
  unfolding tally
  is_done rows =
      if num_hw_daemons == 0
      then true
      else let t = tally rows daemons no_tally in not (t.not_set || (t.num_found == 0))

  unfoldable pub chk_if_hw_daemons_done : Bool → HwState → HwState
  unfolding is_done
  chk_if_hw_daemons_done commit_ok s = if is_done s.rows then set_hw_done commit_ok s else s

  -- if (!hw_init_done_set) in `sysd_run`
  unfoldable pub check : Bool → HwState → HwState
  check commit_ok s = if not s.hw_init_done_set then chk_if_hw_daemons_done commit_ok s else s
