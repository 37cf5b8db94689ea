-- ===== src/Packages.antt =====
-- src/sysd_ovsdb_if.c: `sysd_add_package_info`, which fills the Package_Info table from the YAML
-- file with the versions, and `package_info_mapping_check_key`. libyaml's parser is the list of
-- events that it gives; OVS's IDL allows one open transaction and asserts so.
pub mod Document
pub mod Steps
pub mod Batches
pub mod Faults
mod Examples
use ops_sysd.Base.{
  ℕ, ◌+◌, ◌%◌, Bool, true, false, not, List, [], ◌∷◌, ◌++◌, Option, none, some, ◌==◌, if◌then◌else◌,
}
use ops_sysd.Base.Text.{Bytes, codes, str_eq}
use ops_sysd.Base.Outcome.{Outcome, ok, fault, ◌>>=◌}

abbrev pub pkg_info_entries_per_commit : ℕ
pkg_info_entries_per_commit = 2000

-- The keys of the file, in the order of the enum; VALUE is `none`.
pub data Key : Type 0 where
  pkg pv srcrev src_url src_type : Key

abbrev pub keystr_pkg_info : Key → Bytes
keystr_pkg_info pkg = codes "PKG"
keystr_pkg_info pv = codes "PV"
keystr_pkg_info srcrev = codes "SRCREV"
keystr_pkg_info src_url = codes "SRC_URL"
keystr_pkg_info src_type = codes "TYPE"

-- The loop from the key given by the list on.
unfoldable pub check_key_from : List Key → Bytes → Option Key
check_key_from [] value = none
check_key_from (k ∷ ks) value =
    if str_eq (keystr_pkg_info k) value then some k else check_key_from ks value

-- `package_info_mapping_check_key`
unfoldable pub check_key : Bytes → Option Key
unfolding check_key_from
check_key value = check_key_from (pkg ∷ pv ∷ srcrev ∷ src_url ∷ src_type ∷ []) value

-- yaml_event_t, in what the loop reads.
pub data Event : Type 0 where
  scalar : Bytes → Event
  other_event stream_end : Event

-- A row of the Package_Info table. OVSDB gives a new row empty strings.
pub record PackageRow : Type 0 where
  pub name : Bytes
  pub version : Bytes
  pub src_url : Bytes
  pub src_type : Bytes

-- The open transaction: `row` is the variable of that name, the row that was inserted last.
pub record OpenTxn : Type 0 where
  pub earlier : List PackageRow
  pub row : PackageRow

-- The variables of the loop, and the table as the server has it. `inserts` and `commits` number
-- the calls that may fail.
pub record Load : Type 0 where
  pub current_state : Option Key
  pub record_count : ℕ
  pub txn : Option OpenTxn
  pub table : List PackageRow
  pub inserts : ℕ
  pub commits : ℕ

-- The end of one round: the next one, or the early return.
pub data Next : Type 0 where
  go_on stop : Load → Next

abbrev pub rows_of : OpenTxn → List PackageRow
rows_of t = t.earlier ++ t.row ∷ []

-- ovsdb_idl_txn_create, with the assertion that no transaction is open
unfoldable pub create : Option OpenTxn → Outcome (List PackageRow)
create none = ok []
create (some t) = fault

-- A transaction that must be there.
unfoldable pub open_rows : Option OpenTxn → Outcome (List PackageRow)
open_rows none = fault
open_rows (some t) = ok (rows_of t)

-- The rows of the transaction into which a package is inserted.
unfoldable pub begin : Load → Outcome (List PackageRow)
unfolding create open_rows
begin s =
    if s.record_count % pkg_info_entries_per_commit == 0 then create s.txn else open_rows s.txn

-- A column is set in `row`. Before the first insertion `row` is NULL, and the end of a transaction
-- frees the rows that it inserted.
unfoldable pub set_column : (PackageRow → PackageRow) → Load → Outcome Load
set_column change s = elim s.txn [
  | none ↦ fault
  | some t ↦ ok (record s { txn = some (record t { row = change t.row }) })
]

abbrev pub then_go_on : Outcome Load → Outcome Next
then_go_on r = r >>= λ s. ok (go_on s)

abbrev pub start_load : List PackageRow → Load
start_load table = record {
  current_state = none;
  record_count = 0;
  txn = none;
  table = table;
  inserts = 0;
  commits = 0;
}

abbrev pub next_event : (Load → Outcome Next) → Next → Outcome Next
next_event loop (go_on s) = loop s
next_event loop (stop s) = ok (stop s)

module _ (insert_ok : ℕ → Bool) where
  -- ovsrec_package_info_insert and the name, or the cleanup and the return
  unfoldable pub insert : Bytes → Load → List PackageRow → Next
  insert value s rows =
      if insert_ok s.inserts
      then go_on (record s {
        txn = some (record {
          earlier = rows;
          row = record { name = value; version = []; src_url = []; src_type = [] };
        });
        inserts = s.inserts + 1;
      })
      else stop (record s { txn = none; inserts = s.inserts + 1 })

module _ (commit_ok : ℕ → Bool) where
  -- ovsdb_idl_txn_commit_block and ovsdb_idl_txn_destroy, on what is open
  unfoldable pub commit_txn : Option OpenTxn → Load → Load
  commit_txn none s = s
  commit_txn (some t) s = record s {
    txn = none;
    table = if commit_ok s.commits then s.table ++ rows_of t else s.table;
    commits = s.commits + 1;
  }

  unfoldable pub commit : Load → Load
  unfolding commit_txn
  commit s = commit_txn s.txn s

  -- The commit after every full batch.
  unfoldable pub end_record : Load → Load
  unfolding commit
  end_record s = if s.record_count % pkg_info_entries_per_commit == 0 then commit s else s

  -- What follows the loop.
  unfoldable pub finish_load : Next → Load
  unfolding commit
  finish_load (go_on s) = commit s
  finish_load (stop s) = s

module _ (insert_ok commit_ok : ℕ → Bool) where
  -- switch (current_state)
  unfoldable pub take_value : Option Key → Bytes → Load → Outcome Next
  unfolding begin insert set_column end_record
  take_value none value s = ok (go_on s)
  take_value (some pkg) value s = begin s >>= λ rows. ok (insert insert_ok value s rows)
  take_value (some pv) value s = then_go_on (set_column (λ r. record r { version = value }) s)
  take_value (some srcrev) value s =
      if not (str_eq value (codes "INVALID"))
      then then_go_on (set_column (λ r. record r { version = value }) s)
      else ok (go_on s)
  take_value (some src_url) value s = then_go_on (set_column (λ r. record r { src_url = value }) s)
  take_value (some src_type) value s = do
    t ←
        set_column (λ r. record r { src_type = value })
          (record s { record_count = s.record_count + 1 })
    ok (go_on (end_record commit_ok t))

  -- switch (event_value)
  unfoldable pub take_scalar : Option Key → Bytes → Load → Outcome Next
  unfolding take_value
  take_scalar none value s = take_value s.current_state value s
  take_scalar (some k) value s = ok (go_on (record s { current_state = some k }))

  -- while (!done); the end of the list is a parser that gives up
  unfoldable pub read_events : List Event → Load → Outcome Next
  unfolding take_scalar check_key
  read_events [] s = ok (go_on s)
  read_events (stream_end ∷ es) s = ok (go_on s)
  read_events (other_event ∷ es) s = read_events es s
  read_events (scalar value ∷ es) s =
      take_scalar (check_key value) value s >>= next_event (read_events es)

  -- `sysd_add_package_info`: `parser_ok` and `file_ok` are the results of the initialization and of
  -- fopen.
  unfoldable pub add_package_info : Bool → Bool → List Event → List PackageRow → Outcome Load
  unfolding read_events finish_load
  add_package_info parser_ok file_ok es table =
      if not parser_ok
      then ok (start_load table)
      else if not file_ok
      then ok (start_load table)
      else read_events es (start_load table) >>= λ r. ok (finish_load commit_ok r)
