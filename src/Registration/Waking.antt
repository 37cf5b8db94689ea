-- ===== src/Registration/Waking.antt =====
-- What wakes the daemon, and that what it only receives makes no pass of `sysd_run` do anything.
use mathlib.Core.Path.{ap₂}
use ops_sysd.Base.{
  ℕ, ◌≡◌, ◌≢◌, ne→==, refl, sym, ◌∙◌, true, false, not, ◌&&◌, List, [], ◌∷◌, ◌++◌, all, Option,
  if◌then◌else◌, ==_iff, arith,
}
use ops_sysd.Base.Text.{Bytes, codes, str_eq}
use ops_sysd.Base.Outcome.{Outcome, ok, ◌>>=◌}
use ops_sysd.Configure.Interfaces.{IdlNames}
use ops_sysd.Configure.Run.{Sysd, Pass, changed_pass, run}
use ops_sysd.Configure.Splits.{Shash}
use ops_sysd.Configure.Tables.{QosEnv, Globals}
use ops_sysd.Registration.{
  Column, Idl, IsIdl, system_col, subsystem_col, interface_col, daemon_col, package_col, conn_calls,
  ovsdb_conn_init,
}
use ops_sysd.Registration.Columns.{has_column, has_column-named}
use ops_sysd.Registration.Modes.{
  columns_added, alerts_after, alerts_after-named, replay-monitors, replay-alerts,
}
use ops_sysd.Release.{SoftwareColumns}

-- The columns that wake the daemon when others write them
abbrev pub waking : List Column
waking =
    system_col (codes "timezone")
    ∷ daemon_col (codes "name")
    ∷ daemon_col (codes "cur_hw")
    ∷ system_col (codes "mgmt_intf")
    ∷ system_col (codes "mgmt_intf_status")
    ∷ []

-- The columns that it receives, and that do not wake it
abbrev pub quiet : List Column
quiet =
    system_col (codes "subsystems")
    ∷ system_col (codes "cur_hw")
    ∷ system_col (codes "next_hw")
    ∷ system_col (codes "other_info")
    ∷ system_col (codes "software_info")
    ∷ system_col (codes "switch_version")
    ∷ subsystem_col (codes "name")
    ∷ subsystem_col (codes "asset_tag_number")
    ∷ subsystem_col (codes "hw_desc_dir")
    ∷ subsystem_col (codes "other_config")
    ∷ subsystem_col (codes "interfaces")
    ∷ interface_col (codes "name")
    ∷ interface_col (codes "hw_intf_info")
    ∷ interface_col (codes "type")
    ∷ interface_col (codes "user_config")
    ∷ daemon_col (codes "is_hw_handler")
    ∷ package_col (codes "name")
    ∷ package_col (codes "src_type")
    ∷ package_col (codes "src_url")
    ∷ package_col (codes "version")
    ∷ []

conn_calls-waking : (c : Column) → alerts_after conn_calls c false ≡ has_column c waking
unfolding str_eq conn_calls
conn_calls-waking = alerts_after-named conn_calls waking refl refl refl

conn_calls-received :
    (c : Column) → has_column c (columns_added conn_calls) ≡ has_column c (waking ++ quiet)
unfolding str_eq conn_calls
conn_calls-received = has_column-named (columns_added conn_calls) (waking ++ quiet) refl refl

module _ {S : Type 0} (idl : Idl S) where
  -- The state of the connection after batches of changes
  abbrev pub receive_all : List (List Column) → S → S
  receive_all [] t = t
  receive_all (batch ∷ batches) t = receive_all batches (idl.receive batch t)

module _ {S : Type 0} (idl : Idl S) (laws : IsIdl S idl) where
  -- Of all columns there are, the connection alerts for the five in `waking`, and receives these and
  -- the twenty in `quiet`.
  pub ovsdb_conn_init-modes :
      (c : Column)
      → (idl.alerts (ovsdb_conn_init idl).idl c ≡ has_column c waking)
        × (idl.monitors (ovsdb_conn_init idl).idl c ≡ has_column c (waking ++ quiet))
  unfolding ovsdb_conn_init
  ovsdb_conn_init-modes c =
      let locked = idl.set_lock (codes "ops_sysd") (idl.create false) in
      let none_alerts : idl.alerts locked c ≡ false =
        laws.locked_alerts (codes "ops_sysd") (idl.create false) c ∙ laws.created_alerts c in
      let none_there : idl.monitors locked c ≡ false =
        laws.locked (codes "ops_sysd") (idl.create false) c ∙ laws.created c in
      (
        replay-alerts idl laws conn_calls locked c ∙ rw none_alerts (conn_calls-waking c),
        replay-monitors idl laws conn_calls locked c
            ∙ rw none_there (ground (arith, conn_calls-received c)),
      )

  receive_all-alerts :
      (batches : List (List Column)) (t : S) (c : Column)
      → idl.alerts (receive_all idl batches t) c ≡ idl.alerts t c
  receive_all-alerts [] t c = refl
  receive_all-alerts (batch ∷ batches) t c =
      receive_all-alerts batches (idl.receive batch t) c ∙ laws.received batch t c

  pub receive_all-waking :
      (batches : List (List Column)) (batch : List Column)
      → all (λ c. not (idl.alerts (receive_all idl batches (ovsdb_conn_init idl).idl) c)) batch
        ≡ all (λ c. not (has_column c waking)) batch
  receive_all-waking batches [] = refl
  receive_all-waking batches (c ∷ cs) =
      ap₂ (λ a b. not a && b)
        (receive_all-alerts batches (ovsdb_conn_init idl).idl c ∙ (ovsdb_conn_init-modes c).0)
        (receive_all-waking batches cs)

  module _ (names : IdlNames) (ether_string : ℕ → Bytes) (find : Shash → Bytes → Option ℕ)
      (write_outside : SoftwareColumns → SoftwareColumns → Outcome SoftwareColumns)
      (globals : Globals) (env : QosEnv) where
    -- Whatever the connection has received since it was made: if the daemon has seen all of it, and
    -- then only such columns of rows that are there change that do not wake it, the next pass does nothing, but to say that the
    -- daemon is up if it holds the lock.
    pub run-quiet :
        (batches : List (List Column)) (batch : List Column) (pass : Pass) (s : Sysd)
        → s.idl_seqno ≡ idl.get_seqno (receive_all idl batches (ovsdb_conn_init idl).idl)
        → pass.seqno
          ≡ idl.get_seqno (idl.receive batch (receive_all idl batches (ovsdb_conn_init idl).idl))
        → all (λ c. not (has_column c waking)) batch ≡ true
        → run names ether_string find write_outside globals env pass s
          ≡ ok
              (if not pass.lock_contended && pass.has_lock then record s { complete = true } else s)
    unfolding run
    run-quiet batches batch pass s e f quiet_batch =
        let t = receive_all idl batches (ovsdb_conn_init idl).idl in
        let same =
          f ∙ laws.unchanged batch t (receive_all-waking batches batch ∙ quiet_batch) ∙ sym e in
        rw ((==_iff pass.seqno s.idl_seqno).1 same) (ground arith)

    -- A pass that holds the lock works on the database if a column that wakes the daemon has changed
    -- since the last one.
    pub run-woken :
        (batches : List (List Column)) (batch : List Column) (pass : Pass) (s : Sysd)
        → s.idl_seqno ≡ idl.get_seqno (receive_all idl batches (ovsdb_conn_init idl).idl)
        → pass.seqno
          ≡ idl.get_seqno (idl.receive batch (receive_all idl batches (ovsdb_conn_init idl).idl))
        → all (λ c. not (has_column c waking)) batch ≡ false
        → pass.lock_contended ≡ false
        → pass.has_lock ≡ true
        → run names ether_string find write_outside globals env pass s ≡ (
            changed_pass names ether_string find write_outside globals env pass s >>= λ s'.
            ok (record s' { complete = true }))
    unfolding run
    run-woken batches batch pass s e f woken free lock =
        let t = receive_all idl batches (ovsdb_conn_init idl).idl in
        let seen : pass.seqno ≢ s.idl_seqno = λ same.
          laws.changed batch t (receive_all-waking batches batch ∙ woken) (sym f ∙ same ∙ e) in
        simp (free, lock, ne→== pass.seqno s.idl_seqno seen)
