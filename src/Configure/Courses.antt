-- ===== src/Configure/Courses.antt =====
-- Every course of passes, and of passes between which other processes write to the database.
pub mod Examples
use ops_sysd.Base.{
  ℕ, zero, suc, ◌+◌, ◌≤◌, ◌≡◌, refl, ap, sym, subst, ◌∙◌, Bool, true, false, List, [], ◌∷◌, Option,
  length, arith,
}
use ops_sysd.Base.Text.{Bytes}
use ops_sysd.Base.Outcome.{Outcome, ok, ◌>>=◌, Ensures, Ensures-bind, Ensures-map}
use ops_sysd.Configure.Tables.{Database, QosEnv, Globals}
use ops_sysd.Configure.Interfaces.{IdlNames}
use ops_sysd.Configure.Passes.{IsSame, Kept, Kept-refl, run-Kept, AtMostOne, run-AtMostOne}
use ops_sysd.Configure.Run.{Sysd, Pass, run, run_all}
use ops_sysd.Configure.Splits.{Shash}
use ops_sysd.Release.{SoftwareColumns}

IsSame-trans : (a b c : Database) → IsSame a b → IsSame b c → IsSame a c
IsSame-trans a b c p q = record {
  bridges = q.bridges ∙ p.bridges;
  ports = q.ports ∙ p.ports;
  interfaces = q.interfaces ∙ p.interfaces;
  vrfs = q.vrfs ∙ p.vrfs;
  subsystems = q.subsystems ∙ p.subsystems;
  daemons = q.daemons ∙ p.daemons;
  queue_profiles = q.queue_profiles ∙ p.queue_profiles;
  schedule_profiles = q.schedule_profiles ∙ p.schedule_profiles;
}

Kept-trans : (a b c : Database) → Kept a b → Kept b c → Kept a c
Kept-trans a b c p q = (q.0 ∙ p.0, IsSame-trans a b c p.1 q.1)

module _ (names : IdlNames) (ether_string : ℕ → Bytes) (find : Shash → Bytes → Option ℕ)
    (write_outside : SoftwareColumns → SoftwareColumns → Outcome SoftwareColumns)
    (globals : Globals) (env : QosEnv) where
  -- Once the database has a System row: after any number of passes that return, whatever the locks,
  -- sequence numbers, files and transactions, it has as many System rows as before, and the bridges,
  -- ports, interfaces, VRFs, subsystems, daemons and profiles are the same.
  pub run_all-Kept :
      (passes : List Pass) (s : Sysd) (n : ℕ)
      → length s.db.systems ≡ suc n
      → Ensures
          (λ s'. Kept s.db s'.db)
          (run_all names ether_string find write_outside globals env passes s)
  unfolding run_all
  run_all-Kept [] s n l = Kept-refl s.db
  run_all-Kept (pass ∷ passes) s n l =
      Ensures-bind (λ s'. Kept s.db s'.db) (λ s'. Kept s.db s'.db)
        (run names ether_string find write_outside globals env pass s) _
        (run-Kept names ether_string find write_outside globals env pass s n l)
        (λ t k.
          Ensures-map (λ s'. Kept s.db s'.db) (λ s'. Kept t.db s'.db) _
            (λ u q. Kept-trans s.db t.db u.db k q) (run_all-Kept passes t n (k.0 ∙ l)))

  -- One step: a pass that returns, or what another process writes, which inserts no System row.
  pub data Step : Sysd → Sysd → Type 0 where
    passes :
        (s t : Sysd) (pass : Pass)
        → run names ether_string find write_outside globals env pass s ≡ ok t
        → Step s t
    others :
        (s : Sysd) (db : Database)
        → length db.systems ≤ length s.db.systems
        → Step s (record s { db = db })

  pub data Reach (s : Sysd) : Sysd → Type 0 where
    here : Reach s s
    next : {t u : Sysd} → Reach s t → Step t u → Reach s u

  Step-AtMostOne : (s t : Sysd) → Step s t → AtMostOne s.db → AtMostOne t.db
  Step-AtMostOne _ _ (passes s t pass done) l =
      let kept = run-AtMostOne names ether_string find write_outside globals env pass s l in
      subst (Ensures (λ s'. AtMostOne s'.db)) done kept
  Step-AtMostOne _ _ (others s db fewer) l = omega (arith, fewer, l)

  -- In every course of passes and of writes by others that insert no System row, starting with at most
  -- one, there is
  -- at most one at the end.
  pub Reach-AtMostOne : (s t : Sysd) → Reach s t → AtMostOne s.db → AtMostOne t.db
  Reach-AtMostOne s _ here l = l
  Reach-AtMostOne s t (next {t = u} r step) l = Step-AtMostOne u t step (Reach-AtMostOne s u r l)
