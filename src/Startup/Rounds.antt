-- ===== src/Startup/Rounds.antt =====
-- The loop of main ends with the round of the exit command.
pub mod Examples
use ops_sysd.Base.{
  ℕ, zero, suc, ◌+◌, ◌≤◌, ◌≡◌, refl, sym, ap, ◌∙◌, Bool, true, false, ◌||◌, Bool-cases, inl, inr,
  List, [], ◌∷◌, ◌++◌, map, Option, if◌then◌else◌, All, arith,
}
use ops_sysd.Base.Text.{Bytes}
use ops_sysd.Base.Outcome.{Outcome, ok, fault, ◌>>=◌, >>=-assoc, >>=-ext, Ensures, Ensures-after}
use ops_sysd.Configure.Interfaces.{IdlNames}
use ops_sysd.Configure.Run.{Sysd, Pass, run, run_all}
use ops_sysd.Configure.Splits.{Shash}
use ops_sysd.Configure.Tables.{QosEnv, Globals}
use ops_sysd.Dump.Text.{IsDumpable}
use ops_sysd.Dump.Replies.{unixctl_dump-returns}
use ops_sysd.Release.{SoftwareColumns}
use ops_sysd.Startup.CfgYaml.{SystemLed, set_system_status_led}
use ops_sysd.Startup.Loop.{
  Command, dump_command, exit_command, Round, LoopState, write_led, is_exit, has_exit, serve,
  serve_all, main_loop,
}

-- How many exit commands there are.
abbrev pub exits : List Command → ℕ
exits [] = 0
exits (exit_command ∷ cs) = suc (exits cs)
exits (dump_command calloc_ok ∷ cs) = exits cs

-- The rounds up to the first with an exit command
abbrev pub until_exit : List Round → List Round
until_exit [] = []
until_exit (r ∷ rs) = let rest = until_exit rs in r ∷ (if has_exit r.commands then [] else rest)

-- The commands of a round leave the daemon in a state that is exiting or not, with the subsystems
-- freed or not; nothing else that the loop goes on with has changed.
record IsServed (s : LoopState) (exiting : Bool) (t : LoopState) : Type 0 where
  sysd_is : t.sysd ≡ s.sysd
  exiting_is : t.exiting ≡ exiting
  freed_is : t.freed ≡ exiting

abbrev held : Bool → ℕ
held false = 0
held true = 1

or_false : (b : Bool) → b || false ≡ b
or_false true = refl
or_false false = refl

module _ (led : Option SystemLed) (globals : Globals) (mgmt : Bytes)
    (dumpable : IsDumpable globals.manifest mgmt) where
  -- The state behind the exit command
  abbrev after_exit : LoopState → LoopState
  after_exit s = record s {
    exiting = true;
    freed = true;
    led = write_led (set_system_status_led led false) s.led;
    replies = s.replies ++ [] ∷ [];
  }

  serve_all-IsServed :
      (cs : List Command) (s : LoopState) (gone : Bool)
      → s.exiting ≡ gone
      → s.freed ≡ gone
      → held gone + exits cs ≤ 1
      → (t : LoopState) × (serve_all led globals cs s ≡ ok t) × IsServed s (gone || has_exit cs) t
  unfolding serve_all serve
  serve_all-IsServed [] s gone e f one =
      (s, refl, rw (or_false gone) (record { sysd_is = refl; exiting_is = e; freed_is = f }))
  serve_all-IsServed (dump_command calloc_ok ∷ cs) s gone e f one =
      let (reply, d) = unixctl_dump-returns globals.manifest mgmt calloc_ok dumpable in
      let (t, g, p) =
        serve_all-IsServed cs (record s { replies = s.replies ++ reply ∷ [] }) gone e f one in
      (t, rw d g, record { sysd_is = p.sysd_is; exiting_is = p.exiting_is; freed_is = p.freed_is })
  serve_all-IsServed (exit_command ∷ cs) s true e f one = absurd (omega (arith, one))
  serve_all-IsServed (exit_command ∷ cs) s false e f one =
      let (t, g, p) = serve_all-IsServed cs (after_exit s) true refl refl (omega (arith, one)) in
      (
        t,
        simp f g,
        record { sysd_is = p.sysd_is; exiting_is = p.exiting_is; freed_is = p.freed_is },
      )

  module _ (names : IdlNames) (ether_string : ℕ → Bytes) (find : Shash → Bytes → Option ℕ)
      (write_outside : SoftwareColumns → SoftwareColumns → Outcome SoftwareColumns)
      (env : QosEnv) where
    abbrev loop : List Round → LoopState → Outcome LoopState
    loop = main_loop led names ether_string find write_outside globals env

    abbrev ran : List Round → Sysd → Outcome Sysd
    ran rounds =
        run_all names ether_string find write_outside globals env (map (λ r. r.pass) rounds)

    loop-exiting : (rounds : List Round) (s : LoopState) → s.exiting ≡ true → loop rounds s ≡ ok s
    unfolding main_loop
    loop-exiting [] s h = refl
    loop-exiting (r ∷ rs) s h = simp h refl

    loop-step :
        (r : Round) (rs : List Round) (s : LoopState)
        → s.exiting ≡ false
        → s.freed ≡ false
        → loop (r ∷ rs) s ≡ (
            run names ether_string find write_outside globals env r.pass s.sysd >>= λ d.
            serve_all led globals r.commands (record s { sysd = d }) >>= loop rs)
    unfolding main_loop
    loop-step r rs s e f = simp (e, f) refl

    -- What is left of a round after its pass, and of the loop after the round
    round-end :
        (r : Round) (rs : List Round) (s : LoopState) (d : Sysd)
        → ((t : LoopState)
            → t.exiting ≡ false
            → t.freed ≡ false
            → (loop rs t >>= λ u. ok u.sysd) ≡ ran (until_exit rs) t.sysd)
        → s.exiting ≡ false
        → s.freed ≡ false
        → exits r.commands ≤ 1
        → ((serve_all led globals r.commands (record s { sysd = d }) >>= loop rs) >>= λ u.
            ok u.sysd)
          ≡ ran (if has_exit r.commands then [] else until_exit rs) d
    unfolding run_all
    round-end r rs s d rest e f one =
        let (t, g, p) =
          serve_all-IsServed r.commands (record s { sysd = d }) false e f (omega (arith, one)) in
        rw g (elim (Bool-cases (has_exit r.commands)) [
          | inl x ↦ rw (x, loop-exiting rs t (p.exiting_is ∙ x)) (ap ok p.sysd_is)
          | inr x ↦
              rw x (rest t (p.exiting_is ∙ x) (p.freed_is ∙ x) ∙ ap (ran (until_exit rs)) p.sysd_is)
        ])

    -- Where no round has more than one exit command, and the manifest can be printed: the loop is
    -- the passes up to the round of the first exit command, and no other; no dump faults or changes
    -- what the passes work on, the subsystems are freed once at most, and no pass comes after it.
    pub main_loop-run_all :
        (rounds : List Round) (s : LoopState)
        → All (λ r. exits r.commands ≤ 1) rounds
        → s.exiting ≡ false
        → s.freed ≡ false
        → (main_loop led names ether_string find write_outside globals env rounds s >>= λ t.
            ok t.sysd)
          ≡ run_all names ether_string find write_outside globals env
              (map (λ r. r.pass) (until_exit rounds))
              s.sysd
    unfolding run_all
    main_loop-run_all [] s one e f = unfold main_loop in refl
    main_loop-run_all (r ∷ rs) s (one, ones) e f =
        let start = run names ether_string find write_outside globals env r.pass s.sysd in
        ap (λ x. x >>= λ u. ok u.sysd) (loop-step r rs s e f)
        ∙ >>=-assoc start
            (λ d. serve_all led globals r.commands (record s { sysd = d }) >>= loop rs)
            (λ u. ok u.sysd)
        ∙ >>=-ext start _ _
            (λ d. round-end r rs s d (λ t e' f'. main_loop-run_all rs t ones e' f') e f one)
