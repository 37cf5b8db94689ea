-- ===== src/Qos/ScheduleDefaults.antt =====
-- What the two schedule profiles hold after the first configuration.
use ops_sysd.Base.{
  ℕ, zero, suc, ◌+◌, ◌≡◌, ◌≢◌, refl, sym, ap, ◌∙◌, true, Bool-cases, Option-cases, inl, inr, List,
  [], ◌∷◌, Option, some, All,
}
use ops_sysd.Base.Int.{ℤ}
use ops_sysd.Base.Text.{Bytes}
use ops_sysd.Base.Outcome.{ok}
use ops_sysd.Qos.Columns.{YamlQosInfo}
use ops_sysd.Qos.Profiles.{
  int_eq, Profile, get_profile_row, update_row, new_profile, insert_if_missing, get_entry_row,
  change_entries,
}
use ops_sysd.Qos.ProfileLaws.{IsRow, IsRow-trans, update_row-IsRow, insert-IsRow}
use ops_sysd.Qos.Schedules.{
  YamlScheduleProfileEntry, ScheduleEntry, ScheduleProfiles, ScheduleState,
  schedule_profile_command, clear_queues, rounds, mark_schedule_profile, schedule_row_command_at,
  schedule_profile_row_command, add_schedule_entry, add_schedule_entries, create_schedule_default,
  mark_schedule_if_found, add_schedule_factory_default, point_to_schedule_default,
  init_schedule_profile,
}
use ops_sysd.Qos.ScheduleLaws.{
  scheduled, latest, schedule_of, add_schedule, fold_schedule, fold_schedule-latest,
}

module _ (strict : Bytes) (name : Bytes) (entry : ℕ → Option YamlScheduleProfileEntry) where
  add_schedule_entry-found :
      (y : YamlScheduleProfileEntry) (ps : ScheduleProfiles) (p : Profile ScheduleEntry)
      → get_profile_row name ps ≡ some p
      → add_schedule_entry strict name (some y) ps
        ≡ update_row name (λ r. record r { entries = add_schedule strict y r.entries }) ps
  unfolding add_schedule_entry schedule_profile_row_command schedule_row_command_at add_schedule
  add_schedule_entry-found y ps p h =
      ap (λ o. (schedule_row_command_at strict o name y.queue y.algorithm y.weight ps).1) h

  add_schedule_entry-IsRow :
      (y : YamlScheduleProfileEntry) (ps : ScheduleProfiles) (p : Profile ScheduleEntry)
      → get_profile_row name ps ≡ some p
      → IsRow name
          (record p { entries = add_schedule strict y p.entries })
          ps
          (add_schedule_entry strict name (some y) ps)
  add_schedule_entry-IsRow y ps p h =
      rw (add_schedule_entry-found y ps p h) (update_row-IsRow name _ ps p (λ r. refl) h)

  add_schedule_entries-IsRow :
      (n ii : ℕ) (ps : ScheduleProfiles) (p : Profile ScheduleEntry)
      → get_profile_row name ps ≡ some p
      → IsRow name
          (record p { entries = fold_schedule strict (scheduled entry n ii) p.entries })
          ps
          (add_schedule_entries strict name entry n ii ps)
  unfolding add_schedule_entries fold_schedule add_schedule_entry
  add_schedule_entries-IsRow zero ii ps p h = record { this = h; others = λ other differs. refl }
  add_schedule_entries-IsRow (suc n) ii ps p h = elim (Option-cases (entry ii)) [
    | inl missing ↦ simp missing (add_schedule_entries-IsRow n (ii + 1) ps p h)
    | inr (y, there) ↦
        let one = add_schedule_entry-IsRow y ps p h in
        simp there (
          IsRow-trans name _ _ ps (add_schedule_entry strict name (some y) ps) _ one (
            add_schedule_entries-IsRow n (ii + 1) (add_schedule_entry strict name (some y) ps) _
              one.this))
  ]

  -- The row is there after the command, whether it was before or not.
  schedule_profile_command-IsRow :
      (ps : ScheduleProfiles)
      → (p : Profile ScheduleEntry) × IsRow name p ps (schedule_profile_command name ps)
  unfolding schedule_profile_command insert_if_missing
  schedule_profile_command-IsRow ps = elim (Option-cases (get_profile_row name ps)) [
    | inl missing ↦ (new_profile name, simp missing (insert-IsRow name ps missing))
    | inr (p, there) ↦ (p, simp there (record { this = there; others = λ other differs. refl }))
  ]

  create_schedule_default-IsRow :
      (count : ℤ) (ps : ScheduleProfiles)
      → (p : Profile ScheduleEntry) × (out : ScheduleProfiles) × (create_schedule_default strict
            entry count name ps
          ≡ ok out)
        × IsRow name
            (record p { entries = fold_schedule strict (scheduled entry (rounds count) 0) [] })
            ps
            out
  unfolding create_schedule_default clear_queues
  create_schedule_default-IsRow count ps =
      let made = schedule_profile_command name ps in
      let (p, one) = schedule_profile_command-IsRow ps in
      let cleared = update_row name (λ r. record r { entries = [] }) made in
      let two =
        update_row-IsRow name (λ r. record r { entries = [] }) made p (λ r. refl) one.this in
      (
        p,
        add_schedule_entries strict name entry (rounds count) 0 cleared,
        rw one.this refl,
        IsRow-trans name p _ ps made _ one (
            IsRow-trans name (record p { entries = [] }) _ made cleared _ two
              (add_schedule_entries-IsRow (rounds count) 0 cleared (record p { entries = [] })
                two.this)),
      )

change_entries-marked :
    (es : List (ℤ × ScheduleEntry))
    → All (λ e. e.1.hw_default ≡ true) (change_entries (λ r. record r { hw_default = true }) es)
change_entries-marked [] = tt
change_entries-marked ((k, r) ∷ es) = (refl, change_entries-marked es)

schedule_of-change_entries :
    (es : List (ℤ × ScheduleEntry)) (q : ℤ)
    → schedule_of (change_entries (λ r. record r { hw_default = true }) es) q ≡ schedule_of es q
unfolding get_entry_row
schedule_of-change_entries [] q = refl
schedule_of-change_entries ((k, r) ∷ es) q = elim (Bool-cases (int_eq k q)) [
  | inl e ↦ rw e refl
  | inr e ↦ rw e (schedule_of-change_entries es q)
]

-- The two schedule profiles after `qos_init_schedule_profile`.
pub record AreSchedules (strict : Bytes) (info : YamlQosInfo) (ys : List YamlScheduleProfileEntry)
    (t : ScheduleState) (d f : Profile ScheduleEntry) : Type 0 where
  pub default_row : get_profile_row info.default_name t.profiles ≡ some d
  pub factory_row : get_profile_row info.factory_default_name t.profiles ≡ some f
  pub referred : t.qos ≡ some info.default_name
  pub default_schedule : (q : ℤ) → schedule_of d.entries q ≡ latest strict ys q
  pub factory_schedule : (q : ℤ) → schedule_of f.entries q ≡ latest strict ys q
  pub factory_marked : f.hw_default ≡ true
  pub factory_entries_marked : All (λ e. e.1.hw_default ≡ true) f.entries

-- If the two names are different, `qos_init_schedule_profile` never follows a NULL, and whatever
-- profiles were there: both profiles exist, the System row refers to the default one, and each has
-- for every queue the algorithm of the last entry of config-yaml for it, below the count, with its
-- weight unless the algorithm is strict, and no row for a queue without an entry; the factory
-- default and all of its entries are marked as hardware defaults.
pub init_schedule_profile-AreSchedules :
    (strict : Bytes) (entry : ℕ → Option YamlScheduleProfileEntry) (count : ℤ) (info : YamlQosInfo)
    (s : ScheduleState)
    → info.default_name ≢ info.factory_default_name
    → (t : ScheduleState) × (d : Profile ScheduleEntry) × (f : Profile ScheduleEntry)
      × (init_schedule_profile strict entry count (some info) s ≡ ok t)
      × AreSchedules strict info (scheduled entry (rounds count) 0) t d f
unfolding init_schedule_profile point_to_schedule_default add_schedule_factory_default
    mark_schedule_if_found
init_schedule_profile-AreSchedules strict entry count info s differ =
    let ys = scheduled entry (rounds count) 0 in
    let (p, ps, run, one) =
      create_schedule_default-IsRow strict info.default_name entry count s.profiles in
    let (p', ps', run', two) =
      create_schedule_default-IsRow strict info.factory_default_name entry count ps in
    let f = record p' { entries = fold_schedule strict ys [] } in
    let three =
      update_row-IsRow info.factory_default_name mark_schedule_profile ps' f (λ r. refl) two.this in
    (
      record {
        qos = some info.default_name;
        profiles = update_row info.factory_default_name mark_schedule_profile ps';
      },
      record p { entries = fold_schedule strict ys [] },
      mark_schedule_profile f,
      rw run (rw one.this (rw run' (rw two.this refl))),
      record {
        default_row =
            three.others info.default_name (λ e. differ (sym e))
            ∙ two.others info.default_name (λ e. differ (sym e))
            ∙ one.this;
        factory_row = three.this;
        referred = refl;
        default_schedule = fold_schedule-latest strict ys;
        factory_schedule = λ q.
            schedule_of-change_entries (fold_schedule strict ys []) q
            ∙ fold_schedule-latest strict ys q;
        factory_marked = refl;
        factory_entries_marked = change_entries-marked (fold_schedule strict ys []);
      },
    )
