-- ===== src/Qos/QueueDefaults.antt =====
-- What the two queue profiles hold after the first configuration.
use ops_sysd.Base.{
  ℕ, zero, suc, ◌+◌, ◌≡◌, ◌≢◌, refl, sym, ap, ◌∙◌, Bool, true, false, ◌||◌, Bool-cases,
  Option-cases, inl, inr, List, [], ◌∷◌, ◌++◌, Option, none, some, All,
}
use ops_sysd.Base.Int.{ℤ}
use ops_sysd.Base.Text.{Bytes}
use ops_sysd.Qos.Column.{to_unsigned}
use ops_sysd.Qos.Columns.{YamlQosInfo}
use ops_sysd.Qos.Profiles.{
  int_eq, Profile, get_profile_row, update_row, new_profile, insert_if_missing, get_entry_row,
  change_entries,
}
use ops_sysd.Qos.ProfileLaws.{
  IsRow, IsRow-trans, update_row-IsRow, insert-IsRow, get_profile_row-update_row,
  get_profile_row-update_row_other, get_profile_row-insert,
}
use ops_sysd.Qos.Queues.{
  YamlQueueProfileEntry, QueueEntry, QueueProfiles, queue_profile_command, queue_row_command_at,
  queue_profile_row_command, add_queue_entry, add_queue_entries, mark_queue_profile, QueueState,
  create_queue_default, mark_if_found, add_factory_default, point_to_default, init_queue_profile,
}
use ops_sysd.Qos.QueueLaws.{listed, wants, has, add_entry, configure, has-configure}

module _ (name : Bytes) (entry : ℕ → Option YamlQueueProfileEntry) where
  add_queue_entry-found :
      (y : YamlQueueProfileEntry) (ps : QueueProfiles) (p : Profile QueueEntry)
      → get_profile_row name ps ≡ some p
      → add_queue_entry name (some y) ps
        ≡ update_row name (λ r. record r { entries = add_entry y r.entries }) ps
  unfolding add_queue_entry queue_profile_row_command queue_row_command_at add_entry
  add_queue_entry-found y ps p h =
      ap (λ o. (queue_row_command_at o name y.queue y.local_priority y.description ps).1) h

  add_queue_entry-IsRow :
      (y : YamlQueueProfileEntry) (ps : QueueProfiles) (p : Profile QueueEntry)
      → get_profile_row name ps ≡ some p
      → IsRow name
          (record p { entries = add_entry y p.entries })
          ps
          (add_queue_entry name (some y) ps)
  add_queue_entry-IsRow y ps p h =
      rw (add_queue_entry-found y ps p h) (update_row-IsRow name _ ps p (λ r. refl) h)

  add_queue_entries-IsRow :
      (n ii : ℕ) (ps : QueueProfiles) (p : Profile QueueEntry)
      → get_profile_row name ps ≡ some p
      → IsRow name
          (record p { entries = configure (listed entry n ii) p.entries })
          ps
          (add_queue_entries name entry n ii ps)
  unfolding add_queue_entries configure add_queue_entry
  add_queue_entries-IsRow zero ii ps p h = record { this = h; others = λ other differs. refl }
  add_queue_entries-IsRow (suc n) ii ps p h = elim (Option-cases (entry ii)) [
    | inl missing ↦ simp missing (add_queue_entries-IsRow n (ii + 1) ps p h)
    | inr (y, there) ↦
        let one = add_queue_entry-IsRow y ps p h in
        simp there (
          IsRow-trans name _ _ ps (add_queue_entry name (some y) ps) _ one
            (add_queue_entries-IsRow n (ii + 1) (add_queue_entry name (some y) ps) _ one.this))
  ]

  create_queue_default-IsRow :
      (count : ℤ) (ps : QueueProfiles)
      → get_profile_row name ps ≡ none
      → IsRow name
          (record (new_profile name) {
            entries = configure (listed entry (to_unsigned count) 0) [];
          })
          ps
          (create_queue_default entry count name ps)
  unfolding create_queue_default queue_profile_command insert_if_missing
  create_queue_default-IsRow count ps h = simp h (
      IsRow-trans name (new_profile name) _ ps (ps ++ new_profile name ∷ []) _
        (insert-IsRow name ps h)
        (add_queue_entries-IsRow (to_unsigned count) 0 (ps ++ new_profile name ∷ [])
          (new_profile name) (get_profile_row-insert name ps h)))

change_entries-marked :
    (es : List (ℤ × QueueEntry))
    → All (λ e. e.1.hw_default ≡ true) (change_entries (λ r. record r { hw_default = true }) es)
change_entries-marked [] = tt
change_entries-marked ((k, r) ∷ es) = (refl, change_entries-marked es)

has-change_entries :
    (es : List (ℤ × QueueEntry)) (q p : ℤ)
    → has (change_entries (λ r. record r { hw_default = true }) es) q p ≡ has es q p
unfolding get_entry_row
has-change_entries [] q p = refl
has-change_entries ((k, r) ∷ es) q p = elim (Bool-cases (int_eq k q)) [
  | inl e ↦ rw e refl
  | inr e ↦ rw e (has-change_entries es q p)
]

-- The two profiles of the first configuration.
pub record AreDefaults (info : YamlQosInfo) (ys : List YamlQueueProfileEntry) (t : QueueState)
    (d f : Profile QueueEntry) : Type 0 where
  pub default_row : get_profile_row info.default_name t.profiles ≡ some d
  pub factory_row : get_profile_row info.factory_default_name t.profiles ≡ some f
  pub referred : t.q_profile ≡ some info.default_name
  pub default_maps : (q p : ℤ) → has d.entries q p ≡ wants ys q p
  pub factory_maps : (q p : ℤ) → has f.entries q p ≡ wants ys q p
  pub default_unmarked : d.hw_default ≡ false
  pub factory_marked : f.hw_default ≡ true
  pub factory_entries_marked : All (λ e. e.1.hw_default ≡ true) f.entries

or_false : (b : Bool) → (b || false) ≡ b
or_false true = refl
or_false false = refl

configured-wants :
    (ys : List YamlQueueProfileEntry) (q p : ℤ) → has (configure ys []) q p ≡ wants ys q p
unfolding get_entry_row
configured-wants ys q p = has-configure ys [] q p ∙ or_false (wants ys q p)

-- On tables without a profile of either name, the names being different, `qos_init_queue_profile`
-- makes both: the System row refers to the default one; in each, a queue has a local priority
-- exactly if some entry of config-yaml below the count says so; and the factory default and all of
-- its entries are marked as hardware defaults, while the default one is not.
pub init_queue_profile-AreDefaults :
    (entry : ℕ → Option YamlQueueProfileEntry) (count : ℤ) (info : YamlQosInfo) (s : QueueState)
    → info.default_name ≢ info.factory_default_name
    → get_profile_row info.default_name s.profiles ≡ none
    → get_profile_row info.factory_default_name s.profiles ≡ none
    → (d : Profile QueueEntry) × (f : Profile QueueEntry) × AreDefaults info
        (listed entry (to_unsigned count) 0)
        (init_queue_profile entry count (some info) s)
        d
        f
unfolding init_queue_profile point_to_default add_factory_default mark_if_found
init_queue_profile-AreDefaults entry count info s differ no_default no_factory =
    let ys = listed entry (to_unsigned count) 0 in
    let ps = create_queue_default entry count info.default_name s.profiles in
    let one = create_queue_default-IsRow info.default_name entry count s.profiles no_default in
    let two =
      create_queue_default-IsRow info.factory_default_name entry count ps
        (one.others info.factory_default_name differ ∙ no_factory) in
    let f = record (new_profile info.factory_default_name) { entries = configure ys [] } in
    let ps' = create_queue_default entry count info.factory_default_name ps in
    (
      record (new_profile info.default_name) { entries = configure ys [] },
      mark_queue_profile f,
      rw one.this (
          rw two.this (record {
            default_row =
                get_profile_row-update_row_other info.factory_default_name info.default_name
                  mark_queue_profile ps' (λ r. refl) (λ e. differ (sym e))
                ∙ two.others info.default_name (λ e. differ (sym e))
                ∙ one.this;
            factory_row =
                get_profile_row-update_row info.factory_default_name mark_queue_profile ps' f
                  (λ r. refl) two.this;
            referred = refl;
            default_maps = λ q p. configured-wants ys q p;
            factory_maps =
                λ q p. has-change_entries (configure ys []) q p ∙ configured-wants ys q p;
            default_unmarked = refl;
            factory_marked = refl;
            factory_entries_marked = change_entries-marked (configure ys []);
          })),
    )
