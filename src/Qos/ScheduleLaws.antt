-- ===== src/Qos/ScheduleLaws.antt =====
-- Which algorithm and weight the entries of a schedule profile give to which queue.
use ops_sysd.Base.{
  ℕ, zero, suc, ◌+◌, ◌≡◌, refl, ap, ◌∙◌, Bool-cases, inl, inr, List, [], ◌∷◌, Option, none, some,
  if◌then◌else◌,
}
use ops_sysd.Base.Int.{ℤ}
use ops_sysd.Base.Text.{Bytes, str_eq}
use ops_sysd.Qos.Profiles.{int_eq, get_entry_row, set_entry, update_entry, insert_entry_if_missing}
use ops_sysd.Qos.ProfileLaws.{get_entry_row-set_entry}
use ops_sysd.Qos.Schedules.{
  insert_queue_if_missing, set_queue, YamlScheduleProfileEntry, ScheduleEntry, new_queue,
  update_schedule_row,
}

-- The entries that config-yaml gives for ii, ii + 1, …, without the NULLs.
abbrev add_scheduled :
    Option YamlScheduleProfileEntry → List YamlScheduleProfileEntry → List YamlScheduleProfileEntry
add_scheduled none ys = ys
add_scheduled (some y) ys = y ∷ ys

abbrev pub scheduled :
    (ℕ → Option YamlScheduleProfileEntry) → (left ii : ℕ) → List YamlScheduleProfileEntry
scheduled entry zero ii = []
scheduled entry (suc left) ii = add_scheduled (entry ii) (scheduled entry left (ii + 1))

-- What an entry asks for: its algorithm, and its weight unless the algorithm is strict.
abbrev pub Columns : Type 0
Columns = Bytes × Option ℤ

abbrev pub asked : Bytes → YamlScheduleProfileEntry → Columns
asked strict y = (y.algorithm, if str_eq y.algorithm strict then none else some y.weight)

abbrev or_earlier : Option Columns → Option Columns → Option Columns
or_earlier none c = c
or_earlier (some c) _ = some c

-- The last entry for a queue counts.
abbrev pub latest : Bytes → List YamlScheduleProfileEntry → ℤ → Option Columns
latest strict [] queue = none
latest strict (y ∷ ys) queue =
    or_earlier (latest strict ys queue)
      (if int_eq y.queue queue then some (asked strict y) else none)

abbrev columns_of : Option ScheduleEntry → Option Columns
columns_of none = none
columns_of (some r) = some (r.algorithm, r.weight)

-- The algorithm and the weight that the map has for a queue.
abbrev pub schedule_of : List (ℤ × ScheduleEntry) → ℤ → Option Columns
schedule_of es queue = columns_of (get_entry_row queue es)

insert_queue_if_missing-entry :
    (queue : ℤ) (o : Option ScheduleEntry) (es : List (ℤ × ScheduleEntry))
    → insert_queue_if_missing queue o es ≡ insert_entry_if_missing queue new_queue o es
unfolding insert_queue_if_missing insert_entry_if_missing
insert_queue_if_missing-entry queue none es = refl
insert_queue_if_missing-entry queue (some row) es = refl

-- The queue and the schedule profiles set their entries in the same way.
set_queue-set_entry :
    (queue : ℤ) (change : ScheduleEntry → ScheduleEntry) (es : List (ℤ × ScheduleEntry))
    → set_queue queue change es ≡ set_entry queue new_queue change es
unfolding set_queue set_entry
set_queue-set_entry queue change es =
    ap (update_entry queue change) (insert_queue_if_missing-entry queue (get_entry_row queue es) es)

module _ (strict : Bytes) where
  unfoldable pub add_schedule :
      YamlScheduleProfileEntry → List (ℤ × ScheduleEntry) → List (ℤ × ScheduleEntry)
  add_schedule y es = set_queue y.queue (update_schedule_row strict y.algorithm y.weight) es

  unfoldable pub fold_schedule :
      List YamlScheduleProfileEntry → List (ℤ × ScheduleEntry) → List (ℤ × ScheduleEntry)
  fold_schedule [] es = es
  fold_schedule (y ∷ ys) es = fold_schedule ys (add_schedule y es)

  or_earlier_assoc :
      (a b c : Option Columns) → or_earlier a (or_earlier b c) ≡ or_earlier (or_earlier a b) c
  or_earlier_assoc none b c = refl
  or_earlier_assoc (some a) b c = refl

  schedule_of-add_schedule :
      (y : YamlScheduleProfileEntry) (es : List (ℤ × ScheduleEntry)) (q : ℤ)
      → schedule_of (add_schedule y es) q
        ≡ or_earlier (if int_eq y.queue q then some (asked strict y) else none) (schedule_of es q)
  unfolding add_schedule update_schedule_row
  schedule_of-add_schedule y es q =
      rw
        (
          set_queue-set_entry y.queue (update_schedule_row strict y.algorithm y.weight) es,
          get_entry_row-set_entry y.queue q new_queue
              (update_schedule_row strict y.algorithm y.weight) es,
        )
        (elim (Bool-cases (int_eq y.queue q)) [ inl e ↦ rw e refl | inr e ↦ rw e refl ])

  schedule_of-fold_schedule :
      (ys : List YamlScheduleProfileEntry) (es : List (ℤ × ScheduleEntry)) (q : ℤ)
      → schedule_of (fold_schedule ys es) q ≡ or_earlier (latest strict ys q) (schedule_of es q)
  unfolding fold_schedule
  schedule_of-fold_schedule [] es q = refl
  schedule_of-fold_schedule (y ∷ ys) es q =
      schedule_of-fold_schedule ys (add_schedule y es) q
      ∙ ap (or_earlier (latest strict ys q)) (schedule_of-add_schedule y es q)
      ∙ or_earlier_assoc (latest strict ys q) _ _

  or_earlier-none : (a : Option Columns) → or_earlier a none ≡ a
  or_earlier-none none = refl
  or_earlier-none (some a) = refl

  pub fold_schedule-latest :
      (ys : List YamlScheduleProfileEntry) (q : ℤ)
      → schedule_of (fold_schedule ys []) q ≡ latest strict ys q
  unfolding get_entry_row
  fold_schedule-latest ys q =
      schedule_of-fold_schedule ys [] q ∙ or_earlier-none (latest strict ys q)
