-- ===== src/Qos/QueueLaws.antt =====
-- Which local priorities the entries of a queue profile map to which queue.
use ops_sysd.Base.{
  ℕ, zero, suc, ◌+◌, ◌≡◌, refl, ap, ◌∙◌, Bool, true, false, ◌&&◌, ◌||◌, Bool-cases, inl, inr, List,
  [], ◌∷◌, ◌++◌, Option, none, some,
}
use ops_sysd.Base.Int.{ℤ}
use ops_sysd.Base.Text.{Bytes}
use ops_sysd.Qos.Profiles.{int_eq, get_entry_row, set_entry}
use ops_sysd.Qos.ProfileLaws.{int_eq_iff, int_eq_refl, or_else, get_entry_row-set_entry}
use ops_sysd.Qos.Queues.{
  YamlQueueProfileEntry, QueueEntry, new_entry, has_local_priority, add_local_priority,
  set_description, update_queue_row,
}

-- The entries that config-yaml gives for ii, ii + 1, …, without the NULLs.
abbrev add_listed :
    Option YamlQueueProfileEntry → List YamlQueueProfileEntry → List YamlQueueProfileEntry
add_listed none ys = ys
add_listed (some y) ys = y ∷ ys

abbrev pub listed : (ℕ → Option YamlQueueProfileEntry) → (left ii : ℕ) → List YamlQueueProfileEntry
listed entry zero ii = []
listed entry (suc left) ii = add_listed (entry ii) (listed entry left (ii + 1))

-- Some entry maps the priority to the queue.
abbrev pub wants : List YamlQueueProfileEntry → ℤ → ℤ → Bool
wants [] queue priority = false
wants (y ∷ ys) queue priority =
    (int_eq y.queue queue && int_eq y.local_priority priority) || wants ys queue priority

abbrev pub row_has : Option QueueEntry → ℤ → Bool
row_has none priority = false
row_has (some r) priority = has_local_priority r.local_priorities priority

-- The map has the priority in the row of the queue.
abbrev pub has : List (ℤ × QueueEntry) → ℤ → ℤ → Bool
has es queue priority = row_has (get_entry_row queue es) priority

unfoldable pub add_entry : YamlQueueProfileEntry → List (ℤ × QueueEntry) → List (ℤ × QueueEntry)
add_entry y es = set_entry y.queue new_entry (update_queue_row y.local_priority y.description) es

unfoldable pub configure :
    List YamlQueueProfileEntry → List (ℤ × QueueEntry) → List (ℤ × QueueEntry)
configure [] es = es
configure (y ∷ ys) es = configure ys (add_entry y es)

has_local_priority-append :
    (ps : List ℤ) (p q : ℤ)
    → has_local_priority (ps ++ p ∷ []) q ≡ (int_eq p q || has_local_priority ps q)
unfolding has_local_priority
has_local_priority-append [] p q = elim (Bool-cases (int_eq p q)) [
  | inl e ↦ rw e refl
  | inr e ↦ rw e refl
]
has_local_priority-append (r ∷ ps) p q = elim (Bool-cases (int_eq r q)) [
  | inl e ↦ elim (Bool-cases (int_eq p q)) [ inl e' ↦ rw (e, e') refl | inr e' ↦ rw (e, e') refl ]
  | inr e ↦ rw e (has_local_priority-append ps p q)
]

has_local_priority-add_local_priority :
    (p q : ℤ) (r : QueueEntry)
    → has_local_priority (add_local_priority p r).local_priorities q
      ≡ (int_eq p q || has_local_priority r.local_priorities q)
unfolding add_local_priority
has_local_priority-add_local_priority p q r =
    elim (Bool-cases (has_local_priority r.local_priorities p)) [
      | inr e ↦ simp e (has_local_priority-append r.local_priorities p q)
      | inl e ↦ simp e (elim (Bool-cases (int_eq p q)) [
        | inr e' ↦ rw e' refl
        | inl e' ↦ rw (← (int_eq_iff p q).0 e') (simp (e, int_eq_refl p) refl)
      ])
    ]

local_priorities-set_description :
    (d : Option Bytes) (r : QueueEntry)
    → (set_description d r).local_priorities ≡ r.local_priorities
unfolding set_description
local_priorities-set_description none r = refl
local_priorities-set_description (some t) r = refl

has_local_priority-update_queue_row :
    (p q : ℤ) (d : Option Bytes) (r : QueueEntry)
    → has_local_priority (update_queue_row p d r).local_priorities q
      ≡ (int_eq p q || has_local_priority r.local_priorities q)
unfolding update_queue_row
has_local_priority-update_queue_row p q d r =
    ap (λ ps. has_local_priority ps q) (local_priorities-set_description d (add_local_priority p r))
    ∙ has_local_priority-add_local_priority p q r

row_has-or_else :
    (o : Option QueueEntry) (p : ℤ)
    → has_local_priority (or_else new_entry o).local_priorities p ≡ row_has o p
unfolding has_local_priority
row_has-or_else none p = refl
row_has-or_else (some r) p = refl

has-add_entry :
    (y : YamlQueueProfileEntry) (es : List (ℤ × QueueEntry)) (q p : ℤ)
    → has (add_entry y es) q p ≡ ((int_eq y.queue q && int_eq y.local_priority p) || has es q p)
unfolding add_entry
has-add_entry y es q p =
    rw
      (get_entry_row-set_entry y.queue q new_entry (update_queue_row y.local_priority y.description)
        es)
      (elim (Bool-cases (int_eq y.queue q)) [
        | inr e ↦ rw e refl
        | inl e ↦ rw e (
            has_local_priority-update_queue_row y.local_priority p y.description
              (or_else new_entry (get_entry_row y.queue es))
            ∙ ap (λ b. int_eq y.local_priority p || b)
                (row_has-or_else (get_entry_row y.queue es) p
                  ∙ ap (λ k. has es k p) ((int_eq_iff y.queue q).0 e)))
      ])

or_swap : (a b c : Bool) → (a || (b || c)) ≡ ((b || a) || c)
or_swap true true c = refl
or_swap true false c = refl
or_swap false true c = refl
or_swap false false c = refl

pub has-configure :
    (ys : List YamlQueueProfileEntry) (es : List (ℤ × QueueEntry)) (q p : ℤ)
    → has (configure ys es) q p ≡ (wants ys q p || has es q p)
unfolding configure
has-configure [] es q p = refl
has-configure (y ∷ ys) es q p =
    has-configure ys (add_entry y es) q p
    ∙ ap (λ b. wants ys q p || b) (has-add_entry y es q p)
    ∙ or_swap (wants ys q p) (int_eq y.queue q && int_eq y.local_priority p) (has es q p)
