-- ===== src/Qos/ProfileLaws.antt =====
-- The table of profile rows seen by name, and a map of entries seen by queue number.
use mathlib.Core.Bool.{false≢true}
use ops_sysd.Base.{
  ◌≡◌, ◌≢◌, ◌↔◌, refl, sym, ap, ◌∙◌, true, false, Bool-cases, Option-cases, inl, inr, List, [], ◌∷◌,
  ◌++◌, Option, none, some, arith, ==_iff, if◌then◌else◌, some_inj,
}
use ops_sysd.Base.Int.{ℤ, pos, negsuc}
use ops_sysd.Base.Text.{Bytes, str_eq, str_eq_iff, str_eq_refl, str_eq_ne}
use ops_sysd.Qos.Profiles.{
  int_eq, Profile, get_profile_row, update_row, new_profile, get_entry_row, insert_entry_row,
  update_entry, insert_entry_if_missing, set_entry,
}

pub int_eq_iff : (a b : ℤ) → (int_eq a b ≡ true) ↔ (a ≡ b)
int_eq_iff (pos m) (pos n) = ((λ h. ap pos ((==_iff m n).0 h)), (λ h. (==_iff m n).1 cc))
int_eq_iff (negsuc m) (negsuc n) = ((λ h. ap negsuc ((==_iff m n).0 h)), (λ h. (==_iff m n).1 cc))
int_eq_iff (pos m) (negsuc n) = ((λ h. cc), (λ h. cc))
int_eq_iff (negsuc m) (pos n) = ((λ h. cc), (λ h. cc))

pub int_eq_refl : (a : ℤ) → int_eq a a ≡ true
int_eq_refl a = (int_eq_iff a a).1 refl

abbrev pub or_else {ℓ} : {A : Type ℓ} → A → Option A → A
or_else a none = a
or_else a (some b) = b

module _ {E : Type 0} where
  abbrev pub KeepsName : (Profile E → Profile E) → Type 0
  KeepsName change = (p : Profile E) → (change p).name ≡ p.name

  pub get_profile_row-update_row :
      (name : Bytes) (change : Profile E → Profile E) (ps : List (Profile E)) (p : Profile E)
      → KeepsName change
      → get_profile_row name ps ≡ some p
      → get_profile_row name (update_row name change ps) ≡ some (change p)
  unfolding get_profile_row update_row
  get_profile_row-update_row name change [] p k h = cc
  get_profile_row-update_row name change (r ∷ ps) p k h = elim (Bool-cases (str_eq r.name name)) [
    | inl same ↦
        simp same (simp (k r, same) (ap (λ s. some (change s)) (some_inj (simp same at h))))
    | inr other ↦ simp other (get_profile_row-update_row name change ps p k (simp other at h))
  ]

  pub get_profile_row-update_row_other :
      (name other : Bytes) (change : Profile E → Profile E) (ps : List (Profile E))
      → KeepsName change
      → name ≢ other
      → get_profile_row other (update_row name change ps) ≡ get_profile_row other ps
  unfolding get_profile_row update_row
  get_profile_row-update_row_other name other change [] k h = refl
  get_profile_row-update_row_other name other change (r ∷ ps) k h =
      elim (Bool-cases (str_eq r.name name)) [
        | inl same ↦
            let differs : str_eq r.name other ≡ false =
              str_eq_ne r.name other (λ e. h (sym ((str_eq_iff r.name name).0 same) ∙ e)) in
            simp (same, k r, differs) refl
        | inr not_this ↦
            simp not_this (rw (get_profile_row-update_row_other name other change ps k h))
      ]

  pub get_profile_row-insert :
      (name : Bytes) (ps : List (Profile E))
      → get_profile_row name ps ≡ none
      → get_profile_row name (ps ++ new_profile name ∷ []) ≡ some (new_profile name)
  unfolding get_profile_row
  get_profile_row-insert name [] h = rw (str_eq_refl name) refl
  get_profile_row-insert name (r ∷ ps) h = elim (Bool-cases (str_eq r.name name)) [
    | inl same ↦ absurd (ground (arith, same, h))
    | inr other ↦ simp other (get_profile_row-insert name ps (simp other at h))
  ]

  pub get_profile_row-insert_other :
      (name other : Bytes) (ps : List (Profile E))
      → name ≢ other
      → get_profile_row other (ps ++ new_profile name ∷ []) ≡ get_profile_row other ps
  unfolding get_profile_row
  get_profile_row-insert_other name other [] h = rw (str_eq_ne name other h) refl
  get_profile_row-insert_other name other (r ∷ ps) h =
      rw (get_profile_row-insert_other name other ps h)

  set_entry-cons :
      (queue key : ℤ) (new row : E) (change : E → E) (es : List (ℤ × E))
      → set_entry queue new change ((key, row) ∷ es) ≡ (
          if int_eq key queue
          then (key, change row) ∷ es
          else (key, row) ∷ set_entry queue new change es)
  unfolding set_entry get_entry_row insert_entry_if_missing update_entry insert_entry_row
  set_entry-cons queue key new row change es = elim (Bool-cases (int_eq key queue)) [
    | inl same ↦ simp same refl
    | inr other ↦ simp other (elim (Option-cases (get_entry_row queue es)) [
      | inl missing ↦ simp (missing, other) refl
      | inr (r, found) ↦ simp (found, other) refl
    ])
  ]

  entry-same :
      (queue key other : ℤ) (new row : E) (change : E → E) (es : List (ℤ × E))
      → int_eq key queue ≡ true
      → (if int_eq key other then some (change row) else get_entry_row other es) ≡ (
          if int_eq queue other
          then some (change row)
          else if int_eq key other
          then some row
          else get_entry_row other es)
  entry-same queue key other new row change es same =
      rw ((int_eq_iff key queue).0 same) (elim (Bool-cases (int_eq queue other)) [
        | inl here ↦ rw here refl
        | inr elsewhere ↦ rw elsewhere refl
      ])

  entry-differs :
      (queue key other : ℤ) (row : E) (x y : Option E)
      → int_eq key queue ≡ false
      → (if int_eq key other then some row else if int_eq queue other then x else y)
        ≡ (if int_eq queue other then x else if int_eq key other then some row else y)
  entry-differs queue key other row x y differs = elim (Bool-cases (int_eq key other)) [
    | inr elsewhere ↦ rw elsewhere refl
    | inl here ↦ elim (Bool-cases (int_eq queue other)) [
      | inr not_queue ↦ rw (here, not_queue) refl
      | inl queue_too ↦
          let same : key ≡ queue =
            (int_eq_iff key other).0 here ∙ sym ((int_eq_iff queue other).0 queue_too) in
          absurd (false≢true (sym differs ∙ (int_eq_iff key queue).1 same))
    ]
  ]

  -- The entry of a queue after a change: the changed one, or a changed new one, and all others as
  -- they were.
  pub get_entry_row-set_entry :
      (queue other : ℤ) (new : E) (change : E → E) (es : List (ℤ × E))
      → get_entry_row other (set_entry queue new change es) ≡ (
          if int_eq queue other
          then some (change (or_else new (get_entry_row queue es)))
          else get_entry_row other es)
  unfolding get_entry_row set_entry insert_entry_if_missing update_entry insert_entry_row
  get_entry_row-set_entry queue other new change [] = rw (int_eq_refl queue) refl
  get_entry_row-set_entry queue other new change ((key, row) ∷ es) =
      rw (set_entry-cons queue key new row change es) (elim (Bool-cases (int_eq key queue)) [
        | inl same ↦ simp same (entry-same queue key other new row change es same)
        | inr differs ↦ simp differs (
            rw (get_entry_row-set_entry queue other new change es)
              (entry-differs queue key other row _ _ differs))
      ])

  -- The rows after some work on the profile `name`: that profile, and all others as they were.
  pub record IsRow (name : Bytes) (p : Profile E) (before after : List (Profile E)) : Type 0 where
    pub this : get_profile_row name after ≡ some p
    pub others :
        (other : Bytes) → name ≢ other → get_profile_row other after ≡ get_profile_row other before

  pub IsRow-trans :
      (name : Bytes) (p q : Profile E) (a b c : List (Profile E))
      → IsRow name p a b
      → IsRow name q b c
      → IsRow name q a c
  IsRow-trans name p q a b c f g = record {
    this = g.this;
    others = λ other h. g.others other h ∙ f.others other h;
  }

  pub update_row-IsRow :
      (name : Bytes) (change : Profile E → Profile E) (ps : List (Profile E)) (p : Profile E)
      → KeepsName change
      → get_profile_row name ps ≡ some p
      → IsRow name (change p) ps (update_row name change ps)
  update_row-IsRow name change ps p k h = record {
    this = get_profile_row-update_row name change ps p k h;
    others = λ other differs. get_profile_row-update_row_other name other change ps k differs;
  }

  pub insert-IsRow :
      (name : Bytes) (ps : List (Profile E))
      → get_profile_row name ps ≡ none
      → IsRow name (new_profile name) ps (ps ++ new_profile name ∷ [])
  insert-IsRow name ps h = record {
    this = get_profile_row-insert name ps h;
    others = λ other differs. get_profile_row-insert_other name other ps differs;
  }
