-- ===== src/HwDone/Own.antt =====
-- The rows of the hardware daemons themselves, and the rows that the loop of
-- `sysd_chk_if_hw_daemons_done` takes for theirs.
use mathlib.Core.Bool.{false≢true}
use ops_sysd.Base.{
  ◌<◌, ◌≡◌, ◌≢◌, ◌↔◌, ◌⊎◌, inl, inr, refl, sym, ◌∙◌, true, Bool-cases, List, [], ◌∷◌, arith, All,
  length,
}
use ops_sysd.Base.Int.{ℤ, pos, negsuc, is_positive}
use ops_sysd.Base.Text.{Begins, strn_eq, strn_eq-Begins, strn_eq_self}
use ops_sysd.Manifest.{DaemonInfo, count_hw}
use ops_sysd.HwDone.{DaemonRow, is_row_of, found_set, not_found, find_row, is_done}
use ops_sysd.HwDone.Decision.{IsFound, IsFoundSet, found-is_done, is_done-found}

abbrev pub Any : (DaemonRow → Type 0) → List DaemonRow → Type 0
Any P [] = ⊥
Any P (r ∷ rs) = P r ⊎ Any P rs

abbrev pub IsAbove : ℤ → Type 0
IsAbove (pos n) = 0 < n
IsAbove (negsuc n) = ⊥

-- The row of the daemon: its name, the whole of it, and the mark of a hardware daemon.
abbrev pub IsOwn : DaemonInfo → DaemonRow → Type 0
IsOwn d r = (r.name ≡ d.name) × (r.is_hw_handler ≡ true)

abbrev pub IsUp : DaemonInfo → DaemonRow → Type 0
IsUp d r = IsOwn d r × IsAbove r.cur_hw

-- A hardware daemon has a row of its own.
abbrev pub IsRegistered : List DaemonRow → DaemonInfo → Type 0
IsRegistered rows d = d.is_hw_handler ≡ true → Any (IsOwn d) rows

-- A hardware daemon has set `cur_hw` in a row of its own.
abbrev pub HasReported : List DaemonRow → DaemonInfo → Type 0
HasReported rows d = d.is_hw_handler ≡ true → Any (IsUp d) rows

-- The name of no other hardware daemon in the table begins with the daemon's name.
abbrev pub IsApart : List DaemonRow → DaemonInfo → Type 0
IsApart rows d = All (λ r. r.is_hw_handler ≡ true → Begins d.name r.name → r.name ≡ d.name) rows

-- Every name is in the table once.
abbrev pub AreDistinct : List DaemonRow → Type 0
AreDistinct [] = Unit
AreDistinct (r ∷ rs) = All (λ s. s.name ≢ r.name) rs × AreDistinct rs

is_positive_iff : (z : ℤ) → (is_positive z ≡ true) ↔ IsAbove z
is_positive_iff (pos n) = ground arith
is_positive_iff (negsuc n) = ((λ h. cc), (λ h. absurd h))

is_row_of-own : (d : DaemonInfo) (r : DaemonRow) → IsOwn d r → is_row_of d.name r ≡ true
is_row_of-own d r (named, marked) = rw (marked, named) (strn_eq_self d.name)

-- Apart from the others, a row that the loop takes is the daemon's own.
IsOwn-is_row_of :
    (d : DaemonInfo) (r : DaemonRow)
    → (r.is_hw_handler ≡ true → Begins d.name r.name → r.name ≡ d.name)
    → is_row_of d.name r ≡ true
    → IsOwn d r
IsOwn-is_row_of d r apart h =
    let marked : r.is_hw_handler ≡ true = ground arith in
    let same : strn_eq d.name r.name (length d.name) ≡ true = ground arith in
    (apart marked (strn_eq-Begins d.name r.name same), marked)

find_row-found :
    (d : DaemonInfo) (rows : List DaemonRow) → Any (IsOwn d) rows → find_row d.name rows ≢ not_found
unfolding find_row
find_row-found d [] a = absurd a
find_row-found d (r ∷ rs) a = elim (Bool-cases (is_row_of d.name r)) [
  | inl m ↦ elim (Bool-cases (is_positive r.cur_hw)) [
    | inl p ↦ rw (m, p) (λ e. cc)
    | inr p ↦ rw (m, p) (λ e. cc)
  ]
  | inr m ↦ elim a [
    | inl own ↦ absurd (false≢true (sym m ∙ is_row_of-own d r own))
    | inr rest ↦ rw m (find_row-found d rs rest)
  ]
]

find_row-IsUp :
    (d : DaemonInfo) (rows : List DaemonRow)
    → IsApart rows d
    → find_row d.name rows ≡ found_set
    → Any (IsUp d) rows
unfolding find_row
find_row-IsUp d [] apart h = cc
find_row-IsUp d (r ∷ rs) (apart, others) h = elim (Bool-cases (is_row_of d.name r)) [
  | inl m ↦ elim (Bool-cases (is_positive r.cur_hw)) [
    | inl p ↦ inl (IsOwn-is_row_of d r apart m, (is_positive_iff r.cur_hw).0 p)
    | inr p ↦ absurd (ground arith)
  ]
  | inr m ↦ inr (find_row-IsUp d rs others (ground arith))
]

distinct-up :
    (d : DaemonInfo) (r : DaemonRow) (rs : List DaemonRow)
    → All (λ s. s.name ≢ r.name) rs
    → r.name ≡ d.name
    → Any (IsUp d) rs
    → ⊥
distinct-up d r [] h named a = a
distinct-up d r (s ∷ rs) (differ, h) named (inl up) = differ (up.0.0 ∙ sym named)
distinct-up d r (s ∷ rs) (differ, h) named (inr a) = distinct-up d r rs h named a

up-find_row :
    (d : DaemonInfo) (rows : List DaemonRow)
    → IsApart rows d
    → AreDistinct rows
    → Any (IsUp d) rows
    → find_row d.name rows ≡ found_set
unfolding find_row
up-find_row d [] apart distinct a = absurd a
up-find_row d (r ∷ rs) (apart, others) (differ, distinct) (inl (own, above)) =
    rw (is_row_of-own d r own) (rw ((is_positive_iff r.cur_hw).1 above) refl)
up-find_row d (r ∷ rs) (apart, others) (differ, distinct) (inr a) =
    elim (Bool-cases (is_row_of d.name r)) [
      | inl m ↦ absurd (distinct-up d r rs differ (IsOwn-is_row_of d r apart m).0 a)
      | inr m ↦ rw m (up-find_row d rs others distinct a)
    ]

module _ (rows : List DaemonRow) where
  All-IsFound : (ds : List DaemonInfo) → All (IsRegistered rows) ds → All (IsFound rows) ds
  All-IsFound [] h = tt
  All-IsFound (d ∷ ds) (g, h) = ((λ hw. find_row-found d rows (g hw)), All-IsFound ds h)

  All-HasReported :
      (ds : List DaemonInfo)
      → All (IsApart rows) ds
      → All (IsFoundSet rows) ds
      → All (HasReported rows) ds
  All-HasReported [] a h = tt
  All-HasReported (d ∷ ds) (apart, a) (g, h) =
      ((λ hw. find_row-IsUp d rows apart (g hw)), All-HasReported ds a h)

  All-IsFoundSet :
      (ds : List DaemonInfo)
      → All (IsApart rows) ds
      → AreDistinct rows
      → All (HasReported rows) ds
      → All (IsFoundSet rows) ds
  All-IsFoundSet [] a distinct h = tt
  All-IsFoundSet (d ∷ ds) (apart, a) distinct (g, h) =
      ((λ hw. up-find_row d rows apart distinct (g hw)), All-IsFoundSet ds a distinct h)

  pub is_done-HasReported :
      (ds : List DaemonInfo)
      → All (IsRegistered rows) ds
      → All (IsApart rows) ds
      → is_done ds (count_hw ds) rows ≡ true
      → All (HasReported rows) ds
  is_done-HasReported ds g a e = All-HasReported ds a (is_done-found rows ds (All-IsFound ds g) e)

  -- With a row of its own in the Daemon table for every hardware daemon of the manifest, no name in
  -- the table twice, and no hardware daemon in it whose name begins with a different name of the
  -- manifest, and the number of hardware daemons as counted from the manifest: the check goes through
  -- exactly when every hardware daemon of the manifest has `cur_hw` above 0 in its own row.
  pub is_done_iff :
      (ds : List DaemonInfo)
      → All (IsRegistered rows) ds
      → All (IsApart rows) ds
      → AreDistinct rows
      → (is_done ds (count_hw ds) rows ≡ true) ↔ All (HasReported rows) ds
  is_done_iff ds g a distinct =
      (is_done-HasReported ds g a, (λ h. found-is_done rows ds (All-IsFoundSet ds a distinct h)))
