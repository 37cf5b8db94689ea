-- ===== src/Configure/Speeds.antt =====
-- `sysd_get_speeds_string`: the speeds of an interface in one string, and what can be read back.
use ops_sysd.Base.{
  ℕ, ◌+◌, ◌-◌, ◌*◌, ◌<◌, ◌≤◌, ◌≡◌, refl, Bool, true, false, List, [], ◌∷◌, ◌++◌, ◌==◌, ne→==,
  if◌then◌else◌, ltb, ltb→lt, Bool-cases, inl, inr, length, take, take_whole, length-append, All,
  arith,
}
use mathlib.Core.List.{append_assoc, append-nil}
use ops_sysd.Base.Cstring.{strcat, strcat-fits}
use ops_sysd.Base.Decimal.{decimal, value, IsDigit, value-decimal, digits-IsDigit}
use ops_sysd.Base.Text.{Bytes}
use ops_sysd.Base.Outcome.{Outcome, ok, fault, ◌>>=◌}

abbrev pub comma : ℕ
comma = 44

-- snprintf into `buf`, an array of ten bytes
unfoldable pub speed_text : Bool → ℕ → Bytes
speed_text first speed = take 9 (if first then decimal speed else comma ∷ decimal speed)

-- The loop from the speeds that are left; strncat's bound is no less than what it is given.
unfoldable pub add_speeds : ℕ → Bool → List ℕ → Bytes → Outcome Bytes
add_speeds size first [] speed_str = ok speed_str
add_speeds size first (speed ∷ speeds) speed_str = do
  text ← strcat size speed_str (speed_text first speed)
  add_speeds size false speeds text

-- `sysd_get_speeds_string` for a string in an array of `size` bytes
unfoldable pub get_speeds_string : ℕ → List ℕ → Bytes → Outcome Bytes
unfolding add_speeds
get_speeds_string size speeds speed_str = add_speeds size true speeds speed_str

-- The string as it is meant: the numbers with commas between them.
abbrev pub tail_of : List ℕ → Bytes
tail_of [] = []
tail_of (n ∷ ns) = (comma ∷ decimal n) ++ tail_of ns

abbrev pub joined : List ℕ → Bytes
joined [] = []
joined (n ∷ ns) = decimal n ++ tail_of ns

-- The numbers between the commas.
abbrev pub read_speeds : ℕ → Bytes → List ℕ
read_speeds acc [] = acc ∷ []
read_speeds acc (c ∷ cs) =
    let ended = acc ∷ read_speeds 0 cs in
    let longer = read_speeds (acc * 10 + (c - 48)) cs in if c == comma then ended else longer

abbrev pub IsShort : ℕ → Type 0
IsShort n = length (decimal n) ≤ 8

read_speeds-number :
    (acc : ℕ) (xs ys : Bytes)
    → All IsDigit xs
    → read_speeds acc (xs ++ ys) ≡ read_speeds (value acc xs) ys
read_speeds-number acc [] ys h = refl
read_speeds-number acc (x ∷ xs) ys ((l, u), h) =
    rw (ne→== x comma (λ e. omega (arith, e, l))) (read_speeds-number (acc * 10 + (x - 48)) xs ys h)

read_speeds-tail_of : (n : ℕ) (ns : List ℕ) → read_speeds n (tail_of ns) ≡ n ∷ ns
read_speeds-tail_of n [] = refl
read_speeds-tail_of n (m ∷ ns) =
    rw
      (
        read_speeds-number 0 (decimal m) (tail_of ns) (digits-IsDigit m m),
        value-decimal m,
        read_speeds-tail_of m ns,
      )
      refl

speed_text-first : (n : ℕ) → IsShort n → speed_text true n ≡ decimal n
unfolding speed_text
speed_text-first n h = take_whole (decimal n) 9 (omega (arith, h))

speed_text-later : (n : ℕ) → IsShort n → speed_text false n ≡ comma ∷ decimal n
unfolding speed_text
speed_text-later n h = take_whole (comma ∷ decimal n) 9 (omega (arith, h))

add_speeds-tail_of :
    (size : ℕ) (ns : List ℕ) (s : Bytes)
    → All IsShort ns
    → length s + length (tail_of ns) < size
    → add_speeds size false ns s ≡ ok (s ++ tail_of ns)
unfolding add_speeds
add_speeds-tail_of size [] s h fits = rw (append-nil s) refl
add_speeds-tail_of size (n ∷ ns) s (k, h) fits =
    let text = comma ∷ decimal n in
    let l = length-append text (tail_of ns) in
    let m = length-append s text in
    rw
      (
        speed_text-later n k,
        strcat-fits size s text (omega (arith, fits, l)),
        add_speeds-tail_of size ns (s ++ text) h (omega (arith, fits, l, m)),
        append_assoc s text (tail_of ns),
      )
      refl

add_speeds-overrun :
    (size : ℕ) (ns : List ℕ) (s : Bytes)
    → All IsShort ns
    → length s < size
    → size ≤ length s + length (tail_of ns)
    → add_speeds size false ns s ≡ fault
unfolding add_speeds
add_speeds-overrun size [] s h room over = absurd (omega (arith, room, over))
add_speeds-overrun size (n ∷ ns) s (k, h) room over =
    let text = comma ∷ decimal n in
    let l = length-append text (tail_of ns) in
    let m = length-append s text in
    rw (speed_text-later n k) (elim (Bool-cases (ltb (length s + length text) size)) [
      | inl e ↦ rw e (
          add_speeds-overrun size ns (s ++ text) h
            (omega (arith, ltb→lt (length s + length text) size e, m)) (omega (arith, over, l, m)))
      | inr e ↦ rw e refl
    ])

-- Speeds of at most eight digits, at least one of them, in an array of zeroes of any size: if the
-- numbers with the commas between them leave room for the NUL, they are the string, from which the
-- speeds can be read back.
pub get_speeds_string-joined :
    (size n : ℕ) (ns : List ℕ)
    → All IsShort (n ∷ ns)
    → length (joined (n ∷ ns)) < size
    → (get_speeds_string size (n ∷ ns) [] ≡ ok (joined (n ∷ ns)))
      × (read_speeds 0 (joined (n ∷ ns)) ≡ n ∷ ns)
unfolding get_speeds_string add_speeds
get_speeds_string-joined size n ns (k, h) fits =
    let l = length-append (decimal n) (tail_of ns) in
    (
      rw (speed_text-first n k, strcat-fits size [] (decimal n) (omega (arith, fits, l)))
          (add_speeds-tail_of size ns (decimal n) h (omega (arith, fits, l))),
      rw (read_speeds-number 0 (decimal n) (tail_of ns) (digits-IsDigit n n), value-decimal n)
          (read_speeds-tail_of n ns),
    )

-- Speeds of at most eight digits, at least one of them, in an array of zeroes of any size: if the
-- numbers with the commas between them do not leave room for the NUL, the loop writes past
-- the end of the array, since the size of the array is no bound for what strncat adds to it.
pub get_speeds_string-overrun :
    (size n : ℕ) (ns : List ℕ)
    → All IsShort (n ∷ ns)
    → size ≤ length (joined (n ∷ ns))
    → get_speeds_string size (n ∷ ns) [] ≡ fault
unfolding get_speeds_string add_speeds
get_speeds_string-overrun size n ns (k, h) over =
    let l = length-append (decimal n) (tail_of ns) in
    rw (speed_text-first n k) (elim (Bool-cases (ltb (0 + length (decimal n)) size)) [
      | inl e ↦ rw e (
          add_speeds-overrun size ns (decimal n) h
            (omega (arith, ltb→lt (0 + length (decimal n)) size e)) (omega (arith, over, l)))
      | inr e ↦ rw e refl
    ])
