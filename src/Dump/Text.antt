-- ===== src/Dump/Text.antt =====
-- The dump is the text that it is meant to be, cut at the end of the buffer.
use mathlib.Core.List.{append_assoc, append-nil}
use ops_sysd.Base.{
  ℕ, zero, suc, ◌+◌, ◌-◌, ◌*◌, ◌/◌, ◌%◌, ◌^◌, ◌≤◌, ◌<◌, ◌≡◌, refl, sym, ap, ◌∙◌, Bool, true, false,
  Bool-cases, inl, inr, List, [], ◌∷◌, ◌++◌, ltb, lt→ltb, ltb→le, length, length-append, take,
  take_whole, length-take, All, arith,
}
use ops_sysd.Base.Cstring.{strcpy, strcpy-fits}
use ops_sysd.Base.Decimal.{digits}
use ops_sysd.Base.Int.{ℤ, pos, negsuc}
use ops_sysd.Base.Printf.{print_int}
use ops_sysd.Base.Text.{Bytes}
use ops_sysd.Base.Outcome.{ok}
use ops_sysd.Dump.{
  daemon_title, column_line, mgmt_title, tabs, flag_text, strncat, dump_daemon, dump_daemons,
  mgmt_name, dump,
}
use ops_sysd.Manifest.{DaemonInfo, Manifest}

-- 10 ^ k
abbrev power : ℕ → ℕ
power zero = 1
power (suc k) = 10 * power k

length-digits : (fuel n k : ℕ) → n ≤ fuel → n < power (suc k) → length (digits fuel n) ≤ suc k
unfolding digits
length-digits zero n k f h = omega arith
length-digits (suc fuel) n zero f h = ground arith
length-digits (suc fuel) n (suc k) f h = elim (Bool-cases (ltb n 10)) [
  | inl e ↦ rw e (omega arith)
  | inr e ↦
      let big = ltb→le n 10 e in
      let rest = length-digits fuel (n / 10) k (omega (arith, big)) (omega (arith, h)) in
      rw e (rw (length-append (digits fuel (n / 10)) ((48 + n % 10) ∷ [])) (omega (arith, rest)))
]

-- The values of an int64_t
abbrev pub IsInt64 : ℤ → Type 0
IsInt64 (pos n) = n < 2 ^ 63
IsInt64 (negsuc n) = n < 2 ^ 63

print_int-short : (i : ℤ) → IsInt64 i → length (print_int i) < 100
print_int-short (pos n) h = omega (arith, length-digits n n 19 (omega arith) (omega (arith, h)))
print_int-short (negsuc n) h =
    omega (arith, length-digits (suc n) (suc n) 19 (omega arith) (omega (arith, h)))

take-append_take :
    (limit : ℕ) (xs ys : Bytes)
    → take limit xs ++ take (limit - length (take limit xs)) ys ≡ take limit (xs ++ ys)
take-append_take zero xs ys = refl
take-append_take (suc limit) [] ys = let n : suc limit - 0 ≡ suc limit = omega arith in rw n refl
take-append_take (suc limit) (x ∷ xs) ys =
    let n : suc limit - suc (length (take limit xs)) ≡ limit - length (take limit xs) =
      omega arith in
    rw n (ap (◌∷◌ x) (take-append_take limit xs ys))

-- strncat, on a text that has been cut at the end of the buffer
strncat-cut :
    (limit : ℕ) (text src : Bytes)
    → strncat (suc limit) (take limit text) src ≡ ok (take limit (text ++ src))
unfolding strncat
strncat-cut limit text src =
    let room : length (take limit text) < suc limit = omega (arith, length-take limit text) in
    let left : suc limit - 1 - length (take limit text) ≡ limit - length (take limit text) =
      omega arith in
    rw (lt→ltb _ _ room, left, take-append_take limit text src) refl

-- The line of a daemon
abbrev pub daemon_text : DaemonInfo → Bytes
daemon_text d =
    d.name ++ (tabs ++ (flag_text d.is_hw_handler ++ (tabs ++ (print_int d.cur_hw ++ 10 ∷ []))))

abbrev pub daemons_text : List DaemonInfo → Bytes
daemons_text [] = []
daemons_text (d ∷ ds) = daemon_text d ++ daemons_text ds

flag_text-short : (flag : Bool) → strcpy 100 (flag_text flag) ≡ ok (flag_text flag)
unfolding digits
flag_text-short true = refl
flag_text-short false = refl

append_six :
    (t a b c d e f : Bytes)
    → (((((t ++ a) ++ b) ++ c) ++ d) ++ e) ++ f ≡ t ++ (a ++ (b ++ (c ++ (d ++ (e ++ f)))))
append_six t a b c d e f = simp append_assoc

dump_daemon-cut :
    (limit : ℕ) (d : DaemonInfo) (text : Bytes)
    → IsInt64 d.cur_hw
    → dump_daemon (suc limit) d (take limit text) ≡ ok (take limit (text ++ daemon_text d))
unfolding dump_daemon
dump_daemon-cut limit d text h =
    let flag = flag_text d.is_hw_handler in
    let number = print_int d.cur_hw in
    rw
      (
        strncat-cut limit text d.name,
        strncat-cut limit (text ++ d.name) tabs,
        flag_text-short d.is_hw_handler,
        strncat-cut limit ((text ++ d.name) ++ tabs) flag,
        strncat-cut limit (((text ++ d.name) ++ tabs) ++ flag) tabs,
        strcpy-fits 100 number (print_int-short d.cur_hw h),
        strncat-cut limit ((((text ++ d.name) ++ tabs) ++ flag) ++ tabs) number,
        strncat-cut limit (((((text ++ d.name) ++ tabs) ++ flag) ++ tabs) ++ number) (10 ∷ []),
      )
      (ap (λ x. ok (take limit x)) (append_six text d.name tabs flag tabs number (10 ∷ [])))

dump_daemons-cut :
    (limit n : ℕ) (ds : List DaemonInfo) (text : Bytes)
    → n ≤ length ds
    → All (λ d. IsInt64 d.cur_hw) ds
    → dump_daemons (suc limit) n ds (take limit text)
      ≡ ok (take limit (text ++ daemons_text (take n ds)))
unfolding dump_daemons
dump_daemons-cut limit zero ds text h v = ap (λ x. ok (take limit x)) (sym (append-nil text))
dump_daemons-cut limit (suc n) [] text h v = absurd (omega arith)
dump_daemons-cut limit (suc n) (d ∷ ds) text h (v, vs) =
    rw
      (
        dump_daemon-cut limit d text v,
        dump_daemons-cut limit n ds (text ++ daemon_text d) (omega arith) vs,
      )
      (ap (λ x. ok (take limit x)) (append_assoc text (daemon_text d) (daemons_text (take n ds))))

-- What the dump is meant to say, with `n` daemons
abbrev pub dump_text : ℕ → List DaemonInfo → (mgmt : Bytes) → Bytes
dump_text n ds mgmt =
    daemon_title ++ (column_line ++ (daemons_text (take n ds) ++ (mgmt_title ++ (mgmt ++ 10 ∷ []))))

append_five :
    (t a b c d e : Bytes) → ((((t ++ a) ++ b) ++ c) ++ d) ++ e ≡ t ++ (a ++ (b ++ (c ++ (d ++ e))))
append_five t a b c d e = simp append_assoc

-- What the dump needs: no more hardware daemons than daemons, values of an int64_t, and a management
-- interface whose name ends in its block.
pub record IsDumpable (m : Manifest) (mgmt : Bytes) : Type 0 where
  pub counted : m.num_hw_daemons ≤ length m.daemons
  pub values : All (λ d. IsInt64 d.cur_hw) m.daemons
  pub mgmt_is : mgmt_name m.mgmt_intf ≡ ok mgmt

-- Into a buffer with room for the title, whatever it held: nothing is written outside, and the buffer
-- then holds the text of the dump with its NUL, cut at the end of the buffer. The text has the
-- first daemons of the manifest, as many as there are hardware daemons, and the management interface.
pub dump-text :
    (limit : ℕ) (m : Manifest) (mgmt : Bytes)
    → length daemon_title ≤ limit
    → IsDumpable m mgmt
    → dump (suc limit) m ≡ ok (take limit (dump_text m.num_hw_daemons m.daemons mgmt))
unfolding dump
dump-text limit m mgmt room p =
    let rows = daemons_text (take m.num_hw_daemons m.daemons) in
    let start : strcpy (suc limit) daemon_title ≡ ok (take limit daemon_title) =
      strcpy-fits (suc limit) daemon_title (omega arith)
      ∙ ap ok (sym (take_whole daemon_title limit room)) in
    rw
      (
        start,
        strncat-cut limit daemon_title column_line,
        dump_daemons-cut limit m.num_hw_daemons m.daemons (daemon_title ++ column_line) p.counted
            p.values,
        strncat-cut limit ((daemon_title ++ column_line) ++ rows) mgmt_title,
        p.mgmt_is,
        strncat-cut limit (((daemon_title ++ column_line) ++ rows) ++ mgmt_title) mgmt,
        strncat-cut limit ((((daemon_title ++ column_line) ++ rows) ++ mgmt_title) ++ mgmt)
            (10 ∷ []),
      )
      (ap (λ x. ok (take limit x))
        (append_five daemon_title column_line rows mgmt_title mgmt (10 ∷ [])))
