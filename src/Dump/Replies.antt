-- ===== src/Dump/Replies.antt =====
-- What the two callers of `sysd_dump` give of a manifest that main has read.
use ops_sysd.Base.{
  ◌≤◌, ◌≡◌, refl, sym, ap, ◌∙◌, subst, Bool, true, false, inl, inr, Bool-cases, List, [], ◌∷◌, some,
  length, take, All, All-append, arith,
}
use ops_sysd.Base.Text.{Bytes}
use ops_sysd.Base.Outcome.{ok}
use ops_sysd.Dump.{buf_len, mgmt_name, dump, diag_dump_basic_cb, unixctl_dump}
use ops_sysd.Dump.Text.{IsInt64, IsDumpable, dump_text, dump-text}
use ops_sysd.Manifest.{DaemonInfo, Manifest, has_tag, name_in_daemon_table, new_daemon, count_hw}
use ops_sysd.Manifest.Counts.{IsRead, daemons_of, all_daemons}
use ops_sysd.Manifest.Sections.{Section, daemons_section, mgmt_section, sections}
use ops_sysd.Manifest.Tree.{Json, Members, json_object, no_member, member}

count_hw-le-length : (ds : List DaemonInfo) → count_hw ds ≤ length ds
unfolding count_hw
count_hw-le-length [] = omega arith
count_hw-le-length (d ∷ ds) = ground (arith, count_hw-le-length ds)

abbrev HasInt64 : DaemonInfo → Type 0
HasInt64 d = IsInt64 d.cur_hw

new_daemon-HasInt64 : (name : Bytes) (ms : Members) → HasInt64 (new_daemon name ms)
unfolding new_daemon
new_daemon-HasInt64 name ms = elim (Bool-cases (has_tag name name_in_daemon_table)) [
  | inl e ↦ rw e (omega arith)
  | inr e ↦ rw e (omega arith)
]

daemons_of-HasInt64 : (ms : Members) → All HasInt64 (daemons_of ms)
daemons_of-HasInt64 no_member = tt
daemons_of-HasInt64 (member name (json_object ms) rest) =
    (new_daemon-HasInt64 name ms, daemons_of-HasInt64 rest)
daemons_of-HasInt64 (member name _ rest) = daemons_of-HasInt64 rest

all_daemons-HasInt64 : (ss : List Section) → All HasInt64 (all_daemons ss)
all_daemons-HasInt64 [] = tt
all_daemons-HasInt64 (daemons_section ms ∷ ss) =
    All-append HasInt64 (daemons_of ms) (all_daemons ss) (daemons_of-HasInt64 ms)
      (all_daemons-HasInt64 ss)
all_daemons-HasInt64 (mgmt_section ms ∷ ss) = all_daemons-HasInt64 ss

pub IsRead-IsDumpable :
    (j : Json) (m : Manifest) (mgmt : Bytes)
    → IsRead j m
    → mgmt_name m.mgmt_intf ≡ ok mgmt
    → IsDumpable m mgmt
IsRead-IsDumpable j m mgmt r e = record {
  counted = omega (arith, r.num_hw_daemons_is, count_hw-le-length m.daemons);
  values = subst (All HasInt64) (sym r.daemons_are) (all_daemons-HasInt64 (sections j));
  mgmt_is = e;
}

dump-read :
    (j : Json) (m : Manifest) (mgmt : Bytes)
    → IsRead j m
    → mgmt_name m.mgmt_intf ≡ ok mgmt
    → dump buf_len m ≡ ok (take 15999 (dump_text (count_hw m.daemons) m.daemons mgmt))
dump-read j m mgmt r e =
    dump-text 15999 m mgmt (omega arith) (IsRead-IsDumpable j m mgmt r e)
    ∙ ap (λ n. ok (take 15999 (dump_text n m.daemons mgmt))) r.num_hw_daemons_is

-- For a manifest that was read and has a management interface, the command ops-sysd/dump and the
-- diagnostic dump give the same text, if there is memory: that of the first daemons, as many as there
-- are hardware daemons among all, and of the management interface, cut to 15999 bytes, with no title of
-- the command before it.
pub unixctl_dump-read :
    (j : Json) (m : Manifest) (mgmt : Bytes)
    → IsRead j m
    → mgmt_name m.mgmt_intf ≡ ok mgmt
    → (unixctl_dump true m ≡ ok (take 15999 (dump_text (count_hw m.daemons) m.daemons mgmt)))
      × (diag_dump_basic_cb true m
          ≡ ok (some (take 15999 (dump_text (count_hw m.daemons) m.daemons mgmt))))
unfolding unixctl_dump diag_dump_basic_cb
unixctl_dump-read j m mgmt r e = let text = dump-read j m mgmt r e in (text, rw text refl)

-- The command replies, whether or not it is given memory.
pub unixctl_dump-returns :
    (m : Manifest) (mgmt : Bytes) (calloc_ok : Bool)
    → IsDumpable m mgmt
    → (reply : Bytes) × (unixctl_dump calloc_ok m ≡ ok reply)
unfolding unixctl_dump
unixctl_dump-returns m mgmt false p = (_, refl)
unixctl_dump-returns m mgmt true p = (_, dump-text 15999 m mgmt (omega arith) p)
