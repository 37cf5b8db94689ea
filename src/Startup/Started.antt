-- ===== src/Startup/Started.antt =====
-- What main has when it comes to its loop.
use ops_sysd.Base.{
  ℕ, suc, ◌<◌, ◌≡◌, refl, sym, ap, ◌∙◌, Bool, true, false, inl, inr, [], ◌∷◌, Option, none, some,
  Option-cases, length, arith,
}
use ops_sysd.Base.Int.{ℤ}
use ops_sysd.Base.Text.{Bytes}
use ops_sysd.Base.Outcome.{
  ok, Rc, rc_zero, rc_minus_one, Ensures, Ensures-bind, Ensures-self, Ensures-after,
}
use ops_sysd.Configure.Tables.{Globals}
use ops_sysd.Manifest.{Manifest, initial, read_manifest_file}
use ops_sysd.Manifest.Counts.{IsRead, read_manifest_file-IsRead}
use ops_sysd.Manifest.Tree.{Json}
use ops_sysd.Startup.CfgYaml.{is_complete, cfg_yaml_init, cfg_yaml_init-is_complete}
use ops_sysd.Startup.HwDesc.{HwDesc, find_hw_desc_files}
use ops_sysd.Startup.Main.{
  StartEnv, Start, running, no_link, after_interfaces, after_subsystem, after_yaml, after_link,
  after_manifest, start,
}
use ops_sysd.Subsystem.{YamlPortInfo, YamlPort, Subsystem, get_subsystem_info, get_interface_info}
use ops_sysd.Subsystem.Ports.{get_interface_info-some}

-- The subsystem of the globals: it has its interfaces, as many as counted and at least one.
pub record HasInterfaces (s : Subsystem) : Type 0 where
  pub info : YamlPortInfo
  pub info_is : s.intf_cmn_info ≡ some info
  pub counted : s.intf_count ≡ length s.interfaces
  pub some_interface : 0 < s.intf_count

pub record IsRunning (env : StartEnv) (g : Globals) : Type 0 where
  pub document : Json
  pub document_is : env.manifest_info ≡ some document
  pub manifest_read : IsRead document g.manifest
  pub yaml_complete : is_complete env.yaml ≡ true
  pub subsystem : Subsystem
  pub one : g.subsystems ≡ subsystem ∷ []
  pub interfaces : HasInterfaces subsystem

-- An exit promises nothing.
abbrev pub IsStarted : StartEnv → Start → Type 0
IsStarted env (running g) = IsRunning env g
IsStarted env _ = Unit

get_interface_info-HasInterfaces :
    (info : Option YamlPortInfo) (count : ℤ) (port : ℕ → Option YamlPort) (array_ok : Bool)
    (s t : Subsystem)
    → get_interface_info info count port array_ok s ≡ some t
    → HasInterfaces t
unfolding get_interface_info
get_interface_info-HasInterfaces none count port array_ok s t h = cc
get_interface_info-HasInterfaces (some info) count port array_ok s t h =
    let (n, _, ports, e) = get_interface_info-some info count port array_ok s t h in
    let counted : t.intf_count ≡ suc n = ap (λ x. x.intf_count) e in
    record {
      info = info;
      info_is = ap (λ x. x.intf_cmn_info) e;
      counted = counted ∙ sym ports.count;
      some_interface = omega (arith, counted);
    }

after_subsystem-IsStarted :
    (env : StartEnv) (j : Json) (m : Manifest) (dir : Bytes) (o : Option Subsystem)
    → env.manifest_info ≡ some j
    → IsRead j m
    → is_complete env.yaml ≡ true
    → IsStarted env (after_subsystem env m dir o)
unfolding after_subsystem after_interfaces
after_subsystem-IsStarted env j m dir none e r c = tt
after_subsystem-IsStarted env j m dir (some s) e r c =
    elim (Option-cases (get_interface_info env.port_info env.port_count env.port env.array_ok s)) [
      | inl n ↦ rw n tt
      | inr (t, n) ↦ rw n (record {
        document = j;
        document_is = e;
        manifest_read = r;
        yaml_complete = c;
        subsystem = t;
        one = refl;
        interfaces =
            get_interface_info-HasInterfaces env.port_info env.port_count env.port env.array_ok s t
              n;
      })
    ]

after_yaml-IsStarted :
    (env : StartEnv) (j : Json) (m : Manifest) (dir : Bytes) (y : Bool × Bool)
    → env.manifest_info ≡ some j
    → IsRead j m
    → y.0 ≡ is_complete env.yaml
    → Ensures (IsStarted env) (after_yaml env m dir y)
unfolding after_yaml
after_yaml-IsStarted env j m dir (false, fru_yaml) e r c = tt
after_yaml-IsStarted env j m dir (true, fru_yaml) e r c =
    Ensures-after (IsStarted env)
      (get_subsystem_info env.crc32 (record env.fru { fru_yaml = fru_yaml }) env.mac_value
        env.list_ok env.block_ok)
      _ (λ o. after_subsystem-IsStarted env j m dir o e r (sym c))

after_link-IsStarted :
    (env : StartEnv) (j : Json) (m : Manifest) (r : Rc × HwDesc)
    → env.manifest_info ≡ some j
    → IsRead j m
    → Ensures (IsStarted env) (after_link env m r)
unfolding after_link
after_link-IsStarted env j m (rc_minus_one, h) e r = tt
after_link-IsStarted env j m (rc_zero, h) e r = elim (Option-cases h.g_hw_desc_dir) [
  | inl n ↦ simp n tt
  | inr (dir, n) ↦ simp n (
      after_yaml-IsStarted env j m dir (cfg_yaml_init env.yaml true) e r
        (cfg_yaml_init-is_complete env.yaml true).0)
]

after_manifest-IsStarted :
    (env : StartEnv) (o : Option Json) (r : Rc × Manifest)
    → env.manifest_info ≡ o
    → read_manifest_file env.manifest_calloc_ok env.manifest_block o initial ≡ ok r
    → Ensures (IsStarted env) (after_manifest env r)
unfolding after_manifest read_manifest_file
after_manifest-IsStarted env o (rc_minus_one, m) e h = tt
after_manifest-IsStarted env none (rc_zero, m) e h = cc
after_manifest-IsStarted env (some j) (rc_zero, m) e h =
    after_link-IsStarted env j m (find_hw_desc_files env.platform no_link) e
      (read_manifest_file-IsRead env.manifest_calloc_ok env.manifest_block j m h)

-- Whatever the files and the libraries give: if main comes to its loop, then a manifest was there, and
-- the daemons and their counts are those of its document; all YAML files that are needed were there;
-- and there is one subsystem, with information on its interfaces, of which there is at least one and
-- as many as counted.
pub start-IsStarted : (env : StartEnv) → Ensures (IsStarted env) (start env)
unfolding start
start-IsStarted env =
    let read =
      read_manifest_file env.manifest_calloc_ok env.manifest_block env.manifest_info initial in
    Ensures-bind (IsStarted env) (λ r. read ≡ ok r) read _ (Ensures-self read)
      (λ r h. after_manifest-IsStarted env env.manifest_info r refl h)
