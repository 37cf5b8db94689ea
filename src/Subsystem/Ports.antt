-- ===== src/Subsystem/Ports.antt =====
-- The interfaces of the base subsystem.

use ops_sysd.Base.{
  some_inj, ℕ, zero, suc, ◌+◌, ◌<◌, ◌≡◌, refl, sym, Bool, false, true, List, ◌∷◌, Option, none,
  some, arith, length, get_elem?,
}
use ops_sysd.Base.Int.{ℤ, pos, negsuc}
use ops_sysd.Subsystem.{
  YamlPortInfo, YamlPort, Subsystem, add_port, store_ports, get_ports, get_interface_info,
}

-- The list that `port` gives for idx, idx + 1, …
pub record ArePorts (port : ℕ → Option YamlPort) (idx n : ℕ) (ps : List YamlPort) : Type 0 where
  pub count : length ps ≡ n
  pub at : (i : ℕ) → i < n → get_elem? ps i ≡ port (idx + i)

add_port-some :
    (o : Option YamlPort) (rest : Option (List YamlPort)) {ps : List YamlPort}
    → add_port o rest ≡ some ps
    → (p : YamlPort) × (qs : List YamlPort) × (o ≡ some p) × (rest ≡ some qs) × (ps ≡ p ∷ qs)
unfolding add_port
add_port-some none rest h = cc
add_port-some (some p) none h = cc
add_port-some (some p) (some qs) h = (p, qs, refl, refl, cc)

cons-ArePorts :
    (port : ℕ → Option YamlPort) (idx n : ℕ) (p : YamlPort) (qs : List YamlPort)
    → port idx ≡ some p
    → ArePorts port (idx + 1) n qs
    → ArePorts port idx (suc n) (p ∷ qs)
cons-ArePorts port idx n p qs e r = record { count = omega (arith, r.count); at = go }
  where
    go : (i : ℕ) → i < suc n → get_elem? (p ∷ qs) i ≡ port (idx + i)
    go zero h = let same : idx + 0 ≡ idx = omega arith in rw same (sym e)
    go (suc i) h =
        let same : idx + suc i ≡ idx + 1 + i = omega arith in rw same (r.at i (omega arith))

get_ports-ArePorts :
    (port : ℕ → Option YamlPort) (idx n : ℕ) (ps : List YamlPort)
    → get_ports port idx n ≡ some ps
    → ArePorts port idx n ps
unfolding get_ports
get_ports-ArePorts port idx zero ps h =
    rw (← some_inj h) (record { count = refl; at = λ i lt. absurd (omega arith) })
get_ports-ArePorts port idx (suc n) ps h =
    let (p, qs, e, r, same) = add_port-some (port idx) (get_ports port (idx + 1) n) h in
    rw same (cons-ArePorts port idx n p qs e (get_ports-ArePorts port (idx + 1) n qs r))

store_ports-some :
    (n : ℕ) (info : YamlPortInfo) (s : Subsystem) (o : Option (List YamlPort)) {t : Subsystem}
    → store_ports n info s o ≡ some t
    → (ps : List YamlPort) × (o ≡ some ps)
      × (t ≡ record s { intf_count = n; intf_cmn_info = some info; interfaces = ps })
unfolding store_ports
store_ports-some n info s none h = cc
store_ports-some n info s (some ps) h = (ps, refl, sym (some_inj h))

-- The subsystem is filled in exactly from what the library reports: the count is positive and is
-- the length of the list, entry `i` is port `i`, and all else in the subsystem is as before.
pub get_interface_info-some :
    (info : YamlPortInfo) (count : ℤ) (port : ℕ → Option YamlPort) (array_ok : Bool)
    (s t : Subsystem)
    → get_interface_info (some info) count port array_ok s ≡ some t
    → (n : ℕ) × (count ≡ pos (suc n))
      × ArePorts port 0 (suc n) t.interfaces
      × (t ≡ record s { intf_count = suc n; intf_cmn_info = some info; interfaces = t.interfaces })
unfolding get_interface_info
get_interface_info-some info (negsuc n) port array_ok s t h = cc
get_interface_info-some info (pos zero) port array_ok s t h = cc
get_interface_info-some info (pos (suc n)) port false s t h = cc
get_interface_info-some info (pos (suc n)) port true s t h =
    let (ps, got, same) = store_ports-some (suc n) info s (get_ports port 0 (suc n)) h in
    (n, refl, rw same (get_ports-ArePorts port 0 (suc n) ps got), rw same)
