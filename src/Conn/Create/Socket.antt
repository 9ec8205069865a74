-- ===== src/Conn/Create/Socket.antt =====
-- `create` on a socket's path: what the validator of the URI accepts has a host and a port.
use Prim.Native.Char.{code}
use Prim.Native.String.{len}
use Prim.Native.String.len
use text.Mathlib.TextLemmas.{cons-append, nil-append, append_assoc}
use text.Mathlib.TextPositions.{len_utf8-pos}
use zabbix_agent2_plugin_pos.Prelude.{
  ℕ, ◌≤◌, String, ◌<>◌, ◌≡◌, refl, sym, ap, ◌∙◌, Bool, true, false, ==_refl, string_eq, leb, arith,
}
use zabbix_agent2_plugin_pos.Prelude.Text.FilePath.{is_slash, dir, base, ext}
use zabbix_agent2_plugin_pos.Prelude.Text.FilePath.Endings.{Lacks, is_dot, base-append, ext-append}
use zabbix_agent2_plugin_pos.Errors.{ok}
use zabbix_agent2_plugin_pos.Client.Values.{Formats}
use zabbix_agent2_plugin_pos.Sdk.{Sdk}
use zabbix_agent2_plugin_pos.Metrics.Validator.{is_socket_path, is_digit}
use zabbix_agent2_plugin_pos.Metrics.Validator.Laws.{Each, chars, IsPort, is_socket_path_iff}
use zabbix_agent2_plugin_pos.Conn.Query.{Sql}
use zabbix_agent2_plugin_pos.Conn.Create.{Url, ConnId, endpoint}

digits-Lacks :
    (p : ℕ → Bool) (ds : String)
    → ((c : ℕ) → is_digit c ≡ true → p c ≡ false)
    → Each is_digit ds
    → Lacks p ds
digits-Lacks p String.[] other h = tt
digits-Lacks p (String.◌∷◌ c ds) other (here, h) = (other (code c) here, digits-Lacks p ds other h)

Lacks-append : (p : ℕ → Bool) (s t : String) → Lacks p s → Lacks p t → Lacks p (s <> t)
Lacks-append p String.[] t h k = rw (nil-append t) k
Lacks-append p (String.◌∷◌ c s) t (other, h) k =
    rw (cons-append c s t) (other, Lacks-append p s t h k)

-- A name with its port.
whole_name : (ds : String) → ".s.PGSQL." <> ds ≡ String.◌∷◌ "." ("s.PGSQL." <> ds)
whole_name ds = cons-append "." "s.PGSQL." ds

dotted_port : (ds : String) → ".s.PGSQL." <> ds ≡ ".s.PGSQL" <> String.◌∷◌ "." ds
dotted_port ds =
    append_assoc ".s.PGSQL" "." ds
    ∙ ap (λ t. ".s.PGSQL" <> t) (cons-append "." "" ds ∙ ap (λ t. String.◌∷◌ "." t) (nil-append ds))

-- The text from the last dot of the name on.
socket_ext :
    (pre ds : String) → Each is_digit ds → ext (base (pre <> ".s.PGSQL." <> ds)) ≡ String.◌∷◌ "." ds
socket_ext pre ds each =
    let slash = digits-Lacks is_slash ds (λ c h. ground arith) each in
    let dot = digits-Lacks is_dot ds (λ c h. ground arith) each in
    let (x, e) = base-append pre "." ("s.PGSQL." <> ds) (
      refl,
      Lacks-append is_slash "s.PGSQL." ds
          (refl, (refl, (refl, (refl, (refl, (refl, (refl, (refl, tt)))))))) slash,
    ) in
    ap (λ n. ext (base (pre <> n))) (whole_name ds)
    ∙ ap ext (
        e
        ∙ ap (λ t. x <> t) (sym (whole_name ds) ∙ dotted_port ds)
        ∙ sym (append_assoc x ".s.PGSQL" _))
    ∙ ext-append (x <> ".s.PGSQL") ds slash dot

-- A dot and a digit are more than one byte.
longer : (ds : String) → 1 ≤ chars ds → leb (len (String.◌∷◌ "." ds)) 1 ≡ false
longer String.[] h = absurd (omega (arith, h))
longer (String.◌∷◌ c ds) h =
    let (k, wide) = len_utf8-pos c in
    let first = len.cons "." (String.◌∷◌ c ds) in
    let second = len.cons c ds in ground (arith, first, second, wide)

module _ (S : Sdk) (U : Url) {W : Type 0} (D : Sql W) (F : Formats) where
  -- If a URI of the scheme "unix" has an address that the validator's regular expression accepts,
  -- then `create` does not refuse it: the host is the address's directory, and the port is the one
  -- to five digits at the end of the address.
  pub endpoint-socket :
      (ci : ConnId S)
      → S.scheme ci.uri ≡ "unix"
      → is_socket_path (S.addr ci.uri) ≡ true
      → (pre : String) × (ds : String) × (S.addr ci.uri ≡ pre <> ".s.PGSQL." <> ds)
        × IsPort ds
        × (endpoint S U D F ci ≡ ok (dir (S.addr ci.uri), ds))
  unfolding endpoint
  endpoint-socket ci unix accepted =
      let (pre, ds, e, _, port) = (is_socket_path_iff (S.addr ci.uri)).0 accepted in
      let tail : ext (base (S.addr ci.uri)) ≡ String.◌∷◌ "." ds =
        ap (λ a. ext (base a)) e ∙ socket_ext pre ds port.0 in
      (
        pre,
        ds,
        e,
        port,
        rw unix (rw (==_refl {A = String} "unix") (rw tail (rw (longer ds port.1) refl))),
      )
