-- ===== src/Update/Checks.antt =====
-- evalPrerequisites of update.go.
use contractdb.Base.{
  ℕ, Bool, true, false, ◌&&◌, not, Option, none, some, List, [], ◌∷◌, Bytes, bytes_eq, ◌==◌,
  if◌then◌else◌,
}
use contractdb.Text.{to_lower}
use contractdb.Txt.{decode_txt_strings}
use contractdb.Dns.{Rr, Body, Header}
use contractdb.Dns.Kind
use contractdb.Dns.Class
use contractdb.Dns.Rcode
use contractdb.Item.{Item, Json}
use contractdb.Store.{ok, failed, Store}
use contractdb.Names.{parse_key}

abbrev pub txt_of : Body → Option (List Bytes)
txt_of (Body.txt strings) = some strings
txt_of _ = none

abbrev exists : Item → Bool
exists none = false
exists (some fs) = true

abbrev pub is_kind : Header → ℕ → ℕ → Bool
is_kind hdr class rrtype = hdr.class == class && hdr.rrtype == rrtype

-- The value-dependent prerequisite.
unfoldable pub value_rcode : Json → Body → Item → ℕ
value_rcode json body item = elim (txt_of body) [
  | none ↦ Rcode.nx_rrset
  | some strings ↦ if not (exists item) then Rcode.nx_rrset else elim (decode_txt_strings strings) [
    | none ↦ Rcode.format_error
    | some want ↦ elim (json.marshal item) [
      | none ↦ Rcode.server_failure
      | some blob ↦ if not (bytes_eq blob want) then Rcode.nx_rrset else Rcode.success
    ]
  ]
]

-- The switch of evalPrerequisites, success for a prerequisite that holds.
unfoldable pub prerequisite_rcode : Json → Rr → Item → ℕ
prerequisite_rcode json rr item =
    if is_kind rr.hdr Class.any Kind.any
    then (if not (exists item) then Rcode.name_error else Rcode.success)
    else if is_kind rr.hdr Class.none_ Kind.any
    then (if exists item then Rcode.yx_domain else Rcode.success)
    else if is_kind rr.hdr Class.any Kind.txt
    then (if not (exists item) then Rcode.nx_rrset else Rcode.success)
    else if is_kind rr.hdr Class.none_ Kind.txt
    then (if exists item then Rcode.yx_rrset else Rcode.success)
    else if is_kind rr.hdr Class.inet Kind.txt
    then value_rcode json rr.body item
    else Rcode.format_error

-- The two checks and the read in front of the switch.
unfoldable pub check_prerequisite : {S : Type 0} → Json → Store S → S → Bytes → Rr → ℕ
check_prerequisite json ops s zone rr = elim (parse_key zone (to_lower rr.hdr.name)) [
  | none ↦ Rcode.not_zone
  | some key ↦ if not (rr.hdr.ttl == 0) then Rcode.format_error else elim (ops.get s key) [
    | failed ↦ Rcode.server_failure
    | ok item ↦ prerequisite_rcode json rr item
  ]
]

unfoldable pub eval_prerequisites : {S : Type 0} → Json → Store S → S → Bytes → List Rr → ℕ
eval_prerequisites json ops s zone [] = Rcode.success
eval_prerequisites json ops s zone (rr ∷ rrs) =
    let code = check_prerequisite json ops s zone rr in
    let rest = eval_prerequisites json ops s zone rrs in
    if code == Rcode.success then rest else code
