-- ===== src/Tests/Updates.antt =====
-- Updates of the sample store.
use contractdb.Base.{
  List, [], ◌∷◌, ◌++◌, Bytes, codes, bytes_eq, All, ◌≡◌, ◌↔◌, refl, if◌then◌else◌,
}
use contractdb.Assoc.{lookup, insert, remove}
use contractdb.Base32.{encode, decode_string}
use contractdb.Text.{
  to_lower, lower, to_upper, upper, has_prefix, has_suffix, split, first_label, equal_fold,
}
use contractdb.Txt.{decode_txt_strings, chunk_bytes}
use contractdb.Dns.{Rr, Body, Question, Msg, new_msg}
use contractdb.Dns.Kind
use contractdb.Dns.Class
use contractdb.Dns.Rcode
use contractdb.Dns.Opcode
use contractdb.Store.{ok}
use contractdb.Store.Sample.{sample_ops, sample_writer, sample_get, sample_put, sample_delete}
use contractdb.Names.{
  pad_raw, parse_key, key_of_rest, item_name, is_safe, safe_parts, safe_part, all_safe,
}
use contractdb.Handler.{item_rrs, commit_write, soa, soa_with_serial, txt_rr_chunks}
use contractdb.Update.{
  go_on, Insertion, process_update, process_with, apply_plan, plan, apply, apply_one, write, finish,
  eval_prerequisites, check_prerequisite, prerequisite_rcode, collect, collect_rr, collect_strings,
  add_strings, insertions, insertion_of, key_set, contains, old_rrs, insertion_rrs,
}
use contractdb.Update.Atomic.{Applied, Atomically, process_update-Atomically}
use contractdb.Update.Effects.{sample_FailsClean, item_after, sample_get-Applied}
use contractdb.Update.Prerequisites.{Holds, eval_prerequisites_iff}
use contractdb.Serve.{count_query}
use contractdb.Tests.Setup.{env, tsig_rr, json, item, quoted, config, stored, handler}

unfoldable pub program : Unit {0}
unfolding process_update process_with apply_plan plan apply apply_one write finish
    eval_prerequisites check_prerequisite prerequisite_rcode collect collect_rr collect_strings
    add_strings insertions insertion_of key_set contains old_rrs insertion_rrs parse_key key_of_rest
    item_name is_safe safe_parts safe_part all_safe item_rrs commit_write soa soa_with_serial
    txt_rr_chunks sample_get sample_put sample_delete bytes_eq to_lower lower to_upper upper
    has_prefix has_suffix split first_label equal_fold pad_raw decode_string encode
    decode_txt_strings chunk_bytes lookup insert remove
program = tt

abbrev pub zone_question : Question
zone_question = record { name = codes "db."; qtype = Kind.soa; qclass = Class.inet }

-- A record of class IN and type TXT that adds the item of a text.
abbrev pub adds : Bytes → Bytes → Rr
adds name s = record {
  hdr = record { name = name; rrtype = Kind.txt; class = Class.inet; ttl = 0 };
  body = Body.txt (quoted s ∷ []);
}

abbrev pub in_use : Bytes → Rr
in_use name = record {
  hdr = record { name = name; rrtype = Kind.any; class = Class.any; ttl = 0 };
  body = Body.other [];
}

abbrev pub put_a : Msg
put_a = record new_msg {
  opcode = Opcode.update;
  question = zone_question ∷ [];
  answer = in_use (codes "A.db.") ∷ [];
  ns = adds (codes "a.db.") (codes "z") ∷ [];
}

abbrev pub one_insertion : List Insertion
one_insertion = record { pk = codes "a"; item = item (codes "z") } ∷ []

code-put_a : (process_update env sample_ops handler put_a).code ≡ Rcode.success
unfolding program
code-put_a = refl

pub plan-put_a :
    plan env sample_ops (count_query handler) (record put_a { extra = tsig_rr ∷ [] })
    ≡ go_on ([], one_insertion)
unfolding program
plan-put_a = refl

process_update-Atomically_example :
    Atomically env sample_ops handler put_a (process_update env sample_ops handler put_a)
process_update-Atomically_example =
    process_update-Atomically env sample_ops handler put_a sample_FailsClean

pub put_a-plan : plan env sample_ops handler put_a ≡ go_on ([], one_insertion)
unfolding program
put_a-plan = refl

put_a-Applied :
    Applied env sample_ops handler sample_writer
      (codes "a")
      one_insertion
      (process_update env sample_ops handler put_a)
unfolding program
put_a-Applied = record {
  old = item (codes "x");
  was = refl;
  succeeds = refl;
  code = refl;
  store = refl;
  serial = refl;
  cfg = refl;
  changelog = refl;
  notified = refl;
}

sample_get-Applied_example :
    sample_get (process_update env sample_ops handler put_a).handler.store (codes "b") ≡ (
      if bytes_eq (codes "a") (codes "b")
      then ok (item_after one_insertion)
      else sample_get stored (codes "b"))
unfolding program
sample_get-Applied_example =
    sample_get-Applied env handler [] (codes "a") one_insertion
      (process_update env sample_ops handler put_a) refl put_a-Applied (codes "b")

-- Two names of the key `a`.
abbrev put_twice : Msg
put_twice = record put_a {
  ns = adds (codes "a.db.") (codes "z") ∷ adds (codes "k-me.db.") (codes "w") ∷ [];
}

abbrev two_insertions : List Insertion
two_insertions = one_insertion ++ record { pk = codes "a"; item = item (codes "w") } ∷ []

put_twice-Applied :
    Applied env sample_ops handler sample_writer
      (codes "a")
      two_insertions
      (process_update env sample_ops handler put_twice)
unfolding program
put_twice-Applied = record {
  old = item (codes "x");
  was = refl;
  succeeds = refl;
  code = refl;
  store = refl;
  serial = refl;
  cfg = refl;
  changelog = refl;
  notified = refl;
}

abbrev a_rrs : Bytes → List Rr
a_rrs s = txt_rr_chunks config (codes "a.db.") (quoted s ∷ []) ∷ []

eval_prerequisites_iff_example :
    (eval_prerequisites json sample_ops stored (codes "db.") (in_use (codes "A.db.") ∷ [])
      ≡ Rcode.success)
    ↔ All (Holds json sample_ops stored (codes "db.")) (in_use (codes "A.db.") ∷ [])
eval_prerequisites_iff_example =
    eval_prerequisites_iff json sample_ops stored (codes "db.") (in_use (codes "A.db.") ∷ [])
