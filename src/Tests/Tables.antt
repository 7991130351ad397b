-- ===== src/Tests/Tables.antt =====
-- The table of the sample store.
use mathlib.Core.List.{Perm}
use mathlib.Core.Option
use contractdb.Base.{List, [], ◌++◌, codes, bytes_eq, ◌≡◌, refl, arith}
use contractdb.Assoc.{lookup, Distinct, bytes_key}
use contractdb.Text.{equal_fold, to_lower, lower}
use contractdb.Dns.{Rr}
use contractdb.Dns.Kind
use contractdb.Store.Sample.{sample_ops}
use contractdb.Journal.{succ32, log_record}
use contractdb.Transfer.{handle_axfr}
use contractdb.Transfer.Streams.{Transfers}
use contractdb.Transfer.Table.{handle_axfr-Perm}
use contractdb.Update.{process_update, contains, key_set}
use contractdb.Update.Delta.{table_rrs, process_update-delta}
use contractdb.Tests.Setup.{env, lib-IsDnsLib, config, stored, handler, tcp_writer}
use contractdb.Tests.Updates.{put_a, put_a-plan, one_insertion}
use contractdb.Tests.Serving.{asking, question, tcp_writer-IsSound}

pub stored-Distinct : Distinct stored.items
unfolding lookup bytes_eq
stored-Distinct = (refl, (refl, tt))

process_update-delta_example :
    (removed added : List Rr) × ((process_update env sample_ops handler put_a).handler.changelog
      ≡ Option.map (λ c. log_record c (succ32 handler.serial) removed added) handler.changelog)
    × ((process_update env sample_ops handler put_a).handler.serial ≡ succ32 handler.serial)
    × Perm
        (removed
          ++ table_rrs env config (process_update env sample_ops handler put_a).handler.store.items)
        (added ++ table_rrs env config stored.items)
unfolding lookup bytes_eq contains key_set
process_update-delta_example =
    process_update-delta env handler put_a [] (codes "a") one_insertion put_a-plan refl
      (omega arith) stored-Distinct (λ e. cc)

handle_axfr-Perm_example :
    (rrs : List Rr) × Transfers env sample_ops lib-IsDnsLib handler tcp_writer
      (asking (codes "db.") Kind.axfr)
      tcp_writer-IsSound
      rrs
      (handle_axfr env sample_ops handler tcp_writer
        (asking (codes "db.") Kind.axfr)
        (question (codes "db.") Kind.axfr))
    × Perm rrs (table_rrs env config stored.items)
unfolding equal_fold to_lower lower bytes_eq
handle_axfr-Perm_example =
    handle_axfr-Perm env lib-IsDnsLib handler tcp_writer (asking (codes "db.") Kind.axfr)
      tcp_writer-IsSound (question (codes "db.") Kind.axfr) stored-Distinct refl
