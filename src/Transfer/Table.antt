-- ===== src/Transfer/Table.antt =====
-- A full transfer of the sample store against its table.
use mathlib.Core.List.{Perm, Permᴰ, Perm-prop}
use mathlib.Core.List.Perm
use mathlib.Core.Logic.{∥∥₁_elim}
use contractdb.Base.{true, List, [], ◌∷◌, Bytes, map, ◌≡◌, refl, ap, subst, append-nil}
use contractdb.Assoc.{Distinct, bytes_key}
use contractdb.Text.{equal_fold}
use contractdb.Dns.{Rr, Msg, Question, IsDnsLib}
use contractdb.Item.{Item, Entry}
use contractdb.Store.Sample.{SampleStore, sample_ops, sample_reader, sample_list}
use contractdb.Store.Sample.Listing.{pair_of, sample_list_lem}
use contractdb.Handler.{Config, Handler, Env, ResponseWriter}
use contractdb.Transfer.{page_rrs, pages_rrs, handle_axfr}
use contractdb.Transfer.Streams.{IsSound, Transfers, handle_axfr-Transfers}
use contractdb.Update.Delta.{table_rrs, rrs_of, Perm-front, table_rrs-cons}

module _ (env : Env) (cfg : Config) where
  swapped :
      (a b : Bytes × Item) (l : List (Bytes × Item))
      → Perm (table_rrs env cfg (a ∷ b ∷ l)) (table_rrs env cfg (b ∷ a ∷ l))
  swapped a b l =
      rw
        (
          table_rrs-cons env cfg a.0 a.1 (b ∷ l),
          table_rrs-cons env cfg b.0 b.1 l,
          table_rrs-cons env cfg b.0 b.1 (a ∷ l),
          table_rrs-cons env cfg a.0 a.1 l,
        )
        (Perm-front env cfg (rrs_of env cfg a.0 a.1) (rrs_of env cfg b.0 b.1) (table_rrs env cfg l))

  table_rrs-Permᴰ :
      {xs ys : List (Bytes × Item)}
      → Permᴰ xs ys
      → Perm (table_rrs env cfg xs) (table_rrs env cfg ys)
  table_rrs-Permᴰ Permᴰ.nil = Perm.refl (table_rrs env cfg [])
  table_rrs-Permᴰ (Permᴰ.cons {a} {b} {l₁} {l₂} e p) =
      rw (table_rrs-cons env cfg a.0 a.1 l₁, table_rrs-cons env cfg b.0 b.1 l₂, e)
        (Perm.append_left (rrs_of env cfg b.0 b.1) (table_rrs-Permᴰ p))
  table_rrs-Permᴰ (Permᴰ.swap {a} {b} {a'} {b'} {l} e e') =
      subst (λ c. Perm (table_rrs env cfg (a ∷ b ∷ l)) (table_rrs env cfg (c ∷ b' ∷ l))) e'
        (subst (λ c. Perm (table_rrs env cfg (a ∷ b ∷ l)) (table_rrs env cfg (b ∷ c ∷ l))) e
          (swapped a b l))
  table_rrs-Permᴰ (Permᴰ.trans p q) = Perm.trans (table_rrs-Permᴰ p) (table_rrs-Permᴰ q)

  table_rrs-Perm :
      (xs ys : List (Bytes × Item))
      → Perm xs ys
      → Perm (table_rrs env cfg xs) (table_rrs env cfg ys)
  table_rrs-Perm xs ys p = ∥∥₁_elim p Perm-prop table_rrs-Permᴰ

  map-pair_of :
      (page : List Entry)
      → map (λ (p : Bytes × Item). record { key = p.0; item = p.1 }) (map pair_of page) ≡ page
  map-pair_of [] = refl
  map-pair_of (e ∷ page) = ap (◌∷◌ e) (map-pair_of page)

  pages_rrs-pair_of :
      (page : List Entry)
      → pages_rrs env sample_ops cfg (page ∷ []) ≡ table_rrs env cfg (map pair_of page)
  unfolding pages_rrs table_rrs
  pages_rrs-pair_of page = rw (map-pair_of page) (append-nil (page_rrs env sample_ops cfg page))

-- AXFR of the zone from the sample store, over TCP with no failing write: between the two SOA
-- records stand exactly the records of the table, in some order.
pub handle_axfr-Perm :
    (env : Env) (laws : IsDnsLib env.lib) (h : Handler SampleStore) (w : ResponseWriter) (req : Msg)
    (sound : IsSound w) (q : Question)
    → Distinct h.store.items
    → equal_fold q.name h.cfg.zone ≡ true
    → (rrs : List Rr) × Transfers env sample_ops laws h w req sound rrs
        (handle_axfr env sample_ops h w req q)
      × Perm rrs (table_rrs env h.cfg h.store.items)
handle_axfr-Perm env laws h w req sound q d zone =
    let (page, pages, whole, up, same) = sample_list_lem h.store d in
    (
      pages_rrs env sample_ops h.cfg (sample_list h.store).pages,
      handle_axfr-Transfers env sample_ops laws h w req sound q sample_reader zone refl whole,
      rw (pages, pages_rrs-pair_of env h.cfg page)
          (table_rrs-Perm env h.cfg (map pair_of page) h.store.items same),
    )
