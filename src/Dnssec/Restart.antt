-- ===== src/Dnssec/Restart.antt =====
-- A server that starts again finds its key.
use contractdb.Base.{
  false, some, ◌∷◌, Bytes, bytes_eq_refl, is_empty, ◌≡◌, refl, sym, ap, ◌∙◌, subst, arith, inl, inr,
  Bool-cases, Option-cases,
}
use contractdb.Assoc.{lookup, insert, bytes_key, lookup-insert}
use contractdb.Dns.{NameLib}
use contractdb.Dnssec.{OnlineSigner}
use contractdb.Dnssec.Keys.{
  KeyLib, Files, IsKeyLib, pem_type, point, signer_of, load_pem, saved_pem, save_pem, fresh,
  key_path, new_online_signer,
}

module _ {K : Type 0} (keys : KeyLib K) (names : NameLib) (laws : IsKeyLib keys names) where
  loaded_again :
      (zone : Bytes) (k : K) (p text : Bytes)
      → keys.generate ≡ some (k, p)
      → saved_pem keys names k ≡ some text
      → load_pem keys names zone text ≡ some (signer_of keys names zone k p)
  unfolding saved_pem load_pem
  loaded_again zone k p text made saved = elim (Option-cases (keys.marshal_private k)) [
    | inl e ↦ absurd (ground (arith, e))
    | inr (der, e) ↦
        let is_text : keys.pem_encode pem_type der ≡ text = ground (arith, e) in
        let (xy, bytes, whole, field) = laws.from_point k p made in
        let coordinates : point (4 ∷ xy) ≡ some p = ground (arith, whole, field) in
        rw
          (
            sym is_text,
            laws.pem_back der,
            bytes_eq_refl pem_type,
            laws.key_back k der e,
            laws.on_curve k p made,
            bytes,
            coordinates,
          )
          refl
  ]

  -- Behind `fresh` for a path, the file is there and is loaded as the same signer.
  fresh-load :
      (files after : Files) (zone path : Bytes) (s : OnlineSigner)
      → fresh keys names files zone (some path) ≡ some (s, after)
      → (text : Bytes) × (lookup path after.held ≡ some text)
        × (load_pem keys names zone text ≡ some s)
        × (after.unreadable ≡ files.unreadable)
  unfolding fresh save_pem
  fresh-load files after zone path s e = elim (Option-cases keys.generate) [
    | inl g ↦ absurd (ground (arith, g))
    | inr ((k, p), g) ↦ elim (Option-cases (saved_pem keys names k)) [
      | inl f ↦ absurd (ground (arith, g, f))
      | inr (text, f) ↦ elim (Bool-cases (files.makable (keys.dir_of path))) [
        | inr d ↦ absurd (ground (arith, g, f, d))
        | inl d ↦ elim (Bool-cases (files.writable path)) [
          | inr w ↦ absurd (ground (arith, g, f, d, w))
          | inl w ↦
              let is_signer : signer_of keys names zone k p ≡ s = ground (arith, g, f, d, w) in
              let is_after : record files { held = insert path text files.held } ≡ after =
                ground (arith, g, f, d, w) in
              (
                text,
                ap (λ fs. lookup path fs.held) (sym is_after)
                    ∙ ground (arith, lookup-insert path path text files.held, bytes_eq_refl path),
                loaded_again zone k p text g f ∙ ap some is_signer,
                ap (λ fs. fs.unreadable) (sym is_after),
              )
        ]
      ]
    ]
  ]

  -- A server with a key directory that starts again with the files that it left has the same signer, so
  -- the same key and key tag, and leaves the files as they are. PEM and the encoding of private keys
  -- can be read back, and a generated key is on P-256 and has its public key from its uncompressed point.
  pub new_online_signer-restart :
      (files after : Files) (zone key_dir : Bytes) (s : OnlineSigner)
      → is_empty key_dir ≡ false
      → new_online_signer keys names files zone key_dir ≡ some (s, after)
      → new_online_signer keys names after zone key_dir ≡ some (s, after)
  unfolding new_online_signer
  new_online_signer-restart files after zone key_dir s dir e =
      let path = key_path keys names zone key_dir in
      elim (Bool-cases (files.unreadable path)) [
        | inl u ↦ absurd (ground (arith, dir, u))
        | inr u ↦ elim (Option-cases (lookup path files.held)) [
          | inl missing ↦
              let step : fresh keys names files zone (some path) ≡ some (s, after) =
                ground (arith, dir, u, missing) in
              let (text, here, loads, same) = fresh-load files after zone path s step in
              let readable : after.unreadable path ≡ false = ap (λ f. f path) same ∙ u in
              ground (arith, dir, readable, here, loads)
          | inr (text, there) ↦ elim (Option-cases (load_pem keys names zone text)) [
            | inl bad ↦ absurd (ground (arith, dir, u, there, bad))
            | inr (s', good) ↦
                let same : files ≡ after = ground (arith, dir, u, there, good) in
                subst (λ fs. new_online_signer keys names fs zone key_dir ≡ some (s, after)) same e
          ]
        ]
      ]
