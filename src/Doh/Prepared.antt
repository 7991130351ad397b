-- ===== src/Doh/Prepared.antt =====
-- What EnsureTLSCert leaves.
use contractdb.Base.{
  Bool, true, false, ◌&&◌, Bytes, bytes_eq, bytes_eq_refl, ◌≡◌, ◌⊎◌, inl, inr, refl, sym, subst,
  arith, Bool-cases, Option-cases,
}
use contractdb.Assoc.{lookup, insert, bytes_key, lookup-insert}
use contractdb.Dnssec.Keys.{Files}
use contractdb.Doh.Certificate.{
  CertLib, file_exists, write_file, make_cert, write_both, ensure_tls_cert,
}

-- The files but for two
abbrev SameBut : Bytes → Bytes → Files → Files → Type 0
SameBut p q files after =
    (r : Bytes)
    → bytes_eq p r ≡ false
    → bytes_eq q r ≡ false
    → lookup r after.held ≡ lookup r files.held

write_file-there :
    (files : Files) (path text : Bytes) (r : Bytes)
    → ((write_file files path text).0 ≡ true
        → file_exists (write_file files path text).1 path ≡ true)
      × (file_exists files r ≡ true → file_exists (write_file files path text).1 r ≡ true)
unfolding write_file
write_file-there files path text r = (
  (λ done. ground (arith, lookup-insert path path text files.held, bytes_eq_refl path)),
  (λ there. ground (arith, lookup-insert path r text files.held)),
)

module _ {K : Type 0} (certs : CertLib K) (files : Files) (cert_path key_path : Bytes) where
  write_both-SameBut :
      (texts : Bytes × Bytes)
      → SameBut cert_path key_path files (write_both certs files cert_path key_path texts).1
  unfolding write_both write_file
  write_both-SameBut (cert, key) r p q = ground (
    arith,
    lookup-insert cert_path r cert files.held,
    lookup-insert key_path r key files.held,
    lookup-insert key_path r key (insert cert_path cert files.held),
  )

  write_both-done :
      (texts : Bytes × Bytes)
      → (write_both certs files cert_path key_path texts).0 ≡ true
      → (file_exists (write_both certs files cert_path key_path texts).1 cert_path ≡ true)
        × (file_exists (write_both certs files cert_path key_path texts).1 key_path ≡ true)
  unfolding write_both
  write_both-done (cert, key) done = elim (Bool-cases (write_file files cert_path cert).0) [
    | inl e ↦ (
      ground (
        arith,
        write_file-there files cert_path cert cert_path,
        write_file-there (write_file files cert_path cert).1 key_path key cert_path,
        e,
      ),
      ground
          (arith, write_file-there (write_file files cert_path cert).1 key_path key cert_path, e),
    )
    | inr e ↦ absurd (ground (arith, e))
  ]

  -- both files are there, or nothing is done, or both are written
  ensure_tls_cert-cases :
      (((file_exists files cert_path && file_exists files key_path) ≡ true)
        × (ensure_tls_cert certs files cert_path key_path ≡ (true, files)))
      ⊎ (((file_exists files cert_path && file_exists files key_path) ≡ false)
          × (ensure_tls_cert certs files cert_path key_path ≡ (false, files)))
      ⊎ (((file_exists files cert_path && file_exists files key_path) ≡ false)
          × ((texts : Bytes × Bytes) × (ensure_tls_cert certs files cert_path key_path
                ≡ write_both certs files cert_path key_path texts)))
  unfolding ensure_tls_cert
  ensure_tls_cert-cases =
      elim (Bool-cases (file_exists files cert_path && file_exists files key_path)) [
        | inl there ↦ inl (there, ground (arith, there))
        | inr there ↦
            elim (Bool-cases (
              certs.mkdir_all (certs.dir_of cert_path)
              && certs.mkdir_all (certs.dir_of key_path))) [
                | inl made ↦ elim (Option-cases (make_cert certs)) [
                  | inl none_made ↦ inr (inl (there, ground (arith, there, made, none_made)))
                  | inr (texts, some_made) ↦
                      inr (inr (there, (texts, ground (arith, there, made, some_made))))
                ]
                | inr made ↦ inr (inl (there, ground (arith, there, made)))
              ]
      ]

  -- what a result says of the files, `r` being another path
  abbrev IsReady : Bytes → Bool × Files → Type 0
  IsReady r (done, after) =
      (lookup r after.held ≡ lookup r files.held)
      × ((done ≡ false) × ((file_exists files cert_path && file_exists files key_path) ≡ false)
          ⊎ (done ≡ true)
            × (file_exists after cert_path ≡ true)
            × (file_exists after key_path ≡ true)
            × (((file_exists files cert_path && file_exists files key_path) ≡ false)
                ⊎ (after ≡ files)))

  ensure_tls_cert-IsReady :
      (r : Bytes)
      → bytes_eq cert_path r ≡ false
      → bytes_eq key_path r ≡ false
      → IsReady r (ensure_tls_cert certs files cert_path key_path)
  ensure_tls_cert-IsReady r p q = elim ensure_tls_cert-cases [
    | inl (there, e) ↦
        subst (IsReady r) (sym e)
          (refl, inr (refl, ground (arith, there), ground (arith, there), inr refl))
    | inr (inl (there, e)) ↦ subst (IsReady r) (sym e) (refl, inl (refl, there))
    | inr (inr (there, (texts, e))) ↦ subst (IsReady r) (sym e) (
      write_both-SameBut texts r p q,
      elim (Bool-cases (write_both certs files cert_path key_path texts).0) [
        | inl done ↦ let (one, two) = write_both-done texts done in inr (done, one, two, inl there)
        | inr failed ↦ inl (failed, there)
      ],
    )
  ]

  -- When EnsureTLSCert succeeds, both files are there, and a second call succeeds and leaves all files as
  -- they are; where both were there before, it has changed none. It fails only where one was missing.
  -- Either way it changes no file but the two.
  pub ensure_tls_cert-ready :
      (done : Bool) (after : Files) (r : Bytes)
      → ensure_tls_cert certs files cert_path key_path ≡ (done, after)
      → bytes_eq cert_path r ≡ false
      → bytes_eq key_path r ≡ false
      → (lookup r after.held ≡ lookup r files.held)
        × ((done ≡ false) × ((file_exists files cert_path && file_exists files key_path) ≡ false)
            ⊎ (done ≡ true)
              × (file_exists after cert_path ≡ true)
              × (file_exists after key_path ≡ true)
              × (ensure_tls_cert certs after cert_path key_path ≡ (true, after))
              × (((file_exists files cert_path && file_exists files key_path) ≡ false)
                  ⊎ (after ≡ files)))
  unfolding ensure_tls_cert
  ensure_tls_cert-ready done after r e p q =
      let (frame, rest) = subst (IsReady r) e (ensure_tls_cert-IsReady r p q) in
      (
        frame,
        elim rest [
          | inl failed ↦ inl failed
          | inr (ok, one, two, kept) ↦ inr (ok, one, two, ground (arith, one, two), kept)
        ],
      )
