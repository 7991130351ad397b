-- ===== src/Doh/Certificate.antt =====
-- EnsureTLSCert and ServeDoH of doh.go.
use contractdb.Base.{
  ℕ, ◌-◌, ◌^◌, Bool, true, false, ◌&&◌, ◌||◌, not, Option, none, some, List, [], ◌∷◌, Bytes, codes,
  if◌then◌else◌, ◌>>=◌,
}
use contractdb.Assoc.{lookup, insert, bytes_key}
use contractdb.Dnssec.Keys.{Files}

-- The fields of the x509.Certificate that is made, in seconds of Unix time
pub record Template : Type 0 where
  pub serial : ℕ
  pub common_name : Bytes
  pub not_before : ℕ
  pub not_after : ℕ
  pub server_auth : Bool
  pub is_ca : Bool
  pub dns_names : List Bytes
  pub ip_addresses : List Bytes

-- What the program calls to make a certificate, over private keys `K`; `dir_of` is filepath.Dir, and
-- `mkdir_all` tells whether a directory is there or can be made. `now` is the Unix time, `in_ten_years`
-- that time with ten years added to its date.
pub record CertLib (K : Type 0) : Type 0 where
  pub generate_key : Option K
  pub random_below : ℕ → Option ℕ
  pub create_certificate : Template → K → Option Bytes
  pub marshal_key : K → Option Bytes
  pub pem_encode : Bytes → Bytes → Bytes
  pub dir_of : Bytes → Bytes
  pub mkdir_all : Bytes → Bool
  pub now : ℕ
  pub in_ten_years : ℕ

-- os.Stat succeeds
abbrev pub is_there : Option Bytes → Bool
is_there none = false
is_there (some text) = true

abbrev pub file_exists : Files → Bytes → Bool
file_exists files path = files.unreadable path || is_there (lookup path files.held)

-- os.WriteFile: a file that can be opened is written whole
unfoldable pub write_file : Files → Bytes → Bytes → Bool × Files
write_file files path text =
    if files.writable path
    then (true, record files { held = insert path text files.held })
    else (false, files)

module _ {K : Type 0} (certs : CertLib K) where
  abbrev template : ℕ → Template
  template serial = record {
    serial = serial;
    common_name = codes "contractdb";
    not_before = certs.now - 3600;
    not_after = certs.in_ten_years;
    server_auth = true;
    is_ca = false;
    dns_names = codes "localhost" ∷ [];
    ip_addresses = codes "127.0.0.1" ∷ codes "::1" ∷ [];
  }

  -- The two PEM texts, of the certificate and of its key
  unfoldable pub make_cert : Option (Bytes × Bytes)
  make_cert = do
    key ← certs.generate_key
    serial ← certs.random_below (2 ^ 128)
    der ← certs.create_certificate (template serial) key
    key_der ← certs.marshal_key key
    some (
      certs.pem_encode (codes "CERTIFICATE") der,
      certs.pem_encode (codes "EC PRIVATE KEY") key_der,
    )

  -- Both files, the certificate first
  unfoldable pub write_both : Files → Bytes → Bytes → Bytes × Bytes → Bool × Files
  unfolding write_file
  write_both files cert_path key_path (cert, key) =
      let (done, after) = write_file files cert_path cert in
      if done then write_file after key_path key else (false, after)

  -- Whether EnsureTLSCert returns nil, and the files that it leaves.
  unfoldable pub ensure_tls_cert : Files → Bytes → Bytes → Bool × Files
  unfolding make_cert write_both
  ensure_tls_cert files cert_path key_path =
      if file_exists files cert_path && file_exists files key_path
      then (true, files)
      else if not
          (certs.mkdir_all (certs.dir_of cert_path) && certs.mkdir_all (certs.dir_of key_path))
      then (false, files)
      else elim make_cert [
        | none ↦ (false, files)
        | some texts ↦ write_both files cert_path key_path texts
      ]

-- What ends a server: its listener returns an error, which http.ErrServerClosed is no failure, or the
-- context is done.
pub data Ending : Type 0 where
  closed : Ending
  exited : Ending
  cancelled : Ending

-- Whether ServeDoH returns nil, for what ends the server if it starts, and the files.
unfoldable pub run_doh : {K : Type 0} → CertLib K → Files → Bytes → Bytes → Ending → Bool × Files
unfolding ensure_tls_cert
run_doh certs files cert_path key_path ending =
    let (ready, after) = ensure_tls_cert certs files cert_path key_path in
    if not ready then (false, after) else elim ending [
      | closed ↦ (true, after)
      | exited ↦ (false, after)
      | cancelled ↦ (true, after)
    ]
