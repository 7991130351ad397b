-- ===== src/Doh/Encoding.antt =====
-- The parameter of a GET request, and the same octets in a POST request.
use contractdb.Base.{
  ℕ, ◌+◌, ◌*◌, ◌/◌, ◌%◌, ◌<◌, ◌≤◌, Bool, true, false, Option, none, some, [], ◌∷◌, ◌++◌, Bytes,
  codes, bytes_eq, bytes_eq_iff, ltb, is_empty, length, take, take_of_length-le, All, ◌≡◌, ◌⊎◌, inl,
  inr, refl, sym, ap, subst, ◌∙◌, arith, ◌>>=◌,
}
use contractdb.Base64.{
  Encoding, alpha, digit, pad, encode, pack4, decode_quanta, decode_string, url_encoding,
  raw_url_encoding,
}
use contractdb.Base64.RoundTrip.{decode_string-encode, strip_newlines-encode, pack4-alpha}
use contractdb.Store.{Store}
use contractdb.Dns.{WireLib}
use contractdb.Text.{has_prefix}
use contractdb.Text.Space.{is_space, trim_space}
use contractdb.Text.Cutting.{LacksSpace, trim_space_lacks}
use contractdb.Handler.{Handler, Env}
use contractdb.Doh.{
  HttpRequest, doh_max_body, doh_content_type, base64_url_decode, read_limited, serve_doh,
  serve_doh_get, serve_doh_post, unpack_and_answer,
}

abbrev Choice : Bytes → Option Bytes → Type 0
Choice s o = (o ≡ none) ⊎ (o ≡ some s)

Choice-cons :
    (a b c : ℕ) (s : Bytes) (o : Option Bytes)
    → Choice s o
    → Choice (a ∷ b ∷ c ∷ s) (o >>= λ more. some ((a ∷ b ∷ c ∷ []) ++ more))
Choice-cons a b c s none h = inl refl
Choice-cons a b c s (some t) (inl e) = absurd (cc)
Choice-cons a b c s (some t) (inr e) = inr (ground arith)

bind_none : (x : Option ℕ) (f : ℕ → Option Bytes) → ((n : ℕ) → f n ≡ none) → (x >>= f) ≡ none
bind_none none f h = refl
bind_none (some n) f h = h n

pack4-pad : (a b c : ℕ) → pack4 raw_url_encoding a b c pad ≡ none
unfolding pack4
pack4-pad a b c = bind_none (digit raw_url_encoding a) _ (λ x.
    bind_none (digit raw_url_encoding b) _
      (λ y. bind_none (digit raw_url_encoding c) _ (λ z. refl)))

raw_step :
    (a b c d : ℕ) (t : Bytes)
    → decode_quanta raw_url_encoding (a ∷ b ∷ c ∷ d ∷ t) ≡ (
        pack4 raw_url_encoding a b c d >>= λ bytes.
        decode_quanta raw_url_encoding t >>= λ more. some (bytes ++ more))
unfolding decode_quanta
raw_step a b c d t = refl

quantum :
    (a b c : ℕ) (t : Bytes)
    → a < 256
    → b < 256
    → c < 256
    → decode_quanta raw_url_encoding (
        alpha url_encoding (a / 4)
        ∷ alpha url_encoding (a % 4 * 16 + b / 16)
        ∷ alpha url_encoding (b % 16 * 4 + c / 64)
        ∷ alpha url_encoding (c % 64)
        ∷ t)
      ≡ (decode_quanta raw_url_encoding t >>= λ more. some ((a ∷ b ∷ c ∷ []) ++ more))
unfolding alpha
quantum a b c t ha hb hc =
    (raw_step (alpha raw_url_encoding (a / 4)) (alpha raw_url_encoding (a % 4 * 16 + b / 16))
        (alpha raw_url_encoding (b % 16 * 4 + c / 64)) (alpha raw_url_encoding (c % 64)) t
      ∙ ap (λ o. o >>= λ bytes. decode_quanta raw_url_encoding t >>= λ more. some (bytes ++ more))
          (pack4-alpha raw_url_encoding a b c ha hb hc))

-- Read as raw, a padded text is refused or is read right.
decode_quanta-encode_padded :
    (s : Bytes)
    → All (λ c. c < 256) s
    → Choice s (decode_quanta raw_url_encoding (encode url_encoding s))
unfolding decode_quanta encode
decode_quanta-encode_padded [] h = inr refl
decode_quanta-encode_padded (a ∷ []) h =
    inl (rw (pack4-pad (alpha url_encoding (a / 4)) (alpha url_encoding (a % 4 * 16)) pad) refl)
decode_quanta-encode_padded (a ∷ b ∷ []) h = inl (
    rw
      (pack4-pad (alpha url_encoding (a / 4)) (alpha url_encoding (a % 4 * 16 + b / 16))
        (alpha url_encoding (b % 16 * 4)))
      refl)
decode_quanta-encode_padded (a ∷ b ∷ c ∷ s) (ha, (hb, (hc, hs))) =
    subst (Choice (a ∷ b ∷ c ∷ s)) (sym (quantum a b c (encode url_encoding s) ha hb hc)) (
      Choice-cons a b c s (decode_quanta raw_url_encoding (encode url_encoding s))
        (decode_quanta-encode_padded s hs))

-- The two forms that the parameter may have.
abbrev pub url_form : Bool → Encoding
url_form padded = record { url = true; padded = padded }

base64_url_decode-encode :
    (padded : Bool) (s : Bytes)
    → All (λ c. c < 256) s
    → base64_url_decode (encode (url_form padded) s) ≡ some s
unfolding base64_url_decode
base64_url_decode-encode false s h =
    rw (decode_string-encode raw_url_encoding s h, base64_url_decode) refl
base64_url_decode-encode true s h =
    let raw : decode_string raw_url_encoding (encode url_encoding s)
        ≡ decode_quanta raw_url_encoding (encode url_encoding s) =
      (unfold decode_string in
        ap (decode_quanta raw_url_encoding) (strip_newlines-encode url_encoding s)) in
    elim (decode_quanta-encode_padded s h) [
      | inl e ↦ rw (raw, e, base64_url_decode) (decode_string-encode url_encoding s h)
      | inr e ↦ rw (raw, e, base64_url_decode) refl
    ]

alpha-LacksSpace : (enc : Encoding) (d : ℕ) → d < 64 → is_space (alpha enc d) ≡ false
unfolding alpha
alpha-LacksSpace enc d h = ground arith

encode-LacksSpace :
    (padded : Bool) (s : Bytes) → All (λ c. c < 256) s → LacksSpace (encode (url_form padded) s)
unfolding encode
encode-LacksSpace padded [] h = tt
encode-LacksSpace true (a ∷ []) (ha, _) =
    let sp = alpha-LacksSpace url_encoding in
    (sp (a / 4) (omega arith), (sp (a % 4 * 16) (omega arith), (refl, (refl, tt))))
encode-LacksSpace false (a ∷ []) (ha, _) =
    let sp = alpha-LacksSpace raw_url_encoding in
    (sp (a / 4) (omega arith), (sp (a % 4 * 16) (omega arith), tt))
encode-LacksSpace true (a ∷ b ∷ []) (ha, (hb, _)) =
    let sp = alpha-LacksSpace url_encoding in
    (
      sp (a / 4) (omega arith),
      (sp (a % 4 * 16 + b / 16) (omega arith), (sp (b % 16 * 4) (omega arith), (refl, tt))),
    )
encode-LacksSpace false (a ∷ b ∷ []) (ha, (hb, _)) =
    let sp = alpha-LacksSpace raw_url_encoding in
    (
      sp (a / 4) (omega arith),
      (sp (a % 4 * 16 + b / 16) (omega arith), (sp (b % 16 * 4) (omega arith), tt)),
    )
encode-LacksSpace padded (a ∷ b ∷ c ∷ s) (ha, (hb, (hc, hs))) =
    let sp = alpha-LacksSpace (url_form padded) in
    (
      sp (a / 4) (omega arith),
      (
        sp (a % 4 * 16 + b / 16) (omega arith),
        (
          sp (b % 16 * 4 + c / 64) (omega arith),
          (sp (c % 64) (omega arith), encode-LacksSpace padded s hs),
        ),
      ),
    )

encode-nonempty :
    (enc : Encoding) (s : Bytes) → is_empty s ≡ false → is_empty (encode enc s) ≡ false
unfolding encode
encode-nonempty enc [] h = absurd (cc)
encode-nonempty enc (a ∷ []) h = refl
encode-nonempty enc (a ∷ b ∷ []) h = refl
encode-nonempty enc (a ∷ b ∷ c ∷ s) h = refl

module _ {S : Type 0} (env : Env) (ops : Store S) (wire : WireLib) (now : ℕ) where
  by_get :
      (h : Handler S) (r : HttpRequest)
      → r.method ≡ codes "GET"
      → serve_doh env ops wire now h r ≡ serve_doh_get env ops wire now h r
  unfolding serve_doh
  by_get h r e = rw ((bytes_eq_iff r.method (codes "GET")).1 e) refl

  by_post :
      (h : Handler S) (r : HttpRequest)
      → r.method ≡ codes "POST"
      → serve_doh env ops wire now h r ≡ serve_doh_post env ops wire now h r
  unfolding serve_doh
  by_post h r e =
      let other : bytes_eq r.method (codes "GET") ≡ false =
        ap (λ m. bytes_eq m (codes "GET")) e ∙ (unfold bytes_eq in refl) in
      rw (other, (bytes_eq_iff r.method (codes "POST")).1 e) refl

  not_large : (s : Bytes) → length s ≤ doh_max_body → ltb doh_max_body (length s) ≡ false
  not_large s h = ground arith

  serve_doh_get-octets :
      (h : Handler S) (r : HttpRequest) (padded : Bool) (s : Bytes)
      → All (λ c. c < 256) s
      → is_empty s ≡ false
      → length s ≤ doh_max_body
      → r.dns ≡ encode (url_form padded) s
      → serve_doh_get env ops wire now h r ≡ unpack_and_answer env ops wire now h s
  unfolding serve_doh_get
  serve_doh_get-octets h r padded s octets ne few e =
      let q : trim_space r.dns ≡ encode (url_form padded) s =
        ap trim_space e
        ∙ trim_space_lacks (encode (url_form padded) s) (encode-LacksSpace padded s octets) in
      rw
        (
          q,
          encode-nonempty (url_form padded) s ne,
          base64_url_decode-encode padded s octets,
          ne,
          not_large s few,
        )
        refl

  serve_doh_post-octets :
      (h : Handler S) (r : HttpRequest) (s : Bytes)
      → is_empty s ≡ false
      → length s ≤ doh_max_body
      → has_prefix r.content_type doh_content_type ≡ true
      → r.body ≡ s
      → r.broken ≡ false
      → serve_doh_post env ops wire now h r ≡ unpack_and_answer env ops wire now h s
  unfolding serve_doh_post read_limited
  serve_doh_post-octets h r s ne few ct b ok =
      let whole : take (doh_max_body + 1) r.body ≡ s =
        ap (take (doh_max_body + 1)) b
        ∙ take_of_length-le (doh_max_body + 1) s (omega (arith, few)) in
      rw (ct, ok, whole, ne, not_large s few) refl

  -- A GET request whose parameter is octets in base64url, padded or not, is answered as the POST
  -- request with the octets as its body, for one to 65536 octets and a POST of the right media type
  -- whose body can be read.
  pub serve_doh_get-encode :
      (h : Handler S) (get post : HttpRequest) (padded : Bool) (s : Bytes)
      → All (λ c. c < 256) s
      → is_empty s ≡ false
      → length s ≤ doh_max_body
      → get.method ≡ codes "GET"
      → get.dns ≡ encode (url_form padded) s
      → post.method ≡ codes "POST"
      → has_prefix post.content_type doh_content_type ≡ true
      → post.body ≡ s
      → post.broken ≡ false
      → serve_doh env ops wire now h get ≡ serve_doh env ops wire now h post
  serve_doh_get-encode h get post padded s octets ne few g e p ct b ok =
      let left : serve_doh_get env ops wire now h get ≡ unpack_and_answer env ops wire now h s =
        serve_doh_get-octets h get padded s octets ne few e in
      let right : serve_doh_post env ops wire now h post ≡ unpack_and_answer env ops wire now h s =
        serve_doh_post-octets h post s ne few ct b ok in
      by_get h get g ∙ left ∙ sym right ∙ sym (by_post h post p)
