-- ===== src/Names/RoundTrip.antt =====
-- parseKey on the names that itemName makes.
use contractdb.Base.{
  ℕ, ◌-◌, ◌%◌, ◌<◌, true, false, ◌&&◌, some, [], ◌∷◌, ◌++◌, Bytes, ◌==◌, length, length-append,
  take, All, ◌≡◌, ◌≢◌, refl, ap, ◌∙◌, arith, Bool-cases, inl, inr, if◌then◌else◌,
}
use contractdb.Base32.{encode}
use contractdb.Base32.RoundTrip.{
  IsCode, encode-IsCode, length-encode, to_upper-to_lower, decode_string-encode,
}
use contractdb.Names.{dot, k_dash, pad_raw, key_of_rest, parse_key, is_safe, item_name}
use contractdb.Text.{
  lower, to_lower, to_upper, has_prefix, has_suffix, cons_head, split, first_label,
}
use contractdb.Text.Laws.{to_lower-append, take-append, has_suffix-append, split_lacks}

parse_key_cut :
    (zone qname rest : Bytes)
    → has_suffix (to_lower qname) (dot ∷ zone) ≡ true
    → take (length qname - length zone - 1) qname ≡ rest
    → rest ≢ []
    → parse_key zone qname ≡ key_of_rest rest
unfolding parse_key
parse_key_cut zone qname [] h e n = absurd (n refl)
parse_key_cut zone qname (c ∷ s) h e n = rw (h, e)

-- The name of a non-empty text in front of a lower-case zone is cut back to that text.
pub parse_key-append :
    (zone rest : Bytes)
    → to_lower zone ≡ zone
    → rest ≢ []
    → parse_key zone (rest ++ dot ∷ zone) ≡ key_of_rest rest
parse_key-append zone rest low h =
    let long : length (rest ++ dot ∷ zone) - length zone - 1 ≡ length rest =
      omega (arith, length-append rest (dot ∷ zone)) in
    let zone_low : to_lower (dot ∷ zone) ≡ dot ∷ zone = unfold to_lower lower in ap (◌∷◌ dot) low in
    parse_key_cut zone (rest ++ dot ∷ zone) rest
      (rw (to_lower-append, zone_low) (has_suffix-append (to_lower rest) (dot ∷ zone)))
      (rw long (take-append rest (dot ∷ zone))) h

-- The k- of the first label is that of the whole text: neither byte is a dot.
has_prefix-first_label :
    (rest : Bytes) → has_prefix (first_label (split dot rest)) k_dash ≡ has_prefix rest k_dash
unfolding has_prefix split first_label cons_head
has_prefix-first_label [] = refl
has_prefix-first_label (c ∷ []) = ground arith
has_prefix-first_label (c ∷ d ∷ s) =
    elim (split dot s)
      as (λ l.
        has_prefix
          (first_label (
            if c == dot
            then [] ∷ (if d == dot then [] ∷ l else cons_head d l)
            else cons_head c (if d == dot then [] ∷ l else cons_head d l)))
          k_dash
        ≡ has_prefix (c ∷ d ∷ s) k_dash) [ [] ↦ ground arith | w ∷ ws ↦ ground arith ]

-- A text whose first label has no k- is its own key.
pub key_of_rest_plain :
    (rest : Bytes) → has_prefix rest k_dash ≡ false → key_of_rest rest ≡ some rest
unfolding key_of_rest
key_of_rest_plain rest h = rw (has_prefix-first_label rest, h)

lower-IsCode : (c : ℕ) → IsCode c → lower c ≢ dot
unfolding lower
lower-IsCode c h = ground arith

to_lower-lacks : (s : Bytes) → All IsCode s → All (λ c. c ≢ dot) (to_lower s)
unfolding to_lower
to_lower-lacks [] h = tt
to_lower-lacks (c ∷ s) (hc, hs) = (lower-IsCode c hc, to_lower-lacks s hs)

pad_raw_whole : (raw : Bytes) → length raw % 8 ≡ 0 → pad_raw raw ≡ raw
unfolding pad_raw
pad_raw_whole raw h = rw h

-- The k- form of a key is decoded to the key.
pub key_of_rest-encode :
    (key : Bytes)
    → All (λ c. c < 256) key
    → key_of_rest (k_dash ++ to_lower (encode key)) ≡ some key
unfolding key_of_rest
key_of_rest-encode key h =
    let body = to_lower (encode key) in
    let code_h = encode-IsCode key h in
    let lacks : All (λ c. c ≢ dot) (k_dash ++ body) =
      (omega arith, (omega arith, to_lower-lacks (encode key) code_h)) in
    let whole : length (to_upper body) % 8 ≡ 0 =
      rw (to_upper-to_lower (encode key) code_h) (length-encode key) in
    rw (split_lacks dot (k_dash ++ body) lacks) (
      unfold has_prefix first_label in
      rw (pad_raw_whole (to_upper body) whole) (decode_string-encode key h))

-- Every non-empty key is read back from its name, in a lower-case zone, unless the key is safe and
-- begins with k-.
pub parse_key-item_name :
    (zone key : Bytes)
    → to_lower zone ≡ zone
    → key ≢ []
    → All (λ c. c < 256) key
    → (is_safe key && has_prefix key k_dash) ≡ false
    → parse_key zone (item_name zone key) ≡ some key
unfolding item_name
parse_key-item_name zone [] low ne bytes h = absurd (ne refl)
parse_key-item_name zone (c ∷ s) low ne bytes h = elim (Bool-cases (is_safe (c ∷ s))) [
  | inl safe ↦
      rw safe (parse_key-append zone (c ∷ s) low ne ∙ key_of_rest_plain (c ∷ s) (ground arith))
  | inr unsafe ↦ rw unsafe (
      parse_key-append zone (k_dash ++ to_lower (encode (c ∷ s))) low (cc)
      ∙ key_of_rest-encode (c ∷ s) bytes)
]

-- A safe key that begins with k- is published under a name that is read as base32: the key that
-- comes back is what its tail decodes to, or nothing.
pub parse_key-item_name-k_dash :
    (zone tail : Bytes)
    → to_lower zone ≡ zone
    → is_safe (k_dash ++ tail) ≡ true
    → parse_key zone (item_name zone (k_dash ++ tail)) ≡ key_of_rest (k_dash ++ tail)
unfolding item_name
parse_key-item_name-k_dash zone tail low safe =
    rw safe (parse_key-append zone (k_dash ++ tail) low (cc))
