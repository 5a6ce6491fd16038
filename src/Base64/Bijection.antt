-- ===== src/Base64/Bijection.antt =====
-- Strings of bytes and canonical texts are the same thing.
use std.Equiv.{IsEquiv, Iso, iso_to_equiv}
use std.HLevel.{Σ_prop_path, ×_prop}
use native.Mathlib.Bridge.{le_prop}
use ngx_lua_cpp.Prelude.{◌≡◌, ap, sym, ◌∙◌, true, [], ◌∷◌, All}
use ngx_lua_cpp.Prelude.Text.{Bytes}
use ngx_lua_cpp.Base64.{encode, base64url_encode, base64url_decode}
use ngx_lua_cpp.Base64.RoundTrip.{IsByte, base64url_decode-base64url_encode}
use ngx_lua_cpp.Base64.Canonical.{is_canonical, encode-canonical, canonical-Encoded}

abbrev pub ByteString : Type 0
ByteString = (xs : Bytes) × All IsByte xs

abbrev pub CanonicalText : Type 0
CanonicalText = (text : Bytes) × (is_canonical text ≡ true)

abbrev pub encode_text : ByteString → CanonicalText
unfolding base64url_encode
encode_text (xs, bytes) = (base64url_encode xs, encode-canonical xs bytes)

All-IsByte-prop : (xs : Bytes) → IsProp (All IsByte xs)
All-IsByte-prop [] = hlevel
All-IsByte-prop (x ∷ xs) = ×_prop le_prop (All-IsByte-prop xs)

decode_text : CanonicalText → ByteString
decode_text (text, canonical) =
    let (xs, bytes, same) = canonical-Encoded text canonical in (xs, bytes)

encode_text-decode_text : (text : CanonicalText) → encode_text (decode_text text) ≡ text
unfolding decode_text base64url_encode
encode_text-decode_text (text, canonical) =
    Σ_prop_path (λ t. hlevel) (canonical-Encoded text canonical).2

encode-injective : (xs ys : Bytes) → All IsByte xs → All IsByte ys → encode xs ≡ encode ys → xs ≡ ys
unfolding base64url_encode
encode-injective xs ys hx hy same =
    ap (λ (r : Bytes × Bytes). r.0)
      (sym (base64url_decode-base64url_encode xs hx)
        ∙ ap base64url_decode same
        ∙ base64url_decode-base64url_encode ys hy)

decode_text-encode_text : (s : ByteString) → decode_text (encode_text s) ≡ s
unfolding decode_text base64url_encode
decode_text-encode_text (xs, bytes) =
    let (ys, ys_bytes, same) = canonical-Encoded (encode xs) (encode-canonical xs bytes) in
    Σ_prop_path (λ t. All-IsByte-prop t) (encode-injective ys xs ys_bytes bytes same)

encode_text-Iso : Iso ByteString CanonicalText
encode_text-Iso = record {
  fun = encode_text;
  inv = decode_text;
  rinv = encode_text-decode_text;
  linv = decode_text-encode_text;
}

-- The encoder is an equivalence between the strings of bytes and the canonical texts: groups of four
-- characters of the alphabet, and a last group of two or three that has no bits left over. On such a
-- text the decoder gives, with no error, the bytes that are encoded as it.
pub encode_text-IsEquiv :
    IsEquiv encode_text
    × ((text : CanonicalText)
        → (s : ByteString) × (base64url_decode text.0 ≡ (s.0, [])) × (encode_text s ≡ text))
unfolding base64url_encode encode_text-Iso
encode_text-IsEquiv = (
  (iso_to_equiv encode_text-Iso).1,
  λ text.
      let s = decode_text text in
      let back = encode_text-decode_text text in
      (
        s,
        sym (ap (λ (t : CanonicalText). base64url_decode t.0) back)
            ∙ base64url_decode-base64url_encode s.0 s.1,
        back,
      ),
)
