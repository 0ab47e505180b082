-- ===== src/Crypto/Certificates/Encoding.antt =====
-- The bytes of a certificate that are signed.
use batt_lock.Base.{
  ◌≡◌, refl, ap, sym, [], ◌∷◌, ◌++◌, append_assoc, Result, ok, err, ◌>>=◌, >>=-eq-ok,
}
use batt_lock.Base.Texts.{Text}
use batt_lock.Base.Utf8.{encode, encode_char}
use batt_lock.Base.Json.{Value, text, other}
use batt_lock.Can.Message.{Bytes}
use batt_lock.Crypto.Certificates.{certificate_data, encode_value}

encode-append : (a b : Text) → encode (a ++ b) ≡ (encode a >>= λ x. encode b >>= λ y. ok (x ++ y))
unfolding encode
encode-append [] b = returned_again (encode b)
  where
    returned_again : (r : Result Bytes) → r ≡ (r >>= λ y. ok y)
    returned_again (ok y) = refl
    returned_again (err e) = refl
encode-append (c ∷ a) b = rw (encode-append a b) (regroup (encode_char c) (encode a) (encode b))
  where
    regroup :
        (r s t : Result Bytes)
        → (r >>= λ x. (s >>= λ y. t >>= λ z. ok (y ++ z)) >>= λ w. ok (x ++ w))
          ≡ ((r >>= λ x. s >>= λ y. ok (x ++ y)) >>= λ w. t >>= λ z. ok (w ++ z))
    regroup (err e) s t = refl
    regroup (ok x) (err e) t = refl
    regroup (ok x) (ok y) (err e) = refl
    regroup (ok x) (ok y) (ok z) = ap (λ (w : Bytes). ok w) (sym (append_assoc x y z))

-- The fields run into each other.
pub certificate_data_boundary :
    (a b c : Text) (key : Bytes) (issue expiry : Value)
    → certificate_data (text (a ++ b)) (text c) key issue expiry
      ≡ certificate_data (text a) (text (b ++ c)) key issue expiry
unfolding certificate_data encode_value
certificate_data_boundary a b c key issue expiry =
    rw (encode-append a b, encode-append b c)
      (regroup (encode a) (encode b) (encode c) (encode_value issue) (encode_value expiry))
  where
    regroup :
        (r s t u v : Result Bytes)
        → ((r >>= λ x. s >>= λ y. ok (x ++ y)) >>= λ l.
            t >>= λ m. u >>= λ i. v >>= λ e. ok (l ++ m ++ key ++ i ++ e))
          ≡ (r >>= λ l. (s >>= λ y. t >>= λ z. ok (y ++ z)) >>= λ m.
              u >>= λ i. v >>= λ e. ok (l ++ m ++ key ++ i ++ e))
    regroup (err e) s t u v = refl
    regroup (ok x) (err e) t u v = refl
    regroup (ok x) (ok y) (err e) u v = refl
    regroup (ok x) (ok y) (ok z) (err e) v = refl
    regroup (ok x) (ok y) (ok z) (ok i) (err e) = refl
    regroup (ok x) (ok y) (ok z) (ok i) (ok e) = rw (append_assoc x y z)

-- A field with its UTF-8 form.
abbrev pub IsWritten : Value → Bytes → Type 0
IsWritten v b = (t : Text) × (v ≡ text t) × (encode t ≡ ok b)

encode_value-IsWritten : (v : Value) (b : Bytes) → encode_value v ≡ ok b → IsWritten v b
unfolding encode_value
encode_value-IsWritten (text t) b h = (t, refl, h)
encode_value-IsWritten other b h = cc

pub record Parts (battery_id manufacturer_id : Value) (public_key : Bytes)
    (issue_date expiry_date : Value) (signed : Bytes) : Type 0 where
  pub b : Bytes
  pub m : Bytes
  pub i : Bytes
  pub e : Bytes
  pub battery : IsWritten battery_id b
  pub manufacturer : IsWritten manufacturer_id m
  pub issue : IsWritten issue_date i
  pub expiry : IsWritten expiry_date e
  pub joined : signed ≡ b ++ m ++ public_key ++ i ++ e

bytes_of : {a b : Bytes} → ok a ≡ ok b → b ≡ a
bytes_of h = cc

-- What the signed bytes are made of.
pub certificate_data-Parts :
    (battery_id manufacturer_id : Value) (public_key : Bytes) (issue_date expiry_date : Value)
    (signed : Bytes)
    → certificate_data battery_id manufacturer_id public_key issue_date expiry_date ≡ ok signed
    → Parts battery_id manufacturer_id public_key issue_date expiry_date signed
unfolding certificate_data
certificate_data-Parts battery_id manufacturer_id public_key issue_date expiry_date signed h =
    let (b, x, h1) = >>=-eq-ok (encode_value battery_id) _ h in
    let (m, y, h2) = >>=-eq-ok (encode_value manufacturer_id) _ h1 in
    let (i, z, h3) = >>=-eq-ok (encode_value issue_date) _ h2 in
    let (e, w, h4) = >>=-eq-ok (encode_value expiry_date) _ h3 in
    record {
      b = b;
      m = m;
      i = i;
      e = e;
      battery = encode_value-IsWritten battery_id b x;
      manufacturer = encode_value-IsWritten manufacturer_id m y;
      issue = encode_value-IsWritten issue_date i z;
      expiry = encode_value-IsWritten expiry_date e w;
      joined = bytes_of h4;
    }

pub same_text :
    {v : Value} {s t : Text} {b : Bytes}
    → v ≡ text s
    → v ≡ text t
    → encode t ≡ ok b
    → encode s ≡ ok b
same_text p q e = cc
