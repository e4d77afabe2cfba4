-- ===== src/Auth/Signed.antt =====
-- What the signature of a payload depends on.
use mathlib.Core.List.{append_assoc}
use rabbit_dex_backend.Common.{
  ℕ, ◌≡◌, refl, sym, ap, ◌∙◌, Bool, true, false, ◌&&◌, ◌||◌, Option, none, some, List, [], ◌∷◌,
  ◌++◌, arith, ltb, ◌==◌, if◌then◌else◌,
}
use rabbit_dex_backend.Auth.Payload.{
  Error, decode_failed, Bytes, Codec, eq_bytes, le_bytes, insert_entry, sort_keys, message_of,
  hash_input, hash, sign, verify_signed, verify, payload_key_method, payload_key_path,
}

step-total :
    (x y : ℕ) (b c : Bool)
    → (b ≡ false → c ≡ true)
    → (ltb x y || x == y && b) ≡ false
    → (ltb y x || y == x && c) ≡ true
step-total x y true c h e = ground arith
step-total x y false c h e = rw (h refl) (ground arith)

le_bytes-total : (a b : Bytes) → le_bytes a b ≡ false → le_bytes b a ≡ true
unfolding le_bytes
le_bytes-total [] b e = absurd (let e' = e in cc)
le_bytes-total (x ∷ a) [] e = refl
le_bytes-total (x ∷ a) (y ∷ b) e =
    step-total x y (le_bytes a b) (le_bytes b a) (le_bytes-total a b) e

step-antisym :
    (x y : ℕ) (b c d : Bool)
    → (b ≡ true → c ≡ true → d ≡ true)
    → (ltb x y || x == y && b) ≡ true
    → (ltb y x || y == x && c) ≡ true
    → (x == y && d) ≡ true
step-antisym x y false c d h e e' = ground arith
step-antisym x y true false d h e e' = ground arith
step-antisym x y true true d h e e' = rw (h refl refl) (ground arith)

le_bytes-antisym : (a b : Bytes) → le_bytes a b ≡ true → le_bytes b a ≡ true → eq_bytes a b ≡ true
unfolding le_bytes eq_bytes
le_bytes-antisym [] [] e e' = refl
le_bytes-antisym [] (y ∷ b) e e' = absurd (let x = e' in cc)
le_bytes-antisym (x ∷ a) [] e e' = absurd (let z = e in cc)
le_bytes-antisym (x ∷ a) (y ∷ b) e e' =
    step-antisym x y (le_bytes a b) (le_bytes b a) (eq_bytes a b) (le_bytes-antisym a b) e e'

step_trans :
    (x y z : ℕ) (b c d : Bool)
    → (b ≡ true → c ≡ true → d ≡ true)
    → (ltb x y || x == y && b) ≡ true
    → (ltb y z || y == z && c) ≡ true
    → (ltb x z || x == z && d) ≡ true
step_trans x y z false c d h e e' = ground arith
step_trans x y z true false d h e e' = ground arith
step_trans x y z true true d h e e' = rw (h refl refl) (ground arith)

le_bytes_trans : (a b c : Bytes) → le_bytes a b ≡ true → le_bytes b c ≡ true → le_bytes a c ≡ true
unfolding le_bytes
le_bytes_trans [] b c e e' = refl
le_bytes_trans (x ∷ a) [] c e e' = absurd (let z = e in cc)
le_bytes_trans (x ∷ a) (y ∷ b) [] e e' = absurd (let z = e' in cc)
le_bytes_trans (x ∷ a) (y ∷ b) (z ∷ c) e e' =
    step_trans x y z (le_bytes a b) (le_bytes b c) (le_bytes a c) (le_bytes_trans a b c) e e'

put-swap :
    (e f x : Bytes × Bytes) (xs : List (Bytes × Bytes))
    → eq_bytes e.0 f.0 ≡ false
    → insert_entry e (insert_entry f xs) ≡ insert_entry f (insert_entry e xs)
    → insert_entry e (insert_entry f (x ∷ xs)) ≡ insert_entry f (insert_entry e (x ∷ xs))
unfolding insert_entry
put-swap e f x xs ne ih =
    go (le_bytes e.0 x.0) (le_bytes f.0 x.0) (le_bytes e.0 f.0) (le_bytes f.0 e.0) refl refl refl
      refl
  where
    go :
        (ex fx ef fe : Bool)
        → le_bytes e.0 x.0 ≡ ex
        → le_bytes f.0 x.0 ≡ fx
        → le_bytes e.0 f.0 ≡ ef
        → le_bytes f.0 e.0 ≡ fe
        → insert_entry e (if fx then f ∷ x ∷ xs else x ∷ insert_entry f xs)
          ≡ insert_entry f (if ex then e ∷ x ∷ xs else x ∷ insert_entry e xs)
    go true true true true h k p q =
        absurd (let w = le_bytes-antisym e.0 f.0 p q in let n = ne in cc)
    go true true true false h k p q = rw p (rw q (rw k refl))
    go true true false true h k p q = rw p (rw q (rw h refl))
    go true true false false h k p q = absurd (let w = le_bytes-total e.0 f.0 p in let n = q in cc)
    go true false ef true h k p q =
        absurd (let w = le_bytes_trans f.0 e.0 x.0 q h in let n = k in cc)
    go true false ef false h k p q = rw h (rw q (rw k refl))
    go false true true fe h k p q =
        absurd (let w = le_bytes_trans e.0 f.0 x.0 p k in let n = h in cc)
    go false true false fe h k p q = rw p (rw k (rw h refl))
    go false false ef fe h k p q = rw h (rw k (ap (λ l. x ∷ l) ih))

insert_entry-swap :
    (e f : Bytes × Bytes) (xs : List (Bytes × Bytes))
    → eq_bytes e.0 f.0 ≡ false
    → insert_entry e (insert_entry f xs) ≡ insert_entry f (insert_entry e xs)
unfolding insert_entry
insert_entry-swap e f [] ne = go (le_bytes e.0 f.0) (le_bytes f.0 e.0) refl refl
  where
    go :
        (ef fe : Bool)
        → le_bytes e.0 f.0 ≡ ef
        → le_bytes f.0 e.0 ≡ fe
        → (if ef then e ∷ f ∷ [] else f ∷ e ∷ []) ≡ (if fe then f ∷ e ∷ [] else e ∷ f ∷ [])
    go true true p q = absurd (let w = le_bytes-antisym e.0 f.0 p q in let n = ne in cc)
    go true false p q = refl
    go false true p q = refl
    go false false p q = absurd (let w = le_bytes-total e.0 f.0 p in let n = q in cc)
insert_entry-swap e f (x ∷ xs) ne = put-swap e f x xs ne (insert_entry-swap e f xs ne)

-- Two orders in which Go may walk the same map: its keys differ.
pub data IsReordered : List (Bytes × Bytes) → List (Bytes × Bytes) → Type 0 where
  nothing : IsReordered [] []
  keep :
      (e : Bytes × Bytes) (xs ys : List (Bytes × Bytes))
      → IsReordered xs ys
      → IsReordered (e ∷ xs) (e ∷ ys)
  swap :
      (e f : Bytes × Bytes) (xs : List (Bytes × Bytes))
      → eq_bytes e.0 f.0 ≡ false
      → IsReordered (e ∷ f ∷ xs) (f ∷ e ∷ xs)
  both :
      (xs ys zs : List (Bytes × Bytes)) → IsReordered xs ys → IsReordered ys zs → IsReordered xs zs

sort_keys-IsReordered :
    (xs ys : List (Bytes × Bytes)) → IsReordered xs ys → sort_keys xs ≡ sort_keys ys
unfolding sort_keys
sort_keys-IsReordered xs ys nothing = refl
sort_keys-IsReordered xs ys (keep e us vs r) = ap (insert_entry e) (sort_keys-IsReordered us vs r)
sort_keys-IsReordered xs ys (swap e f us ne) = insert_entry-swap e f (sort_keys us) ne
sort_keys-IsReordered xs ys (both us vs ws r t) =
    sort_keys-IsReordered us vs r ∙ sort_keys-IsReordered vs ws t

-- The verdict on a signature does not depend on the order in which Go walks the payload's data.
pub verify-IsReordered :
    (c : Codec) (timestamp : ℕ) (xs ys : List (Bytes × Bytes)) (signature secret : Bytes)
    (prod : Bool) (now : ℕ)
    → IsReordered xs ys
    → verify c (record { timestamp = timestamp; entries = xs }) signature secret prod now
      ≡ verify c (record { timestamp = timestamp; entries = ys }) signature secret prod now
unfolding verify sign hash hash_input verify_signed
verify-IsReordered c timestamp xs ys signature secret prod now r =
    ap
      (λ sorted.
        elim (elim (c.hex_decode secret) as (λ x. Option Bytes) [
          | none ↦ none
          | some bytes ↦ some (
              c.hex_encode
                (c.hmac_sha256 bytes (c.sha256 (message_of sorted ++ c.format_int timestamp))))
        ])
          as (λ x. Option Error) [
            | none ↦ some decode_failed
            | some expected ↦
                verify_signed (record { timestamp = timestamp; entries = xs }) signature prod now
                  expected
          ])
      (sort_keys-IsReordered xs ys r)

less-method : le_bytes payload_key_method payload_key_path ≡ true
unfolding le_bytes
less-method = refl

sorted-three :
    (method path key value : Bytes)
    → le_bytes payload_key_path key ≡ true
    → sort_keys ((payload_key_method, method) ∷ (payload_key_path, path) ∷ (key, value) ∷ [])
      ≡ (payload_key_method, method) ∷ (payload_key_path, path) ∷ (key, value) ∷ []
unfolding sort_keys insert_entry
sorted-three method path key value behind =
    ap
      (λ b.
        insert_entry (payload_key_method, method)
          (if b
            then (payload_key_path, path) ∷ (key, value) ∷ []
            else (key, value) ∷ (payload_key_path, path) ∷ []))
      behind
    ∙ first
  where
    first :
        insert_entry (payload_key_method, method) ((payload_key_path, path) ∷ (key, value) ∷ [])
        ≡ (payload_key_method, method) ∷ (payload_key_path, path) ∷ (key, value) ∷ []
    first =
        ap
          (λ b.
            if b
            then (payload_key_method, method) ∷ (payload_key_path, path) ∷ (key, value) ∷ []
            else (payload_key_path, path)
              ∷ insert_entry (payload_key_method, method) ((key, value) ∷ []))
          less-method

sorted-two :
    (method path : Bytes)
    → sort_keys ((payload_key_method, method) ∷ (payload_key_path, path) ∷ [])
      ≡ (payload_key_method, method) ∷ (payload_key_path, path) ∷ []
unfolding sort_keys insert_entry
sorted-two method path =
    ap
      (λ b.
        if b
        then (payload_key_method, method) ∷ (payload_key_path, path) ∷ []
        else (payload_key_path, path) ∷ (payload_key_method, method) ∷ [])
      less-method

message_of-path :
    (method path key value : Bytes)
    → message_of ((payload_key_method, method) ∷ (payload_key_path, path ++ key ++ 61 ∷ value) ∷ [])
      ≡ message_of ((payload_key_method, method) ∷ (payload_key_path, path) ∷ (key, value) ∷ [])
unfolding message_of
message_of-path method path key value =
    ap (λ l. payload_key_method ++ (61 ∷ (method ++ (payload_key_path ++ (61 ∷ l)))))
      (ap (λ front. front ++ []) (append_assoc path key (61 ∷ value))
        ∙ append_assoc path (key ++ 61 ∷ value) [])

-- For two payloads of the same timestamp, one of a method and a path only and the other of a method,
-- a path and one more entry, whose key comes behind "path": `sign` gives the same signature if the
-- first one's path is that of the other with the text `key=value` behind it. So the hash does not
-- tell where an entry ends.
pub sign-path :
    (c : Codec) (timestamp : ℕ) (method path key value secret : Bytes)
    → le_bytes payload_key_path key ≡ true
    → sign c
        (record {
          timestamp = timestamp;
          entries =
              (payload_key_method, method) ∷ (payload_key_path, path ++ key ++ 61 ∷ value) ∷ [];
        })
        secret
      ≡ sign c
          (record {
            timestamp = timestamp;
            entries = (payload_key_method, method) ∷ (payload_key_path, path) ∷ (key, value) ∷ [];
          })
          secret
unfolding sign hash hash_input
sign-path c timestamp method path key value secret behind =
    ap
      (λ message. elim (c.hex_decode secret) as (λ x. Option Bytes) [
        | none ↦ none
        | some bytes ↦
            some (c.hex_encode (c.hmac_sha256 bytes (c.sha256 (message ++ c.format_int timestamp))))
      ])
      (ap message_of (sorted-two method (path ++ key ++ 61 ∷ value))
        ∙ message_of-path method path key value
        ∙ sym (ap message_of (sorted-three method path key value behind)))
