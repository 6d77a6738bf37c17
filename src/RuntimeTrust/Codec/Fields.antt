-- ===== src/RuntimeTrust/Codec/Fields.antt =====
-- packages/runtime-trust-contracts/src/codec.ts: a writer and the reader that takes back what it
-- writes, for each kind of field and for one field after another.
use mathlib.Core.Path.{subst}
use zima_control.Common.{
  eq_iff, ℕ, ◌+◌, ◌^◌, ◌≤◌, ◌<◌, ◌≡◌, refl, sym, ap, ◌∙◌, inl, inr, Bool, false, Bool-cases, String,
  List, [], ◌∷◌, ◌++◌, some, length, take, drop, arith, length-append, append_assoc, nat_beq,
  nat_beq_iff, not, ◌||◌, ◌==◌, option_eq, string_eq, ltb,
}
use zima_control.Common.Action.{
  Outcome, returned, Outcome-cases, ◌>>=◌, ◌>>◌, lift, throw_if, continue,
}
use zima_control.RuntimeTrust.Types.{RuntimeTrustErrorCode, Buffer}
use zima_control.RuntimeTrust.Policy.{is_safe_integer}
use zima_control.RuntimeTrust.Codec.Plain.{IsPlain}
use zima_control.RuntimeTrust.Codec.{
  Utf8, Stream, Validator, write_raw, read_raw, write_string, read_string, read_text, write_u64,
  read_u64, u16_bytes, u64_bytes, read_be, write_header, read_header, magic, same_bytes,
}

-- Where `write` succeeds it adds at least `n` bytes, and `read` takes `value` from them, whatever
-- follows.
pub record Carries {A : Type 0} (n : ℕ) (write : Stream (Unit {0})) (read : Stream A) (value : A)
    : Type 0 where
  pub carried :
      (s : Buffer)
      → (write s).0 ≡ returned tt
      → (bytes : Buffer) × ((write s).1 ≡ s ++ bytes)
        × (n ≤ length bytes)
        × ((rest : Buffer) → read (bytes ++ rest) ≡ (returned value, rest))

take-append : {A : Type 0} (xs ys : List A) → take (length xs) (xs ++ ys) ≡ xs
take-append [] ys = refl
take-append (x ∷ xs) ys = ap (λ r. x ∷ r) (take-append xs ys)

drop-append : {A : Type 0} (xs ys : List A) → drop (length xs) (xs ++ ys) ≡ ys
drop-append [] ys = refl
drop-append (x ∷ xs) ys = drop-append xs ys

-- What succeeds in the end has succeeded at its first step.
pub first_succeeds :
    (w v : Stream (Unit {0})) (s : Buffer)
    → ((w >> v) s).0 ≡ returned tt
    → ((w s).0 ≡ returned tt) × ((w >> v) s ≡ v (w s).1)
first_succeeds w v s h = elim (Outcome-cases (w s).0) [
  | inl (u, e) ↦ (e, ap (λ r. continue r (λ _. v) (w s).1) e)
  | inr (x, e) ↦ cc
]

-- `throw_if`, `lift` and the reading of a field, at a step that does not throw.
pub read_on :
    {A B : Type 0} (r : Stream A) (k : A → Stream B) (s s' : Buffer) (a : A)
    → r s ≡ (returned a, s')
    → (r >>= k) s ≡ k a s'
read_on r k s s' a h = ap (λ x. continue x.0 k x.1) h

pub then_field :
    {A B : Type 0} {n m : ℕ} {w v : Stream (Unit {0})} {r : Stream A} {a : A} {b : B}
    (k : A → Stream B)
    → Carries n w r a
    → Carries m v (k a) b
    → Carries (n + m) (w >> v) (r >>= k) b
then_field {n = n} {m = m} {w = w} {v = v} {r = r} {a = a} {b = b} k first next = record {
  carried = λ s h.
      let (hw, e) = first_succeeds w v s h in
      let (xs, sx, nx, rx) = first.carried s hw in
      let (ys, sy, ny, ry) = next.carried (w s).1 (sym (ap (λ x. x.0) e) ∙ h) in
      (
        xs ++ ys,
        ap (λ x. x.1) e ∙ sy ∙ ap (λ t. t ++ ys) sx ∙ append_assoc s xs ys,
        omega (arith, nx, ny, length-append xs ys),
        λ rest.
            ap (r >>= k) (append_assoc xs ys rest)
            ∙ read_on r k (xs ++ (ys ++ rest)) (ys ++ rest) a (rx (ys ++ rest))
            ∙ ry rest,
      );
}

-- The last field of a message, and what the reader makes of it.
pub last_field :
    {A B : Type 0} {n : ℕ} {w : Stream (Unit {0})} {r : Stream A} {a : A} {b : B} (k : A → Stream B)
    → ((rest : Buffer) → k a rest ≡ (returned b, rest))
    → Carries n w r a
    → Carries n w (r >>= k) b
last_field {w = w} {r = r} {a = a} k end field = record {
  carried = λ s h.
      let (xs, sx, nx, rx) = field.carried s h in
      (xs, sx, nx, λ rest. read_on r k (xs ++ rest) rest a (rx rest) ∙ end rest);
}

-- A check of the reader's, which the field passes.
pub passes :
    {A : Type 0} {n : ℕ} {w : Stream (Unit {0})} {r : Stream A} {a : A} (test : Bool)
    (x : RuntimeTrustErrorCode)
    → test ≡ false
    → Carries n w r a
    → Carries n w (throw_if test x >> r) a
passes {r = r} test x ok field = record {
  carried =
      λ s h. let (xs, sx, nx, rx) = field.carried s h in (xs, sx, nx, λ rest. rw ok (rx rest));
}

-- A check of the writer's, which the reader may count on.
pub when_valid :
    {A : Type 0} {n : ℕ} {w : Stream (Unit {0})} {r : Stream A} {a : A}
    (v : Outcome RuntimeTrustErrorCode (Unit {0}))
    → (v ≡ returned tt → Carries n w r a)
    → Carries n (lift v >> w) r a
when_valid {w = w} v field = record {
  carried = λ s h.
      let (hv, e) = first_succeeds (lift v) w s h in
      let (xs, sx, nx, rx) = (field hv).carried s (sym (ap (λ x. x.0) e) ∙ h) in
      (xs, ap (λ x. x.1) e ∙ sx, nx, rx);
}

pub when_not :
    {A : Type 0} {n : ℕ} {w : Stream (Unit {0})} {r : Stream A} {a : A} (test : Bool)
    (x : RuntimeTrustErrorCode)
    → (test ≡ false → Carries n w r a)
    → Carries n (throw_if test x >> w) r a
when_not test x field = elim (Bool-cases test) [
  | inl e ↦ record { carried = λ s h. cc }
  | inr e ↦ when_valid _ (λ h. field e)
]

read_raw-all : (bs rest : Buffer) → read_raw (length bs) (bs ++ rest) ≡ (returned bs, rest)
unfolding read_raw
read_raw-all bs rest = cc (take-append bs rest, drop-append bs rest, not_short)
  where
    not_short : ltb (length (bs ++ rest)) (length bs) ≡ false
    not_short = ground (arith, length-append bs rest)

pub raw_field : (bs : Buffer) → Carries (length bs) (write_raw bs) (read_raw (length bs)) bs
unfolding write_raw
raw_field bs = record { carried = λ s h. (bs, ground arith, omega arith, read_raw-all bs) }

-- A buffer whose length was checked.
pub sized_field : (bs : Buffer) (n : ℕ) → length bs ≡ n → Carries n (write_raw bs) (read_raw n) bs
sized_field bs n h = subst (λ n. Carries n (write_raw bs) (read_raw n) bs) h (raw_field bs)

read_be-u16_bytes : (n : ℕ) → n ≤ 65535 → read_be 0 (u16_bytes n) ≡ n
read_be-u16_bytes n h = omega arith

read_be-u64_bytes : (n : ℕ) → n < 2 ^ 53 → read_be 0 (u64_bytes n) ≡ n
read_be-u64_bytes n h = omega arith

module _ (utf8 : Utf8) (value : String) (validate : Validator) where
  abbrev bytes : Buffer
  bytes = utf8.encode value

  read_text-bytes :
      (rest : Buffer)
      → nat_beq (length bytes) 0 ≡ false
      → utf8.decode bytes ≡ some value
      → validate value ≡ returned tt
      → read_text utf8 validate (length bytes) (bytes ++ rest) ≡ (returned value, rest)
  read_text-bytes rest not_empty back valid =
      rw
        (
          not_empty,
          read_on (read_raw (length bytes)) _ (bytes ++ rest) rest bytes (read_raw-all bytes rest),
          back,
          (nat_beq_iff (length bytes) (length bytes)).1 refl,
          valid,
        )
        refl

  text_bytes :
      (length bytes ≤ 65535)
      → nat_beq (length bytes) 0 ≡ false
      → utf8.decode bytes ≡ some value
      → validate value ≡ returned tt
      → Carries 0
          (write_raw bytes)
          (read_text utf8 validate (read_be 0 (u16_bytes (length bytes))))
          value
  unfolding raw_field
  text_bytes small not_empty back valid = record {
    carried = λ s h.
        let (xs, sx, nx, rx) = (raw_field bytes).carried s h in
        (
          bytes,
          sx,
          omega arith,
          λ rest.
              ap (λ n. read_text utf8 validate n (bytes ++ rest))
                (read_be-u16_bytes (length bytes) small)
              ∙ read_text-bytes rest not_empty back valid,
        );
  }

pub text_field :
    (utf8 : Utf8) (value : String) (validate : Validator)
    → IsPlain validate value
    → Carries 2 (write_string utf8 value validate) (read_string utf8 validate) value
unfolding write_string read_string
text_field utf8 value validate plain = when_valid (validate value) λ valid.
    when_not
      (nat_beq (length (utf8.encode value)) 0
        || ltb 65535 (length (utf8.encode value))
        || not (utf8.to_text (utf8.encode value) == value))
      _
      λ ok. then_field _ (raw_field (u16_bytes (length (utf8.encode value)))) (
        text_bytes utf8 value validate (ground arith) (ground arith)
          (utf8.decode-encode_plain value (plain valid)
            ((eq_iff (utf8.to_text (utf8.encode value)) value).0 (ground arith)))
          valid)

pub u64_field :
    (value : ℕ) (positive : Bool) → Carries 8 (write_u64 value positive) (read_u64 positive) value
unfolding write_u64 read_u64 raw_field is_safe_integer
u64_field value positive = when_not (not (is_safe_integer value positive)) _ λ ok. record {
  carried = λ s h.
      let (xs, sx, nx, rx) = (raw_field (u64_bytes value)).carried s h in
      (
        u64_bytes value,
        sx,
        nx,
        λ rest.
            read_on (read_raw 8) _ (u64_bytes value ++ rest) rest (u64_bytes value) (rx rest)
            ∙ rw (read_be-u64_bytes value (ground arith)) (ground arith),
      );
}

pub header_field :
    (message_type : ℕ) → Carries 11 (write_header message_type) (read_header message_type) tt
unfolding write_header read_header
header_field t = then_field _ (raw_field magic) (
    then_field _ (raw_field (t ∷ [])) (
      passes (not (same_bytes (t ∷ []) (t ∷ []))) _ (rw ((nat_beq_iff t t).1 refl) refl)
        (last_field _ (λ rest. refl) (raw_field (u16_bytes 1)))))
