-- ===== src/RuntimeTrust/Codec/Delivery.antt =====
-- packages/runtime-trust-contracts/src/codec.ts: a frame that arrives in chunks.
use zima_control.Common.{
  ◌≤◌, ◌≡◌, refl, sym, ap, ◌∙◌, Bool, true, not, List, [], ◌∷◌, ◌++◌, Option, none, some, length,
  map, all, arith, nat_beq, length-append, append_assoc,
}
use zima_control.Common.Action.{returned}
use zima_control.RuntimeTrust.Types.{Buffer}
use zima_control.RuntimeTrust.Codec.{u32_bytes, max_frame_bytes}
use zima_control.RuntimeTrust.Codec.Frames.{
  encode_runtime_trust_frame, push_each, encoded_frame, push-part, push-last,
}

-- `Buffer.concat`
abbrev pub concat : List Buffer → Buffer
concat [] = []
concat (chunk ∷ chunks) = chunk ++ concat chunks

abbrev pub has_bytes : Buffer → Bool
has_bytes chunk = not (nat_beq (length chunk) 0)

abbrev pub nothing_yet : List Buffer → List (Option Buffer)
nothing_yet = map (λ _. none)

push_each-onto :
    (payload buffered last : Buffer) (earlier : List Buffer)
    → 1 ≤ length payload
    → length payload ≤ max_frame_bytes
    → all has_bytes earlier ≡ true
    → 1 ≤ length last
    → u32_bytes (length payload) ++ payload ≡ buffered ++ (concat earlier ++ last)
    → push_each (earlier ++ (last ∷ [])) buffered
      ≡ (returned (nothing_yet earlier ++ (some payload ∷ [])), [])
unfolding push_each
push_each-onto payload buffered last [] lo hi ok hl same =
    rw (push-last payload buffered last lo hi same hl) refl
push_each-onto payload buffered last (c ∷ cs) lo hi ok hl same =
    let here =
      push-part payload buffered c (concat cs ++ last) lo hi
        (same
          ∙ ap (λ p. buffered ++ p) (append_assoc c (concat cs) last)
          ∙ sym (append_assoc buffered c (concat cs ++ last)))
        (ground (arith, ok)) (omega (arith, hl, length-append (concat cs) last)) in
    let later = push_each-onto payload (buffered ++ c) last cs lo hi (ground (arith, ok)) hl (
      same
      ∙ ap (λ p. buffered ++ p) (append_assoc c (concat cs) last)
      ∙ sym (append_assoc buffered c (concat cs ++ last))) in
    rw (here, later) refl

-- However a frame is cut into chunks that are not empty, an accumulator that starts empty gives nothing
-- for each chunk before the last, gives the payload for the last, and is empty again.
pub push_each-chunks :
    (payload frame : Buffer) (earlier : List Buffer) (last : Buffer)
    → encode_runtime_trust_frame payload ≡ returned frame
    → concat earlier ++ last ≡ frame
    → all has_bytes earlier ≡ true
    → 1 ≤ length last
    → push_each (earlier ++ (last ∷ [])) []
      ≡ (returned (nothing_yet earlier ++ (some payload ∷ [])), [])
push_each-chunks payload frame earlier last encoded cut ok hl =
    let (lo, hi, same) = encoded_frame payload frame encoded in
    push_each-onto payload [] last earlier lo hi ok hl (same ∙ sym cut)
