-- ===== src/Commands/Payload.antt =====
-- The payload that a command's text makes.
use trifecta_sdk.Common.{
  ℕ, suc, ◌-◌, ◌<◌, ◌≡◌, sym, ap, ◌∙◌, false, List, [], ◌∷◌, ◌++◌, arith, ◌==◌, length, set,
  replicate, append-snoc, length-snoc, set-append_here,
}
use trifecta_sdk.Device.{max_cmd_length}
use trifecta_sdk.Commands.{is_break}

-- The text, and NUL to the end of the array.
abbrev pub payload_of : List ℕ → List ℕ
payload_of text = text ++ replicate (max_cmd_length - length text) 0

abbrev pub payloads : List (List ℕ) → List (List ℕ)
payloads [] = []
payloads (text ∷ texts) = payload_of text ∷ payloads texts

-- The texts, each with its terminator.
abbrev pub format : List (List ℕ) → List ℕ
format [] = []
format (text ∷ texts) = text ++ b';' ∷ format texts

-- A text that no character ends early.
abbrev pub IsPlain : List ℕ → Type 0
IsPlain [] = Unit
IsPlain (c ∷ cs) = (((c == b';') ≡ false) × (is_break c ≡ false)) × IsPlain cs

-- Every text is plain and fits a payload with its NUL.
abbrev pub AllPlain : List (List ℕ) → Type 0
AllPlain [] = Unit
AllPlain (text ∷ texts) = (IsPlain text × (length text < max_cmd_length)) × AllPlain texts

-- The segmenter's write of the next character.
pub set-payload_of :
    (pre : List ℕ) (c : ℕ)
    → length pre < max_cmd_length
    → set (payload_of pre) (length pre) c ≡ payload_of (pre ++ c ∷ [])
set-payload_of pre c lt =
    let more : max_cmd_length - length pre ≡ suc (max_cmd_length - length (pre ++ c ∷ [])) =
      omega (arith, length-snoc pre c) in
    ap (λ n. set (pre ++ replicate n 0) (length pre) c) more
    ∙ set-append_here pre (replicate (max_cmd_length - length (pre ++ c ∷ [])) 0) 0 c
    ∙ append-snoc pre (replicate (max_cmd_length - length (pre ++ c ∷ [])) 0) c

-- The NUL it writes behind the text is there already.
pub set-payload_of_end :
    (pre : List ℕ)
    → length pre < max_cmd_length
    → set (payload_of pre) (length pre) 0 ≡ payload_of pre
set-payload_of_end pre lt =
    let more : max_cmd_length - length pre ≡ suc (max_cmd_length - length pre - 1) = omega arith in
    ap (λ n. set (pre ++ replicate n 0) (length pre) 0) more
    ∙ set-append_here pre (replicate (max_cmd_length - length pre - 1) 0) 0 0
    ∙ ap (λ n. pre ++ replicate n 0) (sym more)
