-- ===== src/CString.antt =====
-- include/FS_Trifecta_Defs.h: fs_safe_strnlen and fs_safe_strncpy, over memory as a list of bytes.
pub mod Laws
pub mod Copy
mod Tests
use trifecta_sdk.Common.{
  ℕ, zero, suc, ◌+◌, ◌-◌, List, [], ◌∷◌, ltb, ◌==◌, get_or, set, if◌then◌else◌, Bool, ◌&&◌, not,
}

-- What is read past the end of the memory is not C's business; it reads as NUL here.
abbrev pub byte_at : List ℕ → ℕ → ℕ
byte_at s i = get_or s i 0

-- The rounds of the loop of `fs_safe_strnlen` that are left, at index `i`.
strnlen_from : ℕ → List ℕ → ℕ → ℕ
strnlen_from zero s i = i
strnlen_from (suc n) s i =
    let rest = strnlen_from n s (i + 1) in if byte_at s i == 0 then i else rest

unfoldable pub strnlen : List ℕ → ℕ → ℕ
unfolding strnlen_from
strnlen s maxlen = strnlen_from maxlen s 0

-- The loop of `fs_safe_strncpy` with at most `n` characters left to copy, and its final NUL.
strncpy_from : ℕ → List ℕ → List ℕ → ℕ → List ℕ
strncpy_from zero dest src i = set dest i 0
strncpy_from (suc n) dest src i =
    let rest = strncpy_from n (set dest i (byte_at src i)) src (i + 1) in
    if byte_at src i == 0 then set dest i 0 else rest

unfoldable pub strncpy : List ℕ → List ℕ → ℕ → List ℕ
unfolding strncpy_from
strncpy dest src maxlen = if maxlen == 0 then dest else strncpy_from (maxlen - 1) dest src 0
