-- ===== src/Replay/Stream.antt =====
-- include/FS_Trifecta_Defs.h: fs_safe_fgets, over a file as its bytes and the place where the next one
-- is read. A read error of the file system is no part of the model.
use trifecta_sdk.Common.{ℕ, ◌+◌, ◌-◌, List, [], ◌∷◌, ◌++◌, ltb, ◌==◌, drop, if◌then◌else◌}
use trifecta_sdk.Common.Int.{ℤ, pos, negsuc}

-- `FILE`.
pub record File : Type 0 where
  pub bytes : List ℕ
  pub offset : ℕ

-- What a call makes of the bytes ahead: the value returned, the characters stored before the final
-- NUL, and how many bytes were consumed.
pub record Line : Type 0 where
  pub code : ℤ
  pub text : List ℕ
  pub used : ℕ

-- The inner loop, which discards up to a line break: the number of bytes it consumes.
unfoldable pub discard : List ℕ → ℕ
discard [] = 0
discard (c ∷ cs) = let rest = discard cs in if c == 10 then 1 else 1 + rest

-- The loop at index `idx`, with the characters stored so far, and the two ways out after it.
unfoldable pub fgets_from : ℕ → List ℕ → ℕ → List ℕ → Line
fgets_from buf_size [] idx buf =
    if idx == 0
    then record { code = pos 0; text = buf; used = 0 }
    else record { code = pos 1; text = buf; used = idx }
fgets_from buf_size (c ∷ cs) idx buf =
    let rest = fgets_from buf_size cs (idx + 1) (buf ++ c ∷ []) in
    if ltb idx (buf_size - 1)
    then (if c == 10 then record { code = pos 1; text = buf ++ c ∷ []; used = idx + 1 } else rest)
    else record { code = negsuc 0; text = buf; used = idx + discard (c ∷ cs) }

-- `fs_safe_fgets` on an open file and a buffer.
unfoldable pub safe_fgets : ℕ → File → Line × File
unfolding fgets_from discard
safe_fgets buf_size fp =
    if ltb buf_size 2
    then (record { code = negsuc 1; text = []; used = 0 }, fp)
    else (let line = fgets_from buf_size (drop fp.offset fp.bytes) 0 [] in
        (line, record fp { offset = fp.offset + line.used }))

-- `fseek(fp, offset, SEEK_SET)`, which may go past the end of the file.
abbrev pub fseek : File → ℕ → File
fseek fp offset = record fp { offset = offset }
