-- ===== src/RingBuffer/KeepLast.antt =====
-- What a queue of bounded length keeps of the items that are forced into it.
use trifecta_sdk.Common.{
  ℕ, suc, ◌-◌, ◌≤◌, ◌<◌, ◌≡◌, ap, ◌∙◌, inl, inr, List, [], ◌∷◌, ◌++◌, arith, ltb, length, drop,
  Bool-cases, lt→ltb, length-append, length-drop, append_assoc,
}
use trifecta_sdk.RingBuffer.Queue

-- The last `n` items.
unfoldable pub keep_last {ℓ} : {A : Type ℓ} → ℕ → List A → List A
keep_last n xs = drop (length xs - n) xs

-- Dropping what does not fit after each byte is dropping it once at the end.
pub keep_last-step {ℓ} :
    {A : Type ℓ} (q xs : List A) (x : A) (n : ℕ)
    → length q ≤ n
    → 0 < n
    → keep_last n ((Queue.push_force n q x).1 ++ xs) ≡ keep_last n (q ++ x ∷ xs)
unfolding keep_last Queue.push_force
keep_last-step [] xs x n h pos = rw (lt→ltb 0 n pos)
keep_last-step (y ∷ q) xs x n h pos = elim (Bool-cases (ltb (suc (length q)) n)) [
  | inl room ↦ rw room (ap (λ l. drop (suc (length l) - n) (y ∷ l)) (append_assoc q (x ∷ []) xs))
  | inr full ↦ rw full (
      ap (λ l. drop (length l - n) l) (append_assoc q (x ∷ []) xs)
      ∙ ap (λ k. drop k (y ∷ (q ++ x ∷ xs))) (one_more (ground arith)))
]
  where
    one_more : n ≤ suc (length q) → suc (length (q ++ x ∷ xs) - n) ≡ suc (length (q ++ x ∷ xs)) - n
    one_more e = omega (arith, length-append q (x ∷ xs))

pub length-push_force {ℓ} :
    {A : Type ℓ} (n : ℕ) (q : List A) (x : A)
    → 0 < n
    → length q ≤ n
    → length (Queue.push_force n q x).1 ≤ n
unfolding Queue.push_force
length-push_force n q x pos h =
    ground (arith, length-append q (x ∷ []), length-append (drop 1 q) (x ∷ []), length-drop 1 q)

pub keep_last_all {ℓ} : {A : Type ℓ} (n : ℕ) (q : List A) → length q ≤ n → keep_last n q ≡ q
unfolding keep_last
keep_last_all n q h = let none_over : length q - n ≡ 0 = omega arith in ap (λ k. drop k q) none_over
