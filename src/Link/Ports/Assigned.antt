-- ===== src/Link/Ports/Assigned.antt =====
-- The addresses that have a port, in the order in which they got it.
use trifecta_sdk.Common.{
  ℕ, zero, suc, ◌+◌, ◌-◌, ◌≤◌, ◌<◌, ◌≡◌, refl, ap, ◌∙◌, Bool, true, false, List, [], ◌∷◌, ◌++◌,
  ◌==◌, ◌&&◌, none, some, replicate, if◌then◌else◌, length, arith, Bool-cases, inl, inr, take_all,
  append_assoc, length-append, length-replicate,
}
use trifecta_sdk.CString.Laws.{NoNul}
use trifecta_sdk.Link.Ports.{
  PortEntry, PortMap, max_number_devices, trifecta_port, no_entry, same_chars, copy_chars,
  find_port,
}

-- An address that fits its array.
abbrev pub IsAddress : List ℕ → Type 0
IsAddress ip = NoNul ip × (0 < length ip) × (length ip ≤ 38)

abbrev pub AllAddresses : List (List ℕ) → Type 0
AllAddresses [] = Unit
AllAddresses (ip ∷ ips) = IsAddress ip × AllAddresses ips

pub same_address : List ℕ → List ℕ → Bool
same_address [] [] = true
same_address (x ∷ a) (y ∷ b) = x == y && same_address a b
same_address _ _ = false

-- The place of an address in a list, its length for one that is not there.
abbrev pub place_of : List ℕ → List (List ℕ) → ℕ
place_of ip [] = 0
place_of ip (a ∷ ips) = let rest = suc (place_of ip ips) in if same_address a ip then 0 else rest

-- The list with the address, which is put at the end if it is new.
abbrev pub with_address : List ℕ → List (List ℕ) → List (List ℕ)
with_address ip [] = ip ∷ []
with_address ip (a ∷ ips) =
    let rest = a ∷ with_address ip ips in if same_address a ip then a ∷ ips else rest

abbrev pub entry_of : List ℕ → ℕ → PortEntry
entry_of ip index = record { ip_addr = ip ++ replicate (39 - length ip) 0; assigned_index = index }

abbrev pub entries_from : ℕ → List (List ℕ) → List PortEntry
entries_from index [] = []
entries_from index (ip ∷ ips) = entry_of ip index ∷ entries_from (suc index) ips

-- The map has these addresses, in order, and is empty behind them.
pub record Assigns (ports : PortMap) (ips : List (List ℕ)) : Type 0 where
  pub room : length ips ≤ max_number_devices
  pub counted : ports.next_index ≡ length ips
  pub stored :
      ports.entries ≡ entries_from 0 ips ++ replicate (max_number_devices - length ips) no_entry

same_chars-stored :
    (n : ℕ) (a ip : List ℕ) (k : ℕ)
    → NoNul a
    → NoNul ip
    → length a < n
    → 0 < k
    → same_chars n (a ++ replicate k 0) ip ≡ same_address a ip
unfolding same_chars same_address
same_chars-stored zero a ip k h h' lt pos_k = absurd (omega arith)
same_chars-stored (suc n) [] [] zero h h' lt pos_k = absurd (omega arith)
same_chars-stored (suc n) [] [] (suc k) h h' lt pos_k = refl
same_chars-stored (suc n) [] (y ∷ ip) zero h h' lt pos_k = absurd (omega arith)
same_chars-stored (suc n) [] (y ∷ ip) (suc k) h h' lt pos_k = ground (arith, h'.0)
same_chars-stored (suc n) (x ∷ a) [] k h h' lt pos_k = ground (arith, h.0)
same_chars-stored (suc n) (x ∷ a) (y ∷ ip) k h h' lt pos_k =
    ground (arith, h.0, same_chars-stored n a ip k h.1 h'.1)

same_chars-blank :
    (k : ℕ) (ip : List ℕ) → IsAddress ip → same_chars 39 (replicate (suc k) 0) ip ≡ false
unfolding same_chars
same_chars-blank k [] h = absurd (omega (arith, h.1))
same_chars-blank k (y ∷ ip) h = ground (arith, h.0)

pub find_port-blank :
    (ip : List ℕ) (k : ℕ) → IsAddress ip → find_port ip (replicate k no_entry) ≡ none
unfolding find_port
find_port-blank ip zero h = refl
find_port-blank ip (suc k) h = rw (same_chars-blank 38 ip h) (find_port-blank ip k h)

entry_test :
    (a ip : List ℕ) (i : ℕ)
    → IsAddress a
    → IsAddress ip
    → same_chars 39 (entry_of a i).ip_addr ip ≡ same_address a ip
entry_test a ip i h h' =
    same_chars-stored 39 a ip (39 - length a) h.0 h'.0 (omega (arith, h.2)) (omega (arith, h.2))

module _ (ip : List ℕ) (good : IsAddress ip) where
  pub find_port-found :
      (ips : List (List ℕ)) (rest : List PortEntry) (i : ℕ)
      → AllAddresses ips
      → place_of ip ips < length ips
      → find_port ip (entries_from i ips ++ rest) ≡ some (trifecta_port + (i + place_of ip ips))
  unfolding find_port
  find_port-found [] rest i h lt = absurd (omega arith)
  find_port-found (a ∷ ips) rest i h lt = elim (Bool-cases (same_address a ip)) [
    | inl e ↦
        let none_before : i ≡ i + 0 = omega arith in
        rw (entry_test a ip i h.0 good, e) (ap (λ n. some (trifecta_port + n)) none_before)
    | inr e ↦
        let later : suc i + place_of ip ips ≡ i + suc (place_of ip ips) = omega arith in
        let lt' : place_of ip ips < length ips = omega (arith, rw e at lt) in
        rw (entry_test a ip i h.0 good, e)
          (find_port-found ips rest (suc i) h.1 lt' ∙ ap (λ n. some (trifecta_port + n)) later)
  ]

  pub find_port-absent :
      (ips : List (List ℕ)) (rest : List PortEntry) (i : ℕ)
      → AllAddresses ips
      → length ips ≤ place_of ip ips
      → find_port ip (entries_from i ips ++ rest) ≡ find_port ip rest
  unfolding find_port
  find_port-absent [] rest i h le = refl
  find_port-absent (a ∷ ips) rest i h le = elim (Bool-cases (same_address a ip)) [
    | inl e ↦ absurd (omega (arith, rw e at le))
    | inr e ↦
        let le' : length ips ≤ place_of ip ips = omega (arith, rw e at le) in
        rw (entry_test a ip i h.0 good, e) (find_port-absent ips rest (suc i) h.1 le')
  ]

pub with_address-old :
    (ip : List ℕ) (ips : List (List ℕ)) → place_of ip ips < length ips → with_address ip ips ≡ ips
with_address-old ip [] lt = absurd (omega arith)
with_address-old ip (a ∷ ips) lt = elim (Bool-cases (same_address a ip)) [
  | inl e ↦ rw e refl
  | inr e ↦
      let lt' : place_of ip ips < length ips = omega (arith, rw e at lt) in
      rw e (ap (◌∷◌ a) (with_address-old ip ips lt'))
]

pub with_address-new :
    (ip : List ℕ) (ips : List (List ℕ))
    → length ips ≤ place_of ip ips
    → with_address ip ips ≡ ips ++ ip ∷ []
with_address-new ip [] le = refl
with_address-new ip (a ∷ ips) le = elim (Bool-cases (same_address a ip)) [
  | inl e ↦ absurd (omega (arith, rw e at le))
  | inr e ↦
      let le' : length ips ≤ place_of ip ips = omega (arith, rw e at le) in
      rw e (ap (◌∷◌ a) (with_address-new ip ips le'))
]

pub place_le : (ip : List ℕ) (ips : List (List ℕ)) → place_of ip ips ≤ length ips
place_le ip [] = omega arith
place_le ip (a ∷ ips) = ground (arith, place_le ip ips)

pub entries_from-snoc :
    (ips : List (List ℕ)) (ip : List ℕ) (i : ℕ)
    → entries_from i (ips ++ ip ∷ []) ≡ entries_from i ips ++ entry_of ip (i + length ips) ∷ []
entries_from-snoc [] ip i = let e : i ≡ i + 0 = omega arith in ap (λ n. entry_of ip n ∷ []) e
entries_from-snoc (a ∷ ips) ip i =
    let e : suc i + length ips ≡ i + suc (length ips) = omega arith in
    ap (◌∷◌ (entry_of a i)) (
      entries_from-snoc ips ip (suc i) ∙ ap (λ n. entries_from (suc i) ips ++ entry_of ip n ∷ []) e)

pub length-entries_from : (ips : List (List ℕ)) (i : ℕ) → length (entries_from i ips) ≡ length ips
length-entries_from [] i = refl
length-entries_from (a ∷ ips) i = ap suc (length-entries_from ips (suc i))

replicate-snoc : (k : ℕ) → replicate {A = ℕ} k 0 ++ 0 ∷ [] ≡ replicate (suc k) 0
replicate-snoc zero = refl
replicate-snoc (suc k) = ap (◌∷◌ 0) (replicate-snoc k)

pub copy_chars-blank :
    (ip : List ℕ)
    → length ip ≤ 38
    → copy_chars 38 (replicate 39 0) ip ≡ ip ++ replicate (39 - length ip) 0
unfolding copy_chars
copy_chars-blank ip le =
    let whole : length (ip ++ replicate {A = ℕ} (38 - length ip) 0) ≡ 38 = omega (
      arith,
      length-append ip (replicate (38 - length ip) 0),
      length-replicate {A = ℕ} (38 - length ip) 0,
    ) in
    let one_more : suc (38 - length ip) ≡ 39 - length ip = omega arith in
    ap (λ (t : List ℕ). t ++ 0 ∷ [])
      (take_all 38 (ip ++ replicate (38 - length ip) 0) (omega arith))
    ∙ append_assoc ip (replicate (38 - length ip) 0) (0 ∷ [])
    ∙ ap (◌++◌ ip) (replicate-snoc (38 - length ip))
    ∙ ap (λ n. ip ++ replicate n 0) one_more
