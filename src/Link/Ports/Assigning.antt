-- ===== src/Link/Ports/Assigning.antt =====
-- fs_get_udp_port_for_device against the list of the addresses that have a port.
use mathlib.Core.Path.{subst}
use native.Mathlib.Decide.{dec_lt}
use trifecta_sdk.Common.{
  ℕ, suc, ◌+◌, ◌-◌, ◌%◌, ◌≤◌, ◌<◌, ◌≡◌, refl, sym, ap, ◌∙◌, List, [], ◌∷◌, ◌++◌, none, some, set,
  replicate, get_or, length, arith, length-append, append-snoc, set-append_here, get_or-append_here,
  ◌⊎◌,
}
use trifecta_sdk.Link.Ports.{
  PortEntry, PortMap, max_number_devices, trifecta_port, no_entry, copy_chars, find_port,
  assign_port, get_udp_port_for_device,
}
use trifecta_sdk.Link.Ports.Assigned.{
  IsAddress, AllAddresses, Assigns, place_of, with_address, entry_of, entries_from, find_port-blank,
  find_port-found, find_port-absent, with_address-old, with_address-new, place_le,
  entries_from-snoc, length-entries_from, copy_chars-blank,
}

module _ (ip : List ℕ) (good : IsAddress ip) (ports : PortMap) (ips : List (List ℕ))
    (all : AllAddresses ips) (v : Assigns ports ips) where
  -- The port of an address, and the map with it.
  abbrev HasPort : ℕ × PortMap → Type 0
  HasPort (port, ports') =
      (port ≡ trifecta_port + place_of ip ips) × Assigns ports' (with_address ip ips)

  old_port : place_of ip ips < length ips → HasPort (get_udp_port_for_device ports ip)
  unfolding get_udp_port_for_device
  old_port lt =
      let found : find_port ip ports.entries ≡ some (trifecta_port + place_of ip ips) =
        ap (find_port ip) v.stored
        ∙ find_port-found ip good ips (replicate (max_number_devices - length ips) no_entry) 0 all
            lt
        ∙ ap (λ n. some (trifecta_port + n))
            (let e : 0 + place_of ip ips ≡ place_of ip ips = omega arith in e) in
      rw (found, get_udp_port_for_device)
        (refl, subst (Assigns ports) (sym (with_address-old ip ips lt)) v)

  -- The write of the new entry.
  abbrev write : ℕ → ℕ → List PortEntry → List PortEntry
  write i index entries = set entries i (record {
    ip_addr = copy_chars 38 (get_or entries i no_entry).ip_addr ip;
    assigned_index = index;
  })

  write-here :
      (done rest : List PortEntry) (index : ℕ)
      → write (length done) index (done ++ no_entry ∷ rest) ≡ done ++ entry_of ip index ∷ rest
  write-here done rest index =
      ap
        (λ (e : PortEntry).
          set (done ++ no_entry ∷ rest) (length done)
            (record { ip_addr = copy_chars 38 e.ip_addr ip; assigned_index = index }))
        (get_or-append_here done rest no_entry no_entry)
      ∙ set-append_here done rest no_entry
          (record { ip_addr = copy_chars 38 (replicate 39 0) ip; assigned_index = index })
      ∙ ap (λ (chars : List ℕ). done ++ record { ip_addr = chars; assigned_index = index } ∷ rest)
          (copy_chars-blank ip good.2)

  next_is : length ips < max_number_devices → ports.next_index % max_number_devices ≡ length ips
  next_is lt = omega (arith, v.counted)

  stored_new :
      length ips < max_number_devices
      → (assign_port ports ip).1.entries
        ≡ entries_from 0 (ips ++ ip ∷ [])
          ++ replicate (max_number_devices - length (ips ++ ip ∷ [])) no_entry
  unfolding assign_port
  stored_new lt =
      let done = entries_from 0 ips in
      let n = length ips in
      let rest = replicate (max_number_devices - length (ips ++ ip ∷ [])) no_entry in
      let one_less : max_number_devices - n ≡ suc (max_number_devices - length (ips ++ ip ∷ [])) =
        omega (arith, length-append ips (ip ∷ [])) in
      let none_before : n ≡ 0 + n = omega arith in
      ap (λ i. write i i ports.entries) (next_is lt)
      ∙ ap (write n n) (v.stored ∙ ap (λ k. done ++ replicate k no_entry) one_less)
      ∙ ap (λ i. write i n (done ++ no_entry ∷ rest)) (sym (length-entries_from ips 0))
      ∙ write-here done rest n
      ∙ append-snoc done rest (entry_of ip n)
      ∙ ap (λ i. (done ++ entry_of ip i ∷ []) ++ rest) none_before
      ∙ ap (λ es. es ++ rest) (sym (entries_from-snoc ips ip 0))

  new_port :
      length ips ≤ place_of ip ips
      → length ips < max_number_devices
      → HasPort (get_udp_port_for_device ports ip)
  unfolding get_udp_port_for_device
  new_port le lt =
      let absent : find_port ip ports.entries ≡ none =
        ap (find_port ip) v.stored
        ∙ find_port-absent ip good ips (replicate (max_number_devices - length ips) no_entry) 0 all
            le
        ∙ find_port-blank ip (max_number_devices - length ips) good in
      rw (absent, get_udp_port_for_device)
        (
          omega (arith, next_is lt, le, place_le ip ips),
          subst (Assigns (assign_port ports ip).1) (sym (with_address-new ip ips le)) (record {
            room = omega (arith, length-append ips (ip ∷ []));
            counted = omega (arith, v.counted, length-append ips (ip ∷ []));
            stored = stored_new lt;
          }),
        )

  -- fs_get_udp_port_for_device keeps a list of addresses in the order in which they first came: the
  -- port is 8888 and the place of the address in it, and a new address is put at its end. The address
  -- has 1 to 38 characters, and is in the list or comes to fewer than 16 others.
  pub get_udp_port_for_device-Assigns :
      (place_of ip ips < length ips) ⊎ (length ips < max_number_devices)
      → ((get_udp_port_for_device ports ip).0 ≡ trifecta_port + place_of ip ips)
        × Assigns (get_udp_port_for_device ports ip).1 (with_address ip ips)
  get_udp_port_for_device-Assigns room = elim (dec_lt (place_of ip ips) (length ips)) [
    | yes old ↦ old_port old
    | no new ↦ new_port (omega arith) (ground (arith, room, new))
  ]
