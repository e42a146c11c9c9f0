-- ===== src/Link/Ports.antt =====
-- common/FS_Trifecta_Networked.c: fs_get_udp_port_for_device. A C string is the list of its characters,
-- without the NUL, and an array of characters is the list of its cells.
pub mod Assigned
pub mod Assigning
use trifecta_sdk.Common.{
  ℕ, zero, suc, ◌+◌, ◌-◌, ◌%◌, Bool, true, false, List, [], ◌∷◌, ◌++◌, ◌==◌, ◌&&◌, ◌||◌, Option,
  none, some, take, drop, set, replicate, get_or, if◌then◌else◌, length,
}

-- `fs_device_port_map_t`.
pub record PortEntry : Type 0 where
  pub ip_addr : List ℕ
  pub assigned_index : ℕ

-- `device_port_map` and `next_index`.
pub record PortMap : Type 0 where
  pub entries : List PortEntry
  pub next_index : ℕ

-- FS_MAX_NUMBER_DEVICES and FS_TRIFECTA_PORT.
abbrev pub max_number_devices : ℕ
max_number_devices = 16

abbrev pub trifecta_port : ℕ
trifecta_port = 8888

-- Both as they stand when the program starts.
abbrev pub no_entry : PortEntry
no_entry = record { ip_addr = replicate 39 0; assigned_index = 0 }

abbrev pub no_ports : PortMap
no_ports = record { entries = replicate max_number_devices no_entry; next_index = 0 }

-- `strncmp(a, b, n) == 0`. What is read past the end of a list is NUL.
unfoldable pub same_chars : ℕ → List ℕ → List ℕ → Bool
same_chars zero a b = true
same_chars (suc n) [] [] = true
same_chars (suc n) [] (y ∷ b) = y == 0
same_chars (suc n) (x ∷ a) [] = x == 0
same_chars (suc n) (x ∷ a) (y ∷ b) = x == y && (x == 0 || same_chars n a b)

-- `strncpy(dest, src, n)` of the C library, which fills up with NUL.
unfoldable pub copy_chars : ℕ → List ℕ → List ℕ → List ℕ
copy_chars n dest src = take n (src ++ replicate (n - length src) 0) ++ drop n dest

-- The loop over the entries: what is assigned to the address already.
unfoldable pub find_port : List ℕ → List PortEntry → Option ℕ
find_port ip_addr [] = none
find_port ip_addr (e ∷ entries) =
    if same_chars 39 e.ip_addr ip_addr
    then some (trifecta_port + e.assigned_index)
    else find_port ip_addr entries

unfoldable pub assign_port : PortMap → List ℕ → ℕ × PortMap
assign_port ports ip_addr =
    let index = ports.next_index % max_number_devices in
    (
      trifecta_port + index,
      record {
        entries = set ports.entries index (record {
          ip_addr = copy_chars 38 (get_or ports.entries index no_entry).ip_addr ip_addr;
          assigned_index = index;
        });
        next_index = ports.next_index + 1;
      },
    )

-- `fs_get_udp_port_for_device`.
unfoldable pub get_udp_port_for_device : PortMap → List ℕ → ℕ × PortMap
unfolding assign_port
get_udp_port_for_device ports ip_addr = elim (find_port ip_addr ports.entries) [
  | some port ↦ (port, ports)
  | none ↦ assign_port ports ip_addr
]
