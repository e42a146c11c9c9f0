-- ===== src/Serial/Steps.antt =====
-- One round of fs_device_process_packets_serial's loop: waiting, or taking bytes out.
use trifecta_sdk.Common.{
  ℕ, zero, suc, ◌+◌, ◌-◌, ◌%◌, ◌^◌, ◌≡◌, ◌≢◌, refl, sym, inl, inr, ◌⊎◌, Option, none, some, List,
  [], ◌∷◌, ◌++◌, arith, ◌==◌, set, take, drop, Bool-cases,
}
use mathlib.Core.Path.{subst}
use trifecta_sdk.Common.Int.{ℤ}
use trifecta_sdk.CString.{byte_at}
use trifecta_sdk.RingBuffer.Refine.{Holds}
use trifecta_sdk.RingBuffer.Bytes.{max_data_length}
use trifecta_sdk.RingBuffer.Bytes.Laws.{cb_pop-Holds}
use trifecta_sdk.Packet.{packet_type, packet_size, obtain_packet_length}
use trifecta_sdk.Base64.RoundTrip.{decode_fuel}
use trifecta_sdk.Base64.Termination.{base64_decode-terminates}
use trifecta_sdk.Base64.{Decoded, out_of_fuel, rejected, decoded, base64_decode}
use trifecta_sdk.Device.{Device, enqueue_into_packet_queue}
use trifecta_sdk.Delimiters.{Indices}
use trifecta_sdk.Segment.{base64_to_packet, decode_buffer_size}
use trifecta_sdk.Segment.Termination.{segment_packets-Returns}
use trifecta_sdk.Commands.Invariant.{IsQueue, handle_received_commands-IsQueue}
use trifecta_sdk.Serial.{
  Receiver, Round, waiting, handled, frame, drop_bytes, binary_packet, base64_packet,
  command_segment, dispatch,
}

-- No byte is '='.
abbrev pub NoPad : List ℕ → Type 0
NoPad [] = Unit
NoPad (c ∷ cs) = (c ≢ b'=') × NoPad cs

NoPad-append : (xs ys : List ℕ) → NoPad xs → NoPad ys → NoPad (xs ++ ys)
NoPad-append [] ys hx hy = hy
NoPad-append (x ∷ xs) ys hx hy = (hx.0, NoPad-append xs ys hx.1 hy)

pub NoPad-drop : (n : ℕ) (xs : List ℕ) → NoPad xs → NoPad (drop n xs)
NoPad-drop zero xs h = h
NoPad-drop (suc n) [] h = tt
NoPad-drop (suc n) (x ∷ xs) h = NoPad-drop n xs h.1

NoPad-set : (xs : List ℕ) (i : ℕ) → NoPad xs → NoPad (set xs i 0)
NoPad-set [] i h = tt
NoPad-set (x ∷ xs) zero h = ((λ e. omega arith), h.1)
NoPad-set (x ∷ xs) (suc i) h = (h.0, NoPad-set xs i h.1)

NoPad-byte_at : (xs : List ℕ) (i : ℕ) → NoPad xs → byte_at xs i ≢ b'='
NoPad-byte_at [] i h = λ e. omega arith
NoPad-byte_at (x ∷ xs) zero h = h.0
NoPad-byte_at (x ∷ xs) (suc i) h = NoPad-byte_at xs i h.1

-- The byte buffer holds these bytes, and the command queue is a valid ring.
abbrev pub Ready : Receiver → List ℕ → Type 0
Ready r q = Holds max_data_length r.dev.data_buffer q × IsQueue r.dev.command_queue

drop_bytes-Ready :
    (r : Receiver) (q : List ℕ) (n : ℕ) → Ready r q → Ready (drop_bytes n r) (drop n q)
drop_bytes-Ready r q n (h, hc) = ((cb_pop-Holds r.dev.data_buffer q n h).1, hc)

-- A round waits, or takes bytes out.
abbrev pub Steps : List ℕ → Option Round → Type 0
Steps q o =
    (o ≡ some waiting)
    ⊎ ((r' : Receiver) × (n : ℕ) × (o ≡ some (handled r')) × Ready r' (drop (suc n) q))

took :
    (r : Receiver) (q : List ℕ) (n : ℕ)
    → Ready r q
    → Steps q (some (handled (drop_bytes (n + 1) r)))
took r q n h =
    let next : n + 1 ≡ suc n = omega arith in
    inr (
      drop_bytes (n + 1) r,
      n,
      refl,
      subst (λ k. Ready (drop_bytes (n + 1) r) (drop k q)) next (drop_bytes-Ready r q (n + 1) h),
    )

binary_packet-Steps :
    (stack temp q : List ℕ) (start end : ℕ) (r : Receiver)
    → Ready r q
    → Steps q (binary_packet stack temp start end r)
unfolding binary_packet
binary_packet-Steps stack temp q start end r (h, hc) =
    let size = (end + 2 ^ 64 - (start + 1) + 2 ^ 64 - 1) % 2 ^ 64 in
    let (v, e, bytes, commands) =
      segment_packets-Returns r.dev (drop (start + 1) temp) size stack in
    rw (e, binary_packet)
      (took (record r { dev = v.1 }) q end
        (subst (λ b. Holds max_data_length b q) (sym bytes) h, subst IsQueue (sym commands) hc))

command_segment-Steps :
    (temp q : List ℕ) (i : ℕ) (r : Receiver) → Ready r q → Steps q (command_segment temp i r)
unfolding command_segment
command_segment-Steps temp q i r (h, hc) =
    let (v, e, commands, bytes) = handle_received_commands-IsQueue r.dev temp hc in
    rw (e, command_segment)
      (took (record r { dev = v.1 }) q i
        (subst (λ b. Holds max_data_length b q) (sym bytes) h, commands))

-- What a call of base64_to_packet leaves alone.
abbrev Decodes : Device → Option (ℤ × List ℕ × Device) → Type 0
Decodes dev o =
    (v : ℤ × List ℕ × Device) × (o ≡ some v)
    × (v.2.data_buffer ≡ dev.data_buffer)
    × (v.2.command_queue ≡ dev.command_queue)

decodes :
    (dev dev' : Device) (status : ℤ) (buffer : List ℕ)
    → dev'.data_buffer ≡ dev.data_buffer
    → dev'.command_queue ≡ dev.command_queue
    → Decodes dev (some (status, buffer, dev'))
decodes dev dev' status buffer b c = ((status, buffer, dev'), refl, b, c)

base64_to_packet-Decodes :
    (dev : Device) (decode_buffer segment : List ℕ) (n : ℕ)
    → NoPad segment
    → Decodes dev (base64_to_packet decode_fuel dev decode_buffer segment n)
unfolding base64_to_packet enqueue_into_packet_queue
base64_to_packet-Decodes dev decode_buffer segment n plain =
    by_decoded (base64_decode decode_fuel (set segment n 0) decode_buffer decode_buffer_size) refl
  where
    returns :
        base64_decode decode_fuel (set segment n 0) decode_buffer decode_buffer_size ≢ out_of_fuel
    returns =
        base64_decode-terminates (set segment n 0) decode_buffer decode_buffer_size
          (λ i lt. NoPad-byte_at (set segment n 0) i (NoPad-set segment n plain))

    by_decoded :
        (d : Decoded)
        → base64_decode decode_fuel (set segment n 0) decode_buffer decode_buffer_size ≡ d
        → Decodes dev (base64_to_packet decode_fuel dev decode_buffer segment n)
    by_decoded out_of_fuel e = absurd (returns e)
    by_decoded (rejected buffer) e = rw (e, base64_to_packet) (decodes dev dev _ _ refl refl)
    by_decoded (decoded buffer size) e =
        elim (Bool-cases (obtain_packet_length (packet_type buffer) == 0)) [
          | inl unknown ↦ rw (e, unknown, base64_to_packet) (decodes dev dev _ _ refl refl)
          | inr known ↦
              rw (e, known, base64_to_packet)
                (decodes dev (enqueue_into_packet_queue dev (take packet_size buffer)) _ _ refl
                  refl)
        ]

base64_packet-Steps :
    (temp q : List ℕ) (start end : ℕ) (r : Receiver)
    → NoPad temp
    → Ready r q
    → Steps q (base64_packet temp start end r)
unfolding base64_packet
base64_packet-Steps temp q start end r plain (h, hc) =
    let (v, e, bytes, commands) =
      base64_to_packet-Decodes r.dev r.decode_buffer (drop (start + 1) temp) (end - (start + 1))
        (NoPad-drop (start + 1) temp plain) in
    rw (e, base64_packet)
      (took (record { decode_buffer = v.1; dev = v.2 }) q end
        (subst (λ b. Holds max_data_length b q) (sym bytes) h, subst IsQueue (sym commands) hc))

pub dispatch-Steps :
    (stack temp q : List ℕ) (indices : Indices) (r : Receiver)
    → NoPad temp
    → Ready r q
    → Steps q (dispatch stack temp indices r)
unfolding dispatch
dispatch-Steps stack temp q indices r plain h =
    by_binary (frame indices.binary_index indices.exclam_index) refl
  where
    by_semicolon :
        frame indices.binary_index indices.exclam_index ≡ none
        → frame indices.colon_index indices.exclam_index ≡ none
        → (o : Option ℕ) → indices.semicolon_index ≡ o
        → Steps q (dispatch stack temp indices r)
    by_semicolon e₁ e₂ none e = rw (e₁, e₂, e, dispatch) (inl refl)
    by_semicolon e₁ e₂ (some i) e = rw (e₁, e₂, e, dispatch) (command_segment-Steps temp q i r h)

    by_colon :
        frame indices.binary_index indices.exclam_index ≡ none
        → (o : Option (ℕ × ℕ)) → frame indices.colon_index indices.exclam_index ≡ o
        → Steps q (dispatch stack temp indices r)
    by_colon e₁ none e = by_semicolon e₁ e indices.semicolon_index refl
    by_colon e₁ (some (start, end)) e =
        rw (e₁, e, dispatch) (base64_packet-Steps temp q start end r plain h)

    by_binary :
        (o : Option (ℕ × ℕ))
        → frame indices.binary_index indices.exclam_index ≡ o
        → Steps q (dispatch stack temp indices r)
    by_binary none e = by_colon e (frame indices.colon_index indices.exclam_index) refl
    by_binary (some (start, end)) e =
        rw (e, dispatch) (binary_packet-Steps stack temp q start end r h)
