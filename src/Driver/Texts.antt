-- ===== src/Driver/Texts.antt =====
-- The driver's texts, read by fs_handle_received_commands.
use trifecta_sdk.Common.{
  ℕ, suc, ◌-◌, ◌≡◌, refl, ap, ◌∙◌, Option, some, List, [], ◌∷◌, ◌++◌, arith, length, take_all,
  length-append,
}
use trifecta_sdk.Common.Int.{ℤ, pos, negsuc}
use trifecta_sdk.RingBuffer.{Ring}
use trifecta_sdk.RingBuffer.Refine.{Holds}
use trifecta_sdk.Device.{Device, max_cmd_queue_length, max_cmd_length}
use trifecta_sdk.Commands.{Info, is_break, handle_command, handle_received_commands}
use trifecta_sdk.Commands.Payload.{payload_of, format, IsPlain, AllPlain}
use trifecta_sdk.Commands.Handling.{handle_received_commands-format}
use trifecta_sdk.Link.Message.{decimal, digits_of, numeric, printed}
use trifecta_sdk.Link.Decimal.{AllDigits, digits_of-AllDigits, atoi-decimal, IsInt, length-decimal}

digits-IsPlain : (cs : List ℕ) → AllDigits cs → IsPlain cs
unfolding is_break
digits-IsPlain [] h = tt
digits-IsPlain (c ∷ cs) h = ((ground (arith, h.0), ground (arith, h.0)), digits-IsPlain cs h.1)

decimal-IsPlain : (n : ℤ) → IsPlain (decimal n)
unfolding decimal is_break
decimal-IsPlain (pos n) = digits-IsPlain (digits_of (suc n) n) (digits_of-AllDigits (suc n) n)
decimal-IsPlain (negsuc n) = (
  (refl, refl),
  digits-IsPlain (digits_of (suc (suc n)) (suc n)) (digits_of-AllDigits (suc (suc n)) (suc n)),
)

transmit-IsPlain : (n : ℤ) → IsPlain (b't' ∷ decimal n)
unfolding is_break
transmit-IsPlain n = ((refl, refl), decimal-IsPlain n)

numeric-format : (cmd : ℕ) (n : ℤ) → numeric cmd n ≡ format ([] ∷ (cmd ∷ decimal n) ∷ [])
unfolding numeric
numeric-format cmd n = refl

-- The text fits the buffer that it is printed to.
pub printed-numeric :
    (cmd : ℕ) (n : ℤ) → IsInt n → printed max_cmd_length (numeric cmd n) ≡ numeric cmd n
unfolding numeric
printed-numeric cmd n h =
    take_all 255 (b';' ∷ cmd ∷ (decimal n ++ b';' ∷ []))
      (omega (arith, length-append (decimal n) (b';' ∷ []), length-decimal n h))

interfaces_set :
    (n : ℤ) (info : Info)
    → handle_command (payload_of (b't' ∷ decimal n)) info
      ≡ record info { params = record info.params { all_enabled_interfaces = n } }
unfolding handle_command
interfaces_set n info =
    ap
      (λ (n : ℤ).
        let res : Info = record info {
          params = record info.params { all_enabled_interfaces = n };
        } in
        res)
      (atoi-decimal n (max_cmd_length - length (b't' ∷ decimal n)))

empty_command : (info : Info) → handle_command (payload_of []) info ≡ info
unfolding handle_command
empty_command info = refl

-- What fs_set_communication_mode prints, for any value of `int`, is read by fs_handle_received_commands
-- as that value: it returns 0 and sets `all_enabled_interfaces`, and changes nothing else but the
-- command queue, which was empty and is empty again.
pub handle_received_commands-numeric :
    (dev : Device) (n : ℤ)
    → IsInt n
    → Holds max_cmd_queue_length dev.command_queue []
    → (queue : Ring (List ℕ)) × Holds max_cmd_queue_length queue []
      × (handle_received_commands dev (printed max_cmd_length (numeric b't' n))
          ≡ some (
            pos 0,
            record dev {
              command_queue = queue;
              params = record dev.params { all_enabled_interfaces = n };
            },
          ))
handle_received_commands-numeric dev n small h =
    let texts = [] ∷ (b't' ∷ decimal n) ∷ [] in
    let text = b't' ∷ decimal n in
    let plain : AllPlain texts =
      ((tt, omega arith), ((transmit-IsPlain n, omega (arith, length-decimal n small)), tt)) in
    let done = handle_received_commands-format dev texts [] plain h (omega arith) in
    let info : Info = record { descriptor = dev.descriptor; params = dev.params } in
    let obeyed =
      ap (handle_command (payload_of text)) (empty_command info) ∙ interfaces_set n info in
    (
      done.queue,
      done.empty,
      ap (handle_received_commands dev) (printed-numeric b't' n small ∙ numeric-format b't' n)
          ∙ done.result
          ∙ ap
              (λ (info : Info).
                let res : Option (ℤ × Device) = some (
                  pos 0,
                  record dev {
                    command_queue = done.queue;
                    descriptor = info.descriptor;
                    params = info.params;
                  },
                ) in
                res)
              obeyed,
    )
